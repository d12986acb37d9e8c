-- ===== src/Caps/Evidence.antt =====
-- crates/x07-wasm/src/caps/evidence.rs: what the host gave the guest from its clocks, its random
-- sources and its secrets, recorded in a document and replayed from it. The state behind the mutex is
-- passed along. Texts of the document are bytes; the base64 crate is the parameter `b64`.
use x07_wasm_backend.Common.{
  ℕ, ◌+◌, ◌-◌, ◌^◌, String, Option, none, some, List, [], ◌∷◌, ◌++◌, ltb, str_eq, not,
  if◌then◌else◌, length, take, drop, replicate, get_elem?,
}
use x07_wasm_backend.Common.Result.{Result, ok, ◌>>=◌, ◌>>◌, bail_if, or_error}
use x07_wasm_backend.Common.Decimal.{to_decimal, parse_decimal}

pub data CapsEvidenceMode : Type 0 where
  record_mode replay_mode : CapsEvidenceMode

pub record CapsEvidenceSecretProvided : Type 0 where
  pub id : String
  pub source : String

pub record CapsEvidenceDoc : Type 0 where
  pub schema_version : String
  pub v : ℕ
  pub wall_clock_now_ns : List ℕ
  pub monotonic_clock_now_ns : List ℕ
  pub secure_random_bytes_b64 : List ℕ
  pub insecure_random_bytes_b64 : List ℕ
  pub insecure_seed_u128 : List ℕ
  pub provided : List CapsEvidenceSecretProvided

pub record CapsEvidenceState : Type 0 where
  pub wall_clock_now_ns : List ℕ
  pub monotonic_clock_now_ns : List ℕ
  pub secure_random_bytes : List ℕ
  pub insecure_random_bytes : List ℕ
  pub insecure_seed_u128 : ℕ
  pub secrets_provided : List CapsEvidenceSecretProvided
  pub wall_clock_i : ℕ
  pub monotonic_clock_i : ℕ
  pub secure_random_i : ℕ
  pub insecure_random_i : ℕ
  pub replay_errors : List String

pub record CapsEvidenceCtx : Type 0 where
  pub mode : CapsEvidenceMode
  pub inner : CapsEvidenceState

abbrev pub caps_evidence_schema_version : String
caps_evidence_schema_version = "x07.wasm.caps.evidence@0.1.0"

-- The base64 crate's standard engine.
pub record Base64Engine : Type 0 where
  pub encode : List ℕ → List ℕ
  pub decode : List ℕ → Option (List ℕ)

pub data EvidenceError : Type 0 where
  unsupported_schema_version : String → EvidenceError
  invalid_base64 invalid_insecure_seed : EvidenceError

unfoldable pub new_record : CapsEvidenceCtx
new_record = record {
  mode = record_mode;
  inner = record {
    wall_clock_now_ns = [];
    monotonic_clock_now_ns = [];
    secure_random_bytes = [];
    insecure_random_bytes = [];
    insecure_seed_u128 = 0;
    secrets_provided = [];
    wall_clock_i = 0;
    monotonic_clock_i = 0;
    secure_random_i = 0;
    insecure_random_i = 0;
    replay_errors = [];
  };
}

-- The operations on the state, in the order of the source.
unfoldable pub record_wall_clock_now_ns : ℕ → CapsEvidenceState → CapsEvidenceState
record_wall_clock_now_ns ns st = record st { wall_clock_now_ns = st.wall_clock_now_ns ++ ns ∷ [] }

abbrev next_of : Option ℕ → CapsEvidenceState → CapsEvidenceState → Option ℕ × CapsEvidenceState
next_of none found missing = (none, missing)
next_of (some ns) found missing = (some ns, found)

unfoldable pub replay_wall_clock_now_ns : CapsEvidenceState → Option ℕ × CapsEvidenceState
replay_wall_clock_now_ns st =
    next_of (get_elem? st.wall_clock_now_ns st.wall_clock_i)
      (record st { wall_clock_i = st.wall_clock_i + 1 })
      (record st { replay_errors = st.replay_errors ++ "missing wall clock evidence" ∷ [] })

unfoldable pub record_monotonic_clock_now_ns : ℕ → CapsEvidenceState → CapsEvidenceState
record_monotonic_clock_now_ns ns st = record st {
  monotonic_clock_now_ns = st.monotonic_clock_now_ns ++ ns ∷ [];
}

unfoldable pub replay_monotonic_clock_now_ns : CapsEvidenceState → Option ℕ × CapsEvidenceState
replay_monotonic_clock_now_ns st =
    next_of (get_elem? st.monotonic_clock_now_ns st.monotonic_clock_i)
      (record st { monotonic_clock_i = st.monotonic_clock_i + 1 })
      (record st { replay_errors = st.replay_errors ++ "missing monotonic clock evidence" ∷ [] })

unfoldable pub record_secure_random_bytes : List ℕ → CapsEvidenceState → CapsEvidenceState
record_secure_random_bytes bytes st = record st {
  secure_random_bytes = st.secure_random_bytes ++ bytes;
}

-- `want` bytes from the recorded ones at the index, or zeros where too few remain.
unfoldable pub replay_secure_random_bytes_into : ℕ → CapsEvidenceState → List ℕ × CapsEvidenceState
replay_secure_random_bytes_into want st =
    if ltb (length st.secure_random_bytes - st.secure_random_i) want
    then (
      replicate want 0,
      record st { replay_errors = st.replay_errors ++ "missing secure random evidence" ∷ [] },
    )
    else (
      take want (drop st.secure_random_i st.secure_random_bytes),
      record st { secure_random_i = st.secure_random_i + want },
    )

unfoldable pub record_insecure_random_bytes : List ℕ → CapsEvidenceState → CapsEvidenceState
record_insecure_random_bytes bytes st = record st {
  insecure_random_bytes = st.insecure_random_bytes ++ bytes;
}

unfoldable pub replay_insecure_random_bytes_into :
    ℕ → CapsEvidenceState → List ℕ × CapsEvidenceState
replay_insecure_random_bytes_into want st =
    if ltb (length st.insecure_random_bytes - st.insecure_random_i) want
    then (
      replicate want 0,
      record st { replay_errors = st.replay_errors ++ "missing insecure random evidence" ∷ [] },
    )
    else (
      take want (drop st.insecure_random_i st.insecure_random_bytes),
      record st { insecure_random_i = st.insecure_random_i + want },
    )

unfoldable pub set_insecure_seed_u128 : ℕ → CapsEvidenceState → CapsEvidenceState
set_insecure_seed_u128 seed st = record st { insecure_seed_u128 = seed }

unfoldable pub record_secret_provided : String → String → CapsEvidenceState → CapsEvidenceState
record_secret_provided id source st = record st {
  secrets_provided = st.secrets_provided ++ record { id = id; source = source } ∷ [];
}

abbrev pub u128_max : ℕ
u128_max = 2 ^ 128 - 1

unfoldable pub parse_seed : List ℕ → Result EvidenceError ℕ
parse_seed [] = ok 0
parse_seed (c ∷ cs) = or_error invalid_insecure_seed (parse_decimal u128_max (c ∷ cs))

module _ (b64 : Base64Engine) where
  unfoldable pub build_doc : CapsEvidenceState → CapsEvidenceDoc
  build_doc st = record {
    schema_version = caps_evidence_schema_version;
    v = 1;
    wall_clock_now_ns = st.wall_clock_now_ns;
    monotonic_clock_now_ns = st.monotonic_clock_now_ns;
    secure_random_bytes_b64 = b64.encode st.secure_random_bytes;
    insecure_random_bytes_b64 = b64.encode st.insecure_random_bytes;
    insecure_seed_u128 = to_decimal st.insecure_seed_u128;
    provided = st.secrets_provided;
  }

  -- `decode_b64`
  unfoldable pub decode_b64 : List ℕ → Result EvidenceError (List ℕ)
  decode_b64 [] = ok []
  decode_b64 (c ∷ cs) = or_error invalid_base64 (b64.decode (c ∷ cs))

  unfoldable pub new_replay : CapsEvidenceDoc → Result EvidenceError CapsEvidenceCtx
  unfolding decode_b64 parse_seed
  new_replay doc = do
    bail_if (not (str_eq doc.schema_version caps_evidence_schema_version))
        (unsupported_schema_version doc.schema_version)
    secure ← decode_b64 doc.secure_random_bytes_b64
    insecure ← decode_b64 doc.insecure_random_bytes_b64
    seed ← parse_seed doc.insecure_seed_u128
    ok (record {
      mode = replay_mode;
      inner = record {
        wall_clock_now_ns = doc.wall_clock_now_ns;
        monotonic_clock_now_ns = doc.monotonic_clock_now_ns;
        secure_random_bytes = secure;
        insecure_random_bytes = insecure;
        insecure_seed_u128 = seed;
        secrets_provided = doc.provided;
        wall_clock_i = 0;
        monotonic_clock_i = 0;
        secure_random_i = 0;
        insecure_random_i = 0;
        replay_errors = [];
      };
    })
