-- ===== src/Caps/EnforceTests.antt =====
-- A replayed guest, and a context for one secret and one socket, at concrete inputs. A network is the test
-- that it makes, and the base64 engine is one that keeps the bytes.
use x07_wasm_backend.Common.{
  String, ◌≡◌, refl, Bool, true, false, Option, none, some, List, [], ◌∷◌, ◌++◌, arith, str_eq,
  codes, codes_eq, has_prefix, if◌then◌else◌,
}
use x07_wasm_backend.Common.Result.{ok}
use x07_wasm_backend.Caps.Ip.{IpAddr, v4}
use x07_wasm_backend.Caps.Doc.{CapabilitiesDoc, FsPreopenMode, CapabilityMode, NetworkMode, tcp}
use x07_wasm_backend.Caps.Evidence.{
  CapsEvidenceMode, CapsEvidenceCtx, Base64Engine, new_record, new_replay, build_doc,
  set_insecure_seed_u128,
}
use x07_wasm_backend.Caps.Replay.{IsBase64}
use x07_wasm_backend.Caps.Sources.{EvidenceRngKind, Call, wall, monotonic, fill, number, serve_all}
use x07_wasm_backend.Caps.Reruns.{
  walls, monotonics, fills, numbers, no_calls, next_call, serve_all-replay,
}
use x07_wasm_backend.Caps.Enforce.{
  HostEnv, var, not_present, not_found, zero_clocks, zero_random, WasiCtx,
}

abbrev Net : Type 0
Net = IpAddr → Bool

abbrev holds : Net → IpAddr → Bool
holds net ip = net ip

abbrev parse_ip : String → Option IpAddr
parse_ip host = if str_eq host "10.0.0.7" then some (v4 10 0 0 7) else none

abbrev plain : Base64Engine
plain = record { encode = λ bytes. bytes; decode = λ text. some text }

plain-IsBase64 : IsBase64 plain
plain-IsBase64 = record { decode-encode = λ bytes. refl; encode_nil = refl }

abbrev calls_then : List Call
calls_then =
    wall 5
    ∷ fill EvidenceRngKind.secure (1 ∷ 2 ∷ [])
    ∷ number EvidenceRngKind.insecure (9 ∷ 0 ∷ 0 ∷ 0 ∷ [])
    ∷ monotonic 7
    ∷ []

-- The same calls, with other times and other bytes.
abbrev calls_now : List Call
calls_now =
    wall 50
    ∷ fill EvidenceRngKind.secure (3 ∷ 4 ∷ [])
    ∷ number EvidenceRngKind.insecure (8 ∷ 8 ∷ 8 ∷ 8 ∷ [])
    ∷ monotonic 70
    ∷ []

serve_all-replay_example :
    (ctx : CapsEvidenceCtx) × (new_replay plain (
        build_doc plain
          (serve_all CapsEvidenceMode.record_mode calls_then
            (set_insecure_seed_u128 42 new_record.inner)).1)
      ≡ ok ctx)
    × ((serve_all CapsEvidenceMode.replay_mode calls_now ctx.inner).0
        ≡ (serve_all CapsEvidenceMode.record_mode calls_then
            (set_insecure_seed_u128 42 new_record.inner)).0)
    × ((serve_all CapsEvidenceMode.replay_mode calls_now ctx.inner).1.replay_errors ≡ [])
    × (ctx.inner.insecure_seed_u128 ≡ 42)
serve_all-replay_example =
    serve_all-replay plain plain-IsBase64 calls_then calls_now 42
      (next_call walls
        (next_call (fills refl) (next_call (numbers refl) (next_call monotonics no_calls))))
      (omega arith)

-- A host with one variable, that of a secret, and no files.
abbrev small_host : HostEnv
small_host = record {
  env_var =
      λ key. if codes_eq key (codes "X07_SECRET_DB_1") then var (codes "s3cret") else not_present;
  read_file = λ path. not_found;
  join = λ dir path. dir ++ 47 ∷ path;
  is_absolute = λ path. has_prefix (codes "/") path;
  preopened_dir = λ dir guest dir_perms file_perms. true;
}

abbrev locked : CapabilitiesDoc Net
locked = record {
  preopens = record { path = "data"; mode = FsPreopenMode.ro } ∷ [];
  env_allow = "HOME" ∷ [];
  secrets_allow = "db-1" ∷ [];
  network = record {
    mode = NetworkMode.allowlist;
    allowlist = record { host = "10.0.0.7"; port = 5432; proto = tcp } ∷ [];
    hardening = record { deny_ip_literals = false; deny_private_ips = false; allow_ip_cidrs = [] };
  };
  clocks = CapabilityMode.deny;
  random = CapabilityMode.deny;
}

abbrev locked_ctx : WasiCtx
locked_ctx = record {
  preopens =
      record {
        host_dir = codes "base/data";
        guest_path = "data";
        dir_perms = record { read = true; mutate = false };
        file_perms = record { read = true; write = false };
      }
      ∷ [];
  env = (codes "X07_SECRET_DB_1", codes "s3cret") ∷ [];
  sockets = (v4 10 0 0 7, 5432) ∷ [];
  clocks = zero_clocks;
  random = zero_random;
}
