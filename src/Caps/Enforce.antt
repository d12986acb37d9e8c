-- ===== src/Caps/Enforce.antt =====
-- crates/x07-wasm/src/caps/enforce.rs: the WASI context that a capabilities document allows. Texts are the
-- lists of their code points. The process's variables, its files and paths, the parser of IP addresses and
-- IpNet are parameters; a context is what the builder was given.
use x07_wasm_backend.Common.{
  ℕ, String, Bool, true, false, ◌||◌, Option, none, some, List, [], ◌∷◌, ◌++◌, map, codes,
  is_alphanumeric, to_upper, ◌==◌, if◌then◌else◌,
}
use x07_wasm_backend.Common.Result.{Result, ok, err, ◌>>=◌}
use x07_wasm_backend.Caps.Ip.{IpAddr}
use x07_wasm_backend.Caps.Doc.{
  FsPreopen, FsPreopenMode, ro, rw, NetworkMode, NetworkProto, tcp, udp, http, https,
  CapabilityMode, deny, record_mode, allow, NetworkEndpoint, NetworkHardening, NetworkCaps,
  CapabilitiesDoc, allows_socket_ip,
}
use x07_wasm_backend.Caps.Evidence.{
  CapsEvidenceMode, CapsEvidenceState, CapsEvidenceCtx, record_secret_provided,
  set_insecure_seed_u128,
}
use x07_wasm_backend.Caps.Sources.{wall_now, monotonic_now}

-- `std::env::var`
pub data VarResult : Type 0 where
  var : List ℕ → VarResult
  not_present not_unicode : VarResult

-- `std::fs::read`, with the contents as text.
pub data FileResult : Type 0 where
  contents : List ℕ → FileResult
  not_found unreadable : FileResult

-- `wasmtime_wasi::DirPerms` and `FilePerms`, flag by flag.
pub record DirPerms : Type 0 where
  pub read : Bool
  pub mutate : Bool

pub record FilePerms : Type 0 where
  pub read : Bool
  pub write : Bool

pub record HostEnv : Type 0 where
  pub env_var : List ℕ → VarResult
  pub read_file : List ℕ → FileResult
  pub join : List ℕ → List ℕ → List ℕ
  pub is_absolute : List ℕ → Bool
  pub preopened_dir : List ℕ → String → DirPerms → FilePerms → Bool

pub data SecretError : Type 0 where
  file_unreadable var_not_unicode : SecretError

-- The diagnostics, one constructor for each message with what it shows.
pub data CapsError : Type 0 where
  fs_denied secret_missing : String → CapsError
  secret_failed : String → SecretError → CapsError
  clocks_without_evidence random_without_evidence : CapsError

abbrev pub caps_error_code : CapsError → String
caps_error_code (fs_denied _) = "X07WASM_CAPS_FS_DENIED"
caps_error_code (secret_missing _) = "X07WASM_CAPS_SECRET_MISSING"
caps_error_code (secret_failed _ _) = "X07WASM_CAPS_PROFILE_READ_FAILED"
caps_error_code clocks_without_evidence = "X07WASM_POLICY_OBLIGATION_UNSATISFIED"
caps_error_code random_without_evidence = "X07WASM_POLICY_OBLIGATION_UNSATISFIED"

-- Both clocks of a context: `ZeroWallClock` and `ZeroMonotonicClock`, those of wasmtime, or
-- `EvidenceWallClock` and `EvidenceMonotonicClock`.
pub data Clocks : Type 0 where
  zero_clocks host_clocks evidence_clocks : Clocks

-- `now` of the wall clock, in nanoseconds, where the operating system would answer `os_ns`.
unfoldable pub wall_clock_now :
    Clocks → CapsEvidenceMode → ℕ → CapsEvidenceState → ℕ × CapsEvidenceState
wall_clock_now zero_clocks mode os_ns st = (0, st)
wall_clock_now host_clocks mode os_ns st = (os_ns, st)
wall_clock_now evidence_clocks mode os_ns st = wall_now mode os_ns st

unfoldable pub monotonic_clock_now :
    Clocks → CapsEvidenceMode → ℕ → CapsEvidenceState → ℕ × CapsEvidenceState
monotonic_clock_now zero_clocks mode elapsed_ns st = (0, st)
monotonic_clock_now host_clocks mode elapsed_ns st = (elapsed_ns, st)
monotonic_clock_now evidence_clocks mode elapsed_ns st = monotonic_now mode elapsed_ns st

-- The random sources of a context: two cycles of bytes, the secure and the insecure one, with a seed; those
-- of wasmtime; or `EvidenceRng` with a seed.
pub data Random : Type 0 where
  deterministic : List ℕ → List ℕ → ℕ → Random
  host_random : Random
  evidence_random : ℕ → Random

abbrev pub zero_random : Random
zero_random = deterministic (0 ∷ []) (0 ∷ []) 0

-- A directory that was opened for the guest.
pub record Preopen : Type 0 where
  pub host_dir : List ℕ
  pub guest_path : String
  pub dir_perms : DirPerms
  pub file_perms : FilePerms

pub record WasiCtx : Type 0 where
  pub preopens : List Preopen
  pub env : List (List ℕ × List ℕ)
  pub sockets : List (IpAddr × ℕ)
  pub clocks : Clocks
  pub random : Random

abbrev pub Evidence : Type 0
Evidence = Option CapsEvidenceCtx

-- What may fail, with the evidence as it is then.
abbrev pub Step : Type 0 → Type 0
Step A = Result CapsError A × Evidence

abbrev pub on_ok : {A B : Type 0} → Step A → (A → Evidence → Step B) → Step B
on_ok (ok a, ev) next = next a ev
on_ok (err e, ev) next = (err e, ev)

abbrev env_char : ℕ → ℕ
env_char ch = if is_alphanumeric ch then to_upper ch else b'_'

unfoldable pub secret_env_key : String → List ℕ
secret_env_key secret_id = codes "X07_SECRET_" ++ map env_char (codes secret_id)

-- `s.trim_end_matches(['\n', '\r'])`
abbrev keep_before : ℕ → List ℕ → List ℕ
keep_before c [] = if (c == 10) || (c == 13) then [] else c ∷ []
keep_before c (d ∷ ds) = c ∷ d ∷ ds

unfoldable pub trim_end_newlines : List ℕ → List ℕ
trim_end_newlines [] = []
trim_end_newlines (c ∷ cs) = keep_before c (trim_end_newlines cs)

abbrev is_record : CapsEvidenceMode → Bool
is_record CapsEvidenceMode.record_mode = true
is_record CapsEvidenceMode.replay_mode = false

-- `if let Some(ev) = evidence { if ev.mode() == Record { .. } }`
unfoldable pub note_secret : String → String → Evidence → Evidence
note_secret id source none = none
note_secret id source (some ctx) = elim (is_record ctx.mode) [
  | true ↦ some (record ctx { inner = record_secret_provided id source ctx.inner })
  | false ↦ some ctx
]

-- What a secret comes to: its variable, or a denial.
unfoldable pub provide :
    String → Result SecretError (Option (List ℕ × String)) → Evidence → Step (List ℕ × List ℕ)
unfolding note_secret
provide id (ok (some (v, source))) ev = (ok (secret_env_key id, v), note_secret id source ev)
provide id (ok none) ev = (err (secret_missing id), ev)
provide id (err e) ev = (err (secret_failed id e), ev)

unfoldable pub clocks_of : CapabilityMode → Evidence → Result CapsError Clocks
clocks_of deny ev = ok zero_clocks
clocks_of allow ev = ok host_clocks
clocks_of record_mode none = err clocks_without_evidence
clocks_of record_mode (some _) = ok evidence_clocks

-- The seed of a recording is a new one, and that of a replay is the recorded one.
unfoldable pub random_of : CapabilityMode → ℕ → Evidence → Step Random
random_of deny seed ev = (ok zero_random, ev)
random_of allow seed ev = (ok host_random, ev)
random_of record_mode seed none = (err random_without_evidence, none)
random_of record_mode seed (some ctx) = elim (is_record ctx.mode) [
  | true ↦ (
    ok (evidence_random seed),
    some (record ctx { inner = set_insecure_seed_u128 seed ctx.inner }),
  )
  | false ↦ (ok (evidence_random ctx.inner.insecure_seed_u128), some ctx)
]

abbrev pub is_socket_proto : NetworkProto → Bool
is_socket_proto tcp = true
is_socket_proto udp = true
is_socket_proto http = false
is_socket_proto https = false

-- The permissions of a mode.
abbrev pub perms_of : FsPreopenMode → DirPerms × FilePerms
perms_of ro = (record { read = true; mutate = false }, record { read = true; write = false })
perms_of rw = (record { read = true; mutate = true }, record { read = true; write = true })

abbrev pub preopen_of : List ℕ → FsPreopen → Preopen
preopen_of host_dir p = record {
  host_dir = host_dir;
  guest_path = p.path;
  dir_perms = (perms_of p.mode).0;
  file_perms = (perms_of p.mode).1;
}

module _ (host : HostEnv) where
  abbrev secrets_dir_at : List ℕ → VarResult → List ℕ
  secrets_dir_at base_dir (var p) = if host.is_absolute p then p else host.join base_dir p
  secrets_dir_at base_dir _ = host.join (host.join base_dir (codes ".x07")) (codes "secrets")

  unfoldable pub resolve_secrets_dir : List ℕ → List ℕ
  resolve_secrets_dir base_dir = secrets_dir_at base_dir (host.env_var (codes "X07_SECRETS_DIR"))

  abbrev secret_of_var : VarResult → Result SecretError (Option (List ℕ × String))
  secret_of_var (var v) = ok (some (v, "env"))
  secret_of_var not_present = ok none
  secret_of_var not_unicode = err var_not_unicode

  abbrev secret_of_file : List ℕ → FileResult → Result SecretError (Option (List ℕ × String))
  secret_of_file env_key (contents bytes) = ok (some (trim_end_newlines bytes, "file"))
  secret_of_file env_key not_found = secret_of_var (host.env_var env_key)
  secret_of_file env_key unreadable = err file_unreadable

  unfoldable pub resolve_secret_value :
      List ℕ → String → List ℕ → Result SecretError (Option (List ℕ × String))
  unfolding resolve_secrets_dir trim_end_newlines
  resolve_secret_value base_dir secret_id env_key =
      secret_of_file env_key
        (host.read_file (host.join (resolve_secrets_dir base_dir) (codes secret_id)))

  unfoldable pub preopen_all : List ℕ → List FsPreopen → Result CapsError (List Preopen)
  preopen_all base_dir [] = ok []
  preopen_all base_dir (p ∷ ps) =
      let host_dir = host.join base_dir (codes p.path) in
      let (dir_perms, file_perms) = perms_of p.mode in
      elim (host.preopened_dir host_dir p.path dir_perms file_perms) [
        | true ↦ preopen_all base_dir ps >>= λ done. ok (preopen_of host_dir p ∷ done)
        | false ↦ err (fs_denied p.path)
      ]

  abbrev pub env_entry : String → VarResult → List (List ℕ × List ℕ)
  env_entry key (var v) = (codes key, v) ∷ []
  env_entry key _ = []

  unfoldable pub allowed_env : List String → List (List ℕ × List ℕ)
  allowed_env [] = []
  allowed_env (key ∷ keys) = env_entry key (host.env_var (codes key)) ++ allowed_env keys

  unfoldable pub provide_secrets : List ℕ → List String → Evidence → Step (List (List ℕ × List ℕ))
  unfolding provide resolve_secret_value
  provide_secrets base_dir [] ev = (ok [], ev)
  provide_secrets base_dir (id ∷ ids) ev =
      on_ok (provide id (resolve_secret_value base_dir id (secret_env_key id)) ev) (λ entry ev₁.
        on_ok (provide_secrets base_dir ids ev₁) (λ entries ev₂. (ok (entry ∷ entries), ev₂)))

  module _ {IpNet : Type 0} (contains : IpNet → IpAddr → Bool)
      (parse_ip : String → Option IpAddr) where
    abbrev pub socket_if : NetworkHardening IpNet → ℕ → Option IpAddr → List (IpAddr × ℕ)
    socket_if hardening port none = []
    socket_if hardening port (some ip) =
        if allows_socket_ip contains hardening ip then (ip, port) ∷ [] else []

    -- The sockets of an endpoint: only IP literals have one.
    unfoldable pub sockets_of : NetworkHardening IpNet → NetworkEndpoint → List (IpAddr × ℕ)
    sockets_of hardening ep =
        if is_socket_proto ep.proto then socket_if hardening ep.port (parse_ip ep.host) else []

    abbrev pub all_sockets : NetworkHardening IpNet → List NetworkEndpoint → List (IpAddr × ℕ)
    all_sockets hardening [] = []
    all_sockets hardening (ep ∷ eps) = sockets_of hardening ep ++ all_sockets hardening eps

    abbrev pub sockets_in : NetworkMode → NetworkCaps IpNet → List (IpAddr × ℕ)
    sockets_in NetworkMode.deny caps = []
    sockets_in NetworkMode.allowlist caps = all_sockets caps.hardening caps.allowlist

    unfoldable pub allowed_sockets : NetworkCaps IpNet → List (IpAddr × ℕ)
    unfolding sockets_of
    allowed_sockets caps = sockets_in caps.mode caps

    abbrev pub and_evidence : {A : Type 0} → Result CapsError A → Evidence → Step A
    and_evidence r ev = (r, ev)

    -- The parts of a context, one after the other, each with those before it.
    abbrev pub ctx_with :
        CapabilitiesDoc IpNet → List Preopen → List (List ℕ × List ℕ) → Clocks → Random → WasiCtx
    ctx_with caps preopens secrets clocks random = record {
      preopens = preopens;
      env = allowed_env caps.env_allow ++ secrets;
      sockets = allowed_sockets caps.network;
      clocks = clocks;
      random = random;
    }

    abbrev pub with_random :
        CapabilitiesDoc IpNet
        → ℕ
        → List Preopen
        → List (List ℕ × List ℕ)
        → Clocks
        → Evidence
        → Step WasiCtx
    with_random caps random_u128 preopens secrets clocks ev =
        on_ok (random_of caps.random random_u128 ev)
          (λ random ev'. (ok (ctx_with caps preopens secrets clocks random), ev'))

    abbrev pub with_clocks :
        CapabilitiesDoc IpNet → ℕ → List Preopen → List (List ℕ × List ℕ) → Evidence → Step WasiCtx
    with_clocks caps random_u128 preopens secrets ev =
        on_ok (and_evidence (clocks_of caps.clocks ev) ev)
          (with_random caps random_u128 preopens secrets)

    abbrev pub with_secrets :
        CapabilitiesDoc IpNet → List ℕ → ℕ → List Preopen → Evidence → Step WasiCtx
    with_secrets caps base_dir random_u128 preopens ev =
        on_ok (provide_secrets base_dir caps.secrets_allow ev)
          (with_clocks caps random_u128 preopens)

    unfoldable pub build_wasi_ctx_from_caps :
        CapabilitiesDoc IpNet → List ℕ → ℕ → Evidence → Step WasiCtx
    unfolding preopen_all allowed_env provide_secrets allowed_sockets clocks_of random_of
    build_wasi_ctx_from_caps caps base_dir random_u128 evidence =
        on_ok (and_evidence (preopen_all base_dir caps.preopens) evidence)
          (with_secrets caps base_dir random_u128)
