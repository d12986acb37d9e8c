-- ===== src/Caps/Confined.antt =====
-- A context, and the capabilities that it is built from.
use x07_wasm_backend.Common.{
  ℕ, String, ◌≡◌, ◌≢◌, ◌⊎◌, Bool, true, Option, some, List, [], ◌∷◌, codes, All, Any,
}
use x07_wasm_backend.Common.Result.{Result}
use x07_wasm_backend.Caps.Ip.{IpAddr}
use x07_wasm_backend.Caps.Doc.{
  NetworkMode, CapabilityMode, NetworkEndpoint, NetworkHardening, CapabilitiesDoc, allows_socket_ip,
}
use x07_wasm_backend.Caps.Enforce.{
  HostEnv, Clocks, wall_clock_now, monotonic_clock_now, deterministic, WasiCtx, Evidence,
  secret_env_key, is_socket_proto,
}
use x07_wasm_backend.Caps.Preopened.{ArePreopened}
use x07_wasm_backend.Caps.Evidence.{CapsEvidenceMode, CapsEvidenceState}
use x07_wasm_backend.Caps.Sources.{wall_now, monotonic_now}

-- A variable of the context is one of the allowed variables, or that of an allowed secret.
abbrev pub IsListed : List String → List String → List ℕ → Type 0
IsListed env_allow secrets_allow key =
    Any (λ k. codes k ≡ key) env_allow ⊎ Any (λ id. secret_env_key id ≡ key) secrets_allow

-- A socket of the context is that of an allowed endpoint: an IP literal that the hardening lets through.
pub record HasEndpoint {IpNet : Type 0} (contains : IpNet → IpAddr → Bool)
    (parse_ip : String → Option IpAddr) (hardening : NetworkHardening IpNet)
    (endpoints : List NetworkEndpoint) (socket : IpAddr × ℕ) : Type 0 where
  pub listed :
      Any
        (λ e.
          (is_socket_proto e.proto ≡ true)
          × (parse_ip e.host ≡ some socket.0)
          × (e.port ≡ socket.1))
        endpoints
  pub passes : allows_socket_ip contains hardening socket.0 ≡ true

-- Both clocks read 0 and leave the evidence alone, whatever the operating system would answer.
abbrev pub AreZero : Clocks → Type 0
AreZero clocks =
    (mode : CapsEvidenceMode) (os_ns : ℕ) (st : CapsEvidenceState)
    → (wall_clock_now clocks mode os_ns st ≡ (0, st))
      × (monotonic_clock_now clocks mode os_ns st ≡ (0, st))

-- Both clocks are read through the evidence.
abbrev pub AreRecorded : Clocks → Type 0
AreRecorded clocks =
    (mode : CapsEvidenceMode) (os_ns : ℕ) (st : CapsEvidenceState)
    → (wall_clock_now clocks mode os_ns st ≡ wall_now mode os_ns st)
      × (monotonic_clock_now clocks mode os_ns st ≡ monotonic_now mode os_ns st)

module _ {IpNet : Type 0} (contains : IpNet → IpAddr → Bool)
    (parse_ip : String → Option IpAddr) where
  -- A context is within its capabilities: its directories are those of the document, with the permissions
  -- of their modes; its variables are allowed, and every allowed secret has one; each socket is that of an
  -- allowed endpoint; clocks that are denied read 0 whatever the operating system would answer, and those
  -- that are recorded go through the evidence; a random source that is denied repeats the byte 0.
  pub record IsWithin (host : HostEnv) (base_dir : List ℕ) (caps : CapabilitiesDoc IpNet)
      (ctx : WasiCtx) : Type 0 where
    pub preopens : ArePreopened host base_dir caps.preopens ctx.preopens
    pub variables :
        All {A = List ℕ × List ℕ} (λ kv. IsListed caps.env_allow caps.secrets_allow kv.0) ctx.env
    pub secrets_given :
        All
          (λ id. Any {A = List ℕ × List ℕ} (λ kv. secret_env_key id ≡ kv.0) ctx.env)
          caps.secrets_allow
    pub sockets :
        (ctx.sockets ≡ [])
        ⊎ ((caps.network.mode ≡ NetworkMode.allowlist)
            × All
                (HasEndpoint contains parse_ip caps.network.hardening caps.network.allowlist)
                ctx.sockets)
    pub denied_clocks : (caps.clocks ≢ CapabilityMode.deny) ⊎ AreZero ctx.clocks
    pub recorded_clocks : (caps.clocks ≢ CapabilityMode.record_mode) ⊎ AreRecorded ctx.clocks
    pub random :
        (caps.random ≢ CapabilityMode.deny) ⊎ (ctx.random ≡ deterministic (0 ∷ []) (0 ∷ []) 0)
