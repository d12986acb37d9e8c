-- ===== src/Caps/Doc.antt =====
-- crates/x07-wasm/src/caps/doc.rs: the capabilities document and its network check. `IpNet` of the
-- ipnet crate is a parameter with its `contains`, and so is the parser of IP addresses.
use x07_wasm_backend.Common.{
  ℕ, String, Bool, true, false, not, ◌&&◌, Option, none, some, List, codes, eq_ignore_case, any,
  ◌==◌, str_eq, if◌then◌else◌,
}
use x07_wasm_backend.Common.Result.{Result, ok, err, ◌>>◌, bail_if}
use x07_wasm_backend.Caps.Ip.{IpAddr, is_private_or_reserved_ip}

pub data FsPreopenMode : Type 0 where
  ro rw : FsPreopenMode

pub data NetworkMode : Type 0 where
  deny allowlist : NetworkMode

pub data NetworkProto : Type 0 where
  tcp udp http https : NetworkProto

pub data CapabilityMode : Type 0 where
  deny record_mode allow : CapabilityMode

pub record FsPreopen : Type 0 where
  pub path : String
  pub mode : FsPreopenMode

pub record NetworkEndpoint : Type 0 where
  pub host : String
  pub port : ℕ
  pub proto : NetworkProto

pub record NetworkHardening (IpNet : Type 0) : Type 0 where
  pub deny_ip_literals : Bool
  pub deny_private_ips : Bool
  pub allow_ip_cidrs : List IpNet

pub record NetworkCaps (IpNet : Type 0) : Type 0 where
  pub mode : NetworkMode
  pub allowlist : List NetworkEndpoint
  pub hardening : NetworkHardening IpNet

pub record CapabilitiesDoc (IpNet : Type 0) : Type 0 where
  pub preopens : List FsPreopen
  pub env_allow : List String
  pub secrets_allow : List String
  pub network : NetworkCaps IpNet
  pub clocks : CapabilityMode
  pub random : CapabilityMode

-- The denials, one constructor for each message with what it shows.
pub data DenyMessage : Type 0 where
  mode_deny : DenyMessage
  unsupported_scheme : String → DenyMessage
  not_allowlisted : String → String → ℕ → DenyMessage
  private_ip ip_literal : IpAddr → DenyMessage

pub record NetworkDeny : Type 0 where
  pub code : String
  pub message : DenyMessage

abbrev pub proto_eq : NetworkProto → NetworkProto → Bool
proto_eq tcp tcp = true
proto_eq udp udp = true
proto_eq http http = true
proto_eq https https = true
proto_eq _ _ = false

abbrev pub is_deny : NetworkMode → Bool
is_deny NetworkMode.deny = true
is_deny NetworkMode.allowlist = false

abbrev pub proto_of : String → Option NetworkProto
proto_of scheme =
    if str_eq scheme "http" then some http else if str_eq scheme "https" then some https else none

abbrev pub endpoint_matches : NetworkProto → String → ℕ → NetworkEndpoint → Bool
endpoint_matches proto host port e =
    proto_eq e.proto proto && (e.port == port) && eq_ignore_case (codes e.host) (codes host)

module _ {IpNet : Type 0} (contains : IpNet → IpAddr → Bool) where
  unfoldable pub allows_ip_literal : NetworkHardening IpNet → IpAddr → Bool
  allows_ip_literal hardening ip = any (λ cidr. contains cidr ip) hardening.allow_ip_cidrs

  unfoldable pub allows_socket_ip : NetworkHardening IpNet → IpAddr → Bool
  unfolding allows_ip_literal
  allows_socket_ip hardening ip =
      if allows_ip_literal hardening ip
      then true
      else if hardening.deny_private_ips && is_private_or_reserved_ip ip
      then false
      else true

  -- The hardening of a host that is an IP literal.
  unfoldable pub check_ip : NetworkHardening IpNet → Option IpAddr → Result NetworkDeny (Unit {0})
  unfolding allows_ip_literal
  check_ip hardening none = ok tt
  check_ip hardening (some ip) =
      if allows_ip_literal hardening ip
      then ok tt
      else if hardening.deny_private_ips && is_private_or_reserved_ip ip
      then err (record { code = "X07WASM_CAPS_NET_PRIVATE_IP_DENIED"; message = private_ip ip })
      else if hardening.deny_ip_literals
      then err (record { code = "X07WASM_CAPS_NET_IP_LITERAL_DENIED"; message = ip_literal ip })
      else ok tt

  module _ (parse_ip : String → Option IpAddr) where
    -- The check of a scheme that is known.
    unfoldable pub check_endpoint :
        CapabilitiesDoc IpNet
        → String
        → String
        → ℕ
        → Option NetworkProto
        → Result NetworkDeny (Unit {0})
    unfolding check_ip
    check_endpoint caps scheme host port none =
        err (record { code = "X07WASM_CAPS_NET_DENIED"; message = unsupported_scheme scheme })
    check_endpoint caps scheme host port (some want_proto) = do
      bail_if (not (any (endpoint_matches want_proto host port) caps.network.allowlist))
          (record { code = "X07WASM_CAPS_NET_DENIED"; message = not_allowlisted scheme host port })
      check_ip caps.network.hardening (parse_ip host)

    unfoldable pub network_check :
        CapabilitiesDoc IpNet → String → String → ℕ → Result NetworkDeny (Unit {0})
    unfolding check_endpoint
    network_check caps scheme host port = do
      bail_if (is_deny caps.network.mode)
          (record { code = "X07WASM_CAPS_NET_DENIED"; message = mode_deny })
      check_endpoint caps scheme host port (proto_of scheme)
