-- ===== src/Caps/Tests.antt =====
-- Capabilities and evidence at concrete inputs. A network is the test that it makes, and the base64
-- engine is one that keeps the bytes.
use x07_wasm_backend.Common.{
  String, ◌≡◌, refl, ◌↔◌, Bool, true, false, Option, none, some, List, [], ◌∷◌, map, arith, str_eq,
  if◌then◌else◌,
}
use x07_wasm_backend.Common.Result.{ok, err}
use x07_wasm_backend.Caps.Ip.{IpAddr, v4, is_private_or_reserved_ip}
use x07_wasm_backend.Caps.Doc.{
  CapabilitiesDoc, CapabilityMode, NetworkMode, http, private_ip, network_check,
}
use x07_wasm_backend.Caps.Network.{IsAllowed, network_check_iff}
use x07_wasm_backend.Caps.Evidence.{
  CapsEvidenceCtx, Base64Engine, new_record, new_replay, build_doc, set_insecure_seed_u128,
}
use x07_wasm_backend.Caps.Replay.{
  Event, wall, secure, monotonic, insecure, given, record_all, ask_all, IsBase64, replay-record,
}

abbrev Net : Type 0
Net = IpAddr → Bool

abbrev holds : Net → IpAddr → Bool
holds net ip = net ip

abbrev parse_ip : String → Option IpAddr
parse_ip host = if str_eq host "10.0.0.7" then some (v4 10 0 0 7) else none

abbrev caps : CapabilitiesDoc Net
caps = record {
  preopens = [];
  env_allow = [];
  secrets_allow = [];
  network = record {
    mode = NetworkMode.allowlist;
    allowlist =
        record { host = "Api.example"; port = 80; proto = http }
        ∷ record { host = "10.0.0.7"; port = 80; proto = http }
        ∷ [];
    hardening = record { deny_ip_literals = false; deny_private_ips = true; allow_ip_cidrs = [] };
  };
  clocks = CapabilityMode.deny;
  random = CapabilityMode.deny;
}

network_tests :
    (network_check holds parse_ip caps "http" "api.EXAMPLE" 80 ≡ ok tt)
    × (network_check holds parse_ip caps "http" "10.0.0.7" 80
        ≡ err (record {
          code = "X07WASM_CAPS_NET_PRIVATE_IP_DENIED";
          message = private_ip (v4 10 0 0 7);
        }))
unfolding network_check is_private_or_reserved_ip
network_tests = (refl, refl)

network_check_iff_example :
    (network_check holds parse_ip caps "http" "api.EXAMPLE" 80 ≡ ok tt)
    ↔ IsAllowed holds parse_ip caps "http" "api.EXAMPLE" 80
network_check_iff_example = network_check_iff holds parse_ip caps "http" "api.EXAMPLE" 80

abbrev plain : Base64Engine
plain = record { encode = λ bytes. bytes; decode = λ text. some text }

plain-IsBase64 : IsBase64 plain
plain-IsBase64 = record { decode-encode = λ bytes. refl; encode_nil = refl }

abbrev given_run : List Event
given_run = wall 5 ∷ secure (1 ∷ 2 ∷ []) ∷ monotonic 7 ∷ secure (3 ∷ []) ∷ wall 6 ∷ insecure [] ∷ []

replay-record_example :
    (ctx : CapsEvidenceCtx) × (new_replay plain
        (build_doc plain (record_all given_run (set_insecure_seed_u128 42 new_record.inner)))
      ≡ ok ctx)
    × ((ask_all given_run ctx.inner).0 ≡ map given given_run)
    × ((ask_all given_run ctx.inner).1.replay_errors ≡ [])
    × (ctx.inner.insecure_seed_u128 ≡ 42)
replay-record_example = replay-record plain plain-IsBase64 given_run 42 (omega arith)
