-- ===== src/Reducer/Host.antt =====
-- What the reducer's loop uses of the world: the guest, the schemas, the clock, the HTTP client, and
-- the texts of errors and numbers that go into messages. `W` is the state of all of it. `call` and
-- `request` pass on what the guest and the client answer.
use x07_wasm_backend.Common.{ℕ, String, Bool, Option, List}
use x07_wasm_backend.Common.Result.{Result}
use x07_wasm_backend.Json.{Value}
use x07_wasm_backend.Diag.{Diagnostic}
use x07_wasm_backend.Limits.{Cause}
use x07_wasm_backend.Caps.Ip.{IpAddr}
use x07_wasm_backend.Caps.Doc.{DenyMessage}
use x07_wasm_backend.StreamPayload.{Codec, PayloadError}

-- hyper's `Uri` with the parts that the program reads.
pub record Uri : Type 0 where
  pub text : String
  pub scheme_str : Option String
  pub host : Option String
  pub port_u16 : Option ℕ

pub record Request : Type 0 where
  pub method : String
  pub uri : Uri
  pub headers : List (String × String)
  pub body : List ℕ

-- A header whose value is no text has `none`. `collect` reads the body up to a limit.
pub record Response : Type 0 where
  pub status : ℕ
  pub headers : List (String × Option String)
  pub collect : ℕ → Result String (List ℕ)

pub record Host (W IpNet : Type 0) : Type 0 where
  pub codec : Codec
  pub contains : IpNet → IpAddr → Bool
  pub parse_ip : String → Option IpAddr
  pub validate : String → Value → Result (List Cause) (List Diagnostic)
  pub canonical_json_bytes : Value → Result (List Cause) (List ℕ)
  pub from_slice : List ℕ → Result String Value
  pub call : List ℕ → W → Result (List Cause) (List ℕ) × W
  pub now_unix_ms : W → ℕ × W
  pub print_log : String → String → W → W
  pub parse_uri : String → Result String Uri
  pub parse_method : String → Option String
  pub header_name : String → Option String
  pub header_value : String → Option String
  pub build : Request → Result String Request
  pub request : Request → W → Result String Response × W
  pub to_string : ℕ → String
  pub debug_string : String → String
  pub show_deny : DenyMessage → String
  pub show_payload_error : PayloadError → String
  pub show_causes : List Cause → String
