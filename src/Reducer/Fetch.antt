-- ===== src/Reducer/Fetch.antt =====
-- The effect `http.fetch`: the checks of the URL and of the capabilities, the request, the response.
-- `response_envelope_value` is that of crates/x07-wasm/src/serve.rs.
use Prim.Native.String.{◌++◌ as str_append}
use x07_wasm_backend.Common.{
  ℕ, ◌*◌, String, Bool, true, false, ◌&&◌, ◌||◌, Option, none, some, List, [], ◌∷◌, map, any, codes,
  str_eq, ltb, ◌==◌, if◌then◌else◌,
}
use x07_wasm_backend.Common.Result.{Result, ok, err, ◌>>=◌}
use x07_wasm_backend.Json.{
  Value, null, array, bool, number, string, object, pos_int, of_entries, of_list, get, as_array,
  str_or, unwrap_or, and_then,
}
use x07_wasm_backend.Diag.{run}
use x07_wasm_backend.Caps.Doc.{CapabilitiesDoc, NetworkDeny, network_check}
use x07_wasm_backend.StreamPayload.{
  PayloadError, stream_payload_to_bytes, bytes_to_stream_payload, bytes_to_stream_payload_compact,
  Codec,
}
use x07_wasm_backend.Reducer.Host.{Host, Uri, Request, Response}
use x07_wasm_backend.Reducer.State.{HttpEffectState, Io, push, failed, truncate_4096}

-- The order of texts is that of their code points.
unfoldable pub codes_leb : List ℕ → List ℕ → Bool
codes_leb [] ys = true
codes_leb (x ∷ xs) [] = false
codes_leb (x ∷ xs) (y ∷ ys) = let rest = codes_leb xs ys in ltb x y || ((x == y) && rest)

-- `a.0.cmp(&b.0).then(a.1.cmp(&b.1))` is not greater.
unfoldable pub header_leb : String × String → String × String → Bool
header_leb (k, v) (k', v') =
    if str_eq k k' then codes_leb (codes v) (codes v') else codes_leb (codes k) (codes k')

unfoldable pub insert_header : String × String → List (String × String) → List (String × String)
insert_header h [] = h ∷ []
insert_header h (h' ∷ hs) =
    let rest = insert_header h hs in if header_leb h h' then h ∷ h' ∷ hs else h' ∷ rest

unfoldable pub sort_headers : List (String × String) → List (String × String)
sort_headers [] = []
sort_headers (h ∷ hs) = insert_header h (sort_headers hs)

abbrev pub header_value_of : String × String → Value
header_value_of (k, v) = object (of_entries (("k", string k) ∷ ("v", string v) ∷ []))

unfoldable pub response_envelope_value :
    Codec → String → ℕ → List (String × String) → List ℕ → Bool → Value
response_envelope_value codec request_id status headers body compact_payload = object (
    of_entries (
      ("schema_version", string "x07.http.response.envelope@0.1.0")
      ∷ ("request_id", string request_id)
      ∷ ("status", number (pos_int status))
      ∷ ("headers", array (of_list (map header_value_of (sort_headers headers))))
      ∷ (
        "body",
        if compact_payload
            then bytes_to_stream_payload_compact codec body
            else bytes_to_stream_payload codec body,
      )
      ∷ []))

-- The response's headers whose values are texts.
unfoldable pub text_headers : List (String × Option String) → List (String × String)
text_headers [] = []
text_headers ((k, some v) ∷ rest) = (k, v) ∷ text_headers rest
text_headers ((k, none) ∷ rest) = text_headers rest

abbrev pub fetch_failed_code : String
fetch_failed_code = "X07WASM_HTTP_EFFECT_HTTP_FETCH_FAILED"

abbrev pub not_allowlisted_message : String
not_allowlisted_message = "http.fetch host not allowlisted (set X07_WASM_HTTP_FETCH_ALLOW_HOSTS)"

-- A refusal: the code and the message of the diagnostic, and the message of the result.
pub record Refusal : Type 0 where
  pub code : String
  pub message : String
  pub shown : String

abbrev pub fetch_refusal : String → String → Refusal
fetch_refusal message shown = record { code = fetch_failed_code; message = message; shown = shown }

module _ {W IpNet : Type 0} (host : Host W IpNet) where
  -- The answer to a request that is refused.
  abbrev pub refuse : String → Refusal → Io W IpNet → Value × Io W IpNet
  refuse id r io = (failed id "http.fetch" r.shown, push r.code run r.message io)

  -- A denial of the capabilities as a refusal.
  abbrev pub denied : Result NetworkDeny (Unit {0}) → Result Refusal (Unit {0})
  denied (ok _) = ok tt
  denied (err deny) = err (record {
    code = deny.code;
    message = host.show_deny deny.message;
    shown = "http.fetch denied by capabilities";
  })

  -- `caps.network_check`, or the list of hosts where there are no capabilities.
  unfoldable pub check_host :
      Option (CapabilitiesDoc IpNet) → List String → String → String → ℕ → Result Refusal (Unit {0})
  check_host (some caps) allow_hosts scheme name port =
      denied (network_check host.contains host.parse_ip caps scheme name port)
  check_host none allow_hosts scheme name port =
      if any (λ h. str_eq h name) allow_hosts
      then ok tt
      else err (
          fetch_refusal
            (str_append not_allowlisted_message (str_append ": " (host.debug_string name)))
            not_allowlisted_message)

  -- The checks of a parsed URL, up to the point from which the network counts as used.
  unfoldable pub check_host_of :
      Option String → Uri → HttpEffectState IpNet → Result Refusal (Unit {0})
  unfolding check_host
  check_host_of none uri st = err (fetch_refusal "http.fetch url missing host" "missing host")
  check_host_of (some name) uri st =
      check_host st.caps st.fetch_allow_hosts (unwrap_or uri.scheme_str "") name
        (unwrap_or uri.port_u16 80)

  -- `scheme == Some("http")`
  abbrev pub is_http : Option String → Bool
  is_http none = false
  is_http (some s) = str_eq s "http"

  unfoldable pub check_uri : Uri → HttpEffectState IpNet → Result Refusal (Unit {0})
  unfolding check_host_of
  check_uri uri st =
      if is_http uri.scheme_str
      then check_host_of uri.host uri st
      else err (
          fetch_refusal "http.fetch supports only http:// URLs"
            "unsupported scheme (only http:// allowed)")

  abbrev pub parsed_uri : Result String Uri → HttpEffectState IpNet → Result Refusal Uri
  parsed_uri (err e) st = err (
      fetch_refusal (str_append "http.fetch url parse failed: " e)
        (truncate_4096 (str_append "url parse failed: " e)))
  parsed_uri (ok uri) st = check_uri uri st >>= λ _. ok uri

  unfoldable pub allowed_uri : String → HttpEffectState IpNet → Result Refusal Uri
  unfolding check_uri
  allowed_uri url st = parsed_uri (host.parse_uri url) st

  abbrev pub keep_header :
      Option String → Option String → List (String × String) → List (String × String)
  keep_header (some k) (some v) rest = (k, v) ∷ rest
  keep_header _ _ rest = rest

  -- The headers whose names and values are accepted.
  unfoldable pub request_headers : List Value → List (String × String)
  request_headers [] = []
  request_headers (h ∷ hs) =
      keep_header (host.header_name (str_or "k" "" h)) (host.header_value (str_or "v" "" h))
        (request_headers hs)

  abbrev pub built : Result String Request → Result Refusal Request
  built (err e) =
      err (fetch_refusal (str_append "http.fetch build request failed: " e) (truncate_4096 e))
  built (ok req) = ok req

  abbrev pub with_body : Value → Uri → Result PayloadError (List ℕ) → Result Refusal Request
  with_body eff uri (err e) = err (
      fetch_refusal (str_append "http.fetch body decode failed: " (host.show_payload_error e))
        (truncate_4096 (host.show_payload_error e)))
  with_body eff uri (ok bytes) = built (
      host.build (record {
        method = unwrap_or (host.parse_method (str_or "method" "GET" eff)) "GET";
        uri = uri;
        headers = request_headers (unwrap_or (and_then (get "headers" eff) as_array) []);
        body = bytes;
      }))

  -- The request of an allowed effect.
  unfoldable pub request_of : Value → Uri → Result Refusal Request
  unfolding request_headers
  request_of eff uri =
      with_body eff uri (stream_payload_to_bytes host.codec (unwrap_or (get "body" eff) null))

  -- What the client answered: the body is read up to 1 MiB.
  abbrev pub collected :
      String → Response → Result String (List ℕ) → Io W IpNet → Value × Io W IpNet
  collected id resp (err e) io =
      refuse id (fetch_refusal (str_append "http.fetch collect body failed: " e) (truncate_4096 e))
        io
  collected id resp (ok body) io = (
    object (
        of_entries (
          ("id", string id)
          ∷ ("type", string "http.fetch")
          ∷ ("ok", bool true)
          ∷ (
            "response",
            response_envelope_value host.codec id resp.status (text_headers resp.headers) body
                false,
          )
          ∷ [])),
    io,
  )

  unfoldable pub answer : String → Result String Response → Io W IpNet → Value × Io W IpNet
  answer id (err e) io =
      refuse id (fetch_refusal (str_append "http.fetch failed: " e) (truncate_4096 e)) io
  answer id (ok resp) io = collected id resp (resp.collect (1024 * 1024)) io

  -- From the request on; the world passes through the client.
  unfoldable pub send : String → Result Refusal Request → Io W IpNet → Value × Io W IpNet
  unfolding answer
  send id (err r) io = refuse id r io
  send id (ok req) io =
      let (resp, world) = host.request req io.world in answer id resp (record io { world = world })

  abbrev pub use_network : Io W IpNet → Io W IpNet
  use_network io = record io {
    effects = record io.effects {
      nondeterminism = record io.effects.nondeterminism { uses_network = true };
    };
  }

  abbrev pub fetch_from : String → Value → Io W IpNet → Result Refusal Uri → Value × Io W IpNet
  fetch_from id eff io (err r) = refuse id r io
  fetch_from id eff io (ok uri) = send id (request_of eff uri) (use_network io)

  unfoldable pub http_fetch : String → Value → Io W IpNet → Value × Io W IpNet
  unfolding send request_of
  http_fetch id eff io = fetch_from id eff io (allowed_uri (str_or "url" "" eff) io.effects)
