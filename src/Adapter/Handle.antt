-- ===== src/Adapter/Handle.antt =====
-- The handlers: `handle` of guest/http-adapter/src/lib.rs and of guest/http-state-doc-adapter/src/lib.rs,
-- with the helpers around them. The host's resources, the solver, base64 and the two functions on UTF-8 are
-- parameters; a solver that traps gives `none`.
use x07_wasm_backend.Common.{
  ℕ, zero, suc, ◌*◌, Bool, true, false, Option, none, some, List, [], ◌∷◌, ◌++◌, codes, codes_eq,
  eq_ignore_case, ◌==◌, length, take, drop, map,
}
use x07_wasm_backend.Common.Chain.{◌>>=◌, require}
use x07_wasm_backend.Common.Sort.{sort}
use x07_wasm_backend.Caps.Evidence.{Base64Engine}
use x07_wasm_backend.Adapter.Write.{request_envelope_bytes}
use x07_wasm_backend.Adapter.Response.{parse_response_envelope, parse_backend_response}
use x07_wasm_backend.Adapter.HeaderOrder.{leb_header}
use x07_wasm_backend.Adapter.Body.{
  IncomingBody, BodyRead, body_of, body_too_large, read_failed, read_incoming_body_limited,
}

abbrev pub max_request_body_bytes : ℕ
max_request_body_bytes = 1024 * 1024

abbrev pub diag_header_code : List ℕ
diag_header_code = codes "x-x07-diag-code"

abbrev pub diag_code_req_body_too_large : List ℕ
diag_code_req_body_too_large = codes "X07WASM_BUDGET_EXCEEDED_HTTP_REQUEST_BODY"

abbrev pub state_doc_request_header : List ℕ
state_doc_request_header = codes "x-x07-state-doc-b64"

abbrev pub state_doc_response_header : List ℕ
state_doc_response_header = codes "x-x07-next-state-doc-b64"

abbrev pub own_request_id : List ℕ
own_request_id = codes "req0"

-- `wasi::http::types::Method`
pub data Method : Type 0 where
  get head post put delete connect options trace patch : Method
  other : List ℕ → Method

unfoldable pub http_method_string : Method → List ℕ
http_method_string get = codes "GET"
http_method_string head = codes "HEAD"
http_method_string post = codes "POST"
http_method_string put = codes "PUT"
http_method_string delete = codes "DELETE"
http_method_string connect = codes "CONNECT"
http_method_string options = codes "OPTIONS"
http_method_string trace = codes "TRACE"
http_method_string patch = codes "PATCH"
http_method_string (other s) = s

-- `s.split_once(c)`
unfoldable pub split_once : ℕ → List ℕ → Option (List ℕ × List ℕ)
split_once c [] = none
split_once c (b ∷ bs) = elim (b == c) [
  | true ↦ some ([], bs)
  | false ↦ split_once c bs >>= λ parts. some (b ∷ parts.0, parts.1)
]

abbrev or_whole : List ℕ → Option (List ℕ × List ℕ) → List ℕ × List ℕ
or_whole s (some parts) = parts
or_whole s none = (s, [])

unfoldable pub http_path_and_query : Option (List ℕ) → List ℕ × List ℕ
unfolding split_once
http_path_and_query none = (codes "/", [])
http_path_and_query (some s) = or_whole s (split_once 63 s)

-- `s.chunks(size)`, on fuel that the length bounds.
abbrev pub chunks_from : ℕ → ℕ → List ℕ → List (List ℕ)
chunks_from zero size s = []
chunks_from (suc fuel) size [] = []
chunks_from (suc fuel) size (b ∷ bs) =
    take size (b ∷ bs) ∷ chunks_from fuel size (drop size (b ∷ bs))

unfoldable pub chunks : ℕ → List ℕ → List (List ℕ)
chunks size s = chunks_from (length s) size s

pub record IncomingRequest : Type 0 where
  pub method : Method
  pub path_with_query : Option (List ℕ)
  pub entries : List (List ℕ × List ℕ)
  pub body : IncomingBody

-- A response that was handed to the host, with the chunks written to its body.
pub record OutgoingResponse : Type 0 where
  pub status_code : ℕ
  pub fields : List (List ℕ × List ℕ)
  pub written : List (List ℕ)

-- What wasi:http may refuse: header fields, a status code, a chunk behind those that are written, and a body
-- that does not fit its headers. A new response hands out its body, and a new body its stream.
pub record WasiHttp : Type 0 where
  pub from_list : List (List ℕ × List ℕ) → Bool
  pub set_status_code : ℕ → Bool
  pub blocking_write_and_flush : List (List ℕ) → List ℕ → Bool
  pub finish : List (List ℕ × List ℕ) → List (List ℕ) → Bool

-- What the headers of a request come to: those that are passed on, and the document of the state.
abbrev pub state_doc_headers :
    (List ℕ → List ℕ)
    → (List ℕ → Option (List ℕ))
    → List ℕ
    → List (List ℕ × List ℕ)
    → Option (List (List ℕ × List ℕ) × List ℕ)
state_doc_headers lossy decode state [] = some ([], state)
state_doc_headers lossy decode state ((k, v) ∷ entries) =
    elim (eq_ignore_case k state_doc_request_header) [
      | true ↦ decode v >>= λ decoded. state_doc_headers lossy decode decoded entries
      | false ↦ state_doc_headers lossy decode state entries >>= λ found.
          some ((k, lossy v) ∷ found.0, found.1)
    ]

-- The envelope of a request whose headers and body are read.
unfoldable pub request_bytes :
    (List ℕ → List ℕ) → IncomingRequest → List (List ℕ × List ℕ) → List ℕ → List ℕ
unfolding request_envelope_bytes http_method_string http_path_and_query
request_bytes encode request headers body =
    let (path, query) = http_path_and_query request.path_with_query in
    request_envelope_bytes own_request_id (http_method_string request.method) path query
      (sort leb_header headers) (length body) (encode body)

abbrev pub lossy_headers : (List ℕ → List ℕ) → List (List ℕ × List ℕ) → List (List ℕ × List ℕ)
lossy_headers lossy = map (λ h. (h.0, lossy h.1))

-- `backend_request_bytes`
unfoldable pub backend_request_bytes : List ℕ → List ℕ → List ℕ
backend_request_bytes request_json state_doc_json =
    codes "{\"schema_version\":\"x07.app.backend.request@0.1.0\",\"request\":"
    ++ (request_json ++ (codes ",\"state\":" ++ (state_doc_json ++ 125 ∷ [])))

module _ (http : WasiHttp) where
  abbrev pub write_chunks : List (List ℕ) → List (List ℕ) → Option (List (List ℕ))
  write_chunks written [] = some written
  write_chunks written (c ∷ cs) = do
    _ ← require (http.blocking_write_and_flush written c)
    write_chunks (written ++ c ∷ []) cs

  unfoldable pub send_response :
      ℕ → List (List ℕ × List ℕ) → List (List ℕ) → Option OutgoingResponse
  send_response status headers body_chunks = do
    _ ← require (http.from_list headers)
    _ ← require (http.set_status_code status)
    written ← write_chunks [] body_chunks
    _ ← require (http.finish headers written)
    some (record { status_code = status; fields = headers; written = written })

  unfoldable pub respond_request_body_too_large : Option OutgoingResponse
  unfolding send_response
  respond_request_body_too_large =
      send_response 413 ((diag_header_code, diag_code_req_body_too_large) ∷ [])
        (codes "request too large" ∷ [])

  module _ (b64 : Base64Engine) (is_utf8 : List ℕ → Bool) (lossy : List ℕ → List ℕ)
      (solve : List ℕ → Option (List ℕ)) where
    unfoldable pub answer_request : IncomingRequest → BodyRead → Option OutgoingResponse
    unfolding request_bytes parse_response_envelope send_response chunks
        respond_request_body_too_large
    answer_request request (body_of body) = do
      resp_bytes ←
          solve (request_bytes b64.encode request (lossy_headers lossy request.entries) body)
      resp ← parse_response_envelope is_utf8 b64 resp_bytes
      _ ← require (codes_eq resp.request_id own_request_id)
      send_response resp.status resp.headers (chunks 4096 resp.body)
    answer_request request body_too_large = respond_request_body_too_large
    answer_request request read_failed = none

    unfoldable pub handle : IncomingRequest → Option OutgoingResponse
    unfolding answer_request read_incoming_body_limited
    handle request =
        answer_request request (read_incoming_body_limited request.body max_request_body_bytes)

    -- The state-doc adapter's answer to a request whose headers are read.
    unfoldable pub answer_with_state :
        IncomingRequest → List (List ℕ × List ℕ) → List ℕ → BodyRead → Option OutgoingResponse
    unfolding request_bytes parse_backend_response send_response chunks
        respond_request_body_too_large backend_request_bytes
    answer_with_state request headers state (body_of body) = do
      resp_bytes ←
          solve (backend_request_bytes (request_bytes b64.encode request headers body) state)
      resp ← parse_backend_response is_utf8 b64 resp_bytes
      _ ← require (codes_eq resp.response.request_id own_request_id)
      send_response resp.response.status
          (resp.response.headers ++ (state_doc_response_header, b64.encode resp.state_json) ∷ [])
          (chunks 4096 resp.response.body)
    answer_with_state request headers state body_too_large = respond_request_body_too_large
    answer_with_state request headers state read_failed = none

    unfoldable pub handle_with_state : IncomingRequest → Option OutgoingResponse
    unfolding answer_with_state read_incoming_body_limited
    handle_with_state request = do
      (headers, state) ← state_doc_headers lossy b64.decode (codes "null") request.entries
      answer_with_state request headers state
          (read_incoming_body_limited request.body max_request_body_bytes)
