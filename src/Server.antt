-- ===== src/Server.antt =====
-- crates/x07-wasm/src/serve.rs: the identifier and the envelope of a request. Texts of a header are the
-- lists of their code points; hyper's requests are given by their parts, and hashes are a parameter.
use x07_wasm_backend.Common.{
  ℕ, String, Bool, false, ◌||◌, ◌&&◌, Option, none, some, List, [], ◌∷◌, map, all, ltb, length,
  trim, to_lower, is_lower, is_digit, ◌==◌, if◌then◌else◌,
}
use x07_wasm_backend.Json.{Value, string, array, object, of_list, of_entries, unwrap_or}
use x07_wasm_backend.StreamPayload.{Codec, bytes_to_stream_payload, bytes_to_stream_payload_compact}
use x07_wasm_backend.Reducer.Fetch.{sort_headers, header_value_of}
pub mod RequestId
mod Tests

abbrev pub is_id_start : ℕ → Bool
is_id_start ch = is_lower ch || is_digit ch

abbrev pub is_id_char : ℕ → Bool
is_id_char ch = is_id_start ch || ((ch == b'.') || (ch == b'_') || (ch == b'-'))

abbrev pub is_request_id : List ℕ → Bool
is_request_id [] = false
is_request_id (c ∷ cs) = is_id_start c && all is_id_char (c ∷ cs)

abbrev pub lowered_id : List ℕ → Option (List ℕ)
lowered_id lowered = if is_request_id lowered then some lowered else none

-- A text that is empty, or longer than 64, is none; one that is not ASCII is none for its characters.
unfoldable pub normalize_request_id : List ℕ → Option (List ℕ)
normalize_request_id raw =
    if (length (trim raw) == 0) || ltb 64 (length (trim raw))
    then none
    else lowered_id (map to_lower (trim raw))

-- The headers of a request, where a value that is no text is empty.
abbrev pub text_or_empty : String × Option String → String × String
text_or_empty (k, v) = (k, unwrap_or v "")

unfoldable pub request_envelope_value :
    Codec
    → String
    → String
    → String
    → Option String
    → List (String × Option String)
    → List ℕ
    → Bool
    → Value
request_envelope_value codec request_id method path query headers body compact_payload = object (
    of_entries (
      ("schema_version", string "x07.http.request.envelope@0.1.0")
      ∷ ("id", string request_id)
      ∷ ("method", string method)
      ∷ ("path", string path)
      ∷ ("query", string (unwrap_or query ""))
      ∷ (
        "headers",
        array (of_list (map header_value_of (sort_headers (map text_or_empty headers)))),
      )
      ∷ (
        "body",
        if compact_payload
            then bytes_to_stream_payload_compact codec body
            else bytes_to_stream_payload codec body,
      )
      ∷ []))
