-- ===== src/StreamPayload.antt =====
-- crates/x07-wasm/src/stream_payload.rs: bytes in a JSON document, as base64 or as text. The base64
-- crate's standard engine and UTF-8 are the parameter `codec`; `usize` has 64 bits.
pub mod RoundTrip
pub mod Tests
use x07_wasm_backend.Common.{
  ℕ, String, Bool, not, Option, none, some, List, [], ◌∷◌, length, ◌==◌, if◌then◌else◌,
}
use x07_wasm_backend.Common.Result.{Result, ok, err, ◌>>=◌, ◌>>◌, bail_if, or_error}
use x07_wasm_backend.Json.{
  Value, number, string, object, pos_int, Fields, no_fields, insert, get, as_u64, as_str, unwrap_or,
  and_then,
}

pub record Codec : Type 0 where
  pub encode : List ℕ → String
  pub decode : String → Option (List ℕ)
  pub as_bytes : String → List ℕ
  pub from_utf8 : List ℕ → Option String

pub data PayloadError : Type 0 where
  decode_base64 mismatch_base64 mismatch_text missing : PayloadError

module _ (codec : Codec) where
  -- A payload with no base64: its text, or nothing.
  unfoldable pub text_to_bytes : ℕ → Option String → Result PayloadError (List ℕ)
  text_to_bytes bytes_len (some text) = do
    bail_if (not (length (codec.as_bytes text) == bytes_len)) mismatch_text
    ok (codec.as_bytes text)
  text_to_bytes bytes_len none = if bytes_len == 0 then ok [] else err missing

  unfoldable pub payload_to_bytes : ℕ → Option String → Option String → Result PayloadError (List ℕ)
  unfolding text_to_bytes
  payload_to_bytes bytes_len (some b64) text = do
    bytes ← or_error decode_base64 (codec.decode b64)
    bail_if (not (length bytes == bytes_len)) mismatch_base64
    ok bytes
  payload_to_bytes bytes_len none text = text_to_bytes bytes_len text

  unfoldable pub stream_payload_to_bytes : Value → Result PayloadError (List ℕ)
  unfolding payload_to_bytes
  stream_payload_to_bytes payload =
      payload_to_bytes (unwrap_or (and_then (get "bytes_len" payload) as_u64) 0)
        (and_then (get "base64" payload) as_str) (and_then (get "text" payload) as_str)

  abbrev pub insert_text : Option String → Fields → Fields
  insert_text none obj = obj
  insert_text (some text) obj = insert "text" (string text) obj

  unfoldable pub bytes_to_stream_payload : List ℕ → Value
  bytes_to_stream_payload bytes = object (
      insert_text (codec.from_utf8 bytes) (
        insert "base64" (string (codec.encode bytes))
          (insert "bytes_len" (number (pos_int (length bytes))) no_fields)))

  abbrev pub compact_body : Option String → List ℕ → Fields → Fields
  compact_body (some text) bytes obj = insert "text" (string text) obj
  compact_body none bytes obj = insert "base64" (string (codec.encode bytes)) obj

  unfoldable pub bytes_to_stream_payload_compact : List ℕ → Value
  bytes_to_stream_payload_compact [] = object (insert "bytes_len" (number (pos_int 0)) no_fields)
  bytes_to_stream_payload_compact (b ∷ bs) = object (
      compact_body (codec.from_utf8 (b ∷ bs)) (b ∷ bs)
        (insert "bytes_len" (number (pos_int (length (b ∷ bs)))) no_fields))
