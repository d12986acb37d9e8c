-- ===== src/StreamPayload/RoundTrip.antt =====
-- Payloads give back the bytes that they were made from.
use x07_wasm_backend.Common.{
  ℕ, String, ◌≡◌, refl, inl, inr, Option, none, some, List, [], ◌∷◌, length, Option-cases, ==_refl,
}
use x07_wasm_backend.Common.Result.{ok}
use x07_wasm_backend.StreamPayload.{
  Codec, text_to_bytes, payload_to_bytes, stream_payload_to_bytes, bytes_to_stream_payload,
  bytes_to_stream_payload_compact,
}

-- Decoding undoes encoding, and the bytes of a text read as UTF-8 are the bytes read.
pub record IsCodec (codec : Codec) : Type 0 where
  pub decode-encode : (bytes : List ℕ) → codec.decode (codec.encode bytes) ≡ some bytes
  pub as_bytes-from_utf8 :
      (bytes : List ℕ) (text : String)
      → codec.from_utf8 bytes ≡ some text
      → codec.as_bytes text ≡ bytes

module _ (codec : Codec) (laws : IsCodec codec) where
  from_base64 :
      (bytes : List ℕ) (text : Option String)
      → payload_to_bytes codec (length bytes) (some (codec.encode bytes)) text ≡ ok bytes
  unfolding payload_to_bytes
  from_base64 bytes text = rw (laws.decode-encode bytes) (rw (==_refl (length bytes)))

  from_text :
      (bytes : List ℕ) (text : String)
      → codec.from_utf8 bytes ≡ some text
      → payload_to_bytes codec (length bytes) none (some text) ≡ ok bytes
  unfolding payload_to_bytes text_to_bytes
  from_text bytes text e = rw (laws.as_bytes-from_utf8 bytes text e) (rw (==_refl (length bytes)))

  pub full :
      (bytes : List ℕ)
      → stream_payload_to_bytes codec (bytes_to_stream_payload codec bytes) ≡ ok bytes
  unfolding stream_payload_to_bytes bytes_to_stream_payload
  full bytes = elim (Option-cases (codec.from_utf8 bytes)) [
    | inl e ↦ rw e (from_base64 bytes none)
    | inr (text, e) ↦ rw e (from_base64 bytes (some text))
  ]

  compact :
      (bytes : List ℕ)
      → stream_payload_to_bytes codec (bytes_to_stream_payload_compact codec bytes) ≡ ok bytes
  unfolding stream_payload_to_bytes bytes_to_stream_payload_compact payload_to_bytes text_to_bytes
  compact [] = refl
  compact (b ∷ bs) = elim (Option-cases (codec.from_utf8 (b ∷ bs))) [
    | inl e ↦ rw e (from_base64 (b ∷ bs) none)
    | inr (text, e) ↦ rw e (from_text (b ∷ bs) text e)
  ]

  -- Both forms of a payload, the full and the compact one, give back the bytes that they were made from.
  pub stream_payload_to_bytes_round_trip :
      (bytes : List ℕ)
      → (stream_payload_to_bytes codec (bytes_to_stream_payload codec bytes) ≡ ok bytes)
        × (stream_payload_to_bytes codec (bytes_to_stream_payload_compact codec bytes) ≡ ok bytes)
  stream_payload_to_bytes_round_trip bytes = (full bytes, compact bytes)
