-- ===== src/StreamPayload/Tests.antt =====
-- Payloads with a concrete codec, which writes a byte in unary.
use Prim.Native.Char.{code}
use Prim.Native.String.{String}
use x07_wasm_backend.Common.{
  ℕ, zero, suc, ◌+◌, ◌≡◌, refl, ap, ◌∙◌, none, some, List, [], ◌∷◌, arith, ◌==◌, if◌then◌else◌,
}
use x07_wasm_backend.Common.Result.{ok}
use x07_wasm_backend.StreamPayload.{
  Codec, stream_payload_to_bytes, bytes_to_stream_payload, bytes_to_stream_payload_compact,
}
use x07_wasm_backend.StreamPayload.RoundTrip.{IsCodec, stream_payload_to_bytes_round_trip}

abbrev write_byte : ℕ → String → String
write_byte zero s = String.◌∷◌ "b" s
write_byte (suc n) s = String.◌∷◌ "a" (write_byte n s)

abbrev write_bytes : List ℕ → String
write_bytes [] = String.[]
write_bytes (b ∷ bs) = write_byte b (write_bytes bs)

abbrev read_bytes : ℕ → String → List ℕ
read_bytes n String.[] = []
read_bytes n (String.◌∷◌ c s) = if code c == b'a' then read_bytes (suc n) s else n ∷ read_bytes 0 s

suc_lem : (k n : ℕ) → suc k + n ≡ k + suc n
suc_lem k n = omega arith

read-write_byte : (k n : ℕ) (s : String) → read_bytes k (write_byte n s) ≡ (k + n) ∷ read_bytes 0 s
read-write_byte k zero s = ap (λ m. m ∷ read_bytes 0 s) (omega arith)
read-write_byte k (suc n) s =
    read-write_byte (suc k) n s ∙ ap (λ m. m ∷ read_bytes 0 s) (suc_lem k n)

read-write_bytes : (bytes : List ℕ) → read_bytes 0 (write_bytes bytes) ≡ bytes
read-write_bytes [] = refl
read-write_bytes (b ∷ bs) =
    read-write_byte 0 b (write_bytes bs)
    ∙ (ap (λ m. m ∷ read_bytes 0 (write_bytes bs)) (omega arith)
        ∙ ap (λ rest. b ∷ rest) (read-write_bytes bs))

abbrev pub unary : Codec
unary = record {
  encode = write_bytes;
  decode = λ text. some (read_bytes 0 text);
  as_bytes = λ _. [];
  from_utf8 = λ bytes. elim bytes [ [] ↦ some "" | _ ∷ _ ↦ none ];
}

text_bytes :
    (bytes : List ℕ) (text : String)
    → unary.from_utf8 bytes ≡ some text
    → unary.as_bytes text ≡ bytes
text_bytes [] text h = refl
text_bytes (b ∷ bs) text h = cc

pub unary-IsCodec : IsCodec unary
unary-IsCodec = record {
  decode-encode = λ bytes. ap some (read-write_bytes bytes);
  as_bytes-from_utf8 = text_bytes;
}

stream_payload_to_bytes_round_trip_example :
    (stream_payload_to_bytes unary (bytes_to_stream_payload unary (2 ∷ 0 ∷ 1 ∷ []))
      ≡ ok (2 ∷ 0 ∷ 1 ∷ []))
    × (stream_payload_to_bytes unary (bytes_to_stream_payload_compact unary (2 ∷ 0 ∷ 1 ∷ []))
        ≡ ok (2 ∷ 0 ∷ 1 ∷ []))
stream_payload_to_bytes_round_trip_example =
    stream_payload_to_bytes_round_trip unary unary-IsCodec (2 ∷ 0 ∷ 1 ∷ [])
