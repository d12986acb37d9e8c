-- ===== src/GuestDiag/Base64/RoundTrip.antt =====
-- The decoder undoes RFC 4648's encoding.
use Prim.Native.Nat.{bit_and, bit_or}
use x07_wasm_backend.Common.{
  ℕ, ◌+◌, ◌-◌, ◌*◌, ◌/◌, ◌%◌, ◌^◌, ◌<◌, ◌≤◌, ◌≡◌, refl, String, Bool, true, false, some, List, [],
  ◌∷◌, ltb, ◌==◌, length, All, if◌then◌else◌, arith,
}
use x07_wasm_backend.Common.Bits.{bit_or_low, bit_and_byte}
use x07_wasm_backend.Common.Result.{ok}
use x07_wasm_backend.GuestDiag.Ows.{is_ows}
use x07_wasm_backend.GuestDiag.Base64.{
  b64_val, join, block_bytes, is_empty, decode_block, decode_blocks, strict_base64_decode,
  max_data_decoded_bytes,
}

-- The character of a value below 64.
unfoldable pub b64_char : ℕ → ℕ
b64_char v =
    if ltb v 26
    then v + b'A'
    else if ltb v 52
    then v - 26 + b'a'
    else if ltb v 62
    then v - 52 + b'0'
    else if v == 62
    then b'+'
    else b'/'

-- The encoding, by groups of three bytes; a shorter group at the end is padded.
unfoldable pub encode : List ℕ → List ℕ
encode [] = []
encode (a ∷ []) = b64_char (a / 4) ∷ b64_char (a % 4 * 16) ∷ b'=' ∷ b'=' ∷ []
encode (a ∷ b ∷ []) =
    b64_char (a / 4) ∷ b64_char (a % 4 * 16 + b / 16) ∷ b64_char (b % 16 * 4) ∷ b'=' ∷ []
encode (a ∷ b ∷ c ∷ rest) =
    b64_char (a / 4)
    ∷ b64_char (a % 4 * 16 + b / 16)
    ∷ b64_char (b % 16 * 4 + c / 64)
    ∷ b64_char (c % 64)
    ∷ encode rest

abbrev pub IsByte : ℕ → Type 0
IsByte b = b < 256

b64_val-b64_char : (v : ℕ) → v < 64 → b64_val (b64_char v) ≡ some v
unfolding b64_val b64_char
b64_val-b64_char v h = ground arith

b64_char-ne_pad : (v : ℕ) → (b64_char v == b'=') ≡ false
unfolding b64_char
b64_char-ne_pad v = ground arith

-- Four values of six bits side by side.
join_lem :
    (v0 v1 v2 v3 : ℕ)
    → v0 < 64
    → v1 < 64
    → v2 < 64
    → v3 < 64
    → join v0 v1 v2 v3 ≡ v0 * 262144 + v1 * 4096 + v2 * 64 + v3
unfolding join
join_lem v0 v1 v2 v3 h0 h1 h2 h3 =
    let s0 : v0 * 2 ^ 18 % 2 ^ 32 ≡ v0 * 2 ^ 18 = omega arith in
    let s1 : v1 * 2 ^ 12 % 2 ^ 32 ≡ v1 * 2 ^ 12 = omega arith in
    let s2 : v2 * 2 ^ 6 % 2 ^ 32 ≡ v2 * 2 ^ 6 = omega arith in
    let o1 : bit_or (v0 * 2 ^ 18) (v1 * 2 ^ 12) ≡ (v0 * 64 + v1) * 2 ^ 12 =
      omega (arith, bit_or_low 18 v0 (v1 * 2 ^ 12)) in
    let o2 : bit_or ((v0 * 64 + v1) * 2 ^ 12) (v2 * 2 ^ 6) ≡ ((v0 * 64 + v1) * 64 + v2) * 2 ^ 6 =
      omega (arith, bit_or_low 12 (v0 * 64 + v1) (v2 * 2 ^ 6)) in
    let o3 = bit_or_low 6 ((v0 * 64 + v1) * 64 + v2) v3 (omega arith) in
    rw (s0, s1, s2) (rw o1 (rw o2 (rw o3 (omega arith))))

-- The three bytes of a joined block.
high_byte : (v : ℕ) → v < 2 ^ 24 → bit_and (v / 2 ^ 16) 0xff ≡ v / 65536
high_byte v h = omega (arith, bit_and_byte (v / 2 ^ 16))

middle_byte : (v : ℕ) → bit_and (v / 2 ^ 8) 0xff ≡ v / 256 % 256
middle_byte v = omega (arith, bit_and_byte (v / 2 ^ 8))

module _ (code : String) where
  -- The three shapes of a block that the decoder accepts, by the values of its characters.
  decode_full :
      (c0 c1 c2 c3 v0 v1 v2 v3 : ℕ) (is_last : Bool)
      → b64_val c0 ≡ some v0
      → b64_val c1 ≡ some v1
      → b64_val c2 ≡ some v2
      → b64_val c3 ≡ some v3
      → (c2 == b'=') ≡ false
      → (c3 == b'=') ≡ false
      → decode_block code c0 c1 c2 c3 is_last ≡ ok (block_bytes (join v0 v1 v2 v3) false false)
  unfolding decode_block
  decode_full c0 c1 c2 c3 v0 v1 v2 v3 is_last h0 h1 h2 h3 n2 n3 =
      rw (n2, n3) (rw h0 (rw h1 (rw h2 (rw h3))))

  decode_two :
      (c0 c1 c2 v0 v1 v2 : ℕ)
      → b64_val c0 ≡ some v0
      → b64_val c1 ≡ some v1
      → b64_val c2 ≡ some v2
      → (c2 == b'=') ≡ false
      → decode_block code c0 c1 c2 b'=' true ≡ ok (block_bytes (join v0 v1 v2 0) false true)
  unfolding decode_block
  decode_two c0 c1 c2 v0 v1 v2 h0 h1 h2 n2 = rw n2 (rw h0 (rw h1 (rw h2)))

  decode_one :
      (c0 c1 v0 v1 : ℕ)
      → b64_val c0 ≡ some v0
      → b64_val c1 ≡ some v1
      → decode_block code c0 c1 b'=' b'=' true ≡ ok (block_bytes (join v0 v1 0 0) true true)
  unfolding decode_block
  decode_one c0 c1 v0 v1 h0 h1 = rw h0 (rw h1)

bytes_full :
    (a b c : ℕ)
    → a < 256
    → b < 256
    → c < 256
    → block_bytes (join (a / 4) (a % 4 * 16 + b / 16) (b % 16 * 4 + c / 64) (c % 64)) false false
      ≡ a ∷ b ∷ c ∷ []
unfolding block_bytes
bytes_full a b c ha hb hc =
    let v = join (a / 4) (a % 4 * 16 + b / 16) (b % 16 * 4 + c / 64) (c % 64) in
    let e : v ≡ a * 65536 + b * 256 + c =
      omega (arith, join_lem (a / 4) (a % 4 * 16 + b / 16) (b % 16 * 4 + c / 64) (c % 64)) in
    let one : bit_and (v / 2 ^ 16) 0xff ≡ a = omega (arith, high_byte v) in
    let two : bit_and (v / 2 ^ 8) 0xff ≡ b = omega (arith, middle_byte v) in
    let three : bit_and v 0xff ≡ c = omega (arith, bit_and_byte v) in cc (one, two, three)

bytes_two :
    (a b : ℕ)
    → a < 256
    → b < 256
    → block_bytes (join (a / 4) (a % 4 * 16 + b / 16) (b % 16 * 4) 0) false true ≡ a ∷ b ∷ []
unfolding block_bytes
bytes_two a b ha hb =
    let v = join (a / 4) (a % 4 * 16 + b / 16) (b % 16 * 4) 0 in
    let e : v ≡ a * 65536 + b * 256 =
      omega (arith, join_lem (a / 4) (a % 4 * 16 + b / 16) (b % 16 * 4) 0) in
    let one : bit_and (v / 2 ^ 16) 0xff ≡ a = omega (arith, high_byte v) in
    let two : bit_and (v / 2 ^ 8) 0xff ≡ b = omega (arith, middle_byte v) in cc (one, two)

bytes_one : (a : ℕ) → a < 256 → block_bytes (join (a / 4) (a % 4 * 16) 0 0) true true ≡ a ∷ []
unfolding block_bytes
bytes_one a ha =
    let v = join (a / 4) (a % 4 * 16) 0 0 in
    let e : v ≡ a * 65536 = omega (arith, join_lem (a / 4) (a % 4 * 16) 0 0) in
    let one : bit_and (v / 2 ^ 16) 0xff ≡ a = omega (arith, high_byte v) in cc one

decode_blocks-encode :
    (code : String) (bytes : List ℕ)
    → All IsByte bytes
    → decode_blocks code (encode bytes) ≡ ok bytes
unfolding decode_blocks encode
decode_blocks-encode code [] h = refl
decode_blocks-encode code (a ∷ []) (ha, _) =
    let d =
      decode_one code (b64_char (a / 4)) (b64_char (a % 4 * 16)) (a / 4) (a % 4 * 16)
        (b64_val-b64_char _ (omega arith)) (b64_val-b64_char _ (omega arith)) in
    rw d (rw (bytes_one a ha))
decode_blocks-encode code (a ∷ b ∷ []) (ha, (hb, _)) =
    let d =
      decode_two code (b64_char (a / 4)) (b64_char (a % 4 * 16 + b / 16)) (b64_char (b % 16 * 4))
        (a / 4) (a % 4 * 16 + b / 16) (b % 16 * 4) (b64_val-b64_char _ (omega arith))
        (b64_val-b64_char _ (omega arith)) (b64_val-b64_char _ (omega arith)) (b64_char-ne_pad _) in
    rw d (rw (bytes_two a b ha hb))
decode_blocks-encode code (a ∷ b ∷ c ∷ rest) (ha, (hb, (hc, h))) =
    let d =
      decode_full code (b64_char (a / 4)) (b64_char (a % 4 * 16 + b / 16))
        (b64_char (b % 16 * 4 + c / 64)) (b64_char (c % 64)) (a / 4) (a % 4 * 16 + b / 16)
        (b % 16 * 4 + c / 64) (c % 64) (is_empty (encode rest)) (b64_val-b64_char _ (omega arith))
        (b64_val-b64_char _ (omega arith)) (b64_val-b64_char _ (omega arith))
        (b64_val-b64_char _ (omega arith)) (b64_char-ne_pad _) (b64_char-ne_pad _) in
    rw d (rw (bytes_full a b c ha hb hc) (rw (decode_blocks-encode code rest h)))

-- Four characters for each group of three bytes.
length-encode : (bytes : List ℕ) → length (encode bytes) ≡ (length bytes + 2) / 3 * 4
unfolding encode
length-encode [] = refl
length-encode (a ∷ []) = refl
length-encode (a ∷ b ∷ []) = refl
length-encode (a ∷ b ∷ c ∷ rest) = omega (arith, length-encode rest)

-- Decoding the encoding of at most 4096 bytes gives the bytes back.
pub strict_base64_decode-encode :
    (code : String) (bytes : List ℕ)
    → All IsByte bytes
    → length bytes ≤ max_data_decoded_bytes
    → strict_base64_decode code (encode bytes) ≡ ok bytes
unfolding strict_base64_decode
strict_base64_decode-encode code bytes h short =
    let fits : ltb 8192 (length (encode bytes)) ≡ false = ground (arith, length-encode bytes) in
    let whole : (length (encode bytes) % 4 == 0) ≡ true = ground (arith, length-encode bytes) in
    let room : ltb 4096 (length bytes) ≡ false = ground arith in
    rw fits (rw whole (rw (decode_blocks-encode code bytes h) (rw room)))

b64_char-solid : (v : ℕ) → is_ows (b64_char v) ≡ false
unfolding b64_char is_ows
b64_char-solid v = ground arith

pad-solid : is_ows b'=' ≡ false
unfolding is_ows
pad-solid = refl

-- No character of an encoding is a space or a tab.
pub encode-solid : (bytes : List ℕ) → All (λ c. is_ows c ≡ false) (encode bytes)
unfolding encode
encode-solid [] = tt
encode-solid (a ∷ []) =
    (b64_char-solid (a / 4), (b64_char-solid (a % 4 * 16), (pad-solid, (pad-solid, tt))))
encode-solid (a ∷ b ∷ []) = (
  b64_char-solid (a / 4),
  (b64_char-solid (a % 4 * 16 + b / 16), (b64_char-solid (b % 16 * 4), (pad-solid, tt))),
)
encode-solid (a ∷ b ∷ c ∷ rest) = (
  b64_char-solid (a / 4),
  (
    b64_char-solid (a % 4 * 16 + b / 16),
    (b64_char-solid (b % 16 * 4 + c / 64), (b64_char-solid (c % 64), encode-solid rest)),
  ),
)
