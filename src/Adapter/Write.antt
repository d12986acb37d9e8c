-- ===== src/Adapter/Write.antt =====
-- guest/http-adapter/src/lib.rs: what the adapter writes. Texts are the lists of their bytes.
use x07_wasm_backend.Common.{
  ℕ, zero, suc, ◌+◌, ◌/◌, ◌%◌, ◌-◌, true, false, List, [], ◌∷◌, ◌++◌, codes, ltb, ◌==◌,
  if◌then◌else◌,
}

-- `HEX[n]`
abbrev pub hex_digit : ℕ → ℕ
hex_digit n = if ltb n 10 then b'0' + n else b'a' + (n - 10)

-- What a byte of a text is written as.
abbrev pub escape_byte : ℕ → List ℕ
escape_byte b =
    if b == 34
    then 92 ∷ 34 ∷ []
    else if b == 92
    then 92 ∷ 92 ∷ []
    else if ltb b 0x20
    then 92 ∷ b'u' ∷ b'0' ∷ b'0' ∷ hex_digit (b / 16) ∷ hex_digit (b % 16) ∷ []
    else b ∷ []

abbrev pub escape : List ℕ → List ℕ
escape [] = []
escape (b ∷ bs) = escape_byte b ++ escape bs

-- `push_json_string`: what is appended for a text.
unfoldable pub json_string : List ℕ → List ℕ
json_string s = 34 ∷ (escape s ++ 34 ∷ [])

-- The loop of `push_u64_dec`, which fills its buffer of 20 bytes from the end. No number of 64 bits has
-- more digits.
unfoldable pub dec_loop : ℕ → ℕ → List ℕ → List ℕ
dec_loop zero n written = written
dec_loop (suc left) n written = elim (n == 0) [
  | true ↦ written
  | false ↦ dec_loop left (n / 10) ((b'0' + n % 10) ∷ written)
]

-- `push_u64_dec`: what is appended for a number.
unfoldable pub u64_dec : ℕ → List ℕ
unfolding dec_loop
u64_dec n = if n == 0 then b'0' ∷ [] else dec_loop 20 n []

abbrev pub header_bytes : List ℕ × List ℕ → List ℕ
header_bytes (k, v) =
    codes "{\"k\":" ++ (json_string k ++ (codes ",\"v\":" ++ (json_string v ++ codes "}")))

-- The headers behind a first one, each behind a comma.
abbrev pub more_headers : List (List ℕ × List ℕ) → List ℕ
more_headers [] = []
more_headers (h ∷ hs) = 44 ∷ (header_bytes h ++ more_headers hs)

abbrev pub headers_bytes : List (List ℕ × List ℕ) → List ℕ
headers_bytes [] = []
headers_bytes (h ∷ hs) = header_bytes h ++ more_headers hs

unfoldable pub request_envelope_bytes :
    List ℕ → List ℕ → List ℕ → List ℕ → List (List ℕ × List ℕ) → ℕ → List ℕ → List ℕ
unfolding json_string u64_dec
request_envelope_bytes id method path query headers body_bytes_len body_b64 =
    codes "{\"schema_version\":\"x07.http.request.envelope@0.1.0\",\"id\":"
    ++ (json_string id
        ++ (codes ",\"method\":"
            ++ (json_string method
                ++ (codes ",\"path\":"
                    ++ (json_string path
                        ++ (codes ",\"query\":"
                            ++ (json_string query
                                ++ (codes ",\"headers\":["
                                    ++ (headers_bytes headers
                                        ++ (codes "],\"body\":{\"bytes_len\":"
                                            ++ (u64_dec body_bytes_len
                                                ++ (codes ",\"base64\":"
                                                    ++ (json_string body_b64
                                                        ++ codes "}}")))))))))))))
