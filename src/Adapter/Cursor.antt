-- ===== src/Adapter/Cursor.antt =====
-- `Cursor` of guest/http-adapter/src/lib.rs: the reader of the solver's answer. A cursor is the bytes that
-- are left; a method gives its value with the bytes that it leaves, and `none` where it traps.
use x07_wasm_backend.Common.{
  ℕ, zero, suc, ◌+◌, ◌-◌, ◌*◌, ◌/◌, ◌%◌, ◌^◌, Bool, true, false, not, ◌&&◌, ◌||◌, Option, none,
  some, List, [], ◌∷◌, ◌++◌, ltb, leb, ◌==◌, is_digit, length, if◌then◌else◌,
}
use x07_wasm_backend.Common.Chain.{◌>>=◌, require}

abbrev pub peek_byte : List ℕ → Option ℕ
peek_byte [] = none
peek_byte (b ∷ _) = some b

abbrev pub next_byte : List ℕ → Option (ℕ × List ℕ)
next_byte [] = none
next_byte (b ∷ bs) = some (b, bs)

-- `self.peek_byte() == Some(b)`
abbrev pub peeks : ℕ → List ℕ → Bool
peeks wanted [] = false
peeks wanted (b ∷ _) = b == wanted

abbrev pub is_ws : ℕ → Bool
is_ws b = (b == 32) || (b == 10) || (b == 13) || (b == 9)

unfoldable pub skip_ws : List ℕ → List ℕ
skip_ws [] = []
skip_ws (b ∷ bs) = if is_ws b then skip_ws bs else b ∷ bs

unfoldable pub expect_byte : ℕ → List ℕ → Option (List ℕ)
expect_byte wanted [] = none
expect_byte wanted (b ∷ bs) = if b == wanted then some bs else none

unfoldable pub expect_bytes : List ℕ → List ℕ → Option (List ℕ)
unfolding expect_byte
expect_bytes [] s = some s
expect_bytes (w ∷ ws) s = expect_byte w s >>= λ s'. expect_bytes ws s'

abbrev pub u32_max : ℕ
u32_max = 2 ^ 32 - 1

-- The loop of `parse_u32` from `n`: it traps where a prefix passes the largest u32.
unfoldable pub digits_from : ℕ → List ℕ → Option (ℕ × List ℕ)
digits_from n [] = some (n, [])
digits_from n (b ∷ bs) = elim (is_digit b) [
  | false ↦ some (n, b ∷ bs)
  | true ↦ elim (ltb u32_max (n * 10 + (b - b'0'))) [
    | true ↦ none
    | false ↦ digits_from (n * 10 + (b - b'0')) bs
  ]
]

abbrev pub starts_digit : List ℕ → Bool
starts_digit [] = false
starts_digit (b ∷ _) = is_digit b

unfoldable pub parse_u32 : List ℕ → Option (ℕ × List ℕ)
unfolding digits_from
parse_u32 s = require (starts_digit s) >>= λ _. digits_from 0 s

unfoldable pub parse_u16 : List ℕ → Option (ℕ × List ℕ)
unfolding parse_u32
parse_u16 s = do (n, s') ← parse_u32 s; _ ← require (ltb n (2 ^ 16)); some (n, s')

abbrev pub hex_value : ℕ → Option ℕ
hex_value b =
    if is_digit b
    then some (b - b'0')
    else if leb b'a' b && leb b b'f'
    then some (10 + (b - b'a'))
    else if leb b'A' b && leb b b'F'
    then some (10 + (b - b'A'))
    else none

-- `(v << 4) | d` on u16, where the low four bits of `v << 4` are zero.
abbrev pub shift_in : ℕ → ℕ → ℕ
shift_in v d = v * 16 % 2 ^ 16 + d

unfoldable pub hex_digits : ℕ → ℕ → List ℕ → Option (ℕ × List ℕ)
hex_digits zero v s = some (v, s)
hex_digits (suc k) v [] = none
hex_digits (suc k) v (b ∷ bs) = hex_value b >>= λ d. hex_digits k (shift_in v d) bs

unfoldable pub parse_hex4 : List ℕ → Option (ℕ × List ℕ)
unfolding hex_digits
parse_hex4 s = hex_digits 4 0 s

abbrev pub in_range : ℕ → ℕ → ℕ → Bool
in_range low high n = leb low n && leb n high

-- `char::from_u32`: a scalar value is no surrogate and at most 0x10FFFF.
abbrev pub from_u32 : ℕ → Option ℕ
from_u32 c = if leb c 0x10ffff && not (in_range 0xd800 0xdfff c) then some c else none

-- The rest of an escape whose first unit is a high surrogate, or is not.
unfoldable pub u_escape_from : Bool → ℕ → List ℕ → Option (ℕ × List ℕ)
unfolding parse_hex4 expect_byte
u_escape_from true a s = do
  s₁ ← expect_byte 92 s
  s₂ ← expect_byte b'u' s₁
  (b, s₃) ← parse_hex4 s₂
  _ ← require (in_range 0xdc00 0xdfff b)
  c ← from_u32 (0x10000 + (a - 0xd800) * 2 ^ 10 + (b - 0xdc00))
  some (c, s₃)
u_escape_from false a s = do c ← from_u32 a; some (c, s)

unfoldable pub parse_u_escape : List ℕ → Option (ℕ × List ℕ)
unfolding parse_hex4 u_escape_from
parse_u_escape s = do (a, s') ← parse_hex4 s; u_escape_from (in_range 0xd800 0xdbff a) a s'

-- `char::encode_utf8`
unfoldable pub encode_utf8 : ℕ → List ℕ
encode_utf8 c =
    if ltb c 0x80
    then c ∷ []
    else if ltb c 0x800
    then (0xc0 + c / 64) ∷ (0x80 + c % 64) ∷ []
    else if ltb c 0x10000
    then (0xe0 + c / 4096) ∷ (0x80 + c / 64 % 64) ∷ (0x80 + c % 64) ∷ []
    else (0xf0 + c / 262144) ∷ (0x80 + c / 4096 % 64) ∷ (0x80 + c / 64 % 64) ∷ (0x80 + c % 64) ∷ []

-- One round of the loop of `parse_string`: the end of the text, or bytes of it.
pub data Piece : Type 0 where
  close : Piece
  bytes : List ℕ → Piece

-- The escapes of one letter.
abbrev pub simple_escape : ℕ → Option ℕ
simple_escape e =
    if e == 34
    then some 34
    else if e == 92
    then some 92
    else if e == b'/'
    then some b'/'
    else if e == b'b'
    then some 0x08
    else if e == b'f'
    then some 0x0c
    else if e == b'n'
    then some 10
    else if e == b'r'
    then some 13
    else if e == b't'
    then some 9
    else none

unfoldable pub next_escape : List ℕ → Option (Piece × List ℕ)
unfolding parse_u_escape encode_utf8
next_escape [] = none
next_escape (e ∷ s) = elim (e == b'u') [
  | true ↦ do (c, s') ← parse_u_escape s; some (bytes (encode_utf8 c), s')
  | false ↦ do c ← simple_escape e; some (bytes (c ∷ []), s)
]

unfoldable pub next_piece : List ℕ → Option (Piece × List ℕ)
unfolding next_escape
next_piece [] = none
next_piece (b ∷ s) =
    if b == 34
    then some (close, s)
    else if b == 92
    then next_escape s
    else if ltb b 0x20
    then none
    else some (bytes (b ∷ []), s)

-- The loop of `parse_string`: each round takes a byte at least, so the bytes left are fuel enough.
unfoldable pub string_body : ℕ → List ℕ → Option (List ℕ × List ℕ)
unfolding next_piece
string_body zero s = none
string_body (suc fuel) s = next_piece s >>= λ (p, s'). elim p [
  | close ↦ some ([], s')
  | bytes bs ↦ string_body fuel s' >>= λ (out, s''). some (bs ++ out, s'')
]

-- `String::from_utf8` is the test `is_utf8` on bytes.
module _ (is_utf8 : List ℕ → Bool) where
  unfoldable pub parse_string : List ℕ → Option (List ℕ × List ℕ)
  unfolding expect_byte string_body
  parse_string s = do
    s₁ ← expect_byte 34 s
    (out, s₂) ← string_body (suc (length s₁)) s₁
    _ ← require (is_utf8 out)
    some (out, s₂)
