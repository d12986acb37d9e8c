-- ===== src/Common/Bits.antt =====
-- `bit_and` and `bit_or` at variables: the digit recursion behind them, low masks and fields.
use Prim.Native.Nat.{
  ℕ, zero, suc, ◌+◌, ◌-◌, ◌*◌, ◌/◌, ◌%◌, ◌^◌, ◌≤◌, ◌<◌, min, max, bit_and, bit_or, digits,
  bit_and-bitwise, bit_or-bitwise,
}
use mathlib.Core.Path.{◌≡◌, refl, ap, ◌∙◌}
use native.Mathlib.Decide.{dec_le}
use native.Mathlib.Nat.{pow-suc, one-le-pow}
use native.Mathlib.Omega.{arith}

module _ (rest : ℕ → ℕ) (join : ℕ → ℕ → ℕ) where
  -- Once the first number has run out, one more round of digits changes nothing.
  spare_digit : (n a b : ℕ) → a ≤ n → digits rest join (suc n) a b ≡ digits rest join n a b
  spare_digit zero zero b h = refl
  spare_digit zero (suc a) b h = absurd (omega arith)
  spare_digit (suc n) zero b h = refl
  spare_digit (suc n) (suc a) b h =
      ap (λ (t : ℕ). t * 2 + join (suc a % 2) (b % 2))
        (spare_digit n (suc a / 2) (b / 2) (omega arith))

  spare_digits : (m n a b : ℕ) → a ≤ n → n ≤ m → digits rest join m a b ≡ digits rest join n a b
  spare_digits zero n a b h k = let e : n ≡ 0 = omega arith in rw e
  spare_digits (suc m) n a b h k = elim (dec_le n m) [
    | yes l ↦ spare_digit m a b (omega arith) ∙ spare_digits m n a b h l
    | no l ↦ let e : n ≡ suc m = omega arith in rw e
  ]

  lowest_digit :
      (a b : ℕ)
      → digits rest join (suc a) (suc a) b
        ≡ digits rest join (suc a / 2) (suc a / 2) (b / 2) * 2 + join (suc a % 2) (b % 2)
  lowest_digit a b =
      ap (λ (t : ℕ). t * 2 + join (suc a % 2) (b % 2))
        (spare_digits a (suc a / 2) (suc a / 2) (b / 2) (omega arith) (omega arith))

-- The lowest digit of a result, and the digits above it.
pub bit_and_step : (a b : ℕ) → bit_and a b ≡ bit_and (a / 2) (b / 2) * 2 + min (a % 2) (b % 2)
bit_and_step zero b = omega (arith, bit_and-bitwise 0 b, bit_and-bitwise 0 (b / 2))
bit_and_step (suc a) b = omega (
  arith,
  bit_and-bitwise (suc a) b,
  bit_and-bitwise (suc a / 2) (b / 2),
  lowest_digit (λ d. zero) min a b,
)

pub bit_or_step : (a b : ℕ) → bit_or a b ≡ bit_or (a / 2) (b / 2) * 2 + max (a % 2) (b % 2)
bit_or_step zero b = omega (arith, bit_or-bitwise 0 b, bit_or-bitwise 0 (b / 2))
bit_or_step (suc a) b = omega (
  arith,
  bit_or-bitwise (suc a) b,
  bit_or-bitwise (suc a / 2) (b / 2),
  lowest_digit (λ d. d) max a b,
)

bit_and-zero_below : (n a : ℕ) → a ≤ n → bit_and a 0 ≡ 0
bit_and-zero_below n zero h = bit_and-bitwise 0 0
bit_and-zero_below zero (suc a) h = absurd (omega arith)
bit_and-zero_below (suc n) (suc a) h =
    omega (arith, bit_and_step (suc a) 0, bit_and-zero_below n (suc a / 2) (omega arith))

pub bit_and-zero : (a : ℕ) → bit_and a 0 ≡ 0
bit_and-zero a = bit_and-zero_below a a (omega arith)

bit_or-zero_below : (n a : ℕ) → a ≤ n → bit_or a 0 ≡ a
bit_or-zero_below n zero h = bit_or-bitwise 0 0
bit_or-zero_below zero (suc a) h = absurd (omega arith)
bit_or-zero_below (suc n) (suc a) h =
    omega (arith, bit_or_step (suc a) 0, bit_or-zero_below n (suc a / 2) (omega arith))

-- A mask of `k` ones keeps a number of `k` digits.
pub bit_and_ones : (k a : ℕ) → a < 2 ^ k → bit_and a (2 ^ k - 1) ≡ a
bit_and_ones zero a h = let e : a ≡ 0 = omega arith in rw e (bit_and-bitwise 0 0)
bit_and_ones (suc k) a h =
    let half : (2 ^ suc k - 1) / 2 ≡ 2 ^ k - 1 = omega (arith, pow-suc 2 k, one-le-pow k 2) in
    let odd : (2 ^ suc k - 1) % 2 ≡ 1 = omega (arith, pow-suc 2 k, one-le-pow k 2) in
    let above : bit_and (a / 2) ((2 ^ suc k - 1) / 2) ≡ a / 2 =
      rw half (bit_and_ones k (a / 2) (omega (arith, pow-suc 2 k))) in
    omega (arith, bit_and_step a (2 ^ suc k - 1))

-- One more one below a mask keeps one more digit.
bit_and_odd : (a m : ℕ) → bit_and a (2 * m + 1) ≡ bit_and (a / 2) m * 2 + a % 2
bit_and_odd a m =
    let half : (2 * m + 1) / 2 ≡ m = omega arith in
    omega (arith, bit_and_step a (2 * m + 1), ap (λ (t : ℕ). bit_and (a / 2) t) half)

bit_and_nibble : (a : ℕ) → bit_and a 0xf ≡ a % 16
bit_and_nibble a = omega (
  arith,
  bit_and_odd a 7,
  bit_and_odd (a / 2) 3,
  bit_and_odd (a / 2 / 2) 1,
  bit_and_odd (a / 2 / 2 / 2) 0,
  bit_and-zero (a / 2 / 2 / 2 / 2),
)

-- The low byte.
pub bit_and_byte : (a : ℕ) → bit_and a 0xff ≡ a % 256
bit_and_byte a = omega (
  arith,
  bit_and_odd a 0x7f,
  bit_and_odd (a / 2) 0x3f,
  bit_and_odd (a / 2 / 2) 0x1f,
  bit_and_odd (a / 2 / 2 / 2) 0xf,
  bit_and_nibble (a / 2 / 2 / 2 / 2),
)

-- The complement of 7 in a word of 64 bits rounds down to a multiple of 8.
pub bit_and_not_seven : (a : ℕ) → a < 2 ^ 64 → bit_and a (2 ^ 64 - 1 - 7) ≡ a - a % 8
bit_and_not_seven a h = omega (
  arith,
  bit_and_step a (2 ^ 64 - 1 - 7),
  bit_and_step (a / 2) (2 ^ 63 - 4),
  bit_and_step (a / 2 / 2) (2 ^ 62 - 2),
  bit_and_ones 61 (a / 2 / 2 / 2) (omega arith),
)

-- A number below `2 ^ k` fills the low digits of a multiple of `2 ^ k`.
pub bit_or_low : (k q r : ℕ) → r < 2 ^ k → bit_or (q * 2 ^ k) r ≡ q * 2 ^ k + r
bit_or_low zero q r h = let e : r ≡ 0 = ground arith in rw e (ground (arith, bit_or-zero_below q q))
bit_or_low (suc k) q r h = ground (
  arith,
  pow-suc 2 k,
  ap (λ (t : ℕ). q * t) (pow-suc 2 k),
  bit_or_step (q * 2 ^ suc k) r,
  bit_or_low k q (r / 2),
)
