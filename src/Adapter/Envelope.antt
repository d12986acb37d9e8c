-- ===== src/Adapter/Envelope.antt =====
-- `Cursor` of guest/http-adapter/src/lib.rs: values, and the solver's answers. The three loops over the
-- members of an object are one function, and so are the two over the elements of an array.
use x07_wasm_backend.Common.{
  ℕ, zero, suc, Bool, true, false, ◌||◌, Option, none, some, List, [], ◌∷◌, codes, ◌==◌, is_digit,
  length, if◌then◌else◌,
}
use x07_wasm_backend.Common.Chain.{◌>>=◌, require}
use x07_wasm_backend.Adapter.Cursor.{
  peek_byte, peeks, skip_ws, expect_byte, expect_bytes, starts_digit, parse_string,
}

-- A member's value is read into `acc` by its key.
abbrev pub Member : Type 0 → Type 0
Member A = List ℕ → A → List ℕ → Option (A × List ℕ)

-- After a member or an element: on behind a comma, or the end.
pub data Next : Type 0 where
  more finished : Next

unfoldable pub separator : ℕ → List ℕ → Option (Next × List ℕ)
separator last [] = none
separator last (b ∷ s) =
    if b == 44 then some (more, s) else if b == last then some (finished, s) else none

-- `while let Some(b) = self.peek_byte() { if !digit { break } .. }`
unfoldable pub skip_digits : List ℕ → List ℕ
skip_digits [] = []
skip_digits (b ∷ s) = if is_digit b then skip_digits s else b ∷ s

-- At least one digit.
unfoldable pub some_digits : List ℕ → Option (List ℕ)
unfolding skip_digits
some_digits s = require (starts_digit s) >>= λ _. some (skip_digits s)

abbrev pub drop_first : List ℕ → List ℕ
drop_first [] = []
drop_first (_ ∷ s) = s

unfoldable pub skip_fraction : List ℕ → Option (List ℕ)
unfolding some_digits
skip_fraction s = if peeks b'.' s then some_digits (drop_first s) else some s

unfoldable pub skip_exponent : List ℕ → Option (List ℕ)
unfolding some_digits
skip_exponent s =
    if peeks b'e' s || peeks b'E' s
    then some_digits (
        if peeks b'+' (drop_first s) || peeks b'-' (drop_first s)
        then drop_first (drop_first s)
        else drop_first s)
    else some s

unfoldable pub skip_number : List ℕ → Option (List ℕ)
unfolding some_digits skip_fraction skip_exponent
skip_number s = do
  s₁ ← some_digits (if peeks b'-' s then drop_first s else s)
  s₂ ← skip_fraction s₁
  skip_exponent s₂

module _ (is_utf8 : List ℕ → Bool) where
  -- The loop over the members of an object, behind its brace. A round takes a byte at least.
  unfoldable pub members : {A : Type 0} → ℕ → Member A → A → List ℕ → Option (A × List ℕ)
  unfolding skip_ws expect_byte parse_string separator
  members zero member acc s = none
  members (suc fuel) member acc s = do
    (key, s₁) ← parse_string is_utf8 (skip_ws s)
    s₂ ← expect_byte b':' (skip_ws s₁)
    (acc', s₃) ← member key acc (skip_ws s₂)
    (next, s₄) ← separator b'}' (skip_ws s₃)
    elim next [ more ↦ members fuel member acc' s₄ | finished ↦ some (acc', s₄) ]

  -- The loop over the elements of an array, behind its bracket.
  unfoldable pub elements :
      {A : Type 0} → ℕ → (A → List ℕ → Option (A × List ℕ)) → A → List ℕ → Option (A × List ℕ)
  unfolding skip_ws separator
  elements zero element acc s = none
  elements (suc fuel) element acc s = do
    (acc', s₁) ← element acc (skip_ws s)
    (next, s₂) ← separator b']' (skip_ws s₁)
    elim next [ more ↦ elements fuel element acc' s₂ | finished ↦ some (acc', s₂) ]

  -- The object behind its brace, which is empty or not.
  unfoldable pub object_rest : (List ℕ → Option (List ℕ)) → Bool → List ℕ → Option (List ℕ)
  unfolding members
  object_rest skip true s = some (drop_first s)
  object_rest skip false s =
      members (suc (length s)) (λ key acc s. skip s >>= λ s'. some (acc, s')) (tt {0}) s >>= λ r.
      some r.1

  unfoldable pub array_rest : (List ℕ → Option (List ℕ)) → Bool → List ℕ → Option (List ℕ)
  unfolding elements
  array_rest skip true s = some (drop_first s)
  array_rest skip false s =
      elements (suc (length s)) (λ acc s. skip s >>= λ s'. some (acc, s')) (tt {0}) s >>= λ r.
      some r.1

  -- `skip_object` and `skip_array`, with the reader of the values inside.
  unfoldable pub skip_object : (List ℕ → Option (List ℕ)) → List ℕ → Option (List ℕ)
  unfolding object_rest
  skip_object skip s =
      expect_byte b'{' s >>= λ s'. object_rest skip (peeks b'}' (skip_ws s')) (skip_ws s')

  unfoldable pub skip_array : (List ℕ → Option (List ℕ)) → List ℕ → Option (List ℕ)
  unfolding array_rest
  skip_array skip s =
      expect_byte b'[' s >>= λ s'. array_rest skip (peeks b']' (skip_ws s')) (skip_ws s')

  unfoldable pub skip_string : List ℕ → Option (List ℕ)
  skip_string s = parse_string is_utf8 s >>= λ r. some r.1

  -- `skip_value`, by the first byte, with the reader of the values inside.
  unfoldable pub skip_by : (List ℕ → Option (List ℕ)) → Option ℕ → List ℕ → Option (List ℕ)
  unfolding skip_object skip_array skip_string skip_number expect_bytes
  skip_by skip none s = none
  skip_by skip (some b) s =
      if b == b'{'
      then skip_object skip s
      else if b == b'['
      then skip_array skip s
      else if b == 34
      then skip_string s
      else if (b == b'-') || is_digit b
      then skip_number s
      else if b == b't'
      then expect_bytes (codes "true") s
      else if b == b'f'
      then expect_bytes (codes "false") s
      else if b == b'n'
      then expect_bytes (codes "null") s
      else none

  -- The fuel bounds the depth, and each level takes a byte.
  unfoldable pub skip_value_at : ℕ → List ℕ → Option (List ℕ)
  unfolding skip_by
  skip_value_at zero s = none
  skip_value_at (suc fuel) s = skip_by (skip_value_at fuel) (peek_byte (skip_ws s)) (skip_ws s)

  unfoldable pub skip_value : List ℕ → Option (List ℕ)
  unfolding skip_value_at
  skip_value s = skip_value_at (suc (length s)) s
