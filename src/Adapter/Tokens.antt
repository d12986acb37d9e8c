-- ===== src/Adapter/Tokens.antt =====
-- `skip_value` at the first byte of a document: texts, numbers and words, and the brackets around the rest.
use x07_wasm_backend.Common.{
  ℕ, suc, ◌≡◌, refl, sym, ap, ◌∙◌, Bool, true, false, Option, some, List, ◌∷◌, ◌++◌, codes, arith,
  is_digit, length,
}
use x07_wasm_backend.Common.Chain.{◌>>=◌}
use x07_wasm_backend.Common.Decimal.{to_decimal, first_digit}
use x07_wasm_backend.Adapter.Cursor.{peeks, skip_ws, expect_byte, expect_bytes}
use x07_wasm_backend.Adapter.Envelope.{
  members, elements, skip_number, object_rest, array_rest, skip_object, skip_array, skip_string,
  skip_by, skip_value_at,
}
use x07_wasm_backend.Adapter.Numerals.{skip_number-numeral_onto, skip_number-to_decimal}
use x07_wasm_backend.Adapter.Document.{
  Text, text_onto, IsText, quoted, Blank, blanks, Numeral, exponent_onto, fraction_onto, minus_onto,
  numeral_onto, IsNumeral, Doc, null, boolean, number, numeral, blank_array, array, blank_object,
  object, spaced_doc, no_docs, spaced_field, no_fields, onto, delimits,
}
use x07_wasm_backend.Adapter.Loops.{
  text_onto-IsSolid, quoted-text_onto, parse_string-text_onto, IsSolid, onto-IsSolid,
  skip_blanks-solid,
}

module _ (is_utf8 : List ℕ → Bool) where
  -- The members' reader in `skip_object`, and the elements' in `skip_array`.
  abbrev pub skip_member : ℕ → List ℕ → Unit {0} → List ℕ → Option (Unit {0} × List ℕ)
  skip_member fuel key acc s = skip_value_at is_utf8 fuel s >>= λ s'. some (acc, s')

  abbrev pub skip_element : ℕ → Unit {0} → List ℕ → Option (Unit {0} × List ℕ)
  skip_element fuel acc s = skip_value_at is_utf8 fuel s >>= λ s'. some (acc, s')

  at_quote :
      (fuel : ℕ) (t : List ℕ)
      → skip_value_at is_utf8 (suc fuel) (34 ∷ t) ≡ skip_string is_utf8 (34 ∷ t)
  unfolding skip_value_at skip_by skip_ws
  at_quote fuel t = refl

  at_digit :
      (fuel c : ℕ) (cs : List ℕ)
      → is_digit c ≡ true
      → skip_value_at is_utf8 (suc fuel) (c ∷ cs) ≡ skip_number (c ∷ cs)
  unfolding skip_value_at skip_by skip_ws
  at_digit fuel c cs h = ground arith

  at_brace :
      (fuel : ℕ) (bs : List Blank) (t : List ℕ)
      → IsSolid t
      → skip_value_at is_utf8 (suc fuel) (123 ∷ blanks bs t)
        ≡ object_rest is_utf8 (skip_value_at is_utf8 fuel) (peeks 125 t) t
  unfolding skip_value_at skip_by skip_ws skip_object expect_byte
  at_brace fuel bs t solid = rw (skip_blanks-solid bs t solid) refl

  at_bracket :
      (fuel : ℕ) (bs : List Blank) (t : List ℕ)
      → IsSolid t
      → skip_value_at is_utf8 (suc fuel) (91 ∷ blanks bs t)
        ≡ array_rest is_utf8 (skip_value_at is_utf8 fuel) (peeks 93 t) t
  unfolding skip_value_at skip_by skip_ws skip_array expect_byte
  at_bracket fuel bs t solid = rw (skip_blanks-solid bs t solid) refl

  pub skip_text :
      (fuel : ℕ) (x : Text) (rest : List ℕ)
      → IsText is_utf8 x
      → skip_value_at is_utf8 (suc fuel) (text_onto x rest) ≡ some rest
  unfolding skip_string
  skip_text fuel x rest h =
      let (t, form) = quoted-text_onto x rest in
      ap (skip_value_at is_utf8 (suc fuel)) form
      ∙ (at_quote fuel t
          ∙ (ap (skip_string is_utf8) (sym form)
              ∙ rw (parse_string-text_onto is_utf8 x rest h) refl))

  pub skip_decimal :
      (fuel n : ℕ) (rest : List ℕ)
      → delimits rest ≡ true
      → skip_value_at is_utf8 (suc fuel) (to_decimal n ++ rest) ≡ some rest
  skip_decimal fuel n rest d =
      let (c, cs, form, digit) = first_digit n in
      let t : to_decimal n ++ rest ≡ c ∷ (cs ++ rest) = ap (λ u. u ++ rest) form in
      ap (skip_value_at is_utf8 (suc fuel)) t
      ∙ (at_digit fuel c (cs ++ rest) digit
          ∙ (ap skip_number (sym t) ∙ skip_number-to_decimal n rest d))

  at_minus :
      (fuel : ℕ) (negative : Bool) (whole : ℕ) (t : List ℕ)
      → skip_value_at is_utf8 (suc fuel) (minus_onto negative (to_decimal whole ++ t))
        ≡ skip_number (minus_onto negative (to_decimal whole ++ t))
  unfolding skip_value_at skip_by skip_ws
  at_minus fuel true whole t = refl
  at_minus fuel false whole t =
      let (c, cs, form, digit) = first_digit whole in
      let u : to_decimal whole ++ t ≡ c ∷ (cs ++ t) = ap (λ u. u ++ t) form in
      ap (skip_value_at is_utf8 (suc fuel)) u
      ∙ (at_digit fuel c (cs ++ t) digit ∙ ap skip_number (sym u))

  pub skip_numeral :
      (fuel : ℕ) (n : Numeral) (rest : List ℕ)
      → IsNumeral n
      → delimits rest ≡ true
      → skip_value_at is_utf8 (suc fuel) (numeral_onto n rest) ≡ some rest
  skip_numeral fuel n rest h d =
      at_minus fuel n.negative n.whole (fraction_onto n.fraction (exponent_onto n.exponent rest))
      ∙ skip_number-numeral_onto n rest h d

  pub skip_null :
      (fuel : ℕ) (rest : List ℕ)
      → skip_value_at is_utf8 (suc fuel) (codes "null" ++ rest) ≡ some rest
  unfolding skip_value_at skip_by skip_ws expect_bytes expect_byte
  skip_null fuel rest = refl

  pub skip_true :
      (fuel : ℕ) (rest : List ℕ)
      → skip_value_at is_utf8 (suc fuel) (codes "true" ++ rest) ≡ some rest
  unfolding skip_value_at skip_by skip_ws expect_bytes expect_byte
  skip_true fuel rest = refl

  pub skip_false :
      (fuel : ℕ) (rest : List ℕ)
      → skip_value_at is_utf8 (suc fuel) (codes "false" ++ rest) ≡ some rest
  unfolding skip_value_at skip_by skip_ws expect_bytes expect_byte
  skip_false fuel rest = refl

  not_closed : (k : Text) (t : List ℕ) → peeks 125 (text_onto k t) ≡ false
  not_closed k t = let (u, form) = quoted-text_onto k t in rw form refl

  numeral_not_ended : (n : Numeral) (rest : List ℕ) → peeks 93 (numeral_onto n rest) ≡ false
  numeral_not_ended n rest =
      after_minus n.negative n.whole (fraction_onto n.fraction (exponent_onto n.exponent rest))
    where
      after_minus :
          (negative : Bool) (whole : ℕ) (t : List ℕ)
          → peeks 93 (minus_onto negative (to_decimal whole ++ t)) ≡ false
      after_minus true whole t = refl
      after_minus false whole t =
          let (c, cs, form, digit) = first_digit whole in rw form (ground (arith, digit))

  not_ended : (d : Doc) (rest : List ℕ) → peeks 93 (onto d rest) ≡ false
  unfolding onto
  not_ended null rest = refl
  not_ended (boolean true) rest = refl
  not_ended (boolean false) rest = refl
  not_ended (quoted x) rest = let (t, form) = quoted-text_onto x rest in rw form refl
  not_ended (number n) rest =
      let (c, cs, form, digit) = first_digit n in rw form (ground (arith, digit))
  not_ended (numeral n) rest = numeral_not_ended n rest
  not_ended (blank_array bs) rest = refl
  not_ended (array no_docs) rest = refl
  not_ended (array (spaced_doc bs d cs ds)) rest = refl
  not_ended (blank_object bs) rest = refl
  not_ended (object no_fields) rest = refl
  not_ended (object (spaced_field ws k bs cs d ds fs)) rest = refl

  -- An array with elements: they are read by the loop.
  pub skip_elements :
      (fuel : ℕ) (bs : List Blank) (d : Doc) (t rest : List ℕ)
      → elements is_utf8 (suc (length (onto d t))) (skip_element fuel) tt (onto d t)
        ≡ some (tt, rest)
      → skip_value_at is_utf8 (suc fuel) (91 ∷ blanks bs (onto d t)) ≡ some rest
  unfolding array_rest
  skip_elements fuel bs d t rest h =
      at_bracket fuel bs (onto d t) (onto-IsSolid d t) ∙ rw (not_ended d t) (rw h refl)

  pub skip_members :
      (fuel : ℕ) (ws : List Blank) (k : Text) (t rest : List ℕ)
      → members is_utf8 (suc (length (text_onto k t))) (skip_member fuel) tt (text_onto k t)
        ≡ some (tt, rest)
      → skip_value_at is_utf8 (suc fuel) (123 ∷ blanks ws (text_onto k t)) ≡ some rest
  unfolding object_rest
  skip_members fuel ws k t rest h =
      at_brace fuel ws (text_onto k t) (text_onto-IsSolid k t) ∙ rw (not_closed k t) (rw h refl)

  pub skip_empty_array :
      (fuel : ℕ) (bs : List Blank) (rest : List ℕ)
      → skip_value_at is_utf8 (suc fuel) (91 ∷ blanks bs (93 ∷ rest)) ≡ some rest
  unfolding array_rest
  skip_empty_array fuel bs rest = at_bracket fuel bs (93 ∷ rest) (unfold skip_ws in refl)

  pub skip_empty_object :
      (fuel : ℕ) (bs : List Blank) (rest : List ℕ)
      → skip_value_at is_utf8 (suc fuel) (123 ∷ blanks bs (125 ∷ rest)) ≡ some rest
  unfolding object_rest
  skip_empty_object fuel bs rest = at_brace fuel bs (125 ∷ rest) (unfold skip_ws in refl)
