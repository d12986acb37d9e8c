-- ===== src/Adapter/Loops.antt =====
-- The loops over members and elements, one round at a time, and the texts and numbers at the front.
use x07_wasm_backend.Common.{
  ℕ, suc, ◌≡◌, refl, ◌∙◌, Bool, true, false, [], Option, some, List, ◌∷◌, ◌++◌, arith, is_digit,
}
use x07_wasm_backend.Common.Decimal.{to_decimal, first_digit}
use x07_wasm_backend.Adapter.Write.{json_string}
use x07_wasm_backend.Adapter.Cursor.{skip_ws, expect_byte}
use x07_wasm_backend.Adapter.Strings.{quoted-json_string, parse_string-json_string}
use x07_wasm_backend.Adapter.Envelope.{Member, separator, members, elements}
use x07_wasm_backend.Adapter.Cursor.{parse_string}
use x07_wasm_backend.Adapter.Write.{escape}
use x07_wasm_backend.Adapter.Glyphs.{glyphs_onto, parse_string-glyphs_onto}
use x07_wasm_backend.Adapter.Document.{
  Blank, space, newline, return, tab, blanks, exponent_onto, fraction_onto, minus_onto, Numeral,
  numeral_onto, Doc, null, boolean, Text, json, spelled, text_onto, text_bytes, IsText, quoted,
  number, numeral, blank_array, array, blank_object, object, spaced_doc, no_docs, spaced_field,
  no_fields, onto,
}

-- Nothing is skipped.
abbrev pub IsSolid : List ℕ → Type 0
IsSolid s = skip_ws s ≡ s

pub json_string-IsSolid : (s rest : List ℕ) → IsSolid (json_string s ++ rest)
unfolding skip_ws
json_string-IsSolid s rest = rw (quoted-json_string s rest) refl

pub digit-IsSolid : (c : ℕ) (cs : List ℕ) → is_digit c ≡ true → IsSolid (c ∷ cs)
unfolding skip_ws
digit-IsSolid c cs h = ground arith

pub to_decimal-IsSolid : (n : ℕ) (rest : List ℕ) → IsSolid (to_decimal n ++ rest)
to_decimal-IsSolid n rest =
    let (c, cs, form, digit) = first_digit n in rw form (digit-IsSolid c (cs ++ rest) digit)

numeral-IsSolid : (n : Numeral) (rest : List ℕ) → IsSolid (numeral_onto n rest)
numeral-IsSolid n rest =
    minus-IsSolid n.negative n.whole (fraction_onto n.fraction (exponent_onto n.exponent rest))
  where
    minus-IsSolid :
        (negative : Bool) (whole : ℕ) (t : List ℕ)
        → IsSolid (minus_onto negative (to_decimal whole ++ t))
    minus-IsSolid true whole t = unfold skip_ws in refl
    minus-IsSolid false whole t = to_decimal-IsSolid whole t

pub text_onto-IsSolid : (x : Text) (rest : List ℕ) → IsSolid (text_onto x rest)
text_onto-IsSolid (json s) rest = json_string-IsSolid s rest
text_onto-IsSolid (spelled gs) rest = unfold skip_ws in refl

-- A text starts with its quote.
pub quoted-text_onto : (x : Text) (rest : List ℕ) → (t : List ℕ) × (text_onto x rest ≡ 34 ∷ t)
quoted-text_onto (json s) rest = (escape s ++ 34 ∷ rest, quoted-json_string s rest)
quoted-text_onto (spelled gs) rest = (glyphs_onto gs rest, refl)

pub parse_string-text_onto :
    (is_utf8 : List ℕ → Bool) (x : Text) (rest : List ℕ)
    → IsText is_utf8 x
    → parse_string is_utf8 (text_onto x rest) ≡ some (text_bytes x, rest)
parse_string-text_onto is_utf8 (json s) rest h = parse_string-json_string is_utf8 s rest h
parse_string-text_onto is_utf8 (spelled gs) rest (k, h) =
    parse_string-glyphs_onto is_utf8 gs rest k h

pub onto-IsSolid : (d : Doc) (rest : List ℕ) → IsSolid (onto d rest)
unfolding onto
onto-IsSolid null rest = unfold skip_ws in refl
onto-IsSolid (boolean true) rest = unfold skip_ws in refl
onto-IsSolid (boolean false) rest = unfold skip_ws in refl
onto-IsSolid (quoted x) rest = text_onto-IsSolid x rest
onto-IsSolid (number n) rest = to_decimal-IsSolid n rest
onto-IsSolid (numeral n) rest = numeral-IsSolid n rest
onto-IsSolid (blank_array bs) rest = unfold skip_ws in refl
onto-IsSolid (array no_docs) rest = unfold skip_ws in refl
onto-IsSolid (array (spaced_doc bs d cs ds)) rest = unfold skip_ws in refl
onto-IsSolid (blank_object bs) rest = unfold skip_ws in refl
onto-IsSolid (object no_fields) rest = unfold skip_ws in refl
onto-IsSolid (object (spaced_field ws k bs cs d ds fs)) rest = unfold skip_ws in refl

-- White space is skipped.
pub skip_blanks : (bs : List Blank) (t : List ℕ) → skip_ws (blanks bs t) ≡ skip_ws t
unfolding skip_ws
skip_blanks [] t = refl
skip_blanks (space ∷ bs) t = skip_blanks bs t
skip_blanks (newline ∷ bs) t = skip_blanks bs t
skip_blanks (return ∷ bs) t = skip_blanks bs t
skip_blanks (tab ∷ bs) t = skip_blanks bs t

pub skip_blanks-solid : (bs : List Blank) (t : List ℕ) → IsSolid t → skip_ws (blanks bs t) ≡ t
skip_blanks-solid bs t solid = skip_blanks bs t ∙ solid

module _ (is_utf8 : List ℕ → Bool) where
  -- A round of `members` whose member is followed by a comma, with white space before the key, the colon,
  -- the value and the comma.
  pub members-next :
      {A : Type 0} (fuel : ℕ) (member : Member A) (acc acc' : A) (key s₀ u s₁ s₂ t s₃ rest : List ℕ)
      → skip_ws s₀ ≡ u
      → parse_string is_utf8 u ≡ some (key, s₁)
      → skip_ws s₁ ≡ 58 ∷ s₂
      → skip_ws s₂ ≡ t
      → member key acc t ≡ some (acc', s₃)
      → skip_ws s₃ ≡ 44 ∷ rest
      → members is_utf8 (suc fuel) member acc s₀ ≡ members is_utf8 fuel member acc' rest
  unfolding members expect_byte separator
  members-next fuel member acc acc' key s₀ u s₁ s₂ t s₃ rest e₀ read e₁ e₂ h e₃ =
      rw e₀ (rw read (rw e₁ (rw e₂ (rw h (rw e₃ refl)))))

  -- A round whose member is the last one.
  pub members-end :
      {A : Type 0} (fuel : ℕ) (member : Member A) (acc acc' : A) (key s₀ u s₁ s₂ t s₃ rest : List ℕ)
      → skip_ws s₀ ≡ u
      → parse_string is_utf8 u ≡ some (key, s₁)
      → skip_ws s₁ ≡ 58 ∷ s₂
      → skip_ws s₂ ≡ t
      → member key acc t ≡ some (acc', s₃)
      → skip_ws s₃ ≡ 125 ∷ rest
      → members is_utf8 (suc fuel) member acc s₀ ≡ some (acc', rest)
  unfolding members expect_byte separator
  members-end fuel member acc acc' key s₀ u s₁ s₂ t s₃ rest e₀ read e₁ e₂ h e₃ =
      rw e₀ (rw read (rw e₁ (rw e₂ (rw h (rw e₃ refl)))))

  pub elements-next :
      {A : Type 0} (fuel : ℕ) (element : A → List ℕ → Option (A × List ℕ)) (acc acc' : A)
      (s₀ t s₁ rest : List ℕ)
      → skip_ws s₀ ≡ t
      → element acc t ≡ some (acc', s₁)
      → skip_ws s₁ ≡ 44 ∷ rest
      → elements is_utf8 (suc fuel) element acc s₀ ≡ elements is_utf8 fuel element acc' rest
  unfolding elements separator
  elements-next fuel element acc acc' s₀ t s₁ rest e₀ h e₁ = rw e₀ (rw h (rw e₁ refl))

  pub elements-end :
      {A : Type 0} (fuel : ℕ) (element : A → List ℕ → Option (A × List ℕ)) (acc acc' : A)
      (s₀ t s₁ rest : List ℕ)
      → skip_ws s₀ ≡ t
      → element acc t ≡ some (acc', s₁)
      → skip_ws s₁ ≡ 93 ∷ rest
      → elements is_utf8 (suc fuel) element acc s₀ ≡ some (acc', rest)
  unfolding elements separator
  elements-end fuel element acc acc' s₀ t s₁ rest e₀ h e₁ = rw e₀ (rw h (rw e₁ refl))

  -- The same rounds with no white space.
  pub members-more :
      {A : Type 0} (fuel : ℕ) (member : Member A) (acc acc' : A) (key t rest : List ℕ)
      → is_utf8 key ≡ true
      → IsSolid t
      → member key acc t ≡ some (acc', 44 ∷ rest)
      → members is_utf8 (suc fuel) member acc (json_string key ++ 58 ∷ t)
        ≡ members is_utf8 fuel member acc' rest
  members-more fuel member acc acc' key t rest utf8 solid h =
      members-next fuel member acc acc' key _ _ (58 ∷ t) t t (44 ∷ rest) rest
        (json_string-IsSolid key (58 ∷ t)) (parse_string-json_string is_utf8 key (58 ∷ t) utf8)
        (unfold skip_ws in refl) solid h (unfold skip_ws in refl)

  pub members-last :
      {A : Type 0} (fuel : ℕ) (member : Member A) (acc acc' : A) (key t rest : List ℕ)
      → is_utf8 key ≡ true
      → IsSolid t
      → member key acc t ≡ some (acc', 125 ∷ rest)
      → members is_utf8 (suc fuel) member acc (json_string key ++ 58 ∷ t) ≡ some (acc', rest)
  members-last fuel member acc acc' key t rest utf8 solid h =
      members-end fuel member acc acc' key _ _ (58 ∷ t) t t (125 ∷ rest) rest
        (json_string-IsSolid key (58 ∷ t)) (parse_string-json_string is_utf8 key (58 ∷ t) utf8)
        (unfold skip_ws in refl) solid h (unfold skip_ws in refl)

  pub elements-more :
      {A : Type 0} (fuel : ℕ) (element : A → List ℕ → Option (A × List ℕ)) (acc acc' : A)
      (t rest : List ℕ)
      → IsSolid t
      → element acc t ≡ some (acc', 44 ∷ rest)
      → elements is_utf8 (suc fuel) element acc t ≡ elements is_utf8 fuel element acc' rest
  elements-more fuel element acc acc' t rest solid h =
      elements-next fuel element acc acc' t t (44 ∷ rest) rest solid h (unfold skip_ws in refl)

  pub elements-last :
      {A : Type 0} (fuel : ℕ) (element : A → List ℕ → Option (A × List ℕ)) (acc acc' : A)
      (t rest : List ℕ)
      → IsSolid t
      → element acc t ≡ some (acc', 93 ∷ rest)
      → elements is_utf8 (suc fuel) element acc t ≡ some (acc', rest)
  elements-last fuel element acc acc' t rest solid h =
      elements-end fuel element acc acc' t t (93 ∷ rest) rest solid h (unfold skip_ws in refl)
