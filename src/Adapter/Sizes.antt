-- ===== src/Adapter/Sizes.antt =====
-- The length of a written document, its depth and its members.
use x07_wasm_backend.Common.{
  ℕ, suc, ◌+◌, ◌≤◌, ◌<◌, List, [], ◌∷◌, ◌++◌, Bool, true, false, arith, length, length-append,
}
use x07_wasm_backend.Common.Decimal.{to_decimal}
use x07_wasm_backend.Adapter.Write.{json_string}
use x07_wasm_backend.Adapter.Glyphs.{length-glyphs_onto}
use x07_wasm_backend.Adapter.Document.{
  Blank, blanks, Sign, unsigned, plus, minus, sign_onto, Exponent, no_exponent, small_e, large_e,
  exponent_onto, fraction_onto, minus_onto, Numeral, numeral_onto, Doc, Docs, Fields, null, boolean,
  Text, json, spelled, text_onto, quoted, number, numeral, blank_array, array, blank_object, object,
  spaced_doc, no_docs, spaced_field, no_fields, onto, docs_onto, fields_onto, depth, docs_depth,
  fields_depth,
}

unfoldable pub docs_count : Docs → ℕ
docs_count no_docs = 0
docs_count (spaced_doc bs d cs ds) = suc (docs_count ds)

unfoldable pub fields_count : Fields → ℕ
fields_count no_fields = 0
fields_count (spaced_field ws k bs cs d ds fs) = suc (fields_count fs)

pub length-blanks : (bs : List Blank) (t : List ℕ) → length t ≤ length (blanks bs t)
length-blanks [] t = omega arith
length-blanks (b ∷ bs) t = omega (arith, length-blanks bs t)

sign_bound : (s : Sign) (t : List ℕ) → length t ≤ length (sign_onto s t)
sign_bound unsigned t = omega arith
sign_bound plus t = omega arith
sign_bound minus t = omega arith

exponent_bound : (e : Exponent) (t : List ℕ) → length t ≤ length (exponent_onto e t)
exponent_bound no_exponent t = omega arith
exponent_bound (small_e s ds) t = omega (arith, sign_bound s (ds ++ t), length-append ds t)
exponent_bound (large_e s ds) t = omega (arith, sign_bound s (ds ++ t), length-append ds t)

fraction_bound : (ds t : List ℕ) → length t ≤ length (fraction_onto ds t)
fraction_bound [] t = omega arith
fraction_bound (d ∷ ds) t = omega (arith, length-append ds t)

minus_bound : (negative : Bool) (t : List ℕ) → length t ≤ length (minus_onto negative t)
minus_bound true t = omega arith
minus_bound false t = omega arith

numeral_bound : (n : Numeral) (t : List ℕ) → length t ≤ length (numeral_onto n t)
numeral_bound n t =
    let u = fraction_onto n.fraction (exponent_onto n.exponent t) in
    omega (
      arith,
      exponent_bound n.exponent t,
      fraction_bound n.fraction (exponent_onto n.exponent t),
      length-append (to_decimal n.whole) u,
      minus_bound n.negative (to_decimal n.whole ++ u),
    )

length-text_onto : (x : Text) (t : List ℕ) → length t ≤ length (text_onto x t)
length-text_onto (json s) t = omega (arith, length-append (json_string s) t)
length-text_onto (spelled gs) t = omega (arith, length-glyphs_onto gs t)

-- A member is longer than its value and what is behind it.
member_bound :
    (ws : List Blank) (k : Text) (bs cs : List Blank) (t : List ℕ)
    → length t < length (blanks ws (text_onto k (blanks bs (58 ∷ blanks cs t))))
member_bound ws k bs cs t = omega (
  arith,
  length-blanks ws (text_onto k (blanks bs (58 ∷ blanks cs t))),
  length-text_onto k (blanks bs (58 ∷ blanks cs t)),
  length-blanks bs (58 ∷ blanks cs t),
  length-blanks cs t,
)

mutual
  unfolding onto depth

  depth_bound : (d : Doc) (rest : List ℕ) → depth d + length rest ≤ length (onto d rest)
  depth_bound null rest = omega arith
  depth_bound (boolean true) rest = omega arith
  depth_bound (boolean false) rest = omega arith
  depth_bound (quoted x) rest = omega (arith, length-text_onto x rest)
  depth_bound (number n) rest = omega (arith, length-append (to_decimal n) rest)
  depth_bound (numeral n) rest = omega (arith, numeral_bound n rest)
  depth_bound (blank_array bs) rest = omega (arith, length-blanks bs (93 ∷ rest))
  depth_bound (array no_docs) rest = omega arith
  depth_bound (array (spaced_doc bs d cs ds)) rest =
      let t = blanks cs (docs_onto ds rest) in
      omega (
        arith,
        length-blanks bs (onto d t),
        depth_bound d t,
        length-blanks cs (docs_onto ds rest),
        docs_bound ds rest,
      )
  depth_bound (blank_object bs) rest = omega (arith, length-blanks bs (125 ∷ rest))
  depth_bound (object no_fields) rest = omega arith
  depth_bound (object (spaced_field ws k bs cs d ds fs)) rest =
      let t = blanks ds (fields_onto fs rest) in
      omega (
        arith,
        member_bound ws k bs cs (onto d t),
        depth_bound d t,
        length-blanks ds (fields_onto fs rest),
        fields_bound fs rest,
      )

  docs_bound :
      (ds : Docs) (rest : List ℕ) → docs_depth ds + length rest < length (docs_onto ds rest)
  docs_bound no_docs rest = omega arith
  docs_bound (spaced_doc bs d cs ds) rest =
      let t = blanks cs (docs_onto ds rest) in
      omega (
        arith,
        length-blanks bs (onto d t),
        depth_bound d t,
        length-blanks cs (docs_onto ds rest),
        docs_bound ds rest,
      )

  fields_bound :
      (fs : Fields) (rest : List ℕ) → fields_depth fs + length rest < length (fields_onto fs rest)
  fields_bound no_fields rest = omega arith
  fields_bound (spaced_field ws k bs cs d ds fs) rest =
      let t = blanks ds (fields_onto fs rest) in
      omega (
        arith,
        member_bound ws k bs cs (onto d t),
        depth_bound d t,
        length-blanks ds (fields_onto fs rest),
        fields_bound fs rest,
      )

pub depth-le-length : (d : Doc) (rest : List ℕ) → depth d ≤ length (onto d rest)
depth-le-length d rest = omega (arith, depth_bound d rest)

pub length-onto : (d : Doc) (rest : List ℕ) → length rest ≤ length (onto d rest)
length-onto d rest = omega (arith, depth_bound d rest)

pub docs_count-le : (ds : Docs) (rest : List ℕ) → docs_count ds ≤ length (docs_onto ds rest)
unfolding docs_count onto
docs_count-le no_docs rest = omega arith
docs_count-le (spaced_doc bs d cs ds) rest =
    let t = blanks cs (docs_onto ds rest) in
    omega (
      arith,
      docs_count-le ds rest,
      length-blanks cs (docs_onto ds rest),
      length-onto d t,
      length-blanks bs (onto d t),
    )

pub fields_count-le : (fs : Fields) (rest : List ℕ) → fields_count fs ≤ length (fields_onto fs rest)
unfolding fields_count onto
fields_count-le no_fields rest = omega arith
fields_count-le (spaced_field ws k bs cs d ds fs) rest =
    let t = blanks ds (fields_onto fs rest) in
    omega (
      arith,
      fields_count-le fs rest,
      length-blanks ds (fields_onto fs rest),
      length-onto d t,
      member_bound ws k bs cs (onto d t),
    )

-- What an element or a member has behind it is shorter than they are.
pub docs_count-element :
    (ds : Docs) (d : Doc) (bs cs : List Blank) (rest : List ℕ)
    → docs_count ds ≤ length (blanks bs (onto d (blanks cs (docs_onto ds rest))))
docs_count-element ds d bs cs rest =
    let t = blanks cs (docs_onto ds rest) in
    omega (
      arith,
      docs_count-le ds rest,
      length-blanks cs (docs_onto ds rest),
      length-onto d t,
      length-blanks bs (onto d t),
    )

pub fields_count-member :
    (fs : Fields) (ws : List Blank) (k : Text) (bs cs : List Blank) (d : Doc) (ds : List Blank)
    (rest : List ℕ)
    → fields_count fs
      ≤ length (
          blanks ws
            (text_onto k (blanks bs (58 ∷ blanks cs (onto d (blanks ds (fields_onto fs rest)))))))
fields_count-member fs ws k bs cs d ds rest =
    let t = blanks ds (fields_onto fs rest) in
    omega (
      arith,
      fields_count-le fs rest,
      length-blanks ds (fields_onto fs rest),
      length-onto d t,
      member_bound ws k bs cs (onto d t),
    )
