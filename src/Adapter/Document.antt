-- ===== src/Adapter/Document.antt =====
-- JSON documents (RFC 8259), as a description of what a solver may write and of what the adapter writes. A document is
-- written onto what follows it, with any white space between its tokens. Its texts have any escapes, or those
-- of `json_string`.
use x07_wasm_backend.Common.{
  ℕ, suc, ◌≡◌, Bool, true, false, ◌||◌, List, [], ◌∷◌, ◌++◌, ◌==◌, codes, All, is_digit,
}
use Prim.Native.Nat.{max}
use x07_wasm_backend.Common.Decimal.{to_decimal}
use x07_wasm_backend.Adapter.Write.{json_string}
use x07_wasm_backend.Adapter.Glyphs.{Glyph, IsGlyph, glyphs_onto, glyphs_bytes}
use x07_wasm_backend.Adapter.Cursor.{is_ws, starts_digit}

pub data Blank : Type 0 where
  space newline return tab : Blank

abbrev pub blank_byte : Blank → ℕ
blank_byte space = 32
blank_byte newline = 10
blank_byte return = 13
blank_byte tab = 9

-- White space before `rest`.
abbrev pub blanks : List Blank → List ℕ → List ℕ
blanks [] rest = rest
blanks (b ∷ bs) rest = blank_byte b ∷ blanks bs rest

pub data Sign : Type 0 where
  unsigned plus minus : Sign

pub data Exponent : Type 0 where
  no_exponent : Exponent
  small_e large_e : Sign → List ℕ → Exponent

-- A numeral that is no natural number: its digits before the point are those of `whole`, with no zero in front,
-- and where `fraction` is empty there is no point.
pub record Numeral : Type 0 where
  pub negative : Bool
  pub whole : ℕ
  pub fraction : List ℕ
  pub exponent : Exponent

abbrev pub sign_onto : Sign → List ℕ → List ℕ
sign_onto unsigned rest = rest
sign_onto plus rest = b'+' ∷ rest
sign_onto minus rest = b'-' ∷ rest

abbrev pub exponent_onto : Exponent → List ℕ → List ℕ
exponent_onto no_exponent rest = rest
exponent_onto (small_e sign digits) rest = b'e' ∷ sign_onto sign (digits ++ rest)
exponent_onto (large_e sign digits) rest = b'E' ∷ sign_onto sign (digits ++ rest)

abbrev pub fraction_onto : List ℕ → List ℕ → List ℕ
fraction_onto [] rest = rest
fraction_onto (d ∷ ds) rest = b'.' ∷ d ∷ (ds ++ rest)

abbrev pub minus_onto : Bool → List ℕ → List ℕ
minus_onto true rest = b'-' ∷ rest
minus_onto false rest = rest

abbrev pub numeral_onto : Numeral → List ℕ → List ℕ
numeral_onto n rest =
    minus_onto n.negative
      (to_decimal n.whole ++ fraction_onto n.fraction (exponent_onto n.exponent rest))

-- Digits, and at least one.
abbrev pub AreDigits : List ℕ → Type 0
AreDigits ds = All (λ d. is_digit d ≡ true) ds

abbrev pub IsExponent : Exponent → Type 0
IsExponent no_exponent = Unit
IsExponent (small_e sign ds) = (starts_digit ds ≡ true) × AreDigits ds
IsExponent (large_e sign ds) = (starts_digit ds ≡ true) × AreDigits ds

abbrev pub IsNumeral : Numeral → Type 0
IsNumeral n = AreDigits n.fraction × IsExponent n.exponent

-- A text as the adapter writes it, or with any escapes.
pub data Text : Type 0 where
  json : List ℕ → Text
  spelled : List Glyph → Text

abbrev pub text_onto : Text → List ℕ → List ℕ
text_onto (json s) rest = json_string s ++ rest
text_onto (spelled gs) rest = 34 ∷ glyphs_onto gs rest

abbrev pub text_bytes : Text → List ℕ
text_bytes (json s) = s
text_bytes (spelled gs) = glyphs_bytes gs

abbrev pub IsText : (List ℕ → Bool) → Text → Type 0
IsText is_utf8 (json s) = is_utf8 s ≡ true
IsText is_utf8 (spelled gs) = All IsGlyph gs × (is_utf8 (glyphs_bytes gs) ≡ true)

mutual
  pub data Doc : Type 0 where
    null : Doc
    boolean : Bool → Doc
    quoted : Text → Doc
    number : ℕ → Doc
    numeral : Numeral → Doc
    blank_array : List Blank → Doc
    array : Docs → Doc
    blank_object : List Blank → Doc
    object : Fields → Doc

  -- Each element has white space on both sides.
  pub data Docs : Type 0 where
    no_docs : Docs
    spaced_doc : List Blank → Doc → List Blank → Docs → Docs

  -- A member has white space before its key, before and behind its colon, and behind its value.
  pub data Fields : Type 0 where
    no_fields : Fields
    spaced_field : List Blank → Text → List Blank → List Blank → Doc → List Blank → Fields → Fields

abbrev pub text : List ℕ → Doc
text s = quoted (json s)

abbrev pub doc : Doc → Docs → Docs
doc d ds = spaced_doc [] d [] ds

abbrev pub field : List ℕ → Doc → Fields → Fields
field k d fs = spaced_field [] (json k) [] [] d [] fs

unfoldable mutual
  pub onto : Doc → List ℕ → List ℕ
  onto null rest = codes "null" ++ rest
  onto (boolean true) rest = codes "true" ++ rest
  onto (boolean false) rest = codes "false" ++ rest
  onto (quoted x) rest = text_onto x rest
  onto (number n) rest = to_decimal n ++ rest
  onto (numeral n) rest = numeral_onto n rest
  onto (blank_array bs) rest = 91 ∷ blanks bs (93 ∷ rest)
  onto (array no_docs) rest = 91 ∷ 93 ∷ rest
  onto (array (spaced_doc bs d cs ds)) rest =
      91 ∷ blanks bs (onto d (blanks cs (docs_onto ds rest)))
  onto (blank_object bs) rest = 123 ∷ blanks bs (125 ∷ rest)
  onto (object no_fields) rest = 123 ∷ 125 ∷ rest
  onto (object (spaced_field ws k bs cs d ds fs)) rest =
      123
      ∷ blanks ws
          (text_onto k (blanks bs (58 ∷ blanks cs (onto d (blanks ds (fields_onto fs rest))))))

  -- What stands behind an element, or a member.
  pub docs_onto : Docs → List ℕ → List ℕ
  docs_onto no_docs rest = 93 ∷ rest
  docs_onto (spaced_doc bs d cs ds) rest = 44 ∷ blanks bs (onto d (blanks cs (docs_onto ds rest)))

  pub fields_onto : Fields → List ℕ → List ℕ
  fields_onto no_fields rest = 125 ∷ rest
  fields_onto (spaced_field ws k bs cs d ds fs) rest =
      44
      ∷ blanks ws
          (text_onto k (blanks bs (58 ∷ blanks cs (onto d (blanks ds (fields_onto fs rest))))))

unfoldable mutual
  pub depth : Doc → ℕ
  depth null = 0
  depth (boolean b) = 0
  depth (quoted x) = 0
  depth (number n) = 0
  depth (numeral n) = 0
  depth (blank_array bs) = 0
  depth (array ds) = suc (docs_depth ds)
  depth (blank_object bs) = 0
  depth (object fs) = suc (fields_depth fs)

  pub docs_depth : Docs → ℕ
  docs_depth no_docs = 0
  docs_depth (spaced_doc bs d cs ds) = max (depth d) (docs_depth ds)

  pub fields_depth : Fields → ℕ
  fields_depth no_fields = 0
  fields_depth (spaced_field ws k bs cs d ds fs) = max (depth d) (fields_depth fs)

-- All texts of a document pass the test, and the digits of its numerals are digits.
unfoldable mutual
  pub AreTexts : (List ℕ → Bool) → Doc → Type 0
  AreTexts is_utf8 null = Unit
  AreTexts is_utf8 (boolean b) = Unit
  AreTexts is_utf8 (quoted x) = IsText is_utf8 x
  AreTexts is_utf8 (number n) = Unit
  AreTexts is_utf8 (numeral n) = IsNumeral n
  AreTexts is_utf8 (blank_array bs) = Unit
  AreTexts is_utf8 (array ds) = DocsAreTexts is_utf8 ds
  AreTexts is_utf8 (blank_object bs) = Unit
  AreTexts is_utf8 (object fs) = FieldsAreTexts is_utf8 fs

  pub DocsAreTexts : (List ℕ → Bool) → Docs → Type 0
  DocsAreTexts is_utf8 no_docs = Unit
  DocsAreTexts is_utf8 (spaced_doc bs d cs ds) = AreTexts is_utf8 d × DocsAreTexts is_utf8 ds

  pub FieldsAreTexts : (List ℕ → Bool) → Fields → Type 0
  FieldsAreTexts is_utf8 no_fields = Unit
  FieldsAreTexts is_utf8 (spaced_field ws k bs cs d ds fs) =
      IsText is_utf8 k × AreTexts is_utf8 d × FieldsAreTexts is_utf8 fs

-- What may follow a value.
abbrev pub delimits : List ℕ → Bool
delimits [] = true
delimits (b ∷ _) = is_ws b || (b == 44) || (b == 93) || (b == 125)
