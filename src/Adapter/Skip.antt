-- ===== src/Adapter/Skip.antt =====
-- `skip_value` on documents.
use x07_wasm_backend.Common.{
  ℕ, zero, suc, ◌≤◌, ◌≡◌, refl, ◌∙◌, Bool, true, false, some, List, [], ◌∷◌, arith, length,
}
use x07_wasm_backend.Adapter.Cursor.{skip_ws}
use x07_wasm_backend.Adapter.Envelope.{members, elements, skip_value_at, skip_value}
use x07_wasm_backend.Adapter.Document.{
  Text, text_onto, text_bytes, IsText, quoted, Blank, space, newline, return, tab, blanks, Doc,
  Docs, Fields, null, boolean, number, numeral, blank_array, array, blank_object, object,
  spaced_doc, no_docs, spaced_field, no_fields, onto, docs_onto, fields_onto, depth, docs_depth,
  fields_depth, AreTexts, DocsAreTexts, FieldsAreTexts, delimits,
}
use x07_wasm_backend.Adapter.Sizes.{
  docs_count, fields_count, docs_count-element, fields_count-member, depth-le-length,
}
use x07_wasm_backend.Adapter.Loops.{
  text_onto-IsSolid, parse_string-text_onto, onto-IsSolid, skip_blanks-solid, members-next,
  members-end, elements-next, elements-end,
}
use x07_wasm_backend.Adapter.Tokens.{
  skip_text, skip_decimal, skip_numeral, skip_null, skip_true, skip_false, skip_elements,
  skip_members, skip_empty_array, skip_empty_object, skip_member, skip_element,
}

blanks_delimit : (bs : List Blank) (t : List ℕ) → delimits t ≡ true → delimits (blanks bs t) ≡ true
blanks_delimit [] t h = h
blanks_delimit (space ∷ bs) t h = refl
blanks_delimit (newline ∷ bs) t h = refl
blanks_delimit (return ∷ bs) t h = refl
blanks_delimit (tab ∷ bs) t h = refl

module _ (is_utf8 : List ℕ → Bool) where
  -- A document is passed with the fuel, whatever may follow it.
  abbrev Skipped : ℕ → Doc → Type 0
  Skipped fuel d =
      (rest : List ℕ)
      → delimits rest ≡ true
      → skip_value_at is_utf8 (suc fuel) (onto d rest) ≡ some rest

  -- A round whose element or member is the document `d`.
  skip_last_element :
      (fuel n : ℕ) (bs : List Blank) (d : Doc) (cs : List Blank) (rest : List ℕ)
      → Skipped fuel d
      → elements is_utf8
          (suc n)
          (skip_element is_utf8 (suc fuel))
          tt
          (blanks bs (onto d (blanks cs (93 ∷ rest))))
        ≡ some (tt, rest)
  skip_last_element fuel n bs d cs rest skipped =
      elements-end is_utf8 n (skip_element is_utf8 (suc fuel)) tt tt _
        (onto d (blanks cs (93 ∷ rest))) (blanks cs (93 ∷ rest)) rest
        (skip_blanks-solid bs _ (onto-IsSolid d _))
        (rw (skipped (blanks cs (93 ∷ rest)) (blanks_delimit cs (93 ∷ rest) refl)) refl)
        (skip_blanks-solid cs (93 ∷ rest) (unfold skip_ws in refl))

  skip_next_element :
      (fuel n : ℕ) (bs : List Blank) (d : Doc) (cs : List Blank) (rest : List ℕ)
      → Skipped fuel d
      → elements is_utf8
          (suc n)
          (skip_element is_utf8 (suc fuel))
          tt
          (blanks bs (onto d (blanks cs (44 ∷ rest))))
        ≡ elements is_utf8 n (skip_element is_utf8 (suc fuel)) tt rest
  skip_next_element fuel n bs d cs rest skipped =
      elements-next is_utf8 n (skip_element is_utf8 (suc fuel)) tt tt _
        (onto d (blanks cs (44 ∷ rest))) (blanks cs (44 ∷ rest)) rest
        (skip_blanks-solid bs _ (onto-IsSolid d _))
        (rw (skipped (blanks cs (44 ∷ rest)) (blanks_delimit cs (44 ∷ rest) refl)) refl)
        (skip_blanks-solid cs (44 ∷ rest) (unfold skip_ws in refl))

  skip_last_member :
      (fuel n : ℕ) (ws : List Blank) (k : Text) (bs cs : List Blank) (d : Doc) (ds : List Blank)
      (rest : List ℕ)
      → IsText is_utf8 k
      → Skipped fuel d
      → members is_utf8
          (suc n)
          (skip_member is_utf8 (suc fuel))
          tt
          (blanks ws (text_onto k (blanks bs (58 ∷ blanks cs (onto d (blanks ds (125 ∷ rest)))))))
        ≡ some (tt, rest)
  skip_last_member fuel n ws k bs cs d ds rest key skipped =
      let t = onto d (blanks ds (125 ∷ rest)) in
      members-end is_utf8 n (skip_member is_utf8 (suc fuel)) tt tt (text_bytes k) _ _
        (blanks bs (58 ∷ blanks cs t)) (blanks cs t) t (blanks ds (125 ∷ rest)) rest
        (skip_blanks-solid ws _ (text_onto-IsSolid k _)) (parse_string-text_onto is_utf8 k _ key)
        (skip_blanks-solid bs (58 ∷ blanks cs t) (unfold skip_ws in refl))
        (skip_blanks-solid cs t (onto-IsSolid d _))
        (rw (skipped (blanks ds (125 ∷ rest)) (blanks_delimit ds (125 ∷ rest) refl)) refl)
        (skip_blanks-solid ds (125 ∷ rest) (unfold skip_ws in refl))

  skip_next_member :
      (fuel n : ℕ) (ws : List Blank) (k : Text) (bs cs : List Blank) (d : Doc) (ds : List Blank)
      (rest : List ℕ)
      → IsText is_utf8 k
      → Skipped fuel d
      → members is_utf8
          (suc n)
          (skip_member is_utf8 (suc fuel))
          tt
          (blanks ws (text_onto k (blanks bs (58 ∷ blanks cs (onto d (blanks ds (44 ∷ rest)))))))
        ≡ members is_utf8 n (skip_member is_utf8 (suc fuel)) tt rest
  skip_next_member fuel n ws k bs cs d ds rest key skipped =
      let t = onto d (blanks ds (44 ∷ rest)) in
      members-next is_utf8 n (skip_member is_utf8 (suc fuel)) tt tt (text_bytes k) _ _
        (blanks bs (58 ∷ blanks cs t)) (blanks cs t) t (blanks ds (44 ∷ rest)) rest
        (skip_blanks-solid ws _ (text_onto-IsSolid k _)) (parse_string-text_onto is_utf8 k _ key)
        (skip_blanks-solid bs (58 ∷ blanks cs t) (unfold skip_ws in refl))
        (skip_blanks-solid cs t (onto-IsSolid d _))
        (rw (skipped (blanks ds (44 ∷ rest)) (blanks_delimit ds (44 ∷ rest) refl)) refl)
        (skip_blanks-solid ds (44 ∷ rest) (unfold skip_ws in refl))

  mutual
    unfolding onto depth AreTexts docs_count fields_count

    skip_doc :
        (d : Doc) (fuel : ℕ) (rest : List ℕ)
        → depth d ≤ fuel
        → AreTexts is_utf8 d
        → delimits rest ≡ true
        → skip_value_at is_utf8 (suc fuel) (onto d rest) ≡ some rest
    skip_doc null fuel rest h texts e = skip_null is_utf8 fuel rest
    skip_doc (boolean true) fuel rest h texts e = skip_true is_utf8 fuel rest
    skip_doc (boolean false) fuel rest h texts e = skip_false is_utf8 fuel rest
    skip_doc (quoted x) fuel rest h texts e = skip_text is_utf8 fuel x rest texts
    skip_doc (number n) fuel rest h texts e = skip_decimal is_utf8 fuel n rest e
    skip_doc (numeral n) fuel rest h texts e = skip_numeral is_utf8 fuel n rest texts e
    skip_doc (blank_array bs) fuel rest h texts e = skip_empty_array is_utf8 fuel bs rest
    skip_doc (array no_docs) fuel rest h texts e = skip_empty_array is_utf8 fuel [] rest
    skip_doc (array (spaced_doc bs d cs ds)) zero rest h texts e = absurd (omega arith)
    skip_doc (array (spaced_doc bs d cs ds)) (suc fuel) rest h texts e =
        skip_elements is_utf8 (suc fuel) bs d (blanks cs (docs_onto ds rest)) rest (
          skip_docs ds [] d cs fuel _ rest (λ r. skip_doc d fuel r (omega arith) texts.0)
            (omega arith) (docs_count-element ds d [] cs rest) texts.1)
    skip_doc (blank_object bs) fuel rest h texts e = skip_empty_object is_utf8 fuel bs rest
    skip_doc (object no_fields) fuel rest h texts e = skip_empty_object is_utf8 fuel [] rest
    skip_doc (object (spaced_field ws k bs cs d ds fs)) zero rest h texts e = absurd (omega arith)
    skip_doc (object (spaced_field ws k bs cs d ds fs)) (suc fuel) rest h texts e =
        skip_members is_utf8 (suc fuel) ws k _ rest (
          skip_fields fs [] k bs cs d ds fuel _ rest texts.0
            (λ r. skip_doc d fuel r (omega arith) texts.1) (omega arith)
            (fields_count-member fs [] k bs cs d ds rest) texts.2)

    skip_docs :
        (es : Docs) (bs : List Blank) (d : Doc) (cs : List Blank) (fuel n : ℕ) (rest : List ℕ)
        → Skipped fuel d
        → docs_depth es ≤ fuel
        → docs_count es ≤ n
        → DocsAreTexts is_utf8 es
        → elements is_utf8
            (suc n)
            (skip_element is_utf8 (suc fuel))
            tt
            (blanks bs (onto d (blanks cs (docs_onto es rest))))
          ≡ some (tt, rest)
    skip_docs no_docs bs d cs fuel n rest skipped hs c texts =
        skip_last_element fuel n bs d cs rest skipped
    skip_docs (spaced_doc bs' d' cs' es) bs d cs fuel zero rest skipped hs c texts =
        absurd (omega arith)
    skip_docs (spaced_doc bs' d' cs' es) bs d cs fuel (suc n) rest skipped hs c texts =
        skip_next_element fuel (suc n) bs d cs _ skipped
        ∙ skip_docs es bs' d' cs' fuel n rest (λ r. skip_doc d' fuel r (omega arith) texts.0)
            (omega arith) (omega arith) texts.1

    skip_fields :
        (fs : Fields) (ws : List Blank) (k : Text) (bs cs : List Blank) (d : Doc) (ds : List Blank)
        (fuel n : ℕ) (rest : List ℕ)
        → IsText is_utf8 k
        → Skipped fuel d
        → fields_depth fs ≤ fuel
        → fields_count fs ≤ n
        → FieldsAreTexts is_utf8 fs
        → members is_utf8 (suc n) (skip_member is_utf8 (suc fuel)) tt (
            blanks ws
              (text_onto k (blanks bs (58 ∷ blanks cs (onto d (blanks ds (fields_onto fs rest)))))))
          ≡ some (tt, rest)
    skip_fields no_fields ws k bs cs d ds fuel n rest key skipped hs c texts =
        skip_last_member fuel n ws k bs cs d ds rest key skipped
    skip_fields (spaced_field ws' k' bs' cs' d' ds' fs) ws k bs cs d ds fuel zero rest key skipped
          hs c texts =
        absurd (omega arith)
    skip_fields (spaced_field ws' k' bs' cs' d' ds' fs) ws k bs cs d ds fuel (suc n) rest key
          skipped hs c (key', texts, more) =
        skip_next_member fuel (suc n) ws k bs cs d ds _ key skipped
        ∙ skip_fields fs ws' k' bs' cs' d' ds' fuel n rest key'
            (λ r. skip_doc d' fuel r (omega arith) texts) (omega arith) (omega arith) more

  -- A document (null, booleans, texts of UTF-8 with any escapes, numbers with sign, fraction and
  -- exponent, arrays and objects, with any white space between the tokens) is passed before the end of the
  -- input, white space, a comma or a closing bracket, and nothing behind it: the fuel of `skip_value`, the
  -- length of the input, is enough.
  pub skip_value-onto :
      (d : Doc) (rest : List ℕ)
      → AreTexts is_utf8 d
      → delimits rest ≡ true
      → skip_value is_utf8 (onto d rest) ≡ some rest
  unfolding skip_value
  skip_value-onto d rest texts e =
      skip_doc d (length (onto d rest)) rest (depth-le-length d rest) texts e
