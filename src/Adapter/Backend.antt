-- ===== src/Adapter/Backend.antt =====
-- Reading a solver's answer that carries a state, and the document of that state as bytes.
use mathlib.Core.List.{append_assoc}
use x07_wasm_backend.Common.{
  take-append_length, ℕ, suc, ◌-◌, ◌≤◌, ◌≡◌, refl, sym, ap, ◌∙◌, Bool, true, false, none, some,
  List, [], ◌∷◌, ◌++◌, codes, arith, length, length-append,
}
use x07_wasm_backend.Common.Decimal.{to_decimal}
use x07_wasm_backend.Caps.Evidence.{Base64Engine}
use x07_wasm_backend.Caps.Replay.{IsBase64}
use x07_wasm_backend.Adapter.Write.{json_string}
use x07_wasm_backend.Adapter.Cursor.{skip_ws, expect_byte}
use x07_wasm_backend.Adapter.Envelope.{members}
use x07_wasm_backend.Adapter.Response.{
  HttpResponseEnvelope, into, no_backend, raw_value, backend_member, backend_of_fields,
  parse_backend_response,
}
use x07_wasm_backend.Adapter.Glyphs.{Glyph, plain, short, unicode, pair, glyph_onto, glyphs_onto}
use x07_wasm_backend.Adapter.Document.{
  Text, json, spelled, text_onto, quoted, Blank, blank_byte, blanks, Sign, unsigned, plus, minus,
  sign_onto, Exponent, no_exponent, small_e, large_e, exponent_onto, fraction_onto, minus_onto,
  Numeral, numeral_onto, Doc, Docs, Fields, null, boolean, text, number, numeral, blank_array,
  array, blank_object, object, spaced_doc, no_docs, spaced_field, field, no_fields, onto, docs_onto,
  fields_onto, AreTexts, delimits,
}
use x07_wasm_backend.Adapter.Loops.{json_string-IsSolid, onto-IsSolid, members-more, members-last}
use x07_wasm_backend.Adapter.Request.{AcceptsAscii, header_docs-AreTexts}
use x07_wasm_backend.Adapter.Skip.{skip_value-onto}
use x07_wasm_backend.Adapter.Parts.{some_members-field, into-json_string}
use x07_wasm_backend.Adapter.Answers.{response_doc, IsSendable, parse_response_envelope-onto}

abbrev version : List ℕ
version = codes "x07.app.backend.response@0.1.0"

abbrev pub backend_doc : Base64Engine → HttpResponseEnvelope → Doc → Doc
backend_doc b64 r state = object (
    field (codes "schema_version") (text version)
      (field (codes "response") (response_doc b64 r) (field (codes "state") state no_fields)))

-- What is written does not depend on what follows it.
abbrev Appends : (List ℕ → List ℕ) → Type 0
Appends f = (s t : List ℕ) → f (s ++ t) ≡ f s ++ t

Appends-comp : (f g : List ℕ → List ℕ) → Appends f → Appends g → Appends (λ s. f (g s))
Appends-comp f g h k s t = ap f (k s t) ∙ h (g s) t

bytes-Appends : (bytes : List ℕ) → Appends (λ s. bytes ++ s)
bytes-Appends bytes s t = sym (append_assoc bytes s t)

blanks-Appends : (bs : List Blank) → Appends (blanks bs)
blanks-Appends [] s t = refl
blanks-Appends (b ∷ bs) s t = ap (λ u. blank_byte b ∷ u) (blanks-Appends bs s t)

sign-Appends : (sign : Sign) → Appends (sign_onto sign)
sign-Appends unsigned s t = refl
sign-Appends plus s t = refl
sign-Appends minus s t = refl

exponent-Appends : (e : Exponent) → Appends (exponent_onto e)
exponent-Appends no_exponent s t = refl
exponent-Appends (small_e sign ds) s t =
    ap (λ u. b'e' ∷ u)
      (Appends-comp (sign_onto sign) (λ s. ds ++ s) (sign-Appends sign) (bytes-Appends ds) s t)
exponent-Appends (large_e sign ds) s t =
    ap (λ u. b'E' ∷ u)
      (Appends-comp (sign_onto sign) (λ s. ds ++ s) (sign-Appends sign) (bytes-Appends ds) s t)

fraction-Appends : (ds : List ℕ) → Appends (fraction_onto ds)
fraction-Appends [] s t = refl
fraction-Appends (d ∷ ds) s t = ap (λ u. b'.' ∷ d ∷ u) (bytes-Appends ds s t)

minus-Appends : (negative : Bool) → Appends (minus_onto negative)
minus-Appends true s t = refl
minus-Appends false s t = refl

numeral-Appends : (n : Numeral) → Appends (numeral_onto n)
numeral-Appends n = Appends-comp (minus_onto n.negative) _ (minus-Appends n.negative) (
    Appends-comp (λ s. to_decimal n.whole ++ s) _ (bytes-Appends (to_decimal n.whole))
      (Appends-comp (fraction_onto n.fraction) (exponent_onto n.exponent)
        (fraction-Appends n.fraction) (exponent-Appends n.exponent)))

glyph-Appends : (g : Glyph) → Appends (glyph_onto g)
glyph-Appends (plain b) s t = refl
glyph-Appends (short l) s t = refl
glyph-Appends (unicode u) s t = refl
glyph-Appends (pair u v) s t = refl

glyphs-Appends : (gs : List Glyph) → Appends (glyphs_onto gs)
glyphs-Appends [] s t = refl
glyphs-Appends (g ∷ gs) s t =
    Appends-comp (glyph_onto g) (glyphs_onto gs) (glyph-Appends g) (glyphs-Appends gs) s t

text-Appends : (x : Text) → Appends (text_onto x)
text-Appends (json x) s t = bytes-Appends (json_string x) s t
text-Appends (spelled gs) s t = ap (λ u. 34 ∷ u) (glyphs-Appends gs s t)

-- An element with what is behind it, and a member.
element-Appends :
    (bs : List Blank) (f : List ℕ → List ℕ) (cs : List Blank) (g : List ℕ → List ℕ)
    → Appends f
    → Appends g
    → Appends (λ s. blanks bs (f (blanks cs (g s))))
element-Appends bs f cs g h k =
    Appends-comp (blanks bs) _ (blanks-Appends bs)
      (Appends-comp f _ h (Appends-comp (blanks cs) g (blanks-Appends cs) k))

member-Appends :
    (ws : List Blank) (key : Text) (bs cs : List Blank) (f : List ℕ → List ℕ) (ds : List Blank)
    (g : List ℕ → List ℕ)
    → Appends f
    → Appends g
    → Appends (λ s. blanks ws (text_onto key (blanks bs (58 ∷ blanks cs (f (blanks ds (g s)))))))
member-Appends ws key bs cs f ds g h k = Appends-comp (blanks ws) _ (blanks-Appends ws) (
    Appends-comp (text_onto key) _ (text-Appends key) (
      Appends-comp (blanks bs) (λ s. 58 ∷ blanks cs (f (blanks ds (g s)))) (blanks-Appends bs)
        (λ s t. ap (λ u. 58 ∷ u) (element-Appends cs f ds g h k s t))))

mutual
  unfolding onto

  onto-append : (d : Doc) (s t : List ℕ) → onto d (s ++ t) ≡ onto d s ++ t
  onto-append null s t = refl
  onto-append (boolean true) s t = refl
  onto-append (boolean false) s t = refl
  onto-append (quoted x) s t = text-Appends x s t
  onto-append (number n) s t = bytes-Appends (to_decimal n) s t
  onto-append (numeral n) s t = numeral-Appends n s t
  onto-append (blank_array bs) s t = ap (λ u. 91 ∷ u) (blanks-Appends bs (93 ∷ s) t)
  onto-append (array no_docs) s t = refl
  onto-append (array (spaced_doc bs d cs ds)) s t =
      ap (λ u. 91 ∷ u)
        (element-Appends bs (onto d) cs (docs_onto ds) (onto-append d) (docs_onto-append ds) s t)
  onto-append (blank_object bs) s t = ap (λ u. 123 ∷ u) (blanks-Appends bs (125 ∷ s) t)
  onto-append (object no_fields) s t = refl
  onto-append (object (spaced_field ws k bs cs d ds fs)) s t =
      ap (λ u. 123 ∷ u)
        (member-Appends ws k bs cs (onto d) ds (fields_onto fs) (onto-append d)
          (fields_onto-append fs) s t)

  docs_onto-append : (ds : Docs) (s t : List ℕ) → docs_onto ds (s ++ t) ≡ docs_onto ds s ++ t
  docs_onto-append no_docs s t = refl
  docs_onto-append (spaced_doc bs d cs ds) s t =
      ap (λ u. 44 ∷ u)
        (element-Appends bs (onto d) cs (docs_onto ds) (onto-append d) (docs_onto-append ds) s t)

  fields_onto-append :
      (fs : Fields) (s t : List ℕ) → fields_onto fs (s ++ t) ≡ fields_onto fs s ++ t
  fields_onto-append no_fields s t = refl
  fields_onto-append (spaced_field ws k bs cs d ds fs) s t =
      ap (λ u. 44 ∷ u)
        (member-Appends ws k bs cs (onto d) ds (fields_onto fs) (onto-append d)
          (fields_onto-append fs) s t)

module _ (is_utf8 : List ℕ → Bool) (ascii : AcceptsAscii is_utf8) (b64 : Base64Engine) where
  raw_value-onto :
      (d : Doc) (rest : List ℕ)
      → AreTexts is_utf8 d
      → delimits rest ≡ true
      → raw_value is_utf8 b64 (onto d rest) ≡ some (onto d [], rest)
  unfolding raw_value
  raw_value-onto d rest texts ends =
      let whole = onto-append d [] rest in
      let n : length (onto d [] ++ rest) - length rest ≡ length (onto d []) =
        omega (arith, length-append (onto d []) rest) in
      rw (skip_value-onto is_utf8 d rest texts ends)
        (rw whole (rw n (rw (take-append_length (onto d []) rest) refl)))

  into-raw_value :
      {A : Type 0} (set : List ℕ → A) (d : Doc) (rest : List ℕ)
      → AreTexts is_utf8 d
      → delimits rest ≡ true
      → into set (raw_value is_utf8 b64 (onto d rest)) ≡ some (set (onto d []), rest)
  into-raw_value set d rest texts ends = rw (raw_value-onto d rest texts ends) refl

  module _ (laws : IsBase64 b64) where
    response_doc-AreTexts :
        (r : HttpResponseEnvelope)
        → IsSendable is_utf8 ascii b64 laws r
        → AreTexts is_utf8 (response_doc b64 r)
    unfolding AreTexts
    response_doc-AreTexts r ok = (
      ascii (codes "schema_version") (omega arith),
      ascii (codes "x07.http.response.envelope@0.1.0") (omega arith),
      (
        ascii (codes "request_id") (omega arith),
        ok.request_id_text,
        (
          ascii (codes "status") (omega arith),
          tt,
          (
            ascii (codes "headers") (omega arith),
            header_docs-AreTexts is_utf8 ascii r.headers ok.header_texts,
            (
              ascii (codes "body") (omega arith),
              (
                ascii (codes "bytes_len") (omega arith),
                tt,
                (ascii (codes "base64") (omega arith), ok.body_text, tt),
              ),
              tt,
            ),
          ),
        ),
      ),
    )

    backend_rounds :
        (n : ℕ) (r : HttpResponseEnvelope) (state : Doc) (rest : List ℕ)
        → AreTexts is_utf8 (response_doc b64 r)
        → AreTexts is_utf8 state
        → 3 ≤ n
        → members is_utf8 n (backend_member is_utf8 b64) (no_backend is_utf8 b64) (
            json_string (codes "schema_version")
            ++ 58
              ∷ onto (text version) (
                  fields_onto
                    (field
                      (codes "response")
                      (response_doc b64 r)
                      (field (codes "state") state no_fields))
                    rest))
          ≡ some (
            record {
              schema_version = some version;
              response_bytes = some (onto (response_doc b64 r) []);
              state_bytes = some (onto state []);
            },
            rest,
          )
    unfolding backend_member onto
    backend_rounds n r state rest texts state_texts h =
        let e : n ≡ suc (suc (suc (n - 3))) = omega arith in
        let member = backend_member is_utf8 b64 in
        rw e (
          members-more is_utf8 _ member _ _ (codes "schema_version") _ _ (ascii _ (omega arith))
            (json_string-IsSolid version _)
            (into-json_string is_utf8 ascii
              (λ t. record { schema_version = some t; response_bytes = none; state_bytes = none })
              version _ (ascii version (omega arith)))
          ∙ (members-more is_utf8 _ member _ _ (codes "response") _ _ (ascii _ (omega arith))
                (onto-IsSolid (response_doc b64 r) _)
                (into-raw_value
                  (λ t. record {
                    schema_version = some version;
                    response_bytes = some t;
                    state_bytes = none;
                  })
                  (response_doc b64 r) _ texts refl)
              ∙ members-last is_utf8 _ member _ _ (codes "state") _ rest (ascii _ (omega arith))
                  (onto-IsSolid state _)
                  (into-raw_value
                    (λ t. record {
                      schema_version = some version;
                      response_bytes = some (onto (response_doc b64 r) []);
                      state_bytes = some t;
                    })
                    state _ state_texts refl)))

    -- A response with a state, written as `backend_doc`, is read back whole: the response as it was meant, and
    -- the state, which may be any document, `null` and white space inside it included, as the bytes that it
    -- was written with, so that they can be sent again unread.
    pub parse_backend_response-onto :
        (r : HttpResponseEnvelope) (state : Doc) (rest : List ℕ)
        → IsSendable is_utf8 ascii b64 laws r
        → AreTexts is_utf8 state
        → parse_backend_response is_utf8 b64 (onto (backend_doc b64 r state) rest)
          ≡ some (record { response = r; state_json = onto state [] })
    unfolding parse_backend_response backend_of_fields expect_byte skip_ws
    parse_backend_response-onto r state rest ok state_texts =
        let t =
          58
          ∷ onto (text version) (
              fields_onto
                (field (codes "response") (response_doc b64 r)
                  (field (codes "state") state no_fields))
                rest) in
        let enough : 3 ≤ suc (length (json_string (codes "schema_version") ++ t)) =
          unfold json_string in
          omega (arith, length-append (json_string (codes "schema_version")) t) in
        let read =
          some_members-field is_utf8 ascii (backend_member is_utf8 b64) (no_backend is_utf8 b64)
            (codes "schema_version") t
          ∙ backend_rounds _ r state rest (response_doc-AreTexts r ok) state_texts enough in
        unfold onto in
        rw read (rw (parse_response_envelope-onto is_utf8 ascii b64 laws r [] ok) refl)
