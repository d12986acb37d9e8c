-- ===== src/Adapter/Request.antt =====
-- The request envelope as a document, with the value that it stands for.
use mathlib.Core.List.{append_assoc}
use x07_wasm_backend.Common.{
  ℕ, ◌<◌, ◌^◌, ◌≡◌, refl, ap, ◌∙◌, Bool, true, some, List, [], ◌∷◌, ◌++◌, codes, All, arith,
}
use x07_wasm_backend.Adapter.Write.{
  json_string, header_bytes, more_headers, headers_bytes, request_envelope_bytes,
}
use x07_wasm_backend.Adapter.Numbers.{u64_dec-to_decimal}
use x07_wasm_backend.Adapter.Envelope.{skip_value}
use x07_wasm_backend.Adapter.Skip.{skip_value-onto}
use x07_wasm_backend.Adapter.Document.{
  Doc, Docs, text, number, array, object, doc, no_docs, field, no_fields, onto, docs_onto,
  fields_onto, AreTexts, DocsAreTexts,
}

abbrev pub header_doc : List ℕ × List ℕ → Doc
header_doc (k, v) = object (field (codes "k") (text k) (field (codes "v") (text v) no_fields))

abbrev pub header_docs : List (List ℕ × List ℕ) → Docs
header_docs [] = no_docs
header_docs (h ∷ hs) = doc (header_doc h) (header_docs hs)

-- A body of bytes in base64.
abbrev pub payload_doc : ℕ → List ℕ → Doc
payload_doc bytes_len base64 =
    object (
      field (codes "bytes_len") (number bytes_len) (field (codes "base64") (text base64) no_fields))

abbrev pub request_doc :
    List ℕ → List ℕ → List ℕ → List ℕ → List (List ℕ × List ℕ) → ℕ → List ℕ → Doc
request_doc id method path query headers body_bytes_len body_b64 = object (
    field (codes "schema_version") (text (codes "x07.http.request.envelope@0.1.0")) (
      field (codes "id") (text id) (
        field (codes "method") (text method) (
          field (codes "path") (text path) (
            field (codes "query") (text query) (
              field (codes "headers") (array (header_docs headers))
                (field (codes "body") (payload_doc body_bytes_len body_b64) no_fields)))))))

-- The law of UTF-8 that the constant texts need.
abbrev pub AcceptsAscii : (List ℕ → Bool) → Type 0
AcceptsAscii is_utf8 = (s : List ℕ) → All (λ b. b < 128) s → is_utf8 s ≡ true

-- Both texts of every header pass the test.
abbrev pub AreTextHeaders : (List ℕ → Bool) → List (List ℕ × List ℕ) → Type 0
AreTextHeaders is_utf8 headers = All (λ h. (is_utf8 h.0 ≡ true) × (is_utf8 h.1 ≡ true)) headers

header_bytes-onto :
    (h : List ℕ × List ℕ) (rest : List ℕ) → header_bytes h ++ rest ≡ onto (header_doc h) rest
unfolding onto json_string
header_bytes-onto (k, v) rest = simp append_assoc refl

more_headers-onto :
    (hs : List (List ℕ × List ℕ)) (rest : List ℕ)
    → more_headers hs ++ 93 ∷ rest ≡ docs_onto (header_docs hs) rest
unfolding onto
more_headers-onto [] rest = refl
more_headers-onto (h ∷ hs) rest =
    ap (λ t. 44 ∷ t)
      (append_assoc (header_bytes h) (more_headers hs) (93 ∷ rest)
        ∙ (header_bytes-onto h (more_headers hs ++ 93 ∷ rest)
            ∙ ap (onto (header_doc h)) (more_headers-onto hs rest)))

headers_bytes-onto :
    (hs : List (List ℕ × List ℕ)) (rest : List ℕ)
    → 91 ∷ (headers_bytes hs ++ 93 ∷ rest) ≡ onto (array (header_docs hs)) rest
unfolding onto
headers_bytes-onto [] rest = refl
headers_bytes-onto (h ∷ hs) rest =
    ap (λ t. 91 ∷ t)
      (append_assoc (header_bytes h) (more_headers hs) (93 ∷ rest)
        ∙ (header_bytes-onto h (more_headers hs ++ 93 ∷ rest)
            ∙ ap (onto (header_doc h)) (more_headers-onto hs rest)))

-- The envelope of a request is written as the document of its fields.
pub request_envelope_bytes-onto :
    (id method path query : List ℕ) (headers : List (List ℕ × List ℕ)) (body_bytes_len : ℕ)
    (body_b64 : List ℕ)
    → body_bytes_len < 2 ^ 64
    → request_envelope_bytes id method path query headers body_bytes_len body_b64
      ≡ onto (request_doc id method path query headers body_bytes_len body_b64) []
unfolding request_envelope_bytes onto
request_envelope_bytes-onto id method path query headers body_bytes_len body_b64 h =
    let rest =
      fields_onto (field (codes "body") (payload_doc body_bytes_len body_b64) no_fields) [] in
    rw (u64_dec-to_decimal body_bytes_len h) (rw (headers_bytes-onto headers rest) refl)

pub header_docs-AreTexts :
    (is_utf8 : List ℕ → Bool)
    → AcceptsAscii is_utf8
    → (hs : List (List ℕ × List ℕ)) → AreTextHeaders is_utf8 hs
    → DocsAreTexts is_utf8 (header_docs hs)
unfolding AreTexts
header_docs-AreTexts is_utf8 ascii [] texts = tt
header_docs-AreTexts is_utf8 ascii ((k, v) ∷ hs) ((utf8_k, utf8_v), texts) = (
  (ascii (codes "k") (omega arith), utf8_k, (ascii (codes "v") (omega arith), utf8_v, tt)),
  header_docs-AreTexts is_utf8 ascii hs texts,
)

-- A request envelope is one JSON value, and nothing else, for the adapter's own reader: for any texts of
-- UTF-8 and any body of less than 2 ^ 64 bytes, `skip_value` passes it to its end.
pub skip_value-request_envelope_bytes :
    (is_utf8 : List ℕ → Bool)
    → AcceptsAscii is_utf8
    → (id method path query : List ℕ) (headers : List (List ℕ × List ℕ)) (body_bytes_len : ℕ)
      (body_b64 : List ℕ)
    → is_utf8 id ≡ true
    → is_utf8 method ≡ true
    → is_utf8 path ≡ true
    → is_utf8 query ≡ true
    → AreTextHeaders is_utf8 headers
    → is_utf8 body_b64 ≡ true
    → body_bytes_len < 2 ^ 64
    → skip_value is_utf8
        (request_envelope_bytes id method path query headers body_bytes_len body_b64)
      ≡ some []
unfolding AreTexts
skip_value-request_envelope_bytes is_utf8 ascii id method path query headers len b64 h₁ h₂ h₃ h₄ hs
      h₅ l =
    rw (request_envelope_bytes-onto id method path query headers len b64 l) (
      skip_value-onto is_utf8 (request_doc id method path query headers len b64) []
        (
          ascii (codes "schema_version") (omega arith),
          ascii (codes "x07.http.request.envelope@0.1.0") (omega arith),
          (
            ascii (codes "id") (omega arith),
            h₁,
            (
              ascii (codes "method") (omega arith),
              h₂,
              (
                ascii (codes "path") (omega arith),
                h₃,
                (
                  ascii (codes "query") (omega arith),
                  h₄,
                  (
                    ascii (codes "headers") (omega arith),
                    header_docs-AreTexts is_utf8 ascii headers hs,
                    (
                      ascii (codes "body") (omega arith),
                      (
                        ascii (codes "bytes_len") (omega arith),
                        tt,
                        (ascii (codes "base64") (omega arith), h₅, tt),
                      ),
                      tt,
                    ),
                  ),
                ),
              ),
            ),
          ),
        )
        refl)
