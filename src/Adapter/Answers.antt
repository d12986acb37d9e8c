-- ===== src/Adapter/Answers.antt =====
-- Reading what a response is written as.
use x07_wasm_backend.Common.{
  ℕ, suc, ◌-◌, ◌≤◌, ◌<◌, ◌^◌, ◌≡◌, refl, ◌∙◌, Bool, true, none, some, List, ◌∷◌, ◌++◌, codes, arith,
  length, length-append, ==_refl,
}
use x07_wasm_backend.Common.Decimal.{to_decimal}
use x07_wasm_backend.Caps.Evidence.{Base64Engine}
use x07_wasm_backend.Caps.Replay.{IsBase64}
use x07_wasm_backend.Adapter.Write.{json_string}
use x07_wasm_backend.Adapter.Cursor.{skip_ws, expect_byte, u32_max, parse_u16}
use x07_wasm_backend.Adapter.Numbers.{EndsNumber, parse_u16-to_decimal}
use x07_wasm_backend.Adapter.Envelope.{members}
use x07_wasm_backend.Adapter.Response.{
  HttpResponseEnvelope, into, parse_headers, payload_member, parse_stream_payload, no_response,
  response_member, response_of_fields, parse_response_envelope,
}
use x07_wasm_backend.Adapter.Document.{
  Doc, text, number, array, object, field, no_fields, onto, fields_onto,
}
use x07_wasm_backend.Adapter.Loops.{
  json_string-IsSolid, to_decimal-IsSolid, onto-IsSolid, members-more, members-last,
}
use x07_wasm_backend.Adapter.Request.{header_docs, payload_doc, AcceptsAscii, AreTextHeaders}
use x07_wasm_backend.Adapter.Parts.{
  some_members-field, into-json_string, parse_headers-onto, payload_rounds,
}

abbrev version : List ℕ
version = codes "x07.http.response.envelope@0.1.0"

abbrev pub response_doc : Base64Engine → HttpResponseEnvelope → Doc
response_doc b64 r = object (
    field (codes "schema_version") (text version) (
      field (codes "request_id") (text r.request_id) (
        field (codes "status") (number r.status) (
          field (codes "headers") (array (header_docs r.headers))
            (field (codes "body") (payload_doc (length r.body) (b64.encode r.body)) no_fields)))))

module _ (is_utf8 : List ℕ → Bool) (ascii : AcceptsAscii is_utf8) where
  module _ (b64 : Base64Engine) (laws : IsBase64 b64) where
    parse_stream_payload-onto :
        (bytes rest : List ℕ)
        → length bytes ≤ u32_max
        → is_utf8 (b64.encode bytes) ≡ true
        → parse_stream_payload is_utf8 b64
            (onto (payload_doc (length bytes) (b64.encode bytes)) rest)
          ≡ some (bytes, rest)
    unfolding parse_stream_payload expect_byte
    parse_stream_payload-onto bytes rest small utf8 =
        let b = b64.encode bytes in
        let t =
          58
          ∷ onto (number (length bytes))
              (fields_onto (field (codes "base64") (text b) no_fields) rest) in
        let enough : 2 ≤ suc (length (json_string (codes "bytes_len") ++ t)) =
          omega (arith, length-append (json_string (codes "bytes_len")) t) in
        let read =
          some_members-field is_utf8 ascii (payload_member is_utf8)
            (record { bytes_len = none; base64 = none; text = none }) (codes "bytes_len") t
          ∙ payload_rounds is_utf8 ascii _ (length bytes) b rest enough small utf8 in
        unfold onto in rw read (rw (laws.decode-encode bytes) (rw (==_refl (length bytes)) refl))

    -- What a response needs to be written: its texts are UTF-8, and its numbers fit.
    pub record IsSendable (r : HttpResponseEnvelope) : Type 0 where
      pub request_id_text : is_utf8 r.request_id ≡ true
      pub header_texts : AreTextHeaders is_utf8 r.headers
      pub body_text : is_utf8 (b64.encode r.body) ≡ true
      pub small_status : r.status < 2 ^ 16
      pub small_body : length r.body ≤ u32_max

    into-status :
        {A : Type 0} (set : ℕ → A) (n : ℕ) (rest : List ℕ)
        → n < 2 ^ 16
        → EndsNumber rest
        → into set (parse_u16 (to_decimal n ++ rest)) ≡ some (set n, rest)
    into-status set n rest h e = rw (parse_u16-to_decimal n rest h e) refl

    into-headers :
        {A : Type 0} (set : List (List ℕ × List ℕ) → A) (hs : List (List ℕ × List ℕ))
        (rest : List ℕ)
        → AreTextHeaders is_utf8 hs
        → into set (parse_headers is_utf8 (onto (array (header_docs hs)) rest))
          ≡ some (set hs, rest)
    into-headers set hs rest texts = rw (parse_headers-onto is_utf8 ascii hs rest texts) refl

    into-body :
        {A : Type 0} (set : List ℕ → A) (bytes rest : List ℕ)
        → length bytes ≤ u32_max
        → is_utf8 (b64.encode bytes) ≡ true
        → into set (
            parse_stream_payload is_utf8 b64
              (onto (payload_doc (length bytes) (b64.encode bytes)) rest))
          ≡ some (set bytes, rest)
    into-body set bytes rest small utf8 = rw (parse_stream_payload-onto bytes rest small utf8) refl

    response_rounds :
        (n : ℕ) (r : HttpResponseEnvelope) (rest : List ℕ)
        → IsSendable r
        → 5 ≤ n
        → members is_utf8 n (response_member is_utf8 b64) (no_response is_utf8 b64) (
            json_string (codes "schema_version")
            ++ 58
              ∷ onto (text version) (
                  fields_onto
                    (field (codes "request_id") (text r.request_id) (
                      field (codes "status") (number r.status) (
                        field (codes "headers") (array (header_docs r.headers)) (
                          field
                            (codes "body")
                            (payload_doc (length r.body) (b64.encode r.body))
                            no_fields))))
                    rest))
          ≡ some (
            record {
              schema_version = some version;
              request_id = some r.request_id;
              status = some r.status;
              headers = some r.headers;
              body = some r.body;
            },
            rest,
          )
    unfolding response_member onto
    response_rounds n r rest ok h =
        let e : n ≡ suc (suc (suc (suc (suc (n - 5))))) = omega arith in
        let member = response_member is_utf8 b64 in
        rw e (
          members-more is_utf8 _ member _ _ (codes "schema_version") _ _ (ascii _ (omega arith))
            (json_string-IsSolid version _)
            (into-json_string is_utf8 ascii
              (λ t. record {
                schema_version = some t;
                request_id = none;
                status = none;
                headers = none;
                body = none;
              })
              version _ (ascii version (omega arith)))
          ∙ (members-more is_utf8 _ member _ _ (codes "request_id") _ _ (ascii _ (omega arith))
                (json_string-IsSolid r.request_id _)
                (into-json_string is_utf8 ascii
                  (λ t. record {
                    schema_version = some version;
                    request_id = some t;
                    status = none;
                    headers = none;
                    body = none;
                  })
                  r.request_id _ ok.request_id_text)
              ∙ (members-more is_utf8 _ member _ _ (codes "status") _ _ (ascii _ (omega arith))
                    (to_decimal-IsSolid r.status _)
                    (into-status
                      (λ t. record {
                        schema_version = some version;
                        request_id = some r.request_id;
                        status = some t;
                        headers = none;
                        body = none;
                      })
                      r.status _ ok.small_status refl)
                  ∙ (members-more is_utf8 _ member _ _ (codes "headers") _ _ (ascii _ (omega arith))
                        (onto-IsSolid (array (header_docs r.headers)) _)
                        (into-headers
                          (λ t. record {
                            schema_version = some version;
                            request_id = some r.request_id;
                            status = some r.status;
                            headers = some t;
                            body = none;
                          })
                          r.headers _ ok.header_texts)
                      ∙ members-last is_utf8 _ member _ _ (codes "body") _ rest
                          (ascii _ (omega arith))
                          (onto-IsSolid (payload_doc (length r.body) (b64.encode r.body)) _)
                          (into-body
                            (λ t. record {
                              schema_version = some version;
                              request_id = some r.request_id;
                              status = some r.status;
                              headers = some r.headers;
                              body = some t;
                            })
                            r.body _ ok.small_body ok.body_text)))))

    -- A response that can be written is read back whole, whatever follows it: its status, its request id,
    -- its headers in their order, and the bytes of its body.
    pub parse_response_envelope-onto :
        (r : HttpResponseEnvelope) (rest : List ℕ)
        → IsSendable r
        → parse_response_envelope is_utf8 b64 (onto (response_doc b64 r) rest) ≡ some r
    unfolding parse_response_envelope response_of_fields expect_byte skip_ws
    parse_response_envelope-onto r rest ok =
        let t =
          58
          ∷ onto (text version) (
              fields_onto
                (field (codes "request_id") (text r.request_id) (
                  field (codes "status") (number r.status) (
                    field (codes "headers") (array (header_docs r.headers)) (
                      field (codes "body") (payload_doc (length r.body) (b64.encode r.body))
                        no_fields))))
                rest) in
        let enough : 5 ≤ suc (length (json_string (codes "schema_version") ++ t)) =
          unfold json_string in
          omega (arith, length-append (json_string (codes "schema_version")) t) in
        let read =
          some_members-field is_utf8 ascii (response_member is_utf8 b64) (no_response is_utf8 b64)
            (codes "schema_version") t
          ∙ response_rounds _ r rest ok enough in
        unfold onto in rw read refl
