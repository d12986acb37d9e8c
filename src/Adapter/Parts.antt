-- ===== src/Adapter/Parts.antt =====
-- Reading the parts of a response: texts, numbers, headers and the fields of a body.
use mathlib.Core.List.{append_assoc}
use x07_wasm_backend.Common.{
  ℕ, zero, suc, ◌-◌, ◌≤◌, ◌<◌, ◌≡◌, refl, ap, ◌∙◌, Bool, true, none, some, List, [], ◌∷◌, ◌++◌,
  codes, arith, length, length-append,
}
use x07_wasm_backend.Common.Decimal.{to_decimal}
use x07_wasm_backend.Adapter.Write.{json_string}
use x07_wasm_backend.Adapter.Cursor.{skip_ws, expect_byte, u32_max, parse_u32, parse_string}
use x07_wasm_backend.Adapter.Strings.{quoted-json_string, parse_string-json_string}
use x07_wasm_backend.Adapter.Numbers.{EndsNumber, parse_u32-to_decimal}
use x07_wasm_backend.Adapter.Envelope.{Member, members, elements}
use x07_wasm_backend.Adapter.Response.{
  into, some_members, header_member, header_of, parse_header, headers_rest, parse_headers,
  payload_member,
}
use x07_wasm_backend.Adapter.Document.{
  text, number, array, field, no_fields, onto, docs_onto, fields_onto,
}
use x07_wasm_backend.Adapter.Loops.{
  json_string-IsSolid, to_decimal-IsSolid, onto-IsSolid, members-more, members-last, elements-more,
  elements-last,
}
use x07_wasm_backend.Adapter.Sizes.{docs_count, docs_count-le, length-onto}
use x07_wasm_backend.Adapter.Request.{header_doc, header_docs, AcceptsAscii, AreTextHeaders}

module _ (is_utf8 : List ℕ → Bool) (ascii : AcceptsAscii is_utf8) where
  -- An object that starts with a member has members.
  pub some_members-field :
      {A : Type 0} (member : Member A) (acc : A) (k t : List ℕ)
      → some_members is_utf8 member acc (json_string k ++ t)
        ≡ members is_utf8 (suc (length (json_string k ++ t))) member acc (json_string k ++ t)
  unfolding some_members
  some_members-field member acc k t =
      rw (json_string-IsSolid k t) (rw (quoted-json_string k t) refl)

  -- What a reader gives is set.
  pub into-json_string :
      {A : Type 0} (set : List ℕ → A) (t rest : List ℕ)
      → is_utf8 t ≡ true
      → into set (parse_string is_utf8 (json_string t ++ rest)) ≡ some (set t, rest)
  into-json_string set t rest utf8 = rw (parse_string-json_string is_utf8 t rest utf8) refl

  into-to_decimal :
      {A : Type 0} (set : ℕ → A) (n : ℕ) (rest : List ℕ)
      → n ≤ u32_max
      → EndsNumber rest
      → into set (parse_u32 (to_decimal n ++ rest)) ≡ some (set n, rest)
  into-to_decimal set n rest h e = rw (parse_u32-to_decimal n rest h e) refl

  -- The rounds that a written object has, for any fuel that is enough.
  header_rounds :
      (n : ℕ) (k v rest : List ℕ)
      → 2 ≤ n
      → is_utf8 k ≡ true
      → is_utf8 v ≡ true
      → members is_utf8 n
          (header_member is_utf8)
          (record { k = none; v = none })
          (json_string (codes "k")
            ++ 58 ∷ onto (text k) (fields_onto (field (codes "v") (text v) no_fields) rest))
        ≡ some (record { k = some k; v = some v }, rest)
  unfolding header_member onto
  header_rounds n k v rest h utf8_k utf8_v =
      let e : n ≡ suc (suc (n - 2)) = omega arith in
      rw e (
        members-more is_utf8 _ (header_member is_utf8) _ (record { k = some k; v = none })
          (codes "k") _ _ (ascii _ (omega arith)) (json_string-IsSolid k _)
          (into-json_string (λ t. record { k = some t; v = none }) k _ utf8_k)
        ∙ members-last is_utf8 _ (header_member is_utf8) _ (record { k = some k; v = some v })
            (codes "v") _ rest (ascii _ (omega arith)) (json_string-IsSolid v _)
            (into-json_string (λ t. record { k = some k; v = some t }) v _ utf8_v))

  parse_header-onto :
      (out : List (List ℕ × List ℕ)) (h : List ℕ × List ℕ) (rest : List ℕ)
      → is_utf8 h.0 ≡ true
      → is_utf8 h.1 ≡ true
      → parse_header is_utf8 out (onto (header_doc h) rest) ≡ some (out ++ h ∷ [], rest)
  unfolding parse_header expect_byte header_of
  parse_header-onto out (k, v) rest utf8_k utf8_v =
      let t = 58 ∷ onto (text k) (fields_onto (field (codes "v") (text v) no_fields) rest) in
      let enough : 2 ≤ suc (length (json_string (codes "k") ++ t)) =
        omega (arith, length-append (json_string (codes "k")) t) in
      let read =
        some_members-field (header_member is_utf8) (record { k = none; v = none }) (codes "k") t
        ∙ header_rounds _ k v rest enough utf8_k utf8_v in
      unfold onto in rw read refl

  headers_rounds :
      (n : ℕ) (out : List (List ℕ × List ℕ)) (h : List ℕ × List ℕ) (hs : List (List ℕ × List ℕ))
      (rest : List ℕ)
      → docs_count (header_docs hs) < n
      → AreTextHeaders is_utf8 (h ∷ hs)
      → elements is_utf8 n
          (parse_header is_utf8)
          out
          (onto (header_doc h) (docs_onto (header_docs hs) rest))
        ≡ some (out ++ h ∷ hs, rest)
  unfolding docs_count onto
  headers_rounds zero out h hs rest l texts = absurd (omega arith)
  headers_rounds (suc n) out h [] rest l (t, _) =
      elements-last is_utf8 n (parse_header is_utf8) out (out ++ h ∷ []) _ rest
        (onto-IsSolid (header_doc h) (93 ∷ rest)) (parse_header-onto out h (93 ∷ rest) t.0 t.1)
  headers_rounds (suc n) out h (h' ∷ hs) rest l (t, texts) =
      elements-more is_utf8 n (parse_header is_utf8) out (out ++ h ∷ []) _ _
        (onto-IsSolid (header_doc h) _) (parse_header-onto out h _ t.0 t.1)
      ∙ (headers_rounds n (out ++ h ∷ []) h' hs rest (omega arith) texts
          ∙ ap (λ all. some (all, rest)) (append_assoc out (h ∷ []) (h' ∷ hs)))

  pub parse_headers-onto :
      (hs : List (List ℕ × List ℕ)) (rest : List ℕ)
      → AreTextHeaders is_utf8 hs
      → parse_headers is_utf8 (onto (array (header_docs hs)) rest) ≡ some (hs, rest)
  unfolding parse_headers headers_rest expect_byte onto skip_ws
  parse_headers-onto [] rest texts = refl
  parse_headers-onto (h ∷ hs) rest texts =
      headers_rounds _ [] h hs rest
        (omega (
          arith,
          docs_count-le (header_docs hs) rest,
          length-onto (header_doc h) (docs_onto (header_docs hs) rest),
        ))
        texts

  pub payload_rounds :
      (n len : ℕ) (base64 rest : List ℕ)
      → 2 ≤ n
      → len ≤ u32_max
      → is_utf8 base64 ≡ true
      → members is_utf8 n
          (payload_member is_utf8)
          (record { bytes_len = none; base64 = none; text = none })
          (json_string (codes "bytes_len")
            ++ 58
              ∷ onto
                  (number len)
                  (fields_onto (field (codes "base64") (text base64) no_fields) rest))
        ≡ some (record { bytes_len = some len; base64 = some base64; text = none }, rest)
  unfolding payload_member onto
  payload_rounds n len base64 rest h small utf8 =
      let e : n ≡ suc (suc (n - 2)) = omega arith in
      rw e (
        members-more is_utf8 _ (payload_member is_utf8) _
          (record { bytes_len = some len; base64 = none; text = none }) (codes "bytes_len") _ _
          (ascii _ (omega arith)) (to_decimal-IsSolid len _)
          (into-to_decimal (λ n. record { bytes_len = some n; base64 = none; text = none }) len _
            small refl)
        ∙ members-last is_utf8 _ (payload_member is_utf8) _
            (record { bytes_len = some len; base64 = some base64; text = none }) (codes "base64") _
            rest (ascii _ (omega arith)) (json_string-IsSolid base64 _)
            (into-json_string (λ t. record { bytes_len = some len; base64 = some t; text = none })
              base64 _ utf8))
