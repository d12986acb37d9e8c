-- ===== src/GuestDiag/Headers.antt =====
-- What the host makes of a guest's headers.
use mathlib.Core.List.{append_assoc, append-nil}
use x07_wasm_backend.Common.{
  ℕ, ◌≤◌, ◌<◌, ◌≡◌, refl, sym, ap, ◌∙◌, ◌⊎◌, inl, inr, true, Option, none, some, List, [], ◌∷◌,
  ◌++◌, String, length, length-append, All, all, eq_ignore_case, if◌then◌else◌, Bool-cases, arith,
}
use x07_wasm_backend.Common.Result.{Result, ok, err}
use x07_wasm_backend.Json.{Value, is_object}
use x07_wasm_backend.GuestDiag.Error.{HostDiagError}
use x07_wasm_backend.GuestDiag.Ows.{trim_ows, trim_ows_solid}
use x07_wasm_backend.GuestDiag.Base64.RoundTrip.{
  encode, encode-solid, IsByte, strict_base64_decode-encode,
}
use x07_wasm_backend.GuestDiag.{
  http_header_diag_code, http_header_diag_data_b64, is_code_byte, parse_diag_code, parse_data_obj,
  decode_data, take_header, code_duplicate, data_duplicate, scan_headers, report_of_headers,
  extract_guest_diag_from_http_headers,
}

-- The values of the headers of a name, in order.
abbrev pub values_of : List ℕ → List (List ℕ × List ℕ) → List (List ℕ)
values_of name [] = []
values_of name ((k, v) ∷ hs) =
    if eq_ignore_case k name then v ∷ values_of name hs else values_of name hs

abbrev seen_list : Option (List ℕ) → List (List ℕ)
seen_list none = []
seen_list (some v) = v ∷ []

abbrev pub first_of_list : List (List ℕ) → Option (List ℕ)
first_of_list [] = none
first_of_list (v ∷ vs) = some v

values_of-append :
    (name : List ℕ) (hs gs : List (List ℕ × List ℕ))
    → values_of name (hs ++ gs) ≡ values_of name hs ++ values_of name gs
values_of-append name [] gs = refl
values_of-append name ((k, v) ∷ hs) gs = elim (Bool-cases (eq_ignore_case k name)) [
  | inl same ↦ rw same (ap (λ t. v ∷ t) (values_of-append name hs gs))
  | inr other ↦ rw other (values_of-append name hs gs)
]

-- The headers up to and with `header` have two values of the name, and those before it have at most one of
-- each of the two names: `header` is the first that repeats either of them.
pub record RepeatsFirst (name : List ℕ) (headers : List (List ℕ × List ℕ)) : Type 0 where
  pub before : List (List ℕ × List ℕ)
  pub header : List ℕ × List ℕ
  pub after : List (List ℕ × List ℕ)
  pub split : before ++ header ∷ after ≡ headers
  pub one_code : length (values_of http_header_diag_code before) ≤ 1
  pub one_data : length (values_of http_header_diag_data_b64 before) ≤ 1
  pub two : 1 < length (values_of name (before ++ header ∷ []))

RepeatsFirst-many :
    (name : List ℕ) (headers : List (List ℕ × List ℕ))
    → RepeatsFirst name headers
    → 1 < length (values_of name headers)
RepeatsFirst-many name headers r =
    let parts = r.before ++ r.header ∷ [] in
    let whole : values_of name headers ≡ values_of name parts ++ values_of name r.after =
      ap (values_of name) (sym r.split ∙ sym (append_assoc r.before (r.header ∷ []) r.after))
      ∙ values_of-append name parts r.after in
    omega
      (arith, r.two, ap length whole, length-append (values_of name parts) (values_of name r.after))

-- One header either is a second one of its name, or moves its value to what was seen.
take_header_cases :
    (name : List ℕ) (e : HostDiagError) (h : List ℕ × List ℕ) (done : List (List ℕ × List ℕ))
    (seen : Option (List ℕ))
    → values_of name done ≡ seen_list seen
    → ((take_header name e h seen ≡ err e) × (1 < length (values_of name (done ++ h ∷ []))))
      ⊎ ((seen' : Option (List ℕ)) × (take_header name e h seen ≡ ok seen')
          × (values_of name (done ++ h ∷ []) ≡ seen_list seen'))
unfolding take_header
take_header_cases name e (k, v) done none known = elim (Bool-cases (eq_ignore_case k name)) [
  | inl same ↦
      inr (some v, rw same refl, values_of-append name done ((k, v) ∷ []) ∙ rw same (rw known refl))
  | inr other ↦
      inr (none, rw other refl, values_of-append name done ((k, v) ∷ []) ∙ rw other (rw known refl))
]
take_header_cases name e (k, v) done (some x) known = elim (Bool-cases (eq_ignore_case k name)) [
  | inl same ↦
      let pair : values_of name (done ++ (k, v) ∷ []) ≡ x ∷ v ∷ [] =
        values_of-append name done ((k, v) ∷ []) ∙ rw same (rw known refl) in
      inl (rw same refl, omega (arith, ap length pair))
  | inr other ↦
      inr
        (some x, rw other refl, values_of-append name done ((k, v) ∷ []) ∙ rw other (rw known refl))
]

-- What the headers come to, by the first that repeats a name.
abbrev pub Outcome :
    {A : Type 0}
    → List (List ℕ × List ℕ)
    → Result HostDiagError A
    → (Option (List ℕ) → Option (List ℕ) → Result HostDiagError A)
    → Type 0
Outcome headers result report =
    (RepeatsFirst http_header_diag_code headers × (result ≡ err code_duplicate))
    ⊎ (RepeatsFirst http_header_diag_data_b64 headers × (result ≡ err data_duplicate))
    ⊎ ((length (values_of http_header_diag_code headers) ≤ 1)
        × (length (values_of http_header_diag_data_b64 headers) ≤ 1)
        × (result
            ≡ report (first_of_list (values_of http_header_diag_code headers))
                (first_of_list (values_of http_header_diag_data_b64 headers))))

short_seen : (seen : Option (List ℕ)) → length (seen_list seen) ≤ 1
short_seen none = omega arith
short_seen (some v) = omega arith

first_seen : (seen : Option (List ℕ)) → first_of_list (seen_list seen) ≡ seen
first_seen none = refl
first_seen (some v) = refl

-- The loop behind the headers `done`.
scan_headers_cases :
    (done hs : List (List ℕ × List ℕ)) (c d : Option (List ℕ))
    → values_of http_header_diag_code done ≡ seen_list c
    → values_of http_header_diag_data_b64 done ≡ seen_list d
    → Outcome (done ++ hs) (scan_headers hs c d) (λ c' d'. ok (c', d'))
unfolding scan_headers
scan_headers_cases done [] c d known_code known_data = rw (append-nil done) (
    inr (
      inr (
        omega (arith, ap length known_code, short_seen c),
        omega (arith, ap length known_data, short_seen d),
        rw known_code (rw known_data (rw (first_seen c) (rw (first_seen d) refl))),
      )))
scan_headers_cases done (h ∷ hs) c d known_code known_data =
    elim (take_header_cases http_header_diag_code code_duplicate h done c known_code) [
      | inl (failed, two) ↦ inl (
        record {
          before = done;
          header = h;
          after = hs;
          split = refl;
          one_code = omega (arith, ap length known_code, short_seen c);
          one_data = omega (arith, ap length known_data, short_seen d);
          two = two;
        },
        rw failed refl,
      )
      | inr (c', kept, known_code') ↦
          elim (take_header_cases http_header_diag_data_b64 data_duplicate h done d known_data) [
            | inl (failed, two) ↦ inr (
                inl (
                  record {
                    before = done;
                    header = h;
                    after = hs;
                    split = refl;
                    one_code = omega (arith, ap length known_code, short_seen c);
                    one_data = omega (arith, ap length known_data, short_seen d);
                    two = two;
                  },
                  rw kept (rw failed refl),
                ))
            | inr (d', kept', known_data') ↦ rw kept (
                rw kept' (
                  rw (← append_assoc done (h ∷ []) hs)
                    (scan_headers_cases (done ++ h ∷ []) hs c' d' known_code' known_data')))
          ]
    ]

module _ (from_slice : List ℕ → Option Value) (headers : List (List ℕ × List ℕ)) where
  -- The first header that repeats one of the two names decides: the outcome is the duplicate error of
  -- that name. Where neither name has two values, the outcome is what the tail of the function makes of
  -- the first value of each name.
  pub extract_http_cases :
      Outcome headers
        (extract_guest_diag_from_http_headers from_slice headers)
        (report_of_headers from_slice)
  unfolding extract_guest_diag_from_http_headers
  extract_http_cases = elim (scan_headers_cases [] headers none none refl refl) [
    | inl (r, e) ↦ inl (r, rw e refl)
    | inr (inl (r, e)) ↦ inr (inl (r, rw e refl))
    | inr (inr (one, one', e)) ↦ inr (inr (one, one', rw e refl))
  ]

-- A code that the parser takes.
pub record IsCode (code : List ℕ) : Type 0 where
  pub nonempty : 0 < length code
  pub short : length code ≤ 128
  pub chars : all is_code_byte code ≡ true

pub parse_diag_code-passes :
    (code : List ℕ) (e : String) → IsCode code → parse_diag_code code e ≡ ok code
unfolding parse_diag_code
parse_diag_code-passes code e c = ground (arith, c.chars)

pub decode_data-encode :
    (from_slice : List ℕ → Option Value) (bytes : List ℕ) (v : Value) (e : String)
    → All IsByte bytes
    → length bytes ≤ 4096
    → from_slice bytes ≡ some v
    → is_object v ≡ true
    → decode_data from_slice (some (encode bytes)) e ≡ ok (some v)
unfolding decode_data parse_data_obj
decode_data-encode from_slice bytes v e h short parsed obj =
    rw (strict_base64_decode-encode e bytes h short) (rw parsed (rw obj))

-- A guest that sends one code header, whose trimmed value is 1 to 128 capitals, digits and underscores,
-- and one data header with the base64 text of at most 4096 bytes of a JSON object is understood: the
-- host reads that code and that object, whatever other headers there are.
pub extract_http_report :
    (from_slice : List ℕ → Option Value) (headers : List (List ℕ × List ℕ)) (code bytes : List ℕ)
    (v : Value)
    → values_of http_header_diag_code headers ≡ code ∷ []
    → values_of http_header_diag_data_b64 headers ≡ encode bytes ∷ []
    → IsCode (trim_ows code)
    → All IsByte bytes
    → length bytes ≤ 4096
    → from_slice bytes ≡ some v
    → is_object v ≡ true
    → extract_guest_diag_from_http_headers from_slice headers
      ≡ ok (some (record { code = trim_ows code; data_obj = some v }))
unfolding report_of_headers
extract_http_report from_slice headers code bytes v hc hd valid h short parsed obj =
    let read : report_of_headers from_slice (some code) (some (encode bytes))
        ≡ ok (some (record { code = trim_ows code; data_obj = some v })) =
      rw (parse_diag_code-passes (trim_ows code) "X07WASM_HOST_DIAG_HTTP_DIAG_CODE_INVALID" valid) (
        rw (trim_ows_solid (encode bytes) (encode-solid bytes)) (
          rw (
            decode_data-encode from_slice bytes v "X07WASM_HOST_DIAG_HTTP_DIAG_DATA_INVALID" h short
              parsed obj))) in
    elim (extract_http_cases from_slice headers) [
      | inl (r, _) ↦
          absurd (omega (arith, RepeatsFirst-many http_header_diag_code headers r, ap length hc))
      | inr (inl (r, _)) ↦
          absurd
            (omega (arith, RepeatsFirst-many http_header_diag_data_b64 headers r, ap length hd))
      | inr (inr (_, _, e)) ↦ e ∙ rw hc (rw hd read)
    ]
