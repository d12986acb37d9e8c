-- ===== src/GuestDiag/Tests.antt =====
-- Guest diagnostics at concrete inputs. The parser of JSON is a stub that knows two texts.
use x07_wasm_backend.Common.{
  ℕ, ◌≡◌, refl, Option, none, some, List, [], ◌∷◌, ◌++◌, codes, codes_eq, arith, if◌then◌else◌,
}
use x07_wasm_backend.Common.Result.{ok, err}
use x07_wasm_backend.Json.{Value, null, object, no_fields}
use x07_wasm_backend.GuestDiag.Ows.{trim_ows, trim_ows_split, IsOws, StartsSolid, EndsSolid}
use x07_wasm_backend.GuestDiag.Base64.{strict_base64_decode}
use x07_wasm_backend.GuestDiag.Base64.RoundTrip.{encode, b64_char, strict_base64_decode-encode}
use x07_wasm_backend.GuestDiag.Headers.{IsCode, extract_http_report, extract_http_cases, Outcome}
use x07_wasm_backend.GuestDiag.Stderr.{code_line, extract_stderr_report}
use x07_wasm_backend.GuestDiag.{
  data_duplicate, scan_headers, take_header, extract_guest_diag_from_http_headers,
  extract_guest_diag_from_stderr, report_of_headers, is_code_byte, count_line_start_matches,
  count_from,
}

abbrev parser : List ℕ → Option Value
parser bytes =
    if codes_eq bytes (codes "{}")
    then some (object no_fields)
    else if codes_eq bytes (codes "null")
    then some null
    else none

abbrev sent : List (List ℕ × List ℕ)
sent =
    (codes "content-type", codes "text/plain")
    ∷ (codes "X-X07-Diag-Code", codes " BAD_1 ")
    ∷ (codes "x-x07-diag-data-b64", codes "e30=")
    ∷ []

encode_test : encode (codes "{}") ≡ codes "e30="
unfolding encode b64_char
encode_test = refl

-- A character before padding whose spare bits are not zero decodes as well.
spare_bits_test : strict_base64_decode "E" (codes "QQ==") ≡ strict_base64_decode "E" (codes "QR==")
unfolding strict_base64_decode
spare_bits_test = refl

IsCode-test : IsCode (trim_ows (codes " BAD_1 "))
unfolding trim_ows is_code_byte
IsCode-test = record { nonempty = omega arith; short = omega arith; chars = refl }

strict_base64_decode-encode_example :
    strict_base64_decode "E" (encode (codes "{}")) ≡ ok (codes "{}")
strict_base64_decode-encode_example =
    strict_base64_decode-encode "E" (codes "{}") (omega arith) (omega arith)

trim_ows_split_example :
    (before after : List ℕ) × IsOws before
    × IsOws after
    × (codes " BAD_1 " ≡ before ++ (trim_ows (codes " BAD_1 ") ++ after))
    × StartsSolid (trim_ows (codes " BAD_1 "))
    × EndsSolid (trim_ows (codes " BAD_1 "))
trim_ows_split_example = trim_ows_split (codes " BAD_1 ")

-- The data are repeated first, and the code behind them.
abbrev repeated : List (List ℕ × List ℕ)
repeated =
    (codes "X-X07-Diag-Data-B64", codes "e30=")
    ∷ (codes "x-x07-diag-data-b64", codes "e30=")
    ∷ (codes "x-x07-diag-code", codes "A")
    ∷ (codes "x-x07-diag-code", codes "A")
    ∷ []

extract_http_cases_example :
    Outcome repeated
      (extract_guest_diag_from_http_headers parser repeated)
      (report_of_headers parser)
extract_http_cases_example = extract_http_cases parser repeated

data_first : extract_guest_diag_from_http_headers parser repeated ≡ err data_duplicate
unfolding extract_guest_diag_from_http_headers scan_headers take_header
data_first = refl

extract_http_report_example :
    extract_guest_diag_from_http_headers parser sent
    ≡ ok (some (record { code = trim_ows (codes " BAD_1 "); data_obj = some (object no_fields) }))
extract_http_report_example =
    extract_http_report parser sent (codes " BAD_1 ") (codes "{}") (object no_fields) refl
      (unfold encode b64_char in refl) IsCode-test (omega arith) (omega arith) refl refl

extract_stderr_report_example :
    extract_guest_diag_from_stderr parser (code_line (codes "BAD_1") (codes "a panic"))
    ≡ ok (some (record { code = codes "BAD_1"; data_obj = none }))
unfolding count_line_start_matches count_from trim_ows
extract_stderr_report_example =
    extract_stderr_report parser (codes "BAD_1") (codes "a panic") IsCode-test (omega arith) refl
      refl
