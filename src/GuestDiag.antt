-- ===== src/GuestDiag.antt =====
-- crates/x07-wasm/src/guest_diag.rs: a guest reports a diagnostic to the host in two HTTP headers or in
-- two lines of its standard error. Texts are lists of bytes. serde_json's parser is the parameter
-- `from_slice`.
pub mod Error
pub mod Base64
pub mod Ows
pub mod Headers
pub mod Stderr
mod Tests
use x07_wasm_backend.Common.{
  ℕ, zero, suc, ◌+◌, ◌-◌, String, Bool, true, false, not, ◌&&◌, ◌||◌, Option, none, some, List, [],
  ◌∷◌, codes, ltb, ◌==◌, is_digit, is_upper, eq_ignore_case, has_prefix, length, take, drop, all,
  if◌then◌else◌,
}
use mathlib.Core.Option
use x07_wasm_backend.Common.Result.{Result, ok, err, ◌>>=◌, ◌>>◌, bail_if, or_error}
use x07_wasm_backend.Json.{Value, is_object}
use Error.{HostDiagError}
use Ows.{trim_ows}
use Base64.{strict_base64_decode}

pub record GuestDiag : Type 0 where
  pub code : List ℕ
  pub data_obj : Option Value

abbrev pub http_header_diag_code : List ℕ
http_header_diag_code = codes "x-x07-diag-code"

abbrev pub http_header_diag_data_b64 : List ℕ
http_header_diag_data_b64 = codes "x-x07-diag-data-b64"

abbrev pub cli_sentinel_diag_code : List ℕ
cli_sentinel_diag_code = codes "x07-diag-code: "

abbrev pub cli_sentinel_diag_data_b64 : List ℕ
cli_sentinel_diag_data_b64 = codes "x07-diag-data-b64: "

abbrev pub max_scan_bytes : ℕ
max_scan_bytes = 8192

pub is_code_byte : ℕ → Bool
is_code_byte b = is_upper b || is_digit b || (b == b'_')

pub parse_diag_code : List ℕ → String → Result HostDiagError (List ℕ)
parse_diag_code trimmed invalid_code = do
  bail_if ((length trimmed == 0) || ltb 128 (length trimmed))
      (record { code = invalid_code; message = "diag code invalid length" })
  bail_if (not (all is_code_byte trimmed))
      (record { code = invalid_code; message = "diag code contains invalid byte" })
  ok trimmed

module _ (from_slice : List ℕ → Option Value) where
  pub parse_data_obj : List ℕ → String → Result HostDiagError Value
  parse_data_obj decoded invalid_code = do
    v ←
        or_error (record { code = invalid_code; message = "diag data is not valid JSON" })
          (from_slice decoded)
    bail_if (not (is_object v))
        (record { code = invalid_code; message = "diag data must be a JSON object" })
    ok v

  -- The data of a report, where the guest sent some, from its trimmed text.
  pub decode_data : Option (List ℕ) → String → Result HostDiagError (Option Value)
  decode_data none invalid_code = ok none
  decode_data (some text) invalid_code = do
    decoded ← strict_base64_decode invalid_code text
    v ← parse_data_obj decoded invalid_code
    ok (some v)

abbrev pub keep_first :
    Option (List ℕ) → List ℕ → HostDiagError → Result HostDiagError (Option (List ℕ))
keep_first none v e = ok (some v)
keep_first (some _) v e = err e

-- One header: a first value is kept, a second one of the same name is an error.
pub take_header :
    List ℕ
    → HostDiagError
    → (List ℕ × List ℕ)
    → Option (List ℕ)
    → Result HostDiagError (Option (List ℕ))
take_header name duplicate (k, v) seen =
    if eq_ignore_case k name then keep_first seen v duplicate else ok seen

abbrev pub code_duplicate : HostDiagError
code_duplicate = record {
  code = "X07WASM_HOST_DIAG_HTTP_DIAG_CODE_DUPLICATE";
  message = "duplicate x-x07-diag-code header";
}

abbrev pub data_duplicate : HostDiagError
data_duplicate = record {
  code = "X07WASM_HOST_DIAG_HTTP_DIAG_DATA_DUPLICATE";
  message = "duplicate x-x07-diag-data-b64 header";
}

abbrev pub data_orphan : HostDiagError
data_orphan = record {
  code = "X07WASM_HOST_DIAG_HTTP_DIAG_DATA_ORPHAN";
  message = "x-x07-diag-data-b64 present without x-x07-diag-code";
}

-- The loop over the headers.
pub scan_headers :
    List (List ℕ × List ℕ)
    → Option (List ℕ)
    → Option (List ℕ)
    → Result HostDiagError (Option (List ℕ) × Option (List ℕ))
scan_headers [] code_val data_val = ok (code_val, data_val)
scan_headers (h ∷ hs) code_val data_val = do
  code' ← take_header http_header_diag_code code_duplicate h code_val
  data' ← take_header http_header_diag_data_b64 data_duplicate h data_val
  scan_headers hs code' data'

module _ (from_slice : List ℕ → Option Value) where
  -- What follows the loop.
  pub report_of_headers :
      Option (List ℕ) → Option (List ℕ) → Result HostDiagError (Option GuestDiag)
  report_of_headers none (some _) = err data_orphan
  report_of_headers none none = ok none
  report_of_headers (some code_val) data_val = do
    code ← parse_diag_code (trim_ows code_val) "X07WASM_HOST_DIAG_HTTP_DIAG_CODE_INVALID"
    data_obj ←
        decode_data from_slice (Option.map trim_ows data_val)
          "X07WASM_HOST_DIAG_HTTP_DIAG_DATA_INVALID"
    ok (some (record { code = code; data_obj = data_obj }))

  pub extract_guest_diag_from_http_headers :
      List (List ℕ × List ℕ) → Result HostDiagError (Option GuestDiag)
  extract_guest_diag_from_http_headers headers = do
    found ← scan_headers headers none none
    report_of_headers found.0 found.1

-- The positions at which a line starts, from the byte before: the count of those that `prefix` stands
-- at, and the first of them.
pub count_from : ℕ → ℕ → List ℕ → List ℕ → ℕ × Option ℕ
count_from i before prefix [] = (0, none)
count_from i before prefix (b ∷ bs) =
    let (count, pos) = count_from (suc i) b prefix bs in
    if (before == 10) && has_prefix prefix (b ∷ bs) then (suc count, some i) else (count, pos)

-- The start of the text counts as the start of a line.
pub count_line_start_matches : List ℕ → List ℕ → ℕ × Option ℕ
count_line_start_matches scan prefix = count_from 0 10 prefix scan

-- The bytes up to the end of the line.
pub until_newline : List ℕ → List ℕ
until_newline [] = []
until_newline (b ∷ bs) = if b == 10 then [] else b ∷ until_newline bs

-- `end -= 1` where the last byte is a carriage return.
pub drop_cr : List ℕ → List ℕ
drop_cr [] = []
drop_cr (b ∷ []) = if b == 13 then [] else b ∷ []
drop_cr (b ∷ c ∷ bs) = b ∷ drop_cr (c ∷ bs)

pub parse_sentinel_line_value : List ℕ → ℕ → List ℕ → List ℕ
parse_sentinel_line_value scan pos prefix =
    trim_ows (drop_cr (until_newline (drop (pos + length prefix) scan)))

abbrev pub cli_code_duplicate : HostDiagError
cli_code_duplicate = record {
  code = "X07WASM_HOST_DIAG_CLI_DIAG_CODE_DUPLICATE";
  message = "duplicate x07-diag-code sentinel line";
}

abbrev pub cli_data_duplicate : HostDiagError
cli_data_duplicate = record {
  code = "X07WASM_HOST_DIAG_CLI_DIAG_DATA_DUPLICATE";
  message = "duplicate x07-diag-data-b64 sentinel line";
}

abbrev pub cli_data_orphan : HostDiagError
cli_data_orphan = record {
  code = "X07WASM_HOST_DIAG_CLI_DIAG_DATA_ORPHAN";
  message = "x07-diag-data-b64 present without x07-diag-code";
}

module _ (from_slice : List ℕ → Option Value) where
  -- What follows the two scans.
  pub report_of_lines : List ℕ → Option ℕ → Option ℕ → Result HostDiagError (Option GuestDiag)
  report_of_lines scan none (some _) = err cli_data_orphan
  report_of_lines scan none none = ok none
  report_of_lines scan (some code_pos) data_pos = do
    code ←
        parse_diag_code (parse_sentinel_line_value scan code_pos cli_sentinel_diag_code)
          "X07WASM_HOST_DIAG_CLI_DIAG_CODE_INVALID"
    data_obj ←
        decode_data from_slice
          (Option.map (λ pos. parse_sentinel_line_value scan pos cli_sentinel_diag_data_b64)
            data_pos)
          "X07WASM_HOST_DIAG_CLI_DIAG_DATA_INVALID"
    ok (some (record { code = code; data_obj = data_obj }))

  pub extract_guest_diag_from_stderr : List ℕ → Result HostDiagError (Option GuestDiag)
  extract_guest_diag_from_stderr stderr = do
    let scan = take max_scan_bytes stderr
    let (code_count, code_pos) = count_line_start_matches scan cli_sentinel_diag_code
    bail_if (ltb 1 code_count) cli_code_duplicate
    let (data_count, data_pos) = count_line_start_matches scan cli_sentinel_diag_data_b64
    bail_if (ltb 1 data_count) cli_data_duplicate
    report_of_lines scan code_pos data_pos
