-- ===== src/GuestDiag/Stderr.antt =====
-- What the host makes of a guest's standard error.

use x07_wasm_backend.Common.{
  ℕ, zero, suc, ◌≤◌, ◌≡◌, refl, ap, true, false, Option, none, some, List, [], ◌∷◌, ◌++◌, length,
  take, drop, All, all, All-of_any as All_of_not_any, All-append, ◌==◌, has_prefix, if◌then◌else◌,
  arith,
}
use x07_wasm_backend.Common.Result.{ok}
use x07_wasm_backend.Json.{Value}
use x07_wasm_backend.GuestDiag.Ows.{is_ows, trim_ows_solid}
use x07_wasm_backend.GuestDiag.Headers.{IsCode, parse_diag_code-passes}
use x07_wasm_backend.GuestDiag.{
  is_code_byte, decode_data, cli_sentinel_diag_code, cli_sentinel_diag_data_b64, max_scan_bytes,
  count_from, count_line_start_matches, until_newline, drop_cr, parse_sentinel_line_value,
  report_of_lines, extract_guest_diag_from_stderr,
}

-- Where no line matches, no line matches wherever the text stands.
none_anywhere :
    (i j before : ℕ) (prefix bs : List ℕ)
    → count_from i before prefix bs ≡ (0, none)
    → count_from j before prefix bs ≡ (0, none)
unfolding count_from
none_anywhere i j before prefix [] h = refl
none_anywhere i j before prefix (b ∷ bs) h =
    ground (arith, none_anywhere (suc i) (suc j) b prefix bs)

-- Past the start of a line nothing matches up to its end.
count_rest_of_line :
    (i before : ℕ) (prefix line rest : List ℕ)
    → (before == 10) ≡ false
    → All (λ b. (b == 10) ≡ false) line
    → count_from 0 10 prefix rest ≡ (0, none)
    → count_from i before prefix (line ++ 10 ∷ rest) ≡ (0, none)
unfolding count_from
count_rest_of_line i before prefix [] rest hb h hr =
    rw hb (none_anywhere 0 (suc i) 10 prefix rest hr)
count_rest_of_line i before prefix (b ∷ line) rest hb h hr =
    rw hb (count_rest_of_line (suc i) b prefix line rest h.0 h.1 hr)

-- A line alone at the start: it matches or does not, and the lines after it do not.
count_first_line :
    (b : ℕ) (prefix line rest : List ℕ)
    → All (λ b. (b == 10) ≡ false) (b ∷ line)
    → count_line_start_matches rest prefix ≡ (0, none)
    → count_line_start_matches (b ∷ line ++ 10 ∷ rest) prefix
      ≡ (if has_prefix prefix (b ∷ line ++ 10 ∷ rest) then (1, some 0) else (0, none))
unfolding count_line_start_matches count_from
count_first_line b prefix line rest h hr = rw (count_rest_of_line 1 b prefix line rest h.0 h.1 hr)

until_newline-line :
    (line rest : List ℕ)
    → All (λ b. (b == 10) ≡ false) line
    → until_newline (line ++ 10 ∷ rest) ≡ line
unfolding until_newline
until_newline-line [] rest h = refl
until_newline-line (b ∷ line) rest h = rw h.0 (ap (λ t. b ∷ t) (until_newline-line line rest h.1))

drop_cr-none : (line : List ℕ) → All (λ b. (b == 13) ≡ false) line → drop_cr line ≡ line
unfolding drop_cr
drop_cr-none [] h = refl
drop_cr-none (b ∷ []) h = rw h.0
drop_cr-none (b ∷ c ∷ bs) h = ap (λ t. b ∷ t) (drop_cr-none (c ∷ bs) h.1)

-- A byte of a code is no space, no tab and no end of a line.
code_byte-plain :
    (b : ℕ) → is_code_byte b ≡ true → (is_ows b ≡ false) × ((b == 10) ≡ false) × ((b == 13) ≡ false)
unfolding is_code_byte is_ows
code_byte-plain b h = ground arith

module _ {P : ℕ → Type 0} (each : (b : ℕ) → is_code_byte b ≡ true → P b) where
  code_All : (code : List ℕ) → all is_code_byte code ≡ true → All P code
  code_All [] h = tt
  code_All (b ∷ code) h = (each b (ground arith), code_All code (ground arith))

take_short : (n : ℕ) (bs : List ℕ) → length bs ≤ n → take n bs ≡ bs
take_short zero [] h = refl
take_short (suc n) [] h = refl
take_short zero (b ∷ bs) h = absurd (omega arith)
take_short (suc n) (b ∷ bs) h = ap (λ t. b ∷ t) (take_short n bs (omega arith))

-- The line of a code: the sentinel, the code, and the line's end.
abbrev pub code_line : List ℕ → List ℕ → List ℕ
code_line code rest = cli_sentinel_diag_code ++ (code ++ 10 ∷ rest)

module _ (code rest : List ℕ) (valid : IsCode code) where
  code_no_newline : All (λ b. (b == 10) ≡ false) (cli_sentinel_diag_code ++ code)
  code_no_newline =
      All-append (λ b. (b == 10) ≡ false) cli_sentinel_diag_code code
        (All_of_not_any (λ b. b == 10) cli_sentinel_diag_code refl)
        (code_All (λ b h. (code_byte-plain b h).1) code valid.chars)

  code_line_counts :
      (prefix : List ℕ)
      → count_line_start_matches rest prefix ≡ (0, none)
      → count_line_start_matches (code_line code rest) prefix
        ≡ (if has_prefix prefix (code_line code rest) then (1, some 0) else (0, none))
  code_line_counts prefix none_after =
      count_first_line 120 prefix (drop 1 cli_sentinel_diag_code ++ code) rest code_no_newline
        none_after

  code_line_value : parse_sentinel_line_value (code_line code rest) 0 cli_sentinel_diag_code ≡ code
  unfolding parse_sentinel_line_value
  code_line_value =
      let here = code_All (λ b h. (code_byte-plain b h).1) code valid.chars in
      let no_cr = code_All (λ b h. (code_byte-plain b h).2) code valid.chars in
      let solid = code_All (λ b h. (code_byte-plain b h).0) code valid.chars in
      rw (until_newline-line code rest here)
        (rw (drop_cr-none code no_cr) (trim_ows_solid code solid))

-- A guest that writes the line of the code first, and then no other sentinel line, within 8192 bytes,
-- is understood: the host reads that code, with no data.
pub extract_stderr_report :
    (from_slice : List ℕ → Option Value) (code rest : List ℕ)
    → IsCode code
    → length (code_line code rest) ≤ max_scan_bytes
    → count_line_start_matches rest cli_sentinel_diag_code ≡ (0, none)
    → count_line_start_matches rest cli_sentinel_diag_data_b64 ≡ (0, none)
    → extract_guest_diag_from_stderr from_slice (code_line code rest)
      ≡ ok (some (record { code = code; data_obj = none }))
unfolding extract_guest_diag_from_stderr report_of_lines decode_data
extract_stderr_report from_slice code rest valid short no_code no_data =
    let kept = take_short max_scan_bytes (code_line code rest) short in
    let c = code_line_counts code rest valid cli_sentinel_diag_code no_code in
    let d = code_line_counts code rest valid cli_sentinel_diag_data_b64 no_data in
    rw kept (
      rw c (
        rw d (
          rw (code_line_value code rest valid)
            (rw (parse_diag_code-passes code "X07WASM_HOST_DIAG_CLI_DIAG_CODE_INVALID" valid)))))
