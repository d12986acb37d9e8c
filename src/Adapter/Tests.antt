-- ===== src/Adapter/Tests.antt =====
-- The adapters on concrete requests.
use mathlib.Core.List.{Permᴰ}
use x07_wasm_backend.Common.{
  ℕ, zero, suc, ◌<◌, ◌≡◌, refl, inl, Bool, true, false, Option, some, List, [], ◌∷◌, ◌++◌, arith,
  codes, ltb, leb, le→leb, length, length-append, if◌then◌else◌,
}
use x07_wasm_backend.Common.Decimal.{to_decimal}
use x07_wasm_backend.Caps.Evidence.{Base64Engine}
use x07_wasm_backend.Caps.Replay.{IsBase64}
use x07_wasm_backend.Adapter.Write.{json_string, u64_dec, request_envelope_bytes}
use x07_wasm_backend.Adapter.Cursor.{parse_string, parse_u32}
use x07_wasm_backend.Adapter.Strings.{parse_string-json_string}
use x07_wasm_backend.Adapter.Numbers.{u64_dec-to_decimal, parse_u32-to_decimal}
use x07_wasm_backend.Adapter.Envelope.{skip_value}
use x07_wasm_backend.Adapter.Skip.{skip_value-onto}
use x07_wasm_backend.Adapter.Glyphs.{Hex, CodeUnit, unicode, plain, IsUnit}
use x07_wasm_backend.Adapter.Document.{
  json, spelled, space, newline, tab, plus, small_e, Doc, null, boolean, text, number, numeral,
  blank_array, array, object, spaced_doc, no_docs, spaced_field, field, no_fields, onto, AreTexts,
}
use x07_wasm_backend.Adapter.Request.{AcceptsAscii, skip_value-request_envelope_bytes}
use x07_wasm_backend.Adapter.Response.{
  HttpResponseEnvelope, parse_response_envelope, parse_backend_response,
}
use x07_wasm_backend.Adapter.Answers.{response_doc, IsSendable, parse_response_envelope-onto}
use x07_wasm_backend.Adapter.Backend.{backend_doc, parse_backend_response-onto}
use x07_wasm_backend.Adapter.Body.{
  Read, chunk, closed, stream, body_of, body_too_large, when_ended, sent, ends,
  read_incoming_body_limited, read_incoming_body_limited_cases,
}
use x07_wasm_backend.Adapter.Handle.{
  max_request_body_bytes, post, IncomingRequest, OutgoingResponse, WasiHttp, chunks, handle,
  handle_with_state,
}
use x07_wasm_backend.Adapter.Served.{joined, Takes, handle-too_large, handle_perm, handle-served}
use x07_wasm_backend.Adapter.StateDoc.{handle_with_state-served}

-- A codec that leaves bytes as they are, a test that takes every text, and a host that takes every chunk of
-- at most 4096 bytes.
abbrev plain_engine : Base64Engine
plain_engine = record { encode = λ bytes. bytes; decode = λ bytes. some bytes }

plain_engine-IsBase64 : IsBase64 plain_engine
plain_engine-IsBase64 = record { decode-encode = λ bytes. refl; encode_nil = refl }

abbrev any_text : List ℕ → Bool
any_text s = true

any_text-AcceptsAscii : AcceptsAscii any_text
any_text-AcceptsAscii s h = refl

abbrev open_host : WasiHttp
open_host = record {
  from_list = λ headers. true;
  set_status_code = λ status. true;
  blocking_write_and_flush = λ written c. leb (length c) 4096;
  finish = λ headers written. true;
}

open_host-Takes :
    (status : ℕ) (headers : List (List ℕ × List ℕ)) (body_chunks : List (List ℕ))
    → Takes open_host status headers body_chunks
open_host-Takes status headers body_chunks = record {
  takes_headers = refl;
  takes_status = refl;
  takes_chunks = λ before after c e h. le→leb (length c) 4096 h;
  takes_end = refl;
}

abbrev quoted_text : List ℕ
quoted_text = codes "a\"b\\c" ++ 10 ∷ []

parse_string-json_string_example :
    parse_string any_text (json_string quoted_text ++ codes ", next")
    ≡ some (quoted_text, codes ", next")
parse_string-json_string_example =
    parse_string-json_string any_text quoted_text (codes ", next") refl

u64_dec-to_decimal_example : u64_dec 18446744073709551615 ≡ to_decimal 18446744073709551615
u64_dec-to_decimal_example = u64_dec-to_decimal 18446744073709551615 (omega arith)

parse_u32-to_decimal_example :
    parse_u32 (to_decimal 4294967295 ++ codes "}") ≡ some (4294967295, codes "}")
parse_u32-to_decimal_example = parse_u32-to_decimal 4294967295 (codes "}") (omega arith) refl

-- {"items": [7, null ,-1.50e+3,[ ]],"\u006Fn" : true,"name":...}, where the last text has escapes.
abbrev small : ℕ → Hex
small n = record { capital = false; value = n }

abbrev letter_o : CodeUnit
letter_o = record {
  first = small 0;
  second = small 0;
  third = small 6;
  fourth = record { capital = true; value = 15 };
}

abbrev nested : Doc
nested = object (
    spaced_field [] (json (codes "items")) [] (space ∷ [])
      (array (
        spaced_doc [] (number 7) [] (
          spaced_doc (space ∷ []) null (space ∷ []) (
            spaced_doc (newline ∷ tab ∷ [])
              (numeral (record {
                negative = true;
                whole = 1;
                fraction = codes "50";
                exponent = small_e plus (codes "3");
              }))
              [] (spaced_doc [] (blank_array (space ∷ [])) [] no_docs)))))
      []
      (spaced_field [] (spelled (unicode letter_o ∷ plain b'n' ∷ [])) (space ∷ []) (space ∷ [])
        (boolean true) [] (field (codes "name") (text quoted_text) no_fields)))

letter_o-IsUnit : IsUnit letter_o
letter_o-IsUnit = record {
  first_small = omega arith;
  second_small = omega arith;
  third_small = omega arith;
  fourth_small = omega arith;
}

nested-AreTexts : AreTexts any_text nested
unfolding AreTexts
nested-AreTexts = (
  refl,
  (tt, (tt, (((refl, (refl, tt)), (refl, (refl, tt))), (tt, tt)))),
  (
    (((letter_o-IsUnit, inl (omega arith)), ((omega arith, refl, refl), tt)), refl),
    tt,
    (refl, refl, tt),
  ),
)

skip_value-onto_example : skip_value any_text (onto nested (codes ",1")) ≡ some (codes ",1")
skip_value-onto_example = skip_value-onto any_text nested (codes ",1") nested-AreTexts refl

skip_value-request_envelope_bytes_example :
    skip_value any_text (
      request_envelope_bytes
        (codes "req0")
        (codes "POST")
        (codes "/a")
        (codes "q=1")
        ((codes "k", codes "v") ∷ [])
        2
        (codes "aGk="))
    ≡ some []
skip_value-request_envelope_bytes_example =
    skip_value-request_envelope_bytes any_text any_text-AcceptsAscii (codes "req0") (codes "POST")
      (codes "/a") (codes "q=1") ((codes "k", codes "v") ∷ []) 2 (codes "aGk=") refl refl refl refl
      ((refl, refl), tt) refl (omega arith)

-- A response of a solver.
abbrev created : HttpResponseEnvelope
created = record {
  status = 201;
  request_id = codes "req0";
  headers = (codes "content-type", codes "text/plain_engine") ∷ [];
  body = codes "hello";
}

created-IsSendable :
    IsSendable any_text any_text-AcceptsAscii plain_engine plain_engine-IsBase64 created
created-IsSendable = record {
  request_id_text = refl;
  header_texts = ((refl, refl), tt);
  body_text = refl;
  small_status = omega arith;
  small_body = omega arith;
}

parse_response_envelope-onto_example :
    parse_response_envelope any_text plain_engine
      (onto (response_doc plain_engine created) (codes "tail"))
    ≡ some created
parse_response_envelope-onto_example =
    parse_response_envelope-onto any_text any_text-AcceptsAscii plain_engine plain_engine-IsBase64
      created (codes "tail") created-IsSendable

parse_backend_response-onto_example :
    parse_backend_response any_text plain_engine (onto (backend_doc plain_engine created nested) [])
    ≡ some (record { response = created; state_json = onto nested [] })
parse_backend_response-onto_example =
    parse_backend_response-onto any_text any_text-AcceptsAscii plain_engine plain_engine-IsBase64
      created nested [] created-IsSendable nested-AreTexts

abbrev two_reads : List Read
two_reads = chunk (codes "ab") ∷ chunk (codes "c") ∷ closed ∷ []

read_incoming_body_limited_cases_example : read_incoming_body_limited (stream two_reads) 3 ≡ (
    if ltb 3 (length (sent two_reads))
    then body_too_large
    else when_ended (ends two_reads) (sent two_reads))
read_incoming_body_limited_cases_example =
    read_incoming_body_limited_cases two_reads 3 (omega arith)

-- What the two tests above come to.
reads_within : read_incoming_body_limited (stream two_reads) 3 ≡ body_of (codes "abc")
unfolding read_incoming_body_limited
reads_within = refl

reads_beyond : read_incoming_body_limited (stream two_reads) 2 ≡ body_too_large
unfolding read_incoming_body_limited
reads_beyond = refl

abbrev a_request : IncomingRequest
a_request = record {
  method = post;
  path_with_query = some (codes "/items?id=1");
  entries = (codes "b", codes "2") ∷ (codes "a", codes "1") ∷ [];
  body = stream two_reads;
}

a_request-read :
    read_incoming_body_limited a_request.body max_request_body_bytes ≡ body_of (codes "abc")
unfolding read_incoming_body_limited
a_request-read = refl

abbrev always : List ℕ → Option (List ℕ)
always envelope = some (onto (response_doc plain_engine created) [])

abbrev keep : List ℕ → List ℕ
keep s = s

handle-served_example :
    (o : OutgoingResponse) × (handle open_host plain_engine any_text keep always a_request ≡ some o)
    × (o.status_code ≡ 201)
    × (o.fields ≡ created.headers)
    × (joined o.written ≡ codes "hello")
handle-served_example =
    handle-served open_host plain_engine any_text keep always any_text-AcceptsAscii
      plain_engine-IsBase64 a_request (codes "abc") created [] a_request-read refl refl
      created-IsSendable (open_host-Takes 201 created.headers (chunks 4096 (codes "hello")))

handle_perm_example :
    handle open_host plain_engine any_text keep always a_request
    ≡ handle open_host plain_engine any_text keep always
        (record a_request { entries = (codes "a", codes "1") ∷ (codes "b", codes "2") ∷ [] })
handle_perm_example =
    handle_perm open_host plain_engine any_text keep always a_request
      ((codes "a", codes "1") ∷ (codes "b", codes "2") ∷ []) (Permᴰ.swap refl refl)

unfoldable zeros : ℕ → List ℕ
zeros zero = []
zeros (suc n) = 0 ∷ zeros n

length-zeros : (n : ℕ) → length (zeros n) ≡ n
unfolding zeros
length-zeros zero = refl
length-zeros (suc n) = omega (arith, length-zeros n)

abbrev large_reads : List Read
large_reads = chunk (1 ∷ zeros max_request_body_bytes) ∷ []

large_reads-large : max_request_body_bytes < length (sent large_reads)
unfolding sent
large_reads-large = omega (
  arith,
  length-append (1 ∷ zeros max_request_body_bytes) [],
  length-zeros max_request_body_bytes,
)

handle-too_large_example :
    handle open_host plain_engine any_text keep always
      (record a_request { body = stream large_reads })
    ≡ some (record {
      status_code = 413;
      fields = (codes "x-x07-diag-code", codes "X07WASM_BUDGET_EXCEEDED_HTTP_REQUEST_BODY") ∷ [];
      written = codes "request too large" ∷ [];
    })
handle-too_large_example =
    handle-too_large open_host plain_engine any_text keep always
      (record a_request { body = stream large_reads }) large_reads refl large_reads-large
      (open_host-Takes 413 _ _)

abbrev a_state : List ℕ
a_state = codes "{\"n\":1}"

abbrev with_state : IncomingRequest
with_state = record a_request {
  entries = (codes "b", codes "2") ∷ (codes "X-X07-State-Doc-B64", a_state) ∷ [];
}

-- The state is `null`, as it is at first.
null-AreTexts : AreTexts any_text null
unfolding AreTexts
null-AreTexts = tt

abbrev always_next : List ℕ → Option (List ℕ)
always_next envelope = some (onto (backend_doc plain_engine created null) [])

handle_with_state-served_example :
    (o : OutgoingResponse) × (handle_with_state open_host plain_engine any_text keep always_next
        with_state
      ≡ some o)
    × (o.status_code ≡ 201)
    × (o.fields ≡ created.headers ++ (codes "x-x07-next-state-doc-b64", onto null []) ∷ [])
    × (joined o.written ≡ codes "hello")
handle_with_state-served_example =
    handle_with_state-served keep plain_engine plain_engine-IsBase64 open_host any_text always_next
      any_text-AcceptsAscii with_state (codes "X-X07-State-Doc-B64") a_state
      ((codes "b", codes "2") ∷ []) [] (codes "abc") created null [] refl refl (refl, tt) tt
      a_request-read refl refl created-IsSendable null-AreTexts (open_host-Takes 201 _ _)
