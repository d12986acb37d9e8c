-- ===== src/Adapter/Served.antt =====
-- What the handlers come to, from the request to the response.
use mathlib.Core.List.{append_assoc, append-nil, Permᴰ}
use x07_wasm_backend.Common.{
  ℕ, zero, suc, ◌≤◌, ◌<◌, ◌≡◌, refl, sym, ap, All, length-take, ◌∙◌, Bool, true, Option, some, List,
  [], ◌∷◌, ◌++◌, arith, codes, lt→ltb, length, take, drop, length-drop, take-append-drop,
}
use x07_wasm_backend.Common.Sort.{sort_perm}
use x07_wasm_backend.Caps.Evidence.{Base64Engine}
use x07_wasm_backend.Caps.Replay.{IsBase64}
use x07_wasm_backend.Adapter.Response.{HttpResponseEnvelope}
use x07_wasm_backend.Adapter.HeaderOrder.{leb_header, leb_header-IsOrder}
use x07_wasm_backend.Adapter.Body.{
  Read, stream, BodyRead, body_of, body_too_large, read_failed, sent, read_incoming_body_limited,
  read_incoming_body_limited_cases,
}
use x07_wasm_backend.Adapter.Document.{onto}
use x07_wasm_backend.Adapter.Request.{AcceptsAscii}
use x07_wasm_backend.Adapter.Answers.{response_doc, IsSendable, parse_response_envelope-onto}
use x07_wasm_backend.Adapter.Handle.{
  max_request_body_bytes, chunks_from, chunks, IncomingRequest, OutgoingResponse, WasiHttp,
  write_chunks, send_response, respond_request_body_too_large, request_bytes, lossy_headers,
  answer_request, handle,
}

-- The chunks one behind the other.
abbrev pub joined : List (List ℕ) → List ℕ
joined [] = []
joined (c ∷ cs) = c ++ joined cs

joined-chunks_from :
    (fuel size : ℕ) (s : List ℕ) → 1 ≤ size → length s ≤ fuel → joined (chunks_from fuel size s) ≡ s
joined-chunks_from zero size [] h l = refl
joined-chunks_from zero size (b ∷ bs) h l = absurd (omega arith)
joined-chunks_from (suc fuel) size [] h l = refl
joined-chunks_from (suc fuel) size (b ∷ bs) h l =
    ap (λ t. take size (b ∷ bs) ++ t)
      (joined-chunks_from fuel size (drop size (b ∷ bs)) h
        (omega (arith, length-drop size (b ∷ bs))))
    ∙ take-append-drop size (b ∷ bs)

-- The chunks of a body are the body.
pub joined-chunks : (s : List ℕ) → joined (chunks 4096 s) ≡ s
unfolding chunks
joined-chunks s = joined-chunks_from (length s) 4096 s (omega arith) (omega arith)

-- No chunk has more bytes than wasi:io takes at once.
abbrev pub AreShort : List (List ℕ) → Type 0
AreShort cs = All (λ c. length c ≤ 4096) cs

AreShort-chunks_from : (fuel : ℕ) (s : List ℕ) → AreShort (chunks_from fuel 4096 s)
AreShort-chunks_from zero s = tt
AreShort-chunks_from (suc fuel) [] = tt
AreShort-chunks_from (suc fuel) (b ∷ bs) =
    (omega (arith, length-take 4096 (b ∷ bs)), AreShort-chunks_from fuel (drop 4096 (b ∷ bs)))

pub AreShort-chunks : (s : List ℕ) → AreShort (chunks 4096 s)
unfolding chunks
AreShort-chunks s = AreShort-chunks_from (length s) s

-- The solver gets the same bytes for the same headers in another order.
request_bytes_perm :
    (encode : List ℕ → List ℕ) (request : IncomingRequest)
    (headers headers' : List (List ℕ × List ℕ)) (body : List ℕ)
    → Permᴰ headers headers'
    → request_bytes encode request headers body ≡ request_bytes encode request headers' body
unfolding request_bytes
request_bytes_perm encode request headers headers' body p =
    rw (sort_perm leb_header leb_header-IsOrder p) refl

lossy_headers_perm :
    (lossy : List ℕ → List ℕ) {entries entries' : List (List ℕ × List ℕ)}
    → Permᴰ entries entries'
    → Permᴰ (lossy_headers lossy entries) (lossy_headers lossy entries')
lossy_headers_perm lossy Permᴰ.nil = Permᴰ.nil
lossy_headers_perm lossy (Permᴰ.cons e p) = Permᴰ.cons (rw e refl) (lossy_headers_perm lossy p)
lossy_headers_perm lossy (Permᴰ.swap e f) = Permᴰ.swap (rw e refl) (rw f refl)
lossy_headers_perm lossy (Permᴰ.trans p q) =
    Permᴰ.trans (lossy_headers_perm lossy p) (lossy_headers_perm lossy q)

module _ (http : WasiHttp) where
  -- The host takes a response: its headers, its status, each of its chunks behind those before it, where the
  -- chunk has the 4096 bytes at most that wasi:io takes at once, and its end.
  pub record Takes (status : ℕ) (headers : List (List ℕ × List ℕ)) (body_chunks : List (List ℕ))
      : Type 0 where
    pub takes_headers : http.from_list headers ≡ true
    pub takes_status : http.set_status_code status ≡ true
    pub takes_chunks :
        (before after : List (List ℕ)) (c : List ℕ)
        → before ++ c ∷ after ≡ body_chunks
        → length c ≤ 4096
        → http.blocking_write_and_flush before c ≡ true
    pub takes_end : http.finish headers body_chunks ≡ true

  write_chunks-all :
      (written cs body_chunks : List (List ℕ))
      → ((before after : List (List ℕ)) (c : List ℕ)
          → before ++ c ∷ after ≡ body_chunks
          → length c ≤ 4096
          → http.blocking_write_and_flush before c ≡ true)
      → written ++ cs ≡ body_chunks
      → AreShort cs
      → write_chunks http written cs ≡ some body_chunks
  write_chunks-all written [] body_chunks h e short =
      ap (λ t. some t) (sym (append-nil written) ∙ e)
  write_chunks-all written (c ∷ cs) body_chunks h e (small, short) = rw (h written cs c e small) (
      write_chunks-all (written ++ c ∷ []) cs body_chunks h (append_assoc written (c ∷ []) cs ∙ e)
        short)

  pub send_response-Takes :
      (status : ℕ) (headers : List (List ℕ × List ℕ)) (body_chunks : List (List ℕ))
      → Takes status headers body_chunks
      → AreShort body_chunks
      → send_response http status headers body_chunks
        ≡ some (record { status_code = status; fields = headers; written = body_chunks })
  unfolding send_response
  send_response-Takes status headers body_chunks t short = rw t.takes_headers (
      rw t.takes_status (
        rw (write_chunks-all [] body_chunks body_chunks t.takes_chunks refl short)
          (rw t.takes_end refl)))

  -- A body of more than 2 ^ 20 bytes is answered with the status 413 and the code of the exceeded budget,
  -- whatever the solver would say, where the host takes that response: the solver is not asked.
  pub handle-too_large :
      (b64 : Base64Engine) (is_utf8 : List ℕ → Bool) (lossy : List ℕ → List ℕ)
      (solve : List ℕ → Option (List ℕ)) (request : IncomingRequest) (reads : List Read)
      → request.body ≡ stream reads
      → max_request_body_bytes < length (sent reads)
      → Takes 413
          ((codes "x-x07-diag-code", codes "X07WASM_BUDGET_EXCEEDED_HTTP_REQUEST_BODY") ∷ [])
          (codes "request too large" ∷ [])
      → handle http b64 is_utf8 lossy solve request
        ≡ some (record {
          status_code = 413;
          fields =
              (codes "x-x07-diag-code", codes "X07WASM_BUDGET_EXCEEDED_HTTP_REQUEST_BODY") ∷ [];
          written = codes "request too large" ∷ [];
        })
  unfolding handle answer_request respond_request_body_too_large
  handle-too_large b64 is_utf8 lossy solve request reads e large t = rw e (
      rw (read_incoming_body_limited_cases reads max_request_body_bytes (omega arith)) (
        rw (lt→ltb max_request_body_bytes (length (sent reads)) large)
          (send_response-Takes 413 _ _ t (omega arith, tt))))

  module _ (b64 : Base64Engine) (is_utf8 : List ℕ → Bool) (lossy : List ℕ → List ℕ)
      (solve : List ℕ → Option (List ℕ)) where
    answer_perm :
        (request : IncomingRequest) (entries : List (List ℕ × List ℕ)) (read : BodyRead)
        → Permᴰ request.entries entries
        → answer_request http b64 is_utf8 lossy solve request read
          ≡ answer_request http b64 is_utf8 lossy solve (record request { entries = entries }) read
    unfolding answer_request request_bytes
    answer_perm request entries (body_of body) p =
        rw (request_bytes_perm b64.encode request _ _ body (lossy_headers_perm lossy p)) refl
    answer_perm request entries body_too_large p = refl
    answer_perm request entries read_failed p = refl

    -- Requests that differ by the order of their headers alone are answered alike.
    pub handle_perm :
        (request : IncomingRequest) (entries : List (List ℕ × List ℕ))
        → Permᴰ request.entries entries
        → handle http b64 is_utf8 lossy solve request
          ≡ handle http b64 is_utf8 lossy solve (record request { entries = entries })
    unfolding handle
    handle_perm request entries p =
        answer_perm request entries (read_incoming_body_limited request.body max_request_body_bytes)
          p

    module _ (ascii : AcceptsAscii is_utf8) (laws : IsBase64 b64) where
      -- A request whose body is read, and that the solver answers with a response to it that can be written
      -- and that the host takes, in chunks of at most 4096 bytes, is served: with the solver's status, headers
      -- and body.
      pub handle-served :
          (request : IncomingRequest) (body : List ℕ) (r : HttpResponseEnvelope) (rest : List ℕ)
          → read_incoming_body_limited request.body max_request_body_bytes ≡ body_of body
          → solve (request_bytes b64.encode request (lossy_headers lossy request.entries) body)
            ≡ some (onto (response_doc b64 r) rest)
          → r.request_id ≡ codes "req0"
          → IsSendable is_utf8 ascii b64 laws r
          → Takes r.status r.headers (chunks 4096 r.body)
          → (o : OutgoingResponse) × (handle http b64 is_utf8 lossy solve request ≡ some o)
            × (o.status_code ≡ r.status)
            × (o.fields ≡ r.headers)
            × (joined o.written ≡ r.body)
      unfolding handle answer_request
      handle-served request body r rest read solved id ok t = (
        record { status_code = r.status; fields = r.headers; written = chunks 4096 r.body },
        rw read (
            rw solved (
              rw (parse_response_envelope-onto is_utf8 ascii b64 laws r rest ok) (
                rw id (
                  send_response-Takes r.status r.headers (chunks 4096 r.body) t
                    (AreShort-chunks r.body))))),
        refl,
        refl,
        joined-chunks r.body,
      )
