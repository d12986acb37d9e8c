-- ===== src/Adapter/StateDoc.antt =====
-- The state that the state-doc adapter carries from a response to the next request.
use x07_wasm_backend.Common.{
  ℕ, ◌≡◌, refl, Bool, true, false, Option, some, List, [], ◌∷◌, ◌++◌, All, codes, eq_ignore_case,
}
use x07_wasm_backend.Caps.Evidence.{Base64Engine}
use x07_wasm_backend.Caps.Replay.{IsBase64}
use x07_wasm_backend.Adapter.Response.{HttpResponseEnvelope}
use x07_wasm_backend.Adapter.Body.{body_of, read_incoming_body_limited}
use x07_wasm_backend.Adapter.Document.{Doc, onto, AreTexts}
use x07_wasm_backend.Adapter.Request.{AcceptsAscii}
use x07_wasm_backend.Adapter.Answers.{IsSendable}
use x07_wasm_backend.Adapter.Backend.{backend_doc, parse_backend_response-onto}
use x07_wasm_backend.Adapter.Served.{
  joined, joined-chunks, AreShort-chunks, Takes, send_response-Takes,
}
use x07_wasm_backend.Adapter.Handle.{
  max_request_body_bytes, state_doc_request_header, chunks, IncomingRequest, OutgoingResponse,
  WasiHttp, state_doc_headers, lossy_headers, request_bytes, backend_request_bytes,
  answer_with_state, handle_with_state,
}

-- No header is the one of the state.
abbrev pub AreStateless : List (List ℕ × List ℕ) → Type 0
AreStateless headers = All (λ h. eq_ignore_case h.0 (codes "x-x07-state-doc-b64") ≡ false) headers

module _ (lossy : List ℕ → List ℕ) (b64 : Base64Engine) (laws : IsBase64 b64) where
  stateless_headers :
      (state : List ℕ) (entries : List (List ℕ × List ℕ))
      → AreStateless entries
      → state_doc_headers lossy b64.decode state entries ≡ some (lossy_headers lossy entries, state)
  stateless_headers state [] h = refl
  stateless_headers state ((k, v) ∷ entries) (h, hs) =
      rw (state_doc_headers, h) (rw (stateless_headers state entries hs) refl)

  -- A header of the state, in any case of letters, sets the state and is not passed on.
  state_doc_headers-encode :
      (state k doc : List ℕ) (before after : List (List ℕ × List ℕ))
      → eq_ignore_case k state_doc_request_header ≡ true
      → AreStateless before
      → AreStateless after
      → state_doc_headers lossy b64.decode state (before ++ (k, b64.encode doc) ∷ after)
        ≡ some (lossy_headers lossy (before ++ after), doc)
  state_doc_headers-encode state k doc [] after e h g =
      rw (state_doc_headers, e) (rw (laws.decode-encode doc) (stateless_headers doc after g))
  state_doc_headers-encode state k doc ((k', v) ∷ before) after e (h, hs) g =
      rw (state_doc_headers, h) (rw (state_doc_headers-encode state k doc before after e hs g) refl)

  module _ (http : WasiHttp) (is_utf8 : List ℕ → Bool) (solve : List ℕ → Option (List ℕ))
      (ascii : AcceptsAscii is_utf8) where
    -- The request carries a state under the header's name in any case of letters. The solver is asked with
    -- that state, and its next state, which may be `null` or any other document, goes out in the header of
    -- the response, so that a client which sends it back continues from there. The host takes the
    -- response, in chunks of at most 4096 bytes.
    pub handle_with_state-served :
        (request : IncomingRequest) (k state : List ℕ) (before after : List (List ℕ × List ℕ))
        (body : List ℕ) (r : HttpResponseEnvelope) (next : Doc) (rest : List ℕ)
        → request.entries ≡ before ++ (k, b64.encode state) ∷ after
        → eq_ignore_case k (codes "x-x07-state-doc-b64") ≡ true
        → AreStateless before
        → AreStateless after
        → read_incoming_body_limited request.body max_request_body_bytes ≡ body_of body
        → solve (
            backend_request_bytes
              (request_bytes b64.encode request (lossy_headers lossy (before ++ after)) body)
              state)
          ≡ some (onto (backend_doc b64 r next) rest)
        → r.request_id ≡ codes "req0"
        → IsSendable is_utf8 ascii b64 laws r
        → AreTexts is_utf8 next
        → Takes http r.status
            (r.headers ++ (codes "x-x07-next-state-doc-b64", b64.encode (onto next [])) ∷ [])
            (chunks 4096 r.body)
        → (o : OutgoingResponse) × (handle_with_state http b64 is_utf8 lossy solve request ≡ some o)
          × (o.status_code ≡ r.status)
          × (o.fields
              ≡ r.headers ++ (codes "x-x07-next-state-doc-b64", b64.encode (onto next [])) ∷ [])
          × (joined o.written ≡ r.body)
    unfolding handle_with_state answer_with_state
    handle_with_state-served request k state before after body r next rest entries name h g read
          solved id ok texts t =
        (
          record {
            status_code = r.status;
            fields =
                r.headers ++ (codes "x-x07-next-state-doc-b64", b64.encode (onto next [])) ∷ [];
            written = chunks 4096 r.body;
          },
          rw entries (
              rw (state_doc_headers-encode (codes "null") k state before after name h g) (
                rw read (
                  rw solved (
                    rw (parse_backend_response-onto is_utf8 ascii b64 laws r next rest ok texts) (
                      rw id (
                        send_response-Takes http r.status _ (chunks 4096 r.body) t
                          (AreShort-chunks r.body))))))),
          refl,
          refl,
          joined-chunks r.body,
        )
