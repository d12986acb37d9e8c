-- ===== src/Reducer/Tests.antt =====
-- The reducer's loop at a concrete host: a guest that first fetches `http://api/` and then responds, and
-- a world that counts calls of the guest and requests.
use x07_wasm_backend.Common.{
  ℕ, zero, suc, ◌≤◌, ◌≡◌, refl, ◌⊎◌, Bool, false, Option, none, some, List, [], ◌∷◌, length, str_eq,
  if◌then◌else◌,
}
use x07_wasm_backend.Common.Result.{ok, ok-injective}
use x07_wasm_backend.Json.{Value, null, string, array, object, of_entries, of_list}
use x07_wasm_backend.StreamPayload.{Codec, stream_payload_to_bytes, bytes_to_stream_payload}
use x07_wasm_backend.Reducer.Host.{Host}
use x07_wasm_backend.Reducer.State.{HttpEffectLoopBudgets, Io, new_state}
use mathlib.Core.Bool.{true≢false}
use x07_wasm_backend.Reducer.KeyValue.{kv_get-put}
use x07_wasm_backend.StreamPayload.Tests.{unary, unary-IsCodec}
use x07_wasm_backend.Reducer.Effects.{
  effect_result_payload_bytes, execute_effect, effect_kv_get, effect_kv_put, kv_found,
}
use x07_wasm_backend.Reducer.Fetch.{http_fetch, allowed_uri, response_envelope_value}
use x07_wasm_backend.Reducer.Loop.{Exit, returned, failed_with, run_http_reducer_loop, Step}
use x07_wasm_backend.Limits.{Cause}
use x07_wasm_backend.Reducer.Rules.{Fails}
use x07_wasm_backend.Reducer.Trace.{Ended, run_http_reducer_loop-Ended}
use x07_wasm_backend.Reducer.Permitted.{KeepsUri}
use x07_wasm_backend.Reducer.Confined.{
  IsRespected, IsConfined, exit_io, run_http_reducer_loop_confined,
}

abbrev Net : Type 0
Net = Unit {0}

-- The calls of the guest, and the requests sent.
abbrev World : Type 0
World = ℕ × ℕ

-- A codec for the texts that it knows.
abbrev codec : Codec
codec = record {
  encode = λ bytes. elim bytes [ [] ↦ "" | b ∷ _ ↦ "aGk=" ];
  decode = λ text. if str_eq text "" then some [] else some (104 ∷ 105 ∷ []);
  as_bytes = λ text. if str_eq text "" then [] else 104 ∷ 105 ∷ [];
  from_utf8 = λ bytes. elim bytes [ [] ↦ some "" | b ∷ _ ↦ some "hi" ];
}

abbrev fetch_frame : Value
fetch_frame = object (
    of_entries (
      ("state", string "waiting")
      ∷ (
        "effects",
        array (
            of_list (
              object (
                of_entries (
                  ("id", string "e1")
                  ∷ ("type", string "http.fetch")
                  ∷ ("url", string "http://api/")
                  ∷ []))
              ∷ [])),
      )
      ∷ []))

abbrev done_frame : Value
done_frame = object (of_entries (("response", string "done") ∷ []))

abbrev host : Host World Net
host = record {
  codec = codec;
  contains = λ _ _. false;
  parse_ip = λ _. none;
  validate = λ _ _. ok [];
  canonical_json_bytes = λ _. ok [];
  from_slice = λ bytes. elim bytes [ [] ↦ ok fetch_frame | _ ∷ _ ↦ ok done_frame ];
  call = λ _ w. elim w.0 [ zero ↦ (ok [], (1, w.1)) | suc n ↦ (ok (1 ∷ []), (suc (suc n), w.1)) ];
  now_unix_ms = λ w. (0, w);
  print_log = λ _ _ w. w;
  parse_uri = λ url.
      ok (record { text = url; scheme_str = some "http"; host = some "api"; port_u16 = none });
  parse_method = λ m. some m;
  header_name = λ k. some k;
  header_value = λ v. some v;
  build = λ req. ok req;
  request =
      λ _ w. (ok (record { status = 200; headers = []; collect = λ _. ok [] }), (w.0, suc w.1));
  to_string = λ _. "n";
  debug_string = λ s. s;
  show_deny = λ _. "denied";
  show_payload_error = λ _. "payload";
  show_causes = λ _. "failed";
}

abbrev budgets : HttpEffectLoopBudgets
budgets = record { max_effect_steps = 3; max_effect_results_bytes = 100 }

abbrev start_io : Io World Net
start_io = record { effects = new_state ("api" ∷ []) none; diagnostics = []; world = (0, 0) }

-- The exit as the test reads it: the response, the steps and the requests.
abbrev seen : Exit World Net → Option Value × ℕ × ℕ
seen (returned r steps io) = (r, length steps, io.world.1)
seen (failed_with e io) = (none, 0, io.world.1)

loop_test : seen (run_http_reducer_loop host budgets null start_io) ≡ (some (string "done"), 2, 1)
unfolding run_http_reducer_loop new_state effect_result_payload_bytes execute_effect http_fetch
    allowed_uri stream_payload_to_bytes response_envelope_value bytes_to_stream_payload
loop_test = refl

abbrev run : Exit World Net
run = run_http_reducer_loop host budgets null start_io

run_http_reducer_loop-Ended_example :
    ((response : Option Value) × (steps : List Step) × (io : Io World Net) × (run_http_reducer_loop
          host budgets null start_io
        ≡ returned response steps io)
      × Ended null 100 response steps io.diagnostics
      × (length steps ≤ 3))
    ⊎ ((e : List Cause) × (io : Io World Net) × (run_http_reducer_loop host budgets null start_io
          ≡ failed_with e io)
        × Fails host e)
run_http_reducer_loop-Ended_example = run_http_reducer_loop-Ended host budgets null start_io

keeps_uri : KeepsUri host
unfolding KeepsUri
keeps_uri req req' h = rw (ok-injective h) refl

-- A run that does not report the network has sent nothing.
abbrev ReportsRequests : Bool → Bool → World → Type 0
ReportsRequests network time w = network ≡ false → w.1 ≡ 0

counted_call :
    (network time : Bool) (w : World) (input : List ℕ)
    → ReportsRequests network time w
    → ReportsRequests network time (host.call input w).1
counted_call network time (zero, sent) input h = h
counted_call network time (suc n, sent) input h = h

ReportsRequests-IsRespected : IsRespected host none ("api" ∷ []) ReportsRequests
ReportsRequests-IsRespected = record {
  by_call = counted_call;
  by_log = λ _ _ _ _ _ h. h;
  by_clock = λ _ _ _ _ h. h;
  by_network = λ _ _ _ _ e. absurd (true≢false e);
  by_request = λ _ _ _ _ _ e. absurd (true≢false e);
}

run_http_reducer_loop_confined_example :
    IsConfined host keeps_uri none
      ("api" ∷ [])
      ReportsRequests
      ReportsRequests-IsRespected
      (exit_io run)
run_http_reducer_loop_confined_example =
    run_http_reducer_loop_confined host keeps_uri none ("api" ∷ []) ReportsRequests
      ReportsRequests-IsRespected budgets null [] (0, 0) (λ _. refl)

abbrev unary_host : Host World Net
unary_host = record host { codec = unary }

abbrev put_hello : Value
put_hello = object (
    of_entries (
      ("type", string "kv.put")
      ∷ ("key", string "greeting")
      ∷ ("value", bytes_to_stream_payload unary (1 ∷ 2 ∷ []))
      ∷ []))

abbrev get_hello : Value
get_hello = object (of_entries (("type", string "kv.get") ∷ ("key", string "greeting") ∷ []))

kv_get-put_example :
    ((effect_kv_get unary_host "e2" get_hello
        (effect_kv_put unary_host "e1" put_hello start_io).1).0
      ≡ kv_found unary_host "e2" (some (1 ∷ 2 ∷ [])))
    × ((effect_kv_put unary_host "e1" put_hello start_io).1.diagnostics ≡ [])
kv_get-put_example =
    kv_get-put unary_host unary-IsCodec "e1" "e2" put_hello get_hello (1 ∷ 2 ∷ []) start_io refl
