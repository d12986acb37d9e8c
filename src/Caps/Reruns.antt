-- ===== src/Caps/Reruns.antt =====
-- The replay of a guest whose calls were recorded.
use x07_wasm_backend.Common.{ℕ, ◌≤◌, ◌≡◌, refl, ap, ◌∙◌, List, [], ◌∷◌, map, length}
use x07_wasm_backend.Common.Result.{ok}
use x07_wasm_backend.Json.{unwrap_or}
use x07_wasm_backend.Caps.Evidence.{
  record_mode, replay_mode, CapsEvidenceState, CapsEvidenceCtx, Base64Engine, new_record,
  set_insecure_seed_u128, build_doc, new_replay, u128_max,
}
use x07_wasm_backend.Caps.Replay.{
  Event, Given, clock, random, given, record_event, record_all, ask_again, ask_all, IsBase64,
  replay-record,
}
use x07_wasm_backend.Caps.Sources.{
  EvidenceRngKind, clamp_ns, le_value, replay_bytes_into, with_le_value, as_value, as_filled, Call,
  Reply, value, filled, serve, serve_all,
}

-- The event that a recording keeps of a call.
abbrev event_of_bytes : EvidenceRngKind → List ℕ → Event
event_of_bytes EvidenceRngKind.secure bytes = Event.secure bytes
event_of_bytes EvidenceRngKind.insecure bytes = Event.insecure bytes

abbrev pub event_of : Call → Event
event_of (Call.wall ns) = Event.wall (clamp_ns ns)
event_of (Call.monotonic ns) = Event.monotonic (clamp_ns ns)
event_of (Call.fill kind bytes) = event_of_bytes kind bytes
event_of (Call.number kind bytes) = event_of_bytes kind bytes

-- The reply to a call, from what the event gave.
abbrev bytes_in : Given → List ℕ
bytes_in (clock o) = []
bytes_in (random bytes) = bytes

abbrev number_in : Given → ℕ
number_in (clock o) = unwrap_or o 0
number_in (random bytes) = 0

abbrev reply_to : Call → Given → Reply
reply_to (Call.wall ns) g = value (number_in g)
reply_to (Call.monotonic ns) g = value (number_in g)
reply_to (Call.fill kind bytes) g = filled (bytes_in g)
reply_to (Call.number kind bytes) g = value (le_value (bytes_in g))

abbrev replies_to : List Call → List Given → List Reply
replies_to (c ∷ cs) (g ∷ gs) = reply_to c g ∷ replies_to cs gs
replies_to _ _ = []

record_serve :
    (c : Call) (st : CapsEvidenceState)
    → serve record_mode c st ≡ (reply_to c (given (event_of c)), record_event (event_of c) st)
unfolding serve
record_serve (Call.wall ns) st = refl
record_serve (Call.monotonic ns) st = refl
record_serve (Call.fill EvidenceRngKind.secure bytes) st = refl
record_serve (Call.fill EvidenceRngKind.insecure bytes) st = refl
record_serve (Call.number EvidenceRngKind.secure bytes) st = refl
record_serve (Call.number EvidenceRngKind.insecure bytes) st = refl

replay_serve :
    (c : Call) (st : CapsEvidenceState)
    → serve replay_mode c st
      ≡ (reply_to c (ask_again (event_of c) st).0, (ask_again (event_of c) st).1)
unfolding serve
replay_serve (Call.wall ns) st = refl
replay_serve (Call.monotonic ns) st = refl
replay_serve (Call.fill EvidenceRngKind.secure bytes) st = refl
replay_serve (Call.fill EvidenceRngKind.insecure bytes) st = refl
replay_serve (Call.number EvidenceRngKind.secure bytes) st = refl
replay_serve (Call.number EvidenceRngKind.insecure bytes) st = refl

record_serve_all :
    (cs : List Call) (st : CapsEvidenceState)
    → serve_all record_mode cs st
      ≡ (replies_to cs (map given (map event_of cs)), record_all (map event_of cs) st)
record_serve_all [] st = refl
record_serve_all (c ∷ cs) st =
    rw (record_serve c st) (rw (record_serve_all cs (record_event (event_of c) st)) refl)

replay_serve_all :
    (cs : List Call) (st : CapsEvidenceState)
    → serve_all replay_mode cs st
      ≡ (replies_to cs (ask_all (map event_of cs) st).0, (ask_all (map event_of cs) st).1)
replay_serve_all [] st = refl
replay_serve_all (c ∷ cs) st =
    rw (replay_serve c st) (rw (replay_serve_all cs (ask_again (event_of c) st).1) refl)

-- The same call of the same source, with buffers of one length, whatever the operating system and the
-- generator have for it.
pub data IsAlike : Call → Call → Type 0 where
  walls : {m n : ℕ} → IsAlike (Call.wall m) (Call.wall n)
  monotonics : {m n : ℕ} → IsAlike (Call.monotonic m) (Call.monotonic n)
  fills :
      {kind : EvidenceRngKind} {bytes bytes' : List ℕ}
      → length bytes ≡ length bytes'
      → IsAlike (Call.fill kind bytes) (Call.fill kind bytes')
  numbers :
      {kind : EvidenceRngKind} {bytes bytes' : List ℕ}
      → length bytes ≡ length bytes'
      → IsAlike (Call.number kind bytes) (Call.number kind bytes')

pub data AreAlike : List Call → List Call → Type 0 where
  no_calls : AreAlike [] []
  next_call :
      {c c' : Call} {cs cs' : List Call}
      → IsAlike c c'
      → AreAlike cs cs'
      → AreAlike (c ∷ cs) (c' ∷ cs')

replay_alike :
    {c c' : Call} (st : CapsEvidenceState)
    → IsAlike c c'
    → serve replay_mode c st ≡ serve replay_mode c' st
unfolding serve
replay_alike st walls = refl
replay_alike st monotonics = refl
replay_alike st (fills {kind = kind} e) = ap (λ n. as_filled (replay_bytes_into kind n st)) e
replay_alike st (numbers {kind = kind} e) =
    ap (λ n. as_value (with_le_value (replay_bytes_into kind n st))) e

replay_all_alike :
    {cs cs' : List Call} (st : CapsEvidenceState)
    → AreAlike cs cs'
    → serve_all replay_mode cs st ≡ serve_all replay_mode cs' st
replay_all_alike st no_calls = refl
replay_all_alike st (next_call {c' = c'} e es) =
    rw (replay_alike st e) (rw (replay_all_alike (serve replay_mode c' st).1 es) refl)

-- A guest that makes the calls of a recording again in a replay gets the replies that it got then, from a
-- document that was written and read, whatever the operating system and the generator have for it now; no
-- error is reported, and the seed is the recorded one.
pub serve_all-replay :
    (b64 : Base64Engine) (laws : IsBase64 b64) (calls again : List Call) (seed : ℕ)
    → AreAlike again calls
    → seed ≤ u128_max
    → (ctx : CapsEvidenceCtx) × (new_replay b64 (
          build_doc b64
            (serve_all record_mode calls (set_insecure_seed_u128 seed new_record.inner)).1)
        ≡ ok ctx)
      × ((serve_all replay_mode again ctx.inner).0
          ≡ (serve_all record_mode calls (set_insecure_seed_u128 seed new_record.inner)).0)
      × ((serve_all replay_mode again ctx.inner).1.replay_errors ≡ [])
      × (ctx.inner.insecure_seed_u128 ≡ seed)
serve_all-replay b64 laws calls again seed alike h =
    let start = set_insecure_seed_u128 seed new_record.inner in
    let (ctx, read, same, clean, seeded) = replay-record b64 laws (map event_of calls) seed h in
    let replayed = replay_all_alike ctx.inner alike ∙ replay_serve_all calls ctx.inner in
    (
      ctx,
      rw (record_serve_all calls start) read,
      rw (record_serve_all calls start) (rw replayed (ap (replies_to calls) same)),
      rw replayed clean,
      seeded,
    )
