-- ===== src/Caps/Replay.antt =====
-- A replayed run gets what the recorded run was given.
use mathlib.Core.List.{append_assoc, append-nil}
use x07_wasm_backend.Common.{
  ℕ, zero, suc, ◌+◌, ◌-◌, ◌≤◌, ◌≡◌, refl, ap, sym, ◌∙◌, false, Option, some, List, [], ◌∷◌, ◌++◌,
  map, ltb, length, length-append, take, drop, take-append_length, drop-append_length, length-drop,
  get_elem?, arith,
}
use x07_wasm_backend.Common.Result.{ok}
use x07_wasm_backend.Common.Decimal.{to_decimal, parse_decimal, parse_decimal-to_decimal}
use x07_wasm_backend.Caps.Evidence.{
  CapsEvidenceMode, set_insecure_seed_u128, CapsEvidenceState, CapsEvidenceCtx, Base64Engine,
  new_record, record_wall_clock_now_ns, replay_wall_clock_now_ns, record_monotonic_clock_now_ns,
  replay_monotonic_clock_now_ns, record_secure_random_bytes, replay_secure_random_bytes_into,
  record_insecure_random_bytes, replay_insecure_random_bytes_into, u128_max, build_doc, decode_b64,
  parse_seed, new_replay,
}

-- What a recorded run was given, in order.
pub data Event : Type 0 where
  wall monotonic : ℕ → Event
  secure insecure : List ℕ → Event

pub data Given : Type 0 where
  clock : Option ℕ → Given
  random : List ℕ → Given

abbrev pub given : Event → Given
given (wall ns) = clock (some ns)
given (monotonic ns) = clock (some ns)
given (secure bytes) = random bytes
given (insecure bytes) = random bytes

abbrev pub record_event : Event → CapsEvidenceState → CapsEvidenceState
record_event (wall ns) st = record_wall_clock_now_ns ns st
record_event (monotonic ns) st = record_monotonic_clock_now_ns ns st
record_event (secure bytes) st = record_secure_random_bytes bytes st
record_event (insecure bytes) st = record_insecure_random_bytes bytes st

abbrev pub record_all : List Event → CapsEvidenceState → CapsEvidenceState
record_all [] st = st
record_all (e ∷ es) st = record_all es (record_event e st)

abbrev as_clock : Option ℕ × CapsEvidenceState → Given × CapsEvidenceState
as_clock (o, st) = (clock o, st)

abbrev as_random : List ℕ × CapsEvidenceState → Given × CapsEvidenceState
as_random (bytes, st) = (random bytes, st)

-- The same question in a replay: a clock, or as many random bytes.
abbrev pub ask_again : Event → CapsEvidenceState → Given × CapsEvidenceState
ask_again (wall _) st = as_clock (replay_wall_clock_now_ns st)
ask_again (monotonic _) st = as_clock (replay_monotonic_clock_now_ns st)
ask_again (secure bytes) st = as_random (replay_secure_random_bytes_into (length bytes) st)
ask_again (insecure bytes) st = as_random (replay_insecure_random_bytes_into (length bytes) st)

abbrev pub ask_all : List Event → CapsEvidenceState → List Given × CapsEvidenceState
ask_all [] st = ([], st)
ask_all (e ∷ es) st =
    let (g, st') = ask_again e st in let (gs, last) = ask_all es st' in (g ∷ gs, last)

-- The values of each source.
abbrev walls : List Event → List ℕ
walls [] = []
walls (wall ns ∷ es) = ns ∷ walls es
walls (_ ∷ es) = walls es

abbrev monotonics : List Event → List ℕ
monotonics [] = []
monotonics (monotonic ns ∷ es) = ns ∷ monotonics es
monotonics (_ ∷ es) = monotonics es

abbrev secures : List Event → List ℕ
secures [] = []
secures (secure bytes ∷ es) = bytes ++ secures es
secures (_ ∷ es) = secures es

abbrev insecures : List Event → List ℕ
insecures [] = []
insecures (insecure bytes ∷ es) = bytes ++ insecures es
insecures (_ ∷ es) = insecures es

record_all_lem :
    (es : List Event) (st : CapsEvidenceState)
    → record_all es st ≡ record st {
      wall_clock_now_ns = st.wall_clock_now_ns ++ walls es;
      monotonic_clock_now_ns = st.monotonic_clock_now_ns ++ monotonics es;
      secure_random_bytes = st.secure_random_bytes ++ secures es;
      insecure_random_bytes = st.insecure_random_bytes ++ insecures es;
    }
unfolding record_wall_clock_now_ns record_monotonic_clock_now_ns record_secure_random_bytes
    record_insecure_random_bytes
record_all_lem [] st = simp append-nil
record_all_lem (wall ns ∷ es) st = record_all_lem es _ ∙ simp append_assoc
record_all_lem (monotonic ns ∷ es) st = record_all_lem es _ ∙ simp append_assoc
record_all_lem (secure bytes ∷ es) st = record_all_lem es _ ∙ simp append_assoc
record_all_lem (insecure bytes ∷ es) st = record_all_lem es _ ∙ simp append_assoc

-- What is left at the indices of the state is what the events still ask for.
record IsAligned (es : List Event) (st : CapsEvidenceState) : Type 0 where
  walls_left : drop st.wall_clock_i st.wall_clock_now_ns ≡ walls es
  monotonics_left : drop st.monotonic_clock_i st.monotonic_clock_now_ns ≡ monotonics es
  secures_left : drop st.secure_random_i st.secure_random_bytes ≡ secures es
  insecures_left : drop st.insecure_random_i st.insecure_random_bytes ≡ insecures es
  no_errors : st.replay_errors ≡ []

get_elem?_of_drop :
    (xs : List ℕ) (i x : ℕ) (rest : List ℕ) → drop i xs ≡ x ∷ rest → get_elem? xs i ≡ some x
get_elem?_of_drop [] zero x rest h = cc
get_elem?_of_drop [] (suc i) x rest h = cc
get_elem?_of_drop (y ∷ xs) zero x rest h = cc
get_elem?_of_drop (y ∷ xs) (suc i) x rest h = get_elem?_of_drop xs i x rest h

drop-nil : (n : ℕ) → drop {A = ℕ} n [] ≡ []
drop-nil zero = refl
drop-nil (suc n) = refl

drop-drop : (i n : ℕ) (xs : List ℕ) → drop (i + n) xs ≡ drop n (drop i xs)
drop-drop zero n xs = let e : 0 + n ≡ n = omega arith in rw e
drop-drop (suc i) n [] = let e : suc i + n ≡ suc (i + n) = omega arith in rw e (sym (drop-nil n))
drop-drop (suc i) n (x ∷ xs) =
    let e : suc i + n ≡ suc (i + n) = omega arith in rw e (drop-drop i n xs)

drop_next : (xs : List ℕ) (i x : ℕ) (rest : List ℕ) → drop i xs ≡ x ∷ rest → drop (i + 1) xs ≡ rest
drop_next xs i x rest h = drop-drop i 1 xs ∙ ap (drop 1) h

-- Enough bytes remain where the run that asks for them is what is left.
enough_left :
    (all bytes rest : List ℕ) (i : ℕ)
    → drop i all ≡ bytes ++ rest
    → ltb (length all - i) (length bytes) ≡ false
enough_left all bytes rest i h =
    let e = sym (length-drop i all) ∙ ap length h ∙ length-append bytes rest in ground arith

-- One question gets the recorded answer, and the rest stays aligned.
ask_again_lem :
    (e : Event) (es : List Event) (st : CapsEvidenceState)
    → IsAligned (e ∷ es) st
    → ((ask_again e st).0 ≡ given e) × IsAligned es (ask_again e st).1
unfolding replay_wall_clock_now_ns replay_monotonic_clock_now_ns replay_secure_random_bytes_into
    replay_insecure_random_bytes_into
ask_again_lem (wall ns) es st a =
    let found = get_elem?_of_drop st.wall_clock_now_ns st.wall_clock_i ns (walls es) a.walls_left in
    rw found (
      refl,
      record {
        walls_left = drop_next st.wall_clock_now_ns st.wall_clock_i ns (walls es) a.walls_left;
        monotonics_left = a.monotonics_left;
        secures_left = a.secures_left;
        insecures_left = a.insecures_left;
        no_errors = a.no_errors;
      },
    )
ask_again_lem (monotonic ns) es st a =
    let found =
      get_elem?_of_drop st.monotonic_clock_now_ns st.monotonic_clock_i ns (monotonics es)
        a.monotonics_left in
    rw found (
      refl,
      record {
        walls_left = a.walls_left;
        monotonics_left =
            drop_next st.monotonic_clock_now_ns st.monotonic_clock_i ns (monotonics es)
              a.monotonics_left;
        secures_left = a.secures_left;
        insecures_left = a.insecures_left;
        no_errors = a.no_errors;
      },
    )
ask_again_lem (secure bytes) es st a =
    let enough =
      enough_left st.secure_random_bytes bytes (secures es) st.secure_random_i a.secures_left in
    let same = ap (take (length bytes)) a.secures_left ∙ take-append_length bytes (secures es) in
    rw enough (
      ap random same,
      record {
        walls_left = a.walls_left;
        monotonics_left = a.monotonics_left;
        secures_left =
            drop-drop st.secure_random_i (length bytes) st.secure_random_bytes
            ∙ ap (drop (length bytes)) a.secures_left
            ∙ drop-append_length bytes (secures es);
        insecures_left = a.insecures_left;
        no_errors = a.no_errors;
      },
    )
ask_again_lem (insecure bytes) es st a =
    let enough =
      enough_left st.insecure_random_bytes bytes (insecures es) st.insecure_random_i
        a.insecures_left in
    let same =
      ap (take (length bytes)) a.insecures_left ∙ take-append_length bytes (insecures es) in
    rw enough (
      ap random same,
      record {
        walls_left = a.walls_left;
        monotonics_left = a.monotonics_left;
        secures_left = a.secures_left;
        insecures_left =
            drop-drop st.insecure_random_i (length bytes) st.insecure_random_bytes
            ∙ ap (drop (length bytes)) a.insecures_left
            ∙ drop-append_length bytes (insecures es);
        no_errors = a.no_errors;
      },
    )

ask_all_lem :
    (es : List Event) (st : CapsEvidenceState)
    → IsAligned es st
    → ((ask_all es st).0 ≡ map given es) × ((ask_all es st).1.replay_errors ≡ [])
ask_all_lem [] st a = (refl, a.no_errors)
ask_all_lem (e ∷ es) st a =
    let (here, later) = ask_again_lem e es st a in
    let (rest, clean) = ask_all_lem es (ask_again e st).1 later in (cc (here, rest), clean)

-- What the program relies on in the base64 crate: decoding undoes encoding, and no bytes have the
-- empty text.
pub record IsBase64 (b64 : Base64Engine) : Type 0 where
  pub decode-encode : (bytes : List ℕ) → b64.decode (b64.encode bytes) ≡ some bytes
  pub encode_nil : b64.encode [] ≡ []

decode_b64-encode :
    (b64 : Base64Engine) (laws : IsBase64 b64) (bytes : List ℕ) (text : List ℕ)
    → b64.encode bytes ≡ text
    → decode_b64 b64 text ≡ ok bytes
unfolding decode_b64
decode_b64-encode b64 laws bytes [] e =
    let one =
      sym (laws.decode-encode bytes)
      ∙ ap b64.decode (e ∙ sym laws.encode_nil)
      ∙ laws.decode-encode [] in
    cc one
decode_b64-encode b64 laws bytes (c ∷ cs) e =
    let one = ap b64.decode (sym e) ∙ laws.decode-encode bytes in rw one

parse_seed-to_decimal :
    (seed : ℕ) (text : List ℕ)
    → seed ≤ u128_max
    → to_decimal seed ≡ text
    → parse_seed text ≡ ok seed
unfolding parse_seed
parse_seed-to_decimal seed [] h e =
    let one : parse_decimal u128_max [] ≡ some seed =
      ap (parse_decimal u128_max) (sym e) ∙ parse_decimal-to_decimal u128_max seed h in
    unfold parse_decimal in cc one
parse_seed-to_decimal seed (c ∷ cs) h e =
    let one = ap (parse_decimal u128_max) (sym e) ∙ parse_decimal-to_decimal u128_max seed h in
    rw one

-- The context of a replay from the document of `st`.
abbrev pub replay_of : CapsEvidenceState → CapsEvidenceCtx
replay_of st = record {
  mode = CapsEvidenceMode.replay_mode;
  inner = record st {
    wall_clock_i = 0;
    monotonic_clock_i = 0;
    secure_random_i = 0;
    insecure_random_i = 0;
    replay_errors = [];
  };
}

new_replay-build_doc :
    (b64 : Base64Engine) (laws : IsBase64 b64) (st : CapsEvidenceState)
    → st.insecure_seed_u128 ≤ u128_max
    → new_replay b64 (build_doc b64 st) ≡ ok (replay_of st)
unfolding new_replay build_doc
new_replay-build_doc b64 laws st h = rw (decode_b64-encode b64 laws st.secure_random_bytes _ refl) (
    rw (decode_b64-encode b64 laws st.insecure_random_bytes _ refl)
      (rw (parse_seed-to_decimal st.insecure_seed_u128 _ h refl)))

-- Whatever a recorded run was given, in any order: the document of its evidence is accepted, and a
-- replay that asks for the same things in the same order is given the same values, with no error, and
-- with the same seed.
pub replay-record :
    (b64 : Base64Engine) (laws : IsBase64 b64) (events : List Event) (seed : ℕ)
    → seed ≤ u128_max
    → (ctx : CapsEvidenceCtx) × (new_replay b64
          (build_doc b64 (record_all events (set_insecure_seed_u128 seed new_record.inner)))
        ≡ ok ctx)
      × ((ask_all events ctx.inner).0 ≡ map given events)
      × ((ask_all events ctx.inner).1.replay_errors ≡ [])
      × (ctx.inner.insecure_seed_u128 ≡ seed)
unfolding set_insecure_seed_u128 new_record
replay-record b64 laws events seed h =
    let start = set_insecure_seed_u128 seed new_record.inner in
    let all = record_all_lem events start in
    let st = record start {
      wall_clock_now_ns = walls events;
      monotonic_clock_now_ns = monotonics events;
      secure_random_bytes = secures events;
      insecure_random_bytes = insecures events;
    } in
    let aligned : IsAligned events (replay_of st).inner = record {
      walls_left = refl;
      monotonics_left = refl;
      secures_left = refl;
      insecures_left = refl;
      no_errors = refl;
    } in
    let (same, clean) = ask_all_lem events (replay_of st).inner aligned in
    (
      replay_of st,
      ap (λ s. new_replay b64 (build_doc b64 s)) all ∙ new_replay-build_doc b64 laws st h,
      same,
      clean,
      refl,
    )
