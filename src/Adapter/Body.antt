-- ===== src/Adapter/Body.antt =====
-- `read_incoming_body_limited` of both adapters.
use mathlib.Core.List.{append_assoc, append-nil}
use x07_wasm_backend.Common.{
  ℕ, ◌+◌, ◌≤◌, ◌<◌, ◌≡◌, refl, sym, inl, inr, Bool, true, false, List, [], ◌∷◌, ◌++◌, arith, ltb,
  length, length-append, if◌then◌else◌, Bool-cases, ◌⊎◌, lt→ltb, ltb→lt,
}
use x07_wasm_backend.Adapter.Cursor.{u32_max}

-- What a `blocking_read` answers.
pub data Read : Type 0 where
  chunk : List ℕ → Read
  closed last_operation_failed : Read

-- A body that the request does not hand out, or that has no stream, or the answers of its stream, which is
-- closed behind the last of them.
pub data IncomingBody : Type 0 where
  consumed no_stream : IncomingBody
  stream : List Read → IncomingBody

pub data BodyRead : Type 0 where
  body_of : List ℕ → BodyRead
  body_too_large read_failed : BodyRead

-- On the 32-bit `usize` of the component.
abbrev saturating_add : ℕ → ℕ → ℕ
saturating_add a b = if ltb u32_max (a + b) then u32_max else a + b

abbrev exceeds : ℕ → List ℕ → List ℕ → Bool
exceeds max_bytes out bytes = ltb max_bytes (saturating_add (length out) (length bytes))

unfoldable pub read_loop : ℕ → List ℕ → List Read → BodyRead
read_loop max_bytes out [] = body_of out
read_loop max_bytes out (closed ∷ rs) = body_of out
read_loop max_bytes out (last_operation_failed ∷ rs) = read_failed
read_loop max_bytes out (chunk [] ∷ rs) = body_of out
read_loop max_bytes out (chunk (b ∷ bs) ∷ rs) = elim (exceeds max_bytes out (b ∷ bs)) [
  | true ↦ body_too_large
  | false ↦ read_loop max_bytes (out ++ b ∷ bs) rs
]

unfoldable pub read_incoming_body_limited : IncomingBody → ℕ → BodyRead
unfolding read_loop
read_incoming_body_limited consumed max_bytes = body_of []
read_incoming_body_limited no_stream max_bytes = body_of []
read_incoming_body_limited (stream reads) max_bytes = read_loop max_bytes [] reads

-- The bytes that a stream gives until it ends or fails.
unfoldable pub sent : List Read → List ℕ
sent (chunk (b ∷ bs) ∷ rs) = (b ∷ bs) ++ sent rs
sent _ = []

-- It ends, and does not fail.
unfoldable pub ends : List Read → Bool
ends (chunk (b ∷ bs) ∷ rs) = ends rs
ends (last_operation_failed ∷ rs) = false
ends _ = true

abbrev pub when_ended : Bool → List ℕ → BodyRead
when_ended true bytes = body_of bytes
when_ended false bytes = read_failed

abbrev IsReadOf : ℕ → List ℕ → Bool → BodyRead → Type 0
IsReadOf max_bytes bytes ended r =
    (length bytes ≤ max_bytes → r ≡ when_ended ended bytes)
    × (max_bytes < length bytes → r ≡ body_too_large)

exceeds_iff :
    (max_bytes : ℕ) (out bytes : List ℕ)
    → max_bytes < u32_max
    → (exceeds max_bytes out bytes ≡ true × max_bytes < length (out ++ bytes))
      ⊎ (exceeds max_bytes out bytes ≡ false × length (out ++ bytes) ≤ max_bytes)
exceeds_iff max_bytes out bytes small =
    let total = length-append out bytes in
    elim (Bool-cases (ltb u32_max (length out + length bytes))) [
      | inl e ↦ inl (rw e (lt→ltb max_bytes u32_max small), ground arith)
      | inr e ↦ elim (Bool-cases (ltb max_bytes (length out + length bytes))) [
        | inl g ↦ inl (rw e g, ground arith)
        | inr g ↦ inr (rw e g, ground arith)
      ]
    ]

read_loop_cases :
    (max_bytes : ℕ) (out : List ℕ) (reads : List Read)
    → max_bytes < u32_max
    → length out ≤ max_bytes
    → IsReadOf max_bytes (out ++ sent reads) (ends reads) (read_loop max_bytes out reads)
unfolding read_loop sent ends
read_loop_cases max_bytes out [] small h =
    rw (append-nil out) (λ _. refl, λ g. absurd (omega arith))
read_loop_cases max_bytes out (closed ∷ rs) small h =
    rw (append-nil out) (λ _. refl, λ g. absurd (omega arith))
read_loop_cases max_bytes out (last_operation_failed ∷ rs) small h =
    rw (append-nil out) (λ _. refl, λ g. absurd (omega arith))
read_loop_cases max_bytes out (chunk [] ∷ rs) small h =
    rw (append-nil out) (λ _. refl, λ g. absurd (omega arith))
read_loop_cases max_bytes out (chunk (b ∷ bs) ∷ rs) small h =
    elim (exceeds_iff max_bytes out (b ∷ bs) small) [
      | inl (e, l) ↦
          let total = length-append (out ++ b ∷ bs) (sent rs) in
          let same = append_assoc out (b ∷ bs) (sent rs) in
          rw (read_loop, e) (rw (sym same) (λ g. absurd (omega arith), λ _. refl))
      | inr (e, l) ↦
          rw (read_loop, e)
            (rw (sym (append_assoc out (b ∷ bs) (sent rs)))
              (read_loop_cases max_bytes (out ++ b ∷ bs) rs small l))
    ]

-- A stream that gives more bytes than the limit is too large, whether or not it fails later; any other body
-- is read whole, or the read fails as the stream fails. The limit is below 2 ^ 32 - 1.
pub read_incoming_body_limited_cases :
    (reads : List Read) (max_bytes : ℕ)
    → max_bytes < u32_max
    → read_incoming_body_limited (stream reads) max_bytes ≡ (
        if ltb max_bytes (length (sent reads))
        then body_too_large
        else when_ended (ends reads) (sent reads))
unfolding read_incoming_body_limited
read_incoming_body_limited_cases reads max_bytes small =
    let (fits, exceeding) = read_loop_cases max_bytes [] reads small (omega arith) in
    elim (Bool-cases (ltb max_bytes (length (sent reads)))) [
      | inl e ↦ rw e (exceeding (ltb→lt _ _ e))
      | inr e ↦ rw e (fits (ground arith))
    ]
