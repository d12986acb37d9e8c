-- ===== src/Caps/Sources.antt =====
-- crates/x07-wasm/src/caps/enforce.rs: the clocks and the random sources that keep evidence. What the
-- operating system and the generator answer is an argument.
use x07_wasm_backend.Common.{
  ℕ, ◌+◌, ◌*◌, ◌-◌, ◌^◌, Option, List, [], ◌∷◌, length, ltb, if◌then◌else◌,
}
use x07_wasm_backend.Json.{unwrap_or}
use x07_wasm_backend.Caps.Evidence.{
  CapsEvidenceMode, record_mode, replay_mode, CapsEvidenceState, record_wall_clock_now_ns,
  replay_wall_clock_now_ns, record_monotonic_clock_now_ns, replay_monotonic_clock_now_ns,
  record_secure_random_bytes, replay_secure_random_bytes_into, record_insecure_random_bytes,
  replay_insecure_random_bytes_into,
}

pub data EvidenceRngKind : Type 0 where
  secure insecure : EvidenceRngKind

abbrev pub u64_max : ℕ
u64_max = 2 ^ 64 - 1

-- `ns.min(u64::MAX as u128) as u64`
abbrev pub clamp_ns : ℕ → ℕ
clamp_ns ns = if ltb u64_max ns then u64_max else ns

abbrev pub or_zero : Option ℕ × CapsEvidenceState → ℕ × CapsEvidenceState
or_zero (o, st) = (unwrap_or o 0, st)

-- `EvidenceWallClock::now`, in nanoseconds since the epoch.
unfoldable pub wall_now : CapsEvidenceMode → ℕ → CapsEvidenceState → ℕ × CapsEvidenceState
wall_now record_mode os_ns st = (clamp_ns os_ns, record_wall_clock_now_ns (clamp_ns os_ns) st)
wall_now replay_mode os_ns st = or_zero (replay_wall_clock_now_ns st)

-- `EvidenceMonotonicClock::now`
unfoldable pub monotonic_now : CapsEvidenceMode → ℕ → CapsEvidenceState → ℕ × CapsEvidenceState
monotonic_now record_mode elapsed_ns st =
    (clamp_ns elapsed_ns, record_monotonic_clock_now_ns (clamp_ns elapsed_ns) st)
monotonic_now replay_mode elapsed_ns st = or_zero (replay_monotonic_clock_now_ns st)

unfoldable pub record_bytes : EvidenceRngKind → List ℕ → CapsEvidenceState → CapsEvidenceState
record_bytes secure bytes st = record_secure_random_bytes bytes st
record_bytes insecure bytes st = record_insecure_random_bytes bytes st

unfoldable pub replay_bytes_into :
    EvidenceRngKind → ℕ → CapsEvidenceState → List ℕ × CapsEvidenceState
replay_bytes_into secure want st = replay_secure_random_bytes_into want st
replay_bytes_into insecure want st = replay_insecure_random_bytes_into want st

-- `EvidenceRng::fill_bytes` of a buffer: a recording has a generator, which gives as many bytes.
unfoldable pub fill_bytes :
    CapsEvidenceMode → EvidenceRngKind → List ℕ → CapsEvidenceState → List ℕ × CapsEvidenceState
unfolding record_bytes replay_bytes_into
fill_bytes record_mode kind generated st = (generated, record_bytes kind generated st)
fill_bytes replay_mode kind generated st = replay_bytes_into kind (length generated) st

-- `from_le_bytes`
abbrev pub le_value : List ℕ → ℕ
le_value [] = 0
le_value (b ∷ bs) = b + 2 ^ 8 * le_value bs

abbrev pub with_le_value : List ℕ × CapsEvidenceState → ℕ × CapsEvidenceState
with_le_value (bytes, st) = (le_value bytes, st)

-- `next_u32` and `next_u64`, whose buffers have 4 and 8 bytes.
unfoldable pub next_number :
    CapsEvidenceMode → EvidenceRngKind → List ℕ → CapsEvidenceState → ℕ × CapsEvidenceState
unfolding fill_bytes
next_number mode kind generated st = with_le_value (fill_bytes mode kind generated st)

-- A guest's call of one of the sources, with what the operating system or the generator has for it.
pub data Call : Type 0 where
  wall monotonic : ℕ → Call
  fill number : EvidenceRngKind → List ℕ → Call

pub data Reply : Type 0 where
  value : ℕ → Reply
  filled : List ℕ → Reply

abbrev pub as_value : ℕ × CapsEvidenceState → Reply × CapsEvidenceState
as_value (n, st) = (value n, st)

abbrev pub as_filled : List ℕ × CapsEvidenceState → Reply × CapsEvidenceState
as_filled (bytes, st) = (filled bytes, st)

unfoldable pub serve : CapsEvidenceMode → Call → CapsEvidenceState → Reply × CapsEvidenceState
unfolding wall_now monotonic_now fill_bytes next_number
serve mode (wall ns) st = as_value (wall_now mode ns st)
serve mode (monotonic ns) st = as_value (monotonic_now mode ns st)
serve mode (fill kind generated) st = as_filled (fill_bytes mode kind generated st)
serve mode (number kind generated) st = as_value (next_number mode kind generated st)

abbrev pub serve_all :
    CapsEvidenceMode → List Call → CapsEvidenceState → List Reply × CapsEvidenceState
serve_all mode [] st = ([], st)
serve_all mode (c ∷ cs) st =
    let (r, st') = serve mode c st in let (rs, last) = serve_all mode cs st' in (r ∷ rs, last)
