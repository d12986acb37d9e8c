-- ===== src/Solve/Calls.antt =====
-- What a call of `x07_solve_v2` guarantees, for every memory with Wasmtime's laws.
use x07_wasm_backend.Common.{
  ℕ, ◌+◌, ◌/◌, ◌%◌, ◌^◌, ◌≤◌, ◌<◌, ◌≡◌, ◌∙◌, inl, Option, some, List, [], ◌∷◌, arith, length, take,
  drop, replicate,
}
use x07_wasm_backend.Common.Result.{ok}
use x07_wasm_backend.Solve.{
  SolveV2MemoryLayout, SolveV2CallResult, SolveArgs, from_le_bytes, layout_of, check_layout,
  check_output, args_of, enter, collect, call_solve_v2,
}
use x07_wasm_backend.Solve.Wasmtime.{Memory, IsMemory}
use x07_wasm_backend.Solve.Layout.{
  IsLaidOut, layout_of-IsLaidOut, check_layout-eq-ok, check_output-eq-ok,
}

-- The four little-endian bytes of a 32-bit number.
abbrev pub to_le_bytes : ℕ → List ℕ
to_le_bytes n = n % 256 ∷ n / 256 % 256 ∷ n / 65536 % 256 ∷ n / 16777216 % 256 ∷ []

pub from_le_bytes-to_le_bytes : (n : ℕ) → n < 2 ^ 32 → from_le_bytes (to_le_bytes n) ≡ n
unfolding from_le_bytes
from_le_bytes-to_le_bytes n h = omega arith

module _ {M : Type 0} (memory : Memory M) where
  -- What the guest is given: a zeroed return slot, the input's bytes, and an arena inside the memory,
  -- all three apart.
  pub record IsPrepared (a : SolveArgs) (input : List ℕ) (m : M) : Type 0 where
    pub input_length : a.input_len ≡ length input
    pub zeroed_slot : memory.read m a.retptr 8 ≡ some (replicate 8 0)
    pub input_bytes : memory.read m a.input_ptr (length input) ≡ some input
    pub slot_before_input : a.retptr + 8 ≤ a.input_ptr
    pub input_before_arena : a.input_ptr + length input ≤ a.arena_ptr
    pub arena_fits : a.arena_ptr + a.arena_cap ≤ memory.size m
    pub arena_ptr_fits : a.arena_ptr < 2 ^ 32

  -- The output of an accepted call: bytes that the guest left inside the arena.
  pub record IsOutput (a : SolveArgs) (max_output : ℕ) (m : M) (output : List ℕ) : Type 0 where
    pub out_ptr : ℕ
    pub bytes : memory.read m out_ptr (length output) ≡ some output
    pub after_arena_start : a.arena_ptr ≤ out_ptr
    pub before_arena_end : out_ptr + length output ≤ a.arena_ptr + a.arena_cap
    pub limit : length output ≤ max_output

  module _ (laws : IsMemory memory) where
    -- After the two writes the memory holds what the guest is promised.
    pub IsPrepared-of_writes :
        (l : SolveV2MemoryLayout) (input : List ℕ) (cap : ℕ) (m m₁ m₂ : M)
        → IsLaidOut l (length input)
        → l.arena_ptr + cap ≤ memory.size m
        → l.arena_ptr < 2 ^ 32
        → memory.write m l.retptr (replicate 8 0) ≡ some m₁
        → memory.write m₁ l.input_ptr input ≡ some m₂
        → IsPrepared (args_of l cap (length input)) input m₂ × (memory.size m₂ ≡ memory.size m)
    unfolding args_of
    IsPrepared-of_writes l input cap m m₁ m₂ laid fits small w₁ w₂ =
        let s₁ = laws.size-write m m₁ l.retptr (replicate 8 0) w₁ in
        let s₂ = laws.size-write m₁ m₂ l.input_ptr input w₂ in
        let kept =
          laws.read-write_apart m₁ m₂ l.input_ptr input l.retptr 8 w₂ (inl (omega arith)) in
        (
          record {
            input_length = omega arith;
            zeroed_slot = kept ∙ laws.read-write_self m m₁ l.retptr (replicate 8 0) w₁;
            input_bytes = laws.read-write_self m₁ m₂ l.input_ptr input w₂;
            slot_before_input = laid.slot_before_input;
            input_before_arena = laid.input_before_arena;
            arena_fits = omega arith;
            arena_ptr_fits = small;
          },
          s₂ ∙ s₁,
        )

    -- Both writes succeed where the layout fits.
    pub writes_fit :
        (l : SolveV2MemoryLayout) (input : List ℕ) (cap : ℕ) (m : M)
        → IsLaidOut l (length input)
        → l.arena_ptr + cap ≤ memory.size m
        → (m₁ m₂ : M) × (memory.write m l.retptr (replicate 8 0) ≡ some m₁)
          × (memory.write m₁ l.input_ptr input ≡ some m₂)
    writes_fit l input cap m laid fits =
        let (m₁, w₁) = laws.write_in_bounds m l.retptr (replicate 8 0) (omega arith) in
        let s₁ = laws.size-write m m₁ l.retptr (replicate 8 0) w₁ in
        let (m₂, w₂) = laws.write_in_bounds m₁ l.input_ptr input (omega arith) in (m₁, m₂, w₁, w₂)

module _ {M : Type 0} (memory : Memory M) (func : SolveArgs → M → Option M) where
  enter-eq-ok :
      (l : SolveV2MemoryLayout) (input : List ℕ) (cap : ℕ) (m m₃ : M)
      → enter memory func l input cap m ≡ ok m₃
      → (check_layout l cap (memory.size m) ≡ ok tt)
        × (m₁ : M) × (memory.write m l.retptr (replicate 8 0) ≡ some m₁)
        × (m₂ : M) × (memory.write m₁ l.input_ptr input ≡ some m₂)
        × (func (args_of l cap (length input)) m₂ ≡ some m₃)
  unfolding enter
  enter-eq-ok l input cap m m₃ h = ground arith

  collect-eq-ok :
      (l : SolveV2MemoryLayout) (cap max_output mem_size : ℕ) (m : M) (output : List ℕ)
      → collect memory func l cap max_output mem_size m ≡ ok output
      → (ret : List ℕ) × (memory.read m l.retptr 8 ≡ some ret)
        × (e : ℕ) × (check_output l cap max_output mem_size
              (from_le_bytes (take 4 ret))
              (from_le_bytes (drop 4 ret))
            ≡ ok e)
        × (memory.read m (from_le_bytes (take 4 ret)) (from_le_bytes (drop 4 ret)) ≡ some output)
  unfolding collect
  collect-eq-ok l cap max_output mem_size m output h = ground arith

  call_solve_v2-eq-ok :
      (heap_base data_end : ℕ) (input : List ℕ) (cap max_output : ℕ) (m m₃ : M)
      (res : SolveV2CallResult)
      → call_solve_v2 memory func heap_base data_end input cap max_output m ≡ ok (res, m₃)
      → (res.layout ≡ layout_of heap_base data_end (length input))
        × (enter memory func res.layout input cap m ≡ ok m₃)
        × (collect memory func res.layout cap max_output (memory.size m) m₃ ≡ ok res.output)
  unfolding call_solve_v2
  call_solve_v2-eq-ok heap_base data_end input cap max_output m m₃ res h = ground arith

  -- How an accepted call went: the guest ran on a prepared memory of the same size and left `m₃`,
  -- and the output lies in the arena of `m₃`.
  pub record IsSolved (input : List ℕ) (cap max_output : ℕ) (res : SolveV2CallResult) (m m₃ : M)
      : Type 0 where
    pub laid_out : IsLaidOut res.layout (length input)
    pub before : M
    pub same_size : memory.size before ≡ memory.size m
    pub prepared : IsPrepared memory (args_of res.layout cap (length input)) input before
    pub called : func (args_of res.layout cap (length input)) before ≡ some m₃
    pub answered : IsOutput memory (args_of res.layout cap (length input)) max_output m₃ res.output

  module _ (laws : IsMemory memory)
      (grows : (a : SolveArgs) (m m' : M)
        → func a m ≡ some m'
        → memory.size m ≤ memory.size m') where
    -- The accepted slice is the output's, byte for byte.
    IsOutput-of_collect :
        (l : SolveV2MemoryLayout) (input_len cap max_output mem_size : ℕ) (m : M) (output : List ℕ)
        → mem_size ≤ memory.size m
        → collect memory func l cap max_output mem_size m ≡ ok output
        → IsOutput memory (args_of l cap input_len) max_output m output
    unfolding args_of
    IsOutput-of_collect l input_len cap max_output mem_size m output room h =
        let (ret, slot, e, checked, got) = collect-eq-ok l cap max_output mem_size m output h in
        let out_ptr = from_le_bytes (take 4 ret) in
        let out_len = from_le_bytes (drop 4 ret) in
        let (_, limit, start, end, inside) =
          check_output-eq-ok l cap max_output mem_size out_ptr out_len e checked in
        let (bs, found, count) = laws.read_in_bounds m out_ptr out_len (omega arith) in
        let same : bs ≡ output = cc in
        let count' : length output ≡ out_len = rw same at count in
        record {
          out_ptr = out_ptr;
          bytes = rw count' got;
          after_arena_start = start;
          before_arena_end = omega arith;
          limit = omega arith;
        }

    -- With a memory that keeps Wasmtime's laws, a guest that never shrinks it, 32-bit bases and an
    -- input shorter than 2 ^ 63 bytes: if the call is accepted, the guest ran on a memory of the same
    -- size that held the input and a zeroed return slot in disjoint aligned regions above the static
    -- data, with the arena inside the memory, and the output is what lies in the memory that the guest
    -- left at a place inside the arena, and is no longer than the limit.
    pub call_solve_v2_sound :
        (heap_base data_end : ℕ) (input : List ℕ) (cap max_output : ℕ) (m m₃ : M)
        (res : SolveV2CallResult)
        → heap_base < 2 ^ 32
        → data_end < 2 ^ 32
        → length input < 2 ^ 63
        → call_solve_v2 memory func heap_base data_end input cap max_output m ≡ ok (res, m₃)
        → IsSolved input cap max_output res m m₃
    call_solve_v2_sound heap_base data_end input cap max_output m m₃ res hb hd hl h =
        let (same, entered, collected) =
          call_solve_v2-eq-ok heap_base data_end input cap max_output m m₃ res h in
        let laid : IsLaidOut res.layout (length input) =
          rw same (layout_of-IsLaidOut heap_base data_end (length input) hb hd hl) in
        let (checked, m₁, w₁, m₂, w₂, called) = enter-eq-ok res.layout input cap m m₃ entered in
        let (fits, _, _, small) = check_layout-eq-ok res.layout cap (memory.size m) checked in
        let (ready, size₂) =
          IsPrepared-of_writes memory laws res.layout input cap m m₁ m₂ laid fits small w₁ w₂ in
        let room = grows (args_of res.layout cap (length input)) m₂ m₃ called in
        record {
          laid_out = laid;
          before = m₂;
          same_size = size₂;
          prepared = ready;
          called = called;
          answered =
              IsOutput-of_collect res.layout (length input) cap max_output (memory.size m) m₃
                res.output (omega arith) collected;
        }
