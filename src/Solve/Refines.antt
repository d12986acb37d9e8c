-- ===== src/Solve/Refines.antt =====
-- The call implements the guest's function: with room for the regions and a guest that keeps its side
-- of the interface, the host gets exactly the guest's answer.
use x07_wasm_backend.Common.{
  ℕ, ◌+◌, ◌^◌, ◌≤◌, ◌<◌, ◌≡◌, Option, some, List, ◌++◌, arith, length, take, drop,
}
use x07_wasm_backend.Common.Result.{ok}
use x07_wasm_backend.Solve.{
  SolveV2MemoryLayout, SolveArgs, from_le_bytes, layout_of, check_layout, args_of, enter, collect,
  call_solve_v2,
}
use x07_wasm_backend.Solve.Wasmtime.{Memory, IsMemory}
use x07_wasm_backend.Solve.Layout.{layout_of-IsLaidOut, check_layout-passes, check_output-passes}
use x07_wasm_backend.Solve.Calls.{
  to_le_bytes, from_le_bytes-to_le_bytes, IsPrepared, IsPrepared-of_writes, writes_fit,
}

module _ {M : Type 0} (memory : Memory M) (func : SolveArgs → M → Option M) where
  -- The guest's answer in memory `m`: a slice of the arena that holds `output`, and the return slot
  -- that names it.
  pub record HasAnswer (a : SolveArgs) (output : List ℕ) (m : M) : Type 0 where
    pub out_ptr : ℕ
    pub slot : memory.read m a.retptr 8 ≡ some (to_le_bytes out_ptr ++ to_le_bytes (length output))
    pub bytes : memory.read m out_ptr (length output) ≡ some output
    pub after_arena_start : a.arena_ptr ≤ out_ptr
    pub before_arena_end : out_ptr + length output ≤ a.arena_ptr + a.arena_cap

  -- The guest's side of the interface: on a prepared memory whose arena has room for
  -- `solve input` it does not trap, and answers with that.
  abbrev pub Implements : (List ℕ → List ℕ) → Type 0
  Implements solve =
      (a : SolveArgs) (input : List ℕ) (m : M)
      → IsPrepared memory a input m
      → length (solve input) ≤ a.arena_cap
      → (m' : M) × (func a m ≡ some m') × HasAnswer a (solve input) m'

  -- The return slot is read back as it was written.
  slot_fields :
      (p n : ℕ)
      → p < 2 ^ 32
      → n < 2 ^ 32
      → (from_le_bytes (take 4 (to_le_bytes p ++ to_le_bytes n)) ≡ p)
        × (from_le_bytes (drop 4 (to_le_bytes p ++ to_le_bytes n)) ≡ n)
  slot_fields p n hp hn = (from_le_bytes-to_le_bytes p hp, from_le_bytes-to_le_bytes n hn)

  -- An answer in the arena that respects the limit is accepted.
  collect_of_HasAnswer :
      (l : SolveV2MemoryLayout) (input_len cap max_output mem_size : ℕ) (m : M) (output : List ℕ)
      → mem_size < 2 ^ 32
      → l.arena_ptr + cap ≤ mem_size
      → l.arena_ptr < 2 ^ 32
      → length output ≤ max_output
      → HasAnswer (args_of l cap input_len) output m
      → collect memory func l cap max_output mem_size m ≡ ok output
  unfolding collect args_of
  collect_of_HasAnswer l input_len cap max_output mem_size m output hm fits small limit answer =
      let (first, second) =
        slot_fields answer.out_ptr (length output) (omega arith) (omega arith) in
      let accepted =
        check_output-passes l cap max_output mem_size answer.out_ptr (length output) (omega arith)
          limit (omega arith) (omega arith) (omega arith) in
      rw answer.slot (rw (first, second) (rw accepted (rw answer.bytes)))

  module _ (laws : IsMemory memory) (solve : List ℕ → List ℕ) (guest : Implements solve) where
    -- With a memory that keeps Wasmtime's laws and a guest that implements `solve`, bases below 2 ^ 32,
    -- an input shorter than 2 ^ 63 bytes and a memory of less than 2 ^ 32 bytes that has room for the
    -- three regions: where the value of `solve` at the input is longer neither than the arena nor than
    -- the limit, the call returns it, with the layout.
    pub call_solve_v2_refines :
        (heap_base data_end : ℕ) (input : List ℕ) (cap max_output : ℕ) (m : M)
        → heap_base < 2 ^ 32
        → data_end < 2 ^ 32
        → length input < 2 ^ 63
        → memory.size m < 2 ^ 32
        → (layout_of heap_base data_end (length input)).arena_ptr + cap ≤ memory.size m
        → length (solve input) ≤ cap
        → length (solve input) ≤ max_output
        → (m₃ : M) × (call_solve_v2 memory func heap_base data_end input cap max_output m
            ≡ ok (
              record { layout = layout_of heap_base data_end (length input); output = solve input },
              m₃,
            ))
    unfolding call_solve_v2 enter
    call_solve_v2_refines heap_base data_end input cap max_output m hb hd hl hm fits room limit =
        let l = layout_of heap_base data_end (length input) in
        let laid = layout_of-IsLaidOut heap_base data_end (length input) hb hd hl in
        let (m₁, m₂, w₁, w₂) = writes_fit memory laws l input cap m laid fits in
        let (ready, same) =
          IsPrepared-of_writes memory laws l input cap m m₁ m₂ laid fits (omega arith) w₁ w₂ in
        let (m₃, called, answer) =
          guest (args_of l cap (length input)) input m₂ ready (unfold args_of in room) in
        let fitted : check_layout l cap (memory.size m) ≡ ok tt =
          check_layout-passes l cap (memory.size m) (omega arith) fits (omega arith) (omega arith)
            (omega arith) in
        let collected =
          collect_of_HasAnswer l (length input) cap max_output (memory.size m) m₃ (solve input) hm
            fits (omega arith) limit answer in
        (m₃, rw fitted (rw w₁ (rw w₂ (rw called (rw collected)))))
