-- ===== src/Solve/Layout.antt =====
-- The layout of `call_solve_v2`: alignment, order and bounds of the three regions.
use Prim.Native.Nat.{max}
use x07_wasm_backend.Common.{ℕ, ◌+◌, ◌-◌, ◌%◌, ◌^◌, ◌≤◌, ◌<◌, ◌≡◌, arith}
use x07_wasm_backend.Common.Bits.{bit_and_not_seven}
use x07_wasm_backend.Common.Result.{ok}
use x07_wasm_backend.Solve.{
  u64, align_up, SolveV2MemoryLayout, layout_of, check_layout, check_output,
}

-- The bit trick rounds up to a multiple of 8 where the addition does not wrap.
pub align_up_eight : (x : ℕ) → x + 7 < 2 ^ 64 → align_up x 8 ≡ x + 7 - (x + 7) % 8
unfolding align_up
align_up_eight x h =
    let same : u64 (x + 7) ≡ x + 7 = omega arith in rw same (bit_and_not_seven (x + 7) h)

pub align_up_bounds :
    (x : ℕ) → x + 7 < 2 ^ 64 → (x ≤ align_up x 8) × (align_up x 8 ≤ x + 7) × (align_up x 8 % 8 ≡ 0)
align_up_bounds x h = omega (arith, align_up_eight x h)

-- Three aligned regions in order, above the static data: the return slot of 8 bytes, the input, and
-- the arena.
pub record IsLaidOut (l : SolveV2MemoryLayout) (input_len : ℕ) : Type 0 where
  pub above_heap : l.heap_base ≤ l.retptr
  pub above_data : l.data_end ≤ l.retptr
  pub slot_before_input : l.retptr + 8 ≤ l.input_ptr
  pub input_before_arena : l.input_ptr + input_len ≤ l.arena_ptr
  pub slot_aligned : l.retptr % 8 ≡ 0
  pub input_aligned : l.input_ptr % 8 ≡ 0
  pub arena_aligned : l.arena_ptr % 8 ≡ 0
  pub no_waste : l.arena_ptr ≤ max l.heap_base l.data_end + input_len + 29

-- With 32-bit bases and an input shorter than 2 ^ 63 bytes the regions are in order and aligned.
pub layout_of-IsLaidOut :
    (heap_base data_end input_len : ℕ)
    → heap_base < 2 ^ 32
    → data_end < 2 ^ 32
    → input_len < 2 ^ 63
    → IsLaidOut (layout_of heap_base data_end input_len) input_len
unfolding layout_of
layout_of-IsLaidOut heap_base data_end input_len hb hd hl =
    let base = max heap_base data_end in
    let (r1, r2, r3) = align_up_bounds base (omega arith) in
    let e1 : u64 (align_up base 8 + 8) ≡ align_up base 8 + 8 = omega arith in
    let (i1, i2, i3) = align_up_bounds (align_up base 8 + 8) (omega arith) in
    let at = align_up (align_up base 8 + 8) 8 in
    let e2 : u64 (at + input_len) ≡ at + input_len = omega arith in
    let (a1, a2, a3) = align_up_bounds (at + input_len) (omega arith) in rw (e1, e2) (omega arith)

-- The checks pass exactly as far as the arena ends inside the memory and below 2 ^ 32.
pub check_layout-eq-ok :
    (l : SolveV2MemoryLayout) (cap mem_size : ℕ)
    → check_layout l cap mem_size ≡ ok tt
    → (l.arena_ptr + cap ≤ mem_size)
      × (l.retptr < 2 ^ 32)
      × (l.input_ptr < 2 ^ 32)
      × (l.arena_ptr < 2 ^ 32)
unfolding check_layout
check_layout-eq-ok l cap mem_size h = ground arith

pub check_layout-passes :
    (l : SolveV2MemoryLayout) (cap mem_size : ℕ)
    → mem_size < 2 ^ 64
    → l.arena_ptr + cap ≤ mem_size
    → l.retptr < 2 ^ 32
    → l.input_ptr < 2 ^ 32
    → l.arena_ptr < 2 ^ 32
    → check_layout l cap mem_size ≡ ok tt
unfolding check_layout
check_layout-passes l cap mem_size hm ha hr hi hp = ground arith

-- An accepted output lies inside the arena and inside the memory, and respects the limit.
pub check_output-eq-ok :
    (l : SolveV2MemoryLayout) (cap max_output mem_size out_ptr out_len out_end : ℕ)
    → check_output l cap max_output mem_size out_ptr out_len ≡ ok out_end
    → (out_end ≡ out_ptr + out_len)
      × (out_len ≤ max_output)
      × (l.arena_ptr ≤ out_ptr)
      × (out_ptr + out_len ≤ l.arena_ptr + cap)
      × (out_ptr + out_len ≤ mem_size)
unfolding check_output
check_output-eq-ok l cap max_output mem_size out_ptr out_len out_end h = ground arith

pub check_output-passes :
    (l : SolveV2MemoryLayout) (cap max_output mem_size out_ptr out_len : ℕ)
    → mem_size < 2 ^ 64
    → out_len ≤ max_output
    → l.arena_ptr ≤ out_ptr
    → out_ptr + out_len ≤ l.arena_ptr + cap
    → out_ptr + out_len ≤ mem_size
    → check_output l cap max_output mem_size out_ptr out_len ≡ ok (out_ptr + out_len)
unfolding check_output
check_output-passes l cap max_output mem_size out_ptr out_len hm h1 h2 h3 h4 = ground arith
