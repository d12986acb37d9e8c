-- ===== src/Solve.antt =====
-- crates/x07-wasm/src/wasm/abi_solve_v2.rs: the host's side of a call of the guest export
-- `x07_solve_v2`. The host lays the return slot, the input and the arena out above the module's
-- static data, calls the guest, and takes the output that the return slot points to.
-- Wasmtime's `Memory` and the guest function are the parameters of the section; a store is passed
-- along. A trap or an error of theirs is `none`. `usize` has 64 bits, and an `i32` argument stands
-- for its 32 bits.
pub mod Wasmtime
pub mod Layout
pub mod Calls
pub mod Refines
mod Flat
mod Tests
use Prim.Native.Nat.{max, bit_and}
use x07_wasm_backend.Common.{
  ℕ, zero, ◌+◌, ◌-◌, ◌*◌, ◌%◌, ◌^◌, Bool, ◌||◌, Option, List, [], ◌∷◌, ltb, leb, if◌then◌else◌,
  length, take, drop, replicate,
}
use x07_wasm_backend.Common.Result.{Result, ok, err, ◌>>=◌, ◌>>◌, bail_if, or_error}
use Wasmtime.{Memory}

abbrev pub u64 : ℕ → ℕ
u64 n = n % 2 ^ 64

pub record SolveV2MemoryLayout : Type 0 where
  pub heap_base : ℕ
  pub data_end : ℕ
  pub retptr : ℕ
  pub input_ptr : ℕ
  pub arena_ptr : ℕ

pub record SolveV2CallResult : Type 0 where
  pub layout : SolveV2MemoryLayout
  pub output : List ℕ

-- The errors, one constructor for each message or error type, with the numbers that it carries.
pub data SolveError : Type 0 where
  arena_end_overflow retptr_overflow input_ptr_overflow arena_ptr_overflow : SolveError
  linear_memory_too_small : ℕ → ℕ → SolveError
  write_retptr_failed write_input_failed call_failed read_bytes_failed read_output_failed :
      SolveError
  output_limit_exceeded : ℕ → ℕ → SolveError
  out_end_overflow : SolveError
  output_outside_arena : ℕ → ℕ → ℕ → ℕ → SolveError
  output_out_of_bounds : ℕ → ℕ → SolveError

-- The arguments of `x07_solve_v2`.
pub record SolveArgs : Type 0 where
  pub retptr : ℕ
  pub arena_ptr : ℕ
  pub arena_cap : ℕ
  pub input_ptr : ℕ
  pub input_len : ℕ

-- `!(align - 1)` is the complement in 64 bits.
pub align_up : ℕ → ℕ → ℕ
align_up x align =
    if leb align 1 then x else bit_and (u64 (x + (align - 1))) (2 ^ 64 - 1 - (align - 1))

-- u32::try_from(n).context(e)?
abbrev pub try_u32 : SolveError → ℕ → Result SolveError ℕ
try_u32 e n = if ltb n (2 ^ 32) then ok n else err e

-- a.checked_add(b).ok_or_else(e)?
abbrev pub checked_add : SolveError → ℕ → ℕ → Result SolveError ℕ
checked_add e a b = if ltb (a + b) (2 ^ 64) then ok (a + b) else err e

-- u32::from_le_bytes
pub from_le_bytes : List ℕ → ℕ
from_le_bytes [] = 0
from_le_bytes (b ∷ bs) = b + 256 * from_le_bytes bs

-- The pointers, before they are cut to 32 bits.
pub layout_of : ℕ → ℕ → ℕ → SolveV2MemoryLayout
layout_of heap_base data_end input_len =
    let alloc_base = max heap_base data_end in
    let retptr = align_up alloc_base 8 in
    let input_ptr = align_up (u64 (retptr + 8)) 8 in
    let arena_ptr = align_up (u64 (input_ptr + input_len)) 8 in
    record {
      heap_base = heap_base;
      data_end = data_end;
      retptr = retptr;
      input_ptr = input_ptr;
      arena_ptr = arena_ptr;
    }

-- The part before the call: the checks of the layout, and the 32-bit pointers.
pub check_layout : SolveV2MemoryLayout → ℕ → ℕ → Result SolveError (Unit {0})
check_layout l arena_cap mem_size = do
  arena_end ← checked_add arena_end_overflow l.arena_ptr arena_cap
  bail_if (ltb mem_size arena_end) (linear_memory_too_small arena_end mem_size)
  try_u32 retptr_overflow l.retptr
  try_u32 input_ptr_overflow l.input_ptr
  try_u32 arena_ptr_overflow l.arena_ptr
  ok tt

-- The checks of the returned slice, which give its end.
pub check_output : SolveV2MemoryLayout → ℕ → ℕ → ℕ → ℕ → ℕ → Result SolveError ℕ
check_output l arena_cap max_output mem_size out_ptr out_len = do
  bail_if (ltb max_output out_len) (output_limit_exceeded out_len max_output)
  out_end ← checked_add out_end_overflow out_ptr out_len
  let arena_end = l.arena_ptr + arena_cap
  bail_if (ltb out_ptr l.arena_ptr || ltb arena_end out_end)
      (output_outside_arena out_ptr out_end l.arena_ptr arena_end)
  bail_if (ltb mem_size out_end) (output_out_of_bounds out_end mem_size)
  ok out_end

pub args_of : SolveV2MemoryLayout → ℕ → ℕ → SolveArgs
args_of l arena_cap input_len = record {
  retptr = l.retptr;
  arena_ptr = l.arena_ptr;
  arena_cap = arena_cap;
  input_ptr = l.input_ptr;
  input_len = input_len % 2 ^ 32;
}

module _ {M : Type 0} (memory : Memory M) (func : SolveArgs → M → Option M) where
  open memory use {size, read, write}

  -- Up to the call: the memory that the guest leaves.
  pub enter : SolveV2MemoryLayout → List ℕ → ℕ → M → Result SolveError M
  enter l input arena_cap m = do
    check_layout l arena_cap (size m)
    m₁ ← or_error write_retptr_failed (write m l.retptr (replicate 8 0))
    m₂ ← or_error write_input_failed (write m₁ l.input_ptr input)
    or_error call_failed (func (args_of l arena_cap (length input)) m₂)

  -- From the call on: the output that the return slot points to.
  pub collect : SolveV2MemoryLayout → ℕ → ℕ → ℕ → M → Result SolveError (List ℕ)
  collect l arena_cap max_output mem_size m = do
    ret ← or_error read_bytes_failed (read m l.retptr 8)
    let out_ptr = from_le_bytes (take 4 ret)
    let out_len = from_le_bytes (drop 4 ret)
    check_output l arena_cap max_output mem_size out_ptr out_len
    or_error read_output_failed (read m out_ptr out_len)

  pub call_solve_v2 : ℕ → ℕ → List ℕ → ℕ → ℕ → M → Result SolveError (SolveV2CallResult × M)
  call_solve_v2 heap_base data_end input arena_cap max_output m = do
    let l = layout_of heap_base data_end (length input)
    m₃ ← enter l input arena_cap m
    output ← collect l arena_cap max_output (size m) m₃
    ok (record { layout = l; output = output }, m₃)
