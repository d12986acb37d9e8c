-- ===== src/Solve/Wasmtime.antt =====
-- What the host uses of Wasmtime's `Memory`, and what its documentation promises.
use x07_wasm_backend.Common.{ℕ, ◌+◌, ◌≤◌, ◌≡◌, ◌⊎◌, Option, some, List, length}

pub record Memory (M : Type 0) : Type 0 where
  pub size : M → ℕ
  pub read : M → ℕ → ℕ → Option (List ℕ)
  pub write : M → ℕ → List ℕ → Option M

-- A read or a write succeeds where it lies inside the memory, a write changes its bytes alone, and
-- neither changes the size.
pub record IsMemory {M : Type 0} (memory : Memory M) : Type 0 where
  pub read_in_bounds :
      (m : M) (at n : ℕ)
      → at + n ≤ memory.size m
      → (bs : List ℕ) × (memory.read m at n ≡ some bs) × (length bs ≡ n)
  pub write_in_bounds :
      (m : M) (at : ℕ) (bs : List ℕ)
      → at + length bs ≤ memory.size m
      → (m' : M) × (memory.write m at bs ≡ some m')
  pub size-write :
      (m m' : M) (at : ℕ) (bs : List ℕ)
      → memory.write m at bs ≡ some m'
      → memory.size m' ≡ memory.size m
  pub read-write_self :
      (m m' : M) (at : ℕ) (bs : List ℕ)
      → memory.write m at bs ≡ some m'
      → memory.read m' at (length bs) ≡ some bs
  pub read-write_apart :
      (m m' : M) (at : ℕ) (bs : List ℕ) (from n : ℕ)
      → memory.write m at bs ≡ some m'
      → (from + n ≤ at) ⊎ (at + length bs ≤ from)
      → memory.read m' from n ≡ memory.read m from n
