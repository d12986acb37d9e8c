-- ===== src/Solve/Flat.antt =====
-- A flat memory and an echoing guest, which show that the assumptions on Wasmtime's `Memory` and on
-- the guest can be met.
use x07_wasm_backend.Common.{
  ℕ, zero, suc, ◌+◌, ◌≤◌, ◌<◌, ◌≡◌, refl, ap, ◌∙◌, ◌⊎◌, inl, inr, Option, none, some, List, [], ◌∷◌,
  ◌++◌, arith, leb, ◌==◌, le→leb, if◌then◌else◌, ◌&&◌, length,
}
use native.Mathlib.Nat.{le_refl}
use x07_wasm_backend.Solve.{SolveArgs}
use x07_wasm_backend.Solve.Wasmtime.{Memory, IsMemory}
use x07_wasm_backend.Solve.Calls.{to_le_bytes}
use x07_wasm_backend.Solve.Refines.{Implements}

pub record Flat : Type 0 where
  pub bytes : ℕ
  pub cell : ℕ → ℕ

pub cells : (ℕ → ℕ) → ℕ → ℕ → List ℕ
cells f i zero = []
cells f i (suc n) = f i ∷ cells f (suc i) n

-- The byte at `j` of a run laid over `i`.
pub overlay : (ℕ → ℕ) → ℕ → List ℕ → ℕ → ℕ
overlay f i [] j = f j
overlay f i (b ∷ bs) j = let rest = overlay f (suc i) bs j in if i == j then b else rest

abbrev pub flat : Memory Flat
flat = record {
  size = λ m. m.bytes;
  read = λ m i n. if leb (i + n) m.bytes then some (cells m.cell i n) else none;
  write = λ m i bs.
      if leb (i + length bs) m.bytes then some (record m { cell = overlay m.cell i bs }) else none;
}

length-cells : (f : ℕ → ℕ) (i n : ℕ) → length (cells f i n) ≡ n
unfolding cells
length-cells f i zero = refl
length-cells f i (suc n) = ap suc (length-cells f (suc i) n)

overlay_below : (f : ℕ → ℕ) (i : ℕ) (bs : List ℕ) (j : ℕ) → j < i → overlay f i bs j ≡ f j
unfolding overlay
overlay_below f i [] j h = refl
overlay_below f i (b ∷ bs) j h = ground (arith, overlay_below f (suc i) bs j)

overlay_above :
    (f : ℕ → ℕ) (i : ℕ) (bs : List ℕ) (j : ℕ) → i + length bs ≤ j → overlay f i bs j ≡ f j
unfolding overlay
overlay_above f i [] j h = refl
overlay_above f i (b ∷ bs) j h = ground (arith, overlay_above f (suc i) bs j)

cells_congr :
    (f g : ℕ → ℕ) (i n : ℕ) → ((j : ℕ) → i ≤ j → j < i + n → f j ≡ g j) → cells f i n ≡ cells g i n
unfolding cells
cells_congr f g i zero h = refl
cells_congr f g i (suc n) h = cc (
  h i (omega arith) (omega arith),
  cells_congr f g (suc i) n (λ j a b. h j (omega arith) (omega arith)),
)

cells-overlay : (f : ℕ → ℕ) (i : ℕ) (bs : List ℕ) → cells (overlay f i bs) i (length bs) ≡ bs
unfolding cells
cells-overlay f i [] = refl
cells-overlay f i (b ∷ bs) =
    let first : overlay f i (b ∷ bs) i ≡ b = unfold overlay in ground arith in
    let rest : cells (overlay f i (b ∷ bs)) (suc i) (length bs)
        ≡ cells (overlay f (suc i) bs) (suc i) (length bs) =
      cells_congr (overlay f i (b ∷ bs)) (overlay f (suc i) bs) (suc i) (length bs)
        (λ j h k. unfold overlay in ground arith) in
    cc (first, rest, cells-overlay f (suc i) bs)

cells-overlay_apart :
    (f : ℕ → ℕ) (i : ℕ) (bs : List ℕ) (from n : ℕ)
    → (from + n ≤ i) ⊎ (i + length bs ≤ from)
    → cells (overlay f i bs) from n ≡ cells f from n
cells-overlay_apart f i bs from n (inl h) =
    cells_congr _ f from n (λ j a b. overlay_below f i bs j (omega arith))
cells-overlay_apart f i bs from n (inr h) =
    cells_congr _ f from n (λ j a b. overlay_above f i bs j (omega arith))

pub flat-IsMemory : IsMemory flat
flat-IsMemory = record {
  read_in_bounds = λ m i n h. (cells m.cell i n, rw (le→leb _ _ h), length-cells m.cell i n);
  write_in_bounds = λ m i bs h. (record m { cell = overlay m.cell i bs }, rw (le→leb _ _ h));
  size-write = λ m m' i bs w. ground arith;
  read-write_self = λ m m' i bs w. ground (arith, cells-overlay m.cell i bs);
  read-write_apart =
      λ m m' i bs from n w apart. ground (arith, cells-overlay_apart m.cell i bs from n apart);
}

-- A guest that copies its input to the start of the arena; it traps where that does not fit.
pub echo : SolveArgs → Flat → Option Flat
echo a m =
    if leb (a.arena_ptr + a.input_len) m.bytes && leb (a.retptr + 8) m.bytes
    then some (record m {
      cell =
          overlay (overlay m.cell a.arena_ptr (cells m.cell a.input_ptr a.input_len)) a.retptr
            (to_le_bytes a.arena_ptr ++ to_le_bytes a.input_len);
    })
    else none

pub echo_grows : (a : SolveArgs) (m m' : Flat) → echo a m ≡ some m' → m.bytes ≤ m'.bytes
unfolding echo
echo_grows a m m' h = ground arith

kept_of_read :
    (m : Flat) (i n : ℕ) (bs : List ℕ) → flat.read m i n ≡ some bs → cells m.cell i n ≡ bs
kept_of_read m i n bs h = ground arith

read_of_cells :
    (m : Flat) (i n : ℕ) (bs : List ℕ)
    → i + n ≤ m.bytes
    → cells m.cell i n ≡ bs
    → flat.read m i n ≡ some bs
read_of_cells m i n bs h e = ground arith

pub echo-Implements : Implements flat echo (λ input. input)
unfolding echo
echo-Implements a input m p room =
    let taken : cells m.cell a.input_ptr a.input_len ≡ input =
      rw p.input_length (kept_of_read m a.input_ptr (length input) input p.input_bytes) in
    let slot = to_le_bytes a.arena_ptr ++ to_le_bytes a.input_len in
    let copied = overlay m.cell a.arena_ptr (cells m.cell a.input_ptr a.input_len) in
    let inner : cells copied a.arena_ptr (length input) ≡ input =
      rw taken (cells-overlay m.cell a.arena_ptr input) in
    let fits : a.arena_ptr + a.input_len ≤ m.bytes = omega (arith, p.input_length, p.arena_fits) in
    let slot_fits : a.retptr + 8 ≤ m.bytes = omega arith in
    (
      record m { cell = overlay copied a.retptr slot },
      rw (le→leb _ _ fits) (rw (le→leb _ _ slot_fits)),
      record {
        out_ptr = a.arena_ptr;
        slot =
            rw (le→leb _ _ slot_fits)
              (rw (← p.input_length) (ap some (cells-overlay copied a.retptr slot)));
        bytes =
            read_of_cells (record m { cell = overlay copied a.retptr slot }) a.arena_ptr
              (length input) input (omega arith)
              (cells-overlay_apart copied a.retptr slot a.arena_ptr (length input)
                  (inr (omega arith))
                ∙ inner);
        after_arena_start = le_refl a.arena_ptr;
        before_arena_end = omega (arith, room);
      },
    )
