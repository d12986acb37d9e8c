-- ===== src/Solve/Tests.antt =====
-- The call at a small memory with the echoing guest.
use x07_wasm_backend.Common.{ℕ, ◌≡◌, refl, List, [], ◌∷◌, arith}
use x07_wasm_backend.Common.Result.{ok}
use x07_wasm_backend.Solve.{SolveV2CallResult, align_up, layout_of, call_solve_v2}
use x07_wasm_backend.Solve.Calls.{IsSolved, call_solve_v2_sound}
use x07_wasm_backend.Solve.Layout.{IsLaidOut, layout_of-IsLaidOut}
use x07_wasm_backend.Solve.Refines.{call_solve_v2_refines}
use x07_wasm_backend.Solve.Flat.{Flat, flat, flat-IsMemory, echo, echo_grows, echo-Implements}

abbrev page : Flat
page = record { bytes = 4096; cell = λ _. 0xaa }

abbrev hello : List ℕ
hello = 104 ∷ 101 ∷ 108 ∷ 108 ∷ 111 ∷ []

abbrev echoed : SolveV2CallResult
echoed = record { layout = layout_of 1027 1000 5; output = hello }

layout_test : layout_of 1027 1000 5 ≡ record {
  heap_base = 1027;
  data_end = 1000;
  retptr = 1032;
  input_ptr = 1040;
  arena_ptr = 1048;
}
unfolding layout_of align_up
layout_test = refl

ran : (m : Flat) × (call_solve_v2 flat echo 1027 1000 hello 64 16 page ≡ ok (echoed, m))
ran =
    call_solve_v2_refines flat echo flat-IsMemory (λ input. input) echo-Implements 1027 1000 hello
      64 16 page (omega arith) (omega arith) (omega arith) (omega arith)
      (unfold layout_of align_up in omega arith) (omega arith) (omega arith)

layout_of-IsLaidOut_example : IsLaidOut (layout_of 1027 1000 5) 5
layout_of-IsLaidOut_example =
    layout_of-IsLaidOut 1027 1000 5 (omega arith) (omega arith) (omega arith)

call_solve_v2_sound_example : IsSolved flat echo hello 64 16 echoed page ran.0
call_solve_v2_sound_example =
    call_solve_v2_sound flat echo flat-IsMemory echo_grows 1027 1000 hello 64 16 page ran.0 echoed
      (omega arith) (omega arith) (omega arith) ran.1

call_solve_v2_refines_example :
    (m : Flat) × (call_solve_v2 flat echo 1027 1000 hello 64 16 page ≡ ok (echoed, m))
call_solve_v2_refines_example =
    call_solve_v2_refines flat echo flat-IsMemory (λ input. input) echo-Implements 1027 1000 hello
      64 16 page (omega arith) (omega arith) (omega arith) (omega arith)
      (unfold layout_of align_up in omega arith) (omega arith) (omega arith)
