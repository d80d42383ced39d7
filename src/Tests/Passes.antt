-- ===== src/Tests/Passes.antt =====
-- A module of two functions and a small profile, and the theorems on the LAMP passes applied to them.
use llvm_loop_fission.Base.{
  ℕ, zero, suc, ◌+◌, ◌<◌, ◌≡◌, refl, ap, true, false, List, [], ◌∷◌, ◌++◌, map, flatten, Option,
  none, some, if◌then◌else◌, ◌==◌, ok, arith, length, All, ℕ_discrete, replicate,
}
use llvm_loop_fission.LampPass.{
  Ty, integer, pointer, load, store, call, declared, has_body, alloca, terminator, Function,
  Counter, new_counter, run_counter, get_count_insts,
}
use llvm_loop_fission.LampPass.Instrument.{source, instrument_module, first_instruction_id}
use llvm_loop_fission.LampPass.LoopHooks.{
  Blocks, LoopShape, LoopState, new_loop_state, run_on_loops,
}
use llvm_loop_fission.LampPass.LoopHooks.Numbers.{IsNumbered}
use llvm_loop_fission.LampPass.Reader.Loops.{header_of, IsLoopIds, run_on_loops-map_loops}
use llvm_loop_fission.LampPass.Instrument.Ids.{hook_targets}
use llvm_loop_fission.Lamp.Profile.{Instructions}
use llvm_loop_fission.Lamp.Profile.Printed.{print_profiler}
use llvm_loop_fission.LampPass.Reader.{
  Reader, new_ids, map_module, new_loop_ids, map_loops, has_char, has_end, read_profile,
}
use llvm_loop_fission.LampPass.Reader.Ids.{IsIdOf}
use llvm_loop_fission.LampPass.Reader.Agree.{IsModule, instrument_module-map_module}
use llvm_loop_fission.LampPass.Reader.Line.{entries, IsNumberText, dependences_of}
use llvm_loop_fission.LampPass.Reader.Round.{read_profile-print_profiler}

abbrev bits : Ty → ℕ
bits pointer = 64
bits (integer w) = w
bits _ = 32

abbrev functions : List Function
functions =
    record { is_main = false; is_declaration = true; blocks = [] }
    ∷ record {
      is_main = true;
      is_declaration = false;
      blocks =
          (record { id = 1; kind = alloca }
            ∷ record { id = 2; kind = load 1 (integer 32) }
            ∷ record { id = 3; kind = call has_body }
            ∷ record { id = 4; kind = terminator }
            ∷ [])
          ∷ (record { id = 5; kind = store 1 2 (integer 32) }
              ∷ record { id = 6; kind = call declared }
              ∷ [])
          ∷ [];
    }
    ∷ []

functions-IsModule : IsModule functions
unfolding ℕ_discrete mathlib.Core.List.flatten
functions-IsModule = ((refl, (refl, (refl, tt))), omega arith)

instrument_module-map_module_example :
    All
      (λ target.
        (target.0 < get_count_insts (run_counter functions new_counter))
        × IsIdOf (map_module functions new_ids) target)
      (hook_targets none
        (flatten (map flatten (instrument_module bits functions first_instruction_id).0)))
instrument_module-map_module_example =
    instrument_module-map_module bits functions functions-IsModule

-- A number as that many letters.
abbrev unary : ℕ → List ℕ
unary n = replicate n 120

has_char-unary : (c n : ℕ) → (120 == c) ≡ false → has_char c (unary n) ≡ false
unfolding has_char
has_char-unary c zero h = refl
has_char-unary c (suc n) h = rw (h) (has_char-unary c n h)

has_end-unary : (n : ℕ) → has_end (unary n) ≡ false
unfolding has_end
has_end-unary zero = refl
has_end-unary (suc n) = has_end-unary n

length-unary : (n : ℕ) → length (unary n) ≡ n
length-unary zero = refl
length-unary (suc n) = ap suc (length-unary n)

unary-IsNumberText : IsNumberText unary length
unary-IsNumberText = record {
  left = λ n. has_char-unary 40 n refl;
  right = λ n. has_char-unary 41 n refl;
  ending = has_end-unary;
  reads = λ n h. length-unary n;
}

abbrev profile : Instructions
profile =
    []
    ∷ ([]
        ∷ (((record { store = 2; loop_id = 4 }, record { total_count = 7; loop_count = 1 }) ∷ [])
            ∷ []))
    ∷ []

abbrev known : ℕ → Option ℕ
known n = if n == 9 then none else some (n + n)

read_profile-print_profiler_example :
    (out : Reader) × (read_profile known known length
        (print_profiler unary profile ++ (120 ∷ []) ∷ [])
      ≡ ok out)
    × ((loop : Option ℕ) → out.deps loop ≡ dependences_of known known (entries 0 profile) loop)
read_profile-print_profiler_example =
    read_profile-print_profiler unary length unary-IsNumberText known known profile
      ((120 ∷ []) ∷ []) ((omega arith, omega arith, omega arith, omega arith, omega arith), tt)
      (omega arith)

abbrev loops : List LoopShape
loops =
    record { header = 2; preheader = some 1; latch = some 3; exit_blocks = 4 ∷ 4 ∷ [] }
    ∷ record { header = 5; preheader = some 4; latch = some 5; exit_blocks = 6 ∷ [] }
    ∷ []

abbrev plain_blocks : Blocks
plain_blocks b = source (record { id = b; kind = terminator }) ∷ []

abbrev two_insts : Counter
two_insts = record { flag = true; num_loads = 1; num_stores = 1; num_calls = 0; num_loops = 0 }

run_on_loops-map_loops_example :
    (counter' : Counter) × (s : LoopState) × (next : Blocks) × (run_on_loops loops
        (two_insts, new_loop_state, plain_blocks)
      ≡ ok (counter', s, next))
    × (counter'.num_loops ≡ length loops)
    × IsNumbered next (get_count_insts two_insts) loops
    × IsLoopIds
        (map_loops two_insts (map header_of loops) new_loop_ids)
        (get_count_insts two_insts)
        (map header_of loops)
unfolding ℕ_discrete get_count_insts
run_on_loops-map_loops_example =
    run_on_loops-map_loops loops two_insts plain_blocks
      ((1, 3, refl, refl), ((4, 5, refl, refl), tt)) (λ b. refl) (refl, (refl, tt)) (omega arith)
      refl
