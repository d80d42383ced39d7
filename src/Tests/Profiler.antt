-- ===== src/Tests/Profiler.antt =====
-- Small runs of the profiler, and the theorems applied to them.
use llvm_loop_fission.Base.{ℕ, ◌≡◌, refl, List, [], ◌∷◌, some, arith, take, replicate, get_elem?}
use llvm_loop_fission.Lamp.Values.{new_profile, run}
use llvm_loop_fission.Lamp.Values.Exact.{IsExact, occurrences, run-IsExact}
use llvm_loop_fission.Lamp.Profile.{Dependence, Instructions, increment_all}
use llvm_loop_fission.Lamp.Profile.Counts.{total, times, increment_all-total}
use llvm_loop_fission.Lamp.Hierarchy.{
  Buffers, LoopInfo, LoopHierarchy, enter_loop, find_loop, calculate_distance,
}
use llvm_loop_fission.Lamp.Hierarchy.Stack.{
  running, IsValid, IsFound, enter_loop-running, find_loop-running,
}
use llvm_loop_fission.Lamp.Hierarchy.Distance.{IsRing, iterated, calculate_distance-later}

run-IsExact_example :
    IsExact (run new_profile (7 ∷ 0 ∷ 7 ∷ [])).values (λ x. occurrences x (7 ∷ 0 ∷ 7 ∷ [])) 7
run-IsExact_example = run-IsExact (7 ∷ 0 ∷ 7 ∷ []) 7 (omega arith)

-- One store seen by one load, in two loops.
abbrev deps : List Dependence
deps =
    record { store = 4; loop_id = 1; dist = 0; load = 2 }
    ∷ record { store = 4; loop_id = 6; dist = 0; load = 2 }
    ∷ []

increment_all-total_example :
    (next : Instructions) × (increment_all 2 deps (replicate 3 []) ≡ some next)
    × ((load d s : ℕ) → total next load d s ≡ times 2 load d s deps)
increment_all-total_example =
    increment_all-total 2 3 deps (omega arith) (omega arith, (omega arith, tt)) (omega arith)

abbrev lists : Buffers
lists = record {
  Buffer = List ℕ;
  clear = λ _. [];
  push_back = λ r t. take 2 (t ∷ r);
  newest_first = λ r. r;
}

abbrev info : ℕ → ℕ → LoopInfo lists ℕ
info loop_id time = record {
  iteration_time_stamps = [];
  invocation_time_stamp = time;
  loop_id = loop_id;
  item = 0;
}

-- The main program and a loop entered at time 3, with one place left.
abbrev state : LoopHierarchy lists ℕ
state = record { max_depth = 1; current_depth = 1; loop_info = info 0 0 ∷ info 5 3 ∷ info 0 0 ∷ [] }

state-IsValid : IsValid lists ℕ state
state-IsValid = record { depth = omega arith; size = omega arith }

enter_loop-running_example :
    (next : LoopHierarchy lists ℕ) × (old : LoopInfo lists ℕ) × (enter_loop lists ℕ 65544 6 state
      ≡ some next)
    × IsValid lists ℕ next
    × (get_elem? state.loop_info 2 ≡ some old)
    × (running lists ℕ next
        ≡ record {
          iteration_time_stamps = [];
          invocation_time_stamp = 6;
          loop_id = 8;
          item = old.item;
        }
          ∷ running lists ℕ state)
enter_loop-running_example = enter_loop-running lists ℕ 65544 6 state state-IsValid (omega arith)

find_loop-running_example : IsFound lists ℕ 4 (running lists ℕ state) (find_loop lists ℕ 4 state)
find_loop-running_example = find_loop-running lists ℕ 4 state state-IsValid (omega arith)

lists-IsRing : IsRing 2 lists
lists-IsRing = record { cleared = λ r. refl; pushed = λ r t. refl }

calculate_distance-later_example :
    calculate_distance lists ℕ (iterated lists ℕ 5 3 (9 ∷ 7 ∷ 5 ∷ []) (info 0 0)) 6 ≡ 2
calculate_distance-later_example =
    calculate_distance-later lists ℕ 2 5 3 6 (9 ∷ 7 ∷ 5 ∷ []) (info 0 0) lists-IsRing
      (omega arith, (omega arith, tt))
