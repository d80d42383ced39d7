-- ===== src/Output/Total.antt =====
-- Whether BP ends on the loops of a function.
use llvm_loop_fission.Base.{
  ℕ, ◌≡◌, refl, Bool, true, false, List, [], ◌∷◌, some, Option-cases, Result, ok, ◌>>=◌, Bool-cases,
  inl, inr,
}
use llvm_loop_fission.Bp.Maps.{InstMapSet, has, IsGraph}
use llvm_loop_fission.Bp.Partition.{keys}
use llvm_loop_fission.Bp.Heuristic.{Doubles}
use llvm_loop_fission.Bp.Plan.Correct.{partition_loop_correct}
use llvm_loop_fission.Loops.{Loop, Loops, loop, nil, cons}
use llvm_loop_fission.Dg.{Dg, put, is_nil}
use llvm_loop_fission.Output.{
  LoopSccs, num_header_inst, entry, output_innermost, output_bp, output_each, output_all,
}

-- What DG leaves for a loop: two graphs with the same keys.
pub record IsEntry (n : ℕ) (reg mem_map : InstMapSet) : Type 0 where
  pub reg_graph : IsGraph n reg
  pub mem_graph : IsGraph n mem_map
  pub same_keys : (x : ℕ) → has mem_map x ≡ has reg x

abbrev pub HasEntries : ℕ → Dg → Type 0
HasEntries n dg =
    (l : ℕ) (reg : InstMapSet)
    → dg.dg_of_loops l ≡ some reg
    → IsEntry n reg (entry (dg.dg_of_loops_mem l))

module _ (d : Doubles) (n : ℕ) (dg : Dg) (entries : HasEntries n dg) where
  Ends : Result LoopSccs → Type 0
  Ends r = (after : LoopSccs) × (r ≡ ok after)

  output_innermost_lem :
      (l header_insts : ℕ) (before : LoopSccs)
      → Ends (output_innermost d false n dg l header_insts (dg.dg_of_loops l) before)
  unfolding output_innermost Ends
  output_innermost_lem l header_insts before = elim (Option-cases (dg.dg_of_loops l)) [
    | inl e ↦ rw e (before, refl)
    | inr (reg, e) ↦ elim (Bool-cases (is_nil (keys n reg))) [
      | inl empty ↦ rw (e, output_innermost, empty) (before, refl)
      | inr full ↦
          let g = entries l reg e in
          let (sccs, run, _) =
            partition_loop_correct d header_insts n reg (entry (dg.dg_of_loops_mem l)) g.reg_graph
              g.mem_graph g.same_keys in
          rw (e, output_innermost, full, run, ◌>>=◌) (put before l sccs, refl)
    ]
  ]

  mutual
    unfolding output_bp Ends

    output_bp_lem : (l : Loop) (before : LoopSccs) → Ends (output_bp d false n dg l before)
    output_bp_lem (loop l header blocks nil) before =
        output_innermost_lem l (num_header_inst header blocks) before
    output_bp_lem (loop l header blocks (cons sub subs)) before =
        let (next, run) = output_bp_lem sub before in
        rw (output_bp, run, ◌>>=◌) (output_each_lem subs next)

    output_each_lem : (ls : Loops) (before : LoopSccs) → Ends (output_each d false n dg ls before)
    output_each_lem nil before = (before, refl)
    output_each_lem (cons sub subs) before =
        let (next, run) = output_bp_lem sub before in
        rw (output_each, run, ◌>>=◌) (output_each_lem subs next)

  -- For dependence graphs with keys below n, the same in both maps of a loop, and without the
  -- heuristic: BP::runOnFunction ends on every nest of loops and meets no undefined step.
  pub output_all-total :
      (ls : List (Bool × Loop)) (before : LoopSccs)
      → (after : LoopSccs) × (output_all d false n dg ls before ≡ ok after)
  unfolding output_all Ends
  output_all-total [] before = (before, refl)
  output_all-total ((true, l) ∷ ls) before = output_all-total ls before
  output_all-total ((false, l) ∷ ls) before =
      let (next, run) = output_bp_lem l before in
      let (after, rest) = output_all-total ls next in (after, rw (output_all, run, ◌>>=◌) rest)
