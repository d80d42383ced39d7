-- ===== src/Output.antt =====
-- BP::OutputBP and BP::runOnFunction of lib/splitpass/BP.cpp: the partitions of a whole function.
pub mod Total
use llvm_loop_fission.Base.{
  ℕ, Bool, true, false, List, [], ◌∷◌, Option, none, some, Result, ok, ◌>>=◌, if◌then◌else◌, ◌==◌,
  length,
}
use llvm_loop_fission.Bp.Maps.{InstMapSet}
use llvm_loop_fission.Bp.Partition.{keys}
use llvm_loop_fission.Bp.Heuristic.{Doubles}
use llvm_loop_fission.Bp.Plan.{partition_loop}
use llvm_loop_fission.Loops.{Block, Loop, Loops, loop, nil, cons}
use llvm_loop_fission.Dg.{Dg, put, is_nil}

-- loop_sccs
abbrev pub LoopSccs : Type 0
LoopSccs = ℕ → Option (List (List ℕ))

-- BP::NumHeaderInst
pub num_header_inst : ℕ → List Block → ℕ
num_header_inst header [] = 0
num_header_inst header (bb ∷ blocks) =
    if bb.id == header then length bb.insts else num_header_inst header blocks

-- A map entry read by `[]`, which is empty where there was none.
abbrev pub entry : Option InstMapSet → InstMapSet
entry none = λ _. none
entry (some m) = m

module _ (d : Doubles) (heuristics : Bool) (n : ℕ) (depmap : Dg) where
  -- The two early exits, for a loop without an entry and for an empty graph.
  pub output_innermost : ℕ → ℕ → Option InstMapSet → LoopSccs → Result LoopSccs
  output_innermost l header_insts none partitions = ok partitions
  output_innermost l header_insts (some dg_instr_map) partitions =
      elim (is_nil (keys n dg_instr_map)) [
        | true ↦ ok partitions
        | false ↦ do
          sccs ←
              partition_loop d heuristics header_insts n dg_instr_map
                (entry (depmap.dg_of_loops_mem l))
          ok (put partitions l sccs)
      ]

  mutual
    pub output_bp : Loop → LoopSccs → Result LoopSccs
    output_bp (loop l header blocks nil) partitions =
        output_innermost l (num_header_inst header blocks) (depmap.dg_of_loops l) partitions
    output_bp (loop l header blocks (cons sub subs)) partitions = do
      next ← output_bp sub partitions
      output_each subs next

    pub output_each : Loops → LoopSccs → Result LoopSccs
    output_each nil partitions = ok partitions
    output_each (cons sub subs) partitions = do
      next ← output_bp sub partitions
      output_each subs next

  pub output_all : List (Bool × Loop) → LoopSccs → Result LoopSccs
  output_all [] partitions = ok partitions
  output_all ((has_parent, l) ∷ ls) partitions = elim has_parent [
    | true ↦ output_all ls partitions
    | false ↦ do next ← output_bp l partitions; output_all ls next
  ]
