-- ===== src/Bp/Plan.antt =====
-- BP::build_scc as a whole and the pipeline of BP::OutputBP for one innermost loop
-- (lib/splitpass/BP.cpp).
pub mod Flatten
pub mod Linked
pub mod Correct
use mathlib.Core.List.{flatten}
use llvm_loop_fission.Base.{
  ℕ, Bool, true, false, List, [], ◌∷◌, map, Result, ok, ◌>>=◌, if◌then◌else◌,
}
use llvm_loop_fission.Bp.Maps.{Instruction, InstMapSet}
use llvm_loop_fission.Bp.Vectors.{VecMap, vec_discrete}
use llvm_loop_fission.Bp.Dual.{dual_dg_map}
use llvm_loop_fission.Bp.Partition.{build_partition}
use llvm_loop_fission.Bp.Edges.{find_edges}
use llvm_loop_fission.Bp.Scc.{components_from}
use llvm_loop_fission.Bp.Heuristic.{Doubles, check_partition}

-- The components, each with the instructions of its groups one after another.
pub scc_groups : List (List Instruction) → VecMap → Result (List (List Instruction))
scc_groups prdg mem_map = do
  sccs ← components_from vec_discrete prdg mem_map prdg (λ _. false) (λ _. false)
  ok (map flatten sccs)

-- `heuristics` is the macro HEURSTICS of include/machine.h, which the source sets to false;
-- `header_insts` is what NumHeaderInst counts.
pub build_scc :
    Doubles → Bool → ℕ → List (List Instruction) → VecMap → Result (List (List Instruction))
build_scc d heuristics header_insts prdg mem_map = do
  scc ← scc_groups prdg mem_map
  if heuristics then check_partition d header_insts scc else ok scc

-- What OutputBP stores in `Partitions[L]`, from the two dependence maps of the loop.
pub partition_loop :
    Doubles → Bool → ℕ → ℕ → InstMapSet → InstMapSet → Result (List (List Instruction))
partition_loop d heuristics header_insts n dg_instr_map dg_mem_map = do
  prdg ← build_partition n (dual_dg_map n dg_instr_map)
  edges ← find_edges n prdg dg_mem_map
  build_scc d heuristics header_insts prdg edges
