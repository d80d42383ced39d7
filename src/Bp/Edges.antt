-- ===== src/Bp/Edges.antt =====
-- BP::find_prdg and BP::find_edges of lib/splitpass/BP.cpp: the memory dependences between groups.
pub mod Find
pub mod Laws
use llvm_loop_fission.Base.{ℕ, true, false, List, [], ◌∷◌, Result, ok, undefined, ◌>>=◌, range_from}
use llvm_loop_fission.Bp.Maps.{Instruction, InstMapSet, mem, deps}
use llvm_loop_fission.Bp.Partition.{keys}
use llvm_loop_fission.Bp.Vectors.{VecMap, insert_vec_edge}

-- The first group that holds the instruction. Without one the C++ function ends with no return.
pub find_prdg : Instruction → List (List Instruction) → Result (List Instruction)
find_prdg inst [] = undefined
find_prdg inst (rdg ∷ prdg) = elim (mem inst rdg) [ true ↦ ok rdg | false ↦ find_prdg inst prdg ]

-- The inner loop, over the instructions that depend on one of the group `first_rdg`.
pub edges_to :
    List (List Instruction) → List Instruction → List Instruction → VecMap → Result VecMap
edges_to prdg first_rdg [] edges = ok edges
edges_to prdg first_rdg (second_inst ∷ rest) edges = do
  second_rdg ← find_prdg second_inst prdg
  edges_to prdg first_rdg rest (insert_vec_edge edges first_rdg second_rdg)

-- The outer loop, over the keys of the map. A key with no dependence is passed over.
pub edges_from : List (List Instruction) → InstMapSet → List Instruction → VecMap → Result VecMap
edges_from prdg mem_map [] edges = ok edges
edges_from prdg mem_map (first_inst ∷ rest) edges = elim (deps mem_map first_inst) [
  | [] ↦ edges_from prdg mem_map rest edges
  | _ ∷ _ ↦ do
    first_rdg ← find_prdg first_inst prdg
    edges' ← edges_to prdg first_rdg (deps mem_map first_inst) edges
    edges_from prdg mem_map rest edges'
]

pub find_edges : ℕ → List (List Instruction) → InstMapSet → Result VecMap
unfolding edges_from edges_to find_prdg insert_vec_edge
find_edges n prdg dg_mem_map = edges_from prdg dg_mem_map (keys n dg_mem_map) (λ _. [])
