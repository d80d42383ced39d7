-- ===== src/SccPass.antt =====
-- The strongly connected components of lib/splitpass/splitpass_scc.cpp, by two depth-first searches.
-- Both take `visited`, and DFSUtil takes `new_scc`, by value, so that a caller keeps its own copy.
pub mod Outcome
use llvm_loop_fission.Base.{
  ℕ, zero, suc, Bool, true, false, List, [], ◌∷◌, ◌++◌, Option, none, some, Result, ok, out_of_fuel,
  ◌>>=◌, ℕ_discrete, mark,
}
use llvm_loop_fission.Bp.Maps.{InstMapSet, deps}
use llvm_loop_fission.Bp.Dual.{reverse_edges}
use llvm_loop_fission.Bp.Partition.{keys}

-- The end of a void function.
abbrev pub Returned : Type 0
Returned = Result (Unit {0})

abbrev pub Visited : Type 0
Visited = ℕ → Bool

-- The loop of fillOrder over the successors, with the recursive call as an argument.
pub fill_each :
    (ℕ → Visited → List ℕ → Result (List ℕ)) → List ℕ → Visited → List ℕ → Result (List ℕ)
fill_each rec [] visited stack = ok stack
fill_each rec (inst ∷ insts) visited stack = elim (visited inst) [
  | true ↦ fill_each rec insts visited stack
  | false ↦ do pushed ← rec inst visited stack; fill_each rec insts visited pushed
]

-- SplitPassSCC::fillOrder. The stack is shared; its top is the head of the list.
pub fill_order : ℕ → InstMapSet → ℕ → Visited → List ℕ → Result (List ℕ)
fill_order zero map inst visited stack = out_of_fuel
fill_order (suc fuel) map inst visited stack = do
  pushed ← fill_each (fill_order fuel map) (deps map inst) (mark ℕ_discrete visited inst) stack
  ok (inst ∷ pushed)

-- The loop of DFSUtil over the predecessors.
pub visit_each : (ℕ → Visited → List ℕ → Returned) → List ℕ → Visited → List ℕ → Returned
visit_each rec [] visited new_scc = ok tt
visit_each rec (inst ∷ insts) visited new_scc = elim (visited inst) [
  | true ↦ visit_each rec insts visited new_scc
  | false ↦ do done ← rec inst visited new_scc; visit_each rec insts visited new_scc
]

-- SplitPassSCC::DFSUtil, whose copy of `new_scc` ends with the call.
pub dfs_util : ℕ → InstMapSet → ℕ → Visited → List ℕ → Returned
dfs_util zero map inst visited new_scc = out_of_fuel
dfs_util (suc fuel) map inst visited new_scc =
    visit_each (dfs_util fuel map) (deps map inst) (mark ℕ_discrete visited inst)
      (new_scc ++ inst ∷ [])

-- The loop of runOnFunction that fills the stack.
pub fill_all : ℕ → InstMapSet → List ℕ → Visited → List ℕ → Result (List ℕ)
fill_all fuel map [] visited stack = ok stack
fill_all fuel map (inst ∷ insts) visited stack = elim (visited inst) [
  | true ↦ fill_all fuel map insts visited stack
  | false ↦ do
    pushed ← fill_order fuel map inst visited stack
    fill_all fuel map insts visited pushed
]

abbrev pub reverse_entry : ℕ → Option (List ℕ) → InstMapSet → InstMapSet
reverse_entry inst none dg_reverse = dg_reverse
reverse_entry inst (some temp_set) dg_reverse = reverse_edges inst temp_set dg_reverse

-- `dg_reverse`
pub reverse_all : InstMapSet → List ℕ → InstMapSet → InstMapSet
reverse_all dg_temp [] dg_reverse = dg_reverse
reverse_all dg_temp (inst ∷ insts) dg_reverse =
    reverse_all dg_temp insts (reverse_entry inst (dg_temp inst) dg_reverse)

-- The loop that takes the stack down.
pub pop_all : ℕ → InstMapSet → List ℕ → Visited → List ℕ → Result (List (List ℕ))
pop_all fuel dg_reverse [] visited new_scc = ok []
pop_all fuel dg_reverse (inst ∷ stack) visited new_scc = elim (visited inst) [
  | true ↦ pop_all fuel dg_reverse stack visited new_scc
  | false ↦ do
    done ← dfs_util fuel dg_reverse inst visited new_scc
    sccs ← pop_all fuel dg_reverse stack visited []
    ok (new_scc ∷ sccs)
]

-- What runOnFunction computes for a loop: `sccs`.
pub find_sccs : ℕ → InstMapSet → Result (List (List ℕ))
find_sccs n dg_temp = do
  stack ← fill_all (suc n) dg_temp (keys n dg_temp) (λ _. false) []
  pop_all (suc n) (reverse_all dg_temp (keys n dg_temp) (λ _. none)) stack (λ _. false) []
