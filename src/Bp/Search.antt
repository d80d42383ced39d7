-- ===== src/Bp/Search.antt =====
-- BP::dfs and BP::dfs_scc of lib/splitpass/BP.cpp, the two recursive searches. They share their
-- loop over the successors, so that loop is one definition, over any type of nodes: instructions
-- for `dfs`, groups of instructions for `dfs_scc`. `visited` is the std::map<_, bool> that the C++
-- code shares by a pointer; it is passed on and returned here.
pub mod Erase
pub mod Spec
pub mod Loop
use llvm_loop_fission.Base.{
  ℕ, zero, suc, Bool, true, false, List, [], ◌∷◌, ◌++◌, Result, ok, out_of_fuel, undefined, ◌>>=◌,
  if◌then◌else◌, elem, mark,
}

abbrev pub Visited : Type 0 → Type 0
Visited K = K → Bool

module _ {K : Type 0} (dec : Discrete K) where
  -- What the iterators in `to_remove` point at: the items of `new_insts` that `group` has already.
  abbrev pub to_remove : List K → List K → List K
  to_remove [] group = []
  to_remove (x ∷ xs) group = if elem dec x group then x ∷ to_remove xs group else to_remove xs group

  -- `new_insts` without what they point at.
  abbrev pub kept : List K → List K → List K
  kept [] group = []
  kept (x ∷ xs) group = if elem dec x group then kept xs group else x ∷ kept xs group

  -- Each erase makes the iterators behind its place invalid, so that a second erase, through an
  -- iterator taken before the first, is undefined.
  unfoldable pub erase_all : List K → List K → Result (List K)
  erase_all new_insts group = elim (to_remove new_insts group) [
    | [] ↦ ok new_insts
    | iter ∷ rest ↦ elim rest [ [] ↦ ok (kept new_insts group) | _ ∷ _ ↦ undefined ]
  ]

  -- The loop over `dep_insts`, with the recursive call as an argument.
  unfoldable pub explore :
      (K → Visited K → Result (List K × Visited K))
      → List K
      → List K
      → Visited K
      → Result (List K × Visited K)
  explore rec [] group visited = ok (group, visited)
  explore rec (inst ∷ dep_insts) group visited = elim (visited inst) [
    | true ↦ explore rec dep_insts group visited
    | false ↦ do
      r ← rec inst (mark dec visited inst)
      new_insts ← erase_all r.0 group
      explore rec dep_insts (group ++ new_insts) r.1
  ]

  -- BP::dfs. The start is not marked here.
  pub dfs : ℕ → (K → List K) → K → Visited K → Result (List K × Visited K)
  dfs zero deps start visited = out_of_fuel
  dfs (suc fuel) deps start visited = explore (dfs fuel deps) (deps start) (start ∷ []) visited

  -- BP::dfs_scc. The start is marked.
  unfoldable pub dfs_scc : ℕ → (K → List K) → K → Visited K → Result (List K × Visited K)
  dfs_scc zero deps start visited = out_of_fuel
  dfs_scc (suc fuel) deps start visited =
      explore (dfs_scc fuel deps) (deps start) (start ∷ []) (mark dec visited start)
