-- ===== src/Bp/Scc.antt =====
-- BP::build_scc of lib/splitpass/BP.cpp: the strongly connected components of the graph of groups.
-- A group of instructions (rdg) is a node of any type with decided equality; `edges` is what
-- `mem_map[rdg]` reads.
pub mod Marks
pub mod Members
pub mod Loop
use mathlib.Core.Logic.{ite}
use llvm_loop_fission.Base.{
  ℕ, suc, Bool, true, false, List, [], ◌∷◌, Result, ok, ◌>>=◌, if◌then◌else◌, elem, mark, length,
}
use llvm_loop_fission.Bp.Search.{Visited, dfs_scc}

module _ {K : Type 0} (dec : Discrete K) where
  -- The loop over `prdg_vec_iter1`: whether every item of the first list is in the second.
  abbrev pub contains_all : List K → List K → Bool
  contains_all [] ys = true
  contains_all (x ∷ xs) ys = if elem dec x ys then contains_all xs ys else false

  -- `rdg1 == rdg0`
  abbrev pub same : K → K → Bool
  same a b = ite (dec a b) true false

  -- `valid[rdg] = b`
  abbrev pub assign : (K → Bool) → K → Bool → K → Bool
  assign valid rdg b x = ite (dec x rdg) b (valid x)

  -- The loop that merges: the members of the component, and `visited` with each of them marked.
  abbrev pub take_valid : (K → Bool) → List K → List K
  take_valid valid [] = []
  take_valid valid (x ∷ xs) = if valid x then x ∷ take_valid valid xs else take_valid valid xs

  abbrev pub mark_all : Visited K → List K → Visited K
  mark_all visited [] = visited
  mark_all visited (x ∷ xs) = mark_all (mark dec visited x) xs

  module _ (prdg : List K) (edges : K → List K) where
    -- `dfs_scc` from `visited_tmp`; it goes down at most once for each group.
    abbrev pub reachable : K → Visited K → Result (List K × Visited K)
    reachable = dfs_scc dec (suc (length prdg)) edges

    -- The loop over `prdg_vec_iter0`, with `prdg_vec0` whole as `vec0`.
    unfoldable pub check_members : K → List K → List K → Visited K → (K → Bool) → Result (K → Bool)
    check_members rdg0 vec0 [] visited valid = ok valid
    check_members rdg0 vec0 (rdg1 ∷ rest) visited valid = elim (same rdg1 rdg0) [
      | true ↦ check_members rdg0 vec0 rest visited (assign valid rdg1 true)
      | false ↦ do
        r ← reachable rdg1 visited
        check_members rdg0 vec0 rest visited (assign valid rdg1 (contains_all vec0 r.0))
    ]

    -- The outer loop, with `visited` and `visited_tmp`. The first search of a round starts from
    -- `visited_tmp` as the round before left it, which is `visited` without that round's component.
    -- A component is given by its groups; `build_scc` joins their instructions.
    unfoldable pub components_from : List K → Visited K → Visited K → Result (List (List K))
    components_from [] visited visited_tmp = ok []
    components_from (rdg0 ∷ rest) visited visited_tmp = elim (visited rdg0) [
      | true ↦ components_from rest visited visited_tmp
      | false ↦ do
        r ← reachable rdg0 visited_tmp
        valid ← check_members rdg0 r.0 r.0 visited (assign (λ _. false) rdg0 true)
        sccs ← components_from rest (mark_all visited (take_valid valid r.0)) visited
        ok (take_valid valid r.0 ∷ sccs)
    ]
