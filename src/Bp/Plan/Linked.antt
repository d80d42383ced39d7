-- ===== src/Bp/Plan/Linked.antt =====
-- The dependences of a loop, and what they mean for the groups of BP::build_partition and the
-- edges of BP::find_edges.
use mathlib.Core.List.{flatten}
use llvm_loop_fission.Base.{ℕ, ◌≡◌, ◌∙◌, true, List, arith, inl, inr, ◌↔◌, Bool-cases, All-elem}
use llvm_loop_fission.Bp.Maps.{InstMapSet, mem, deps, has, IsGraph}
use llvm_loop_fission.Bp.Vectors.{VecMap, mem_vec, vec_discrete}
use llvm_loop_fission.Bp.Search.Spec.{Reach}
use llvm_loop_fission.Bp.Dual.{
  dual_dg_map, deps-dual_dg_map, has-dual_dg_map, dual_dg_map-IsSymmetric,
}
use llvm_loop_fission.Bp.Partition.Components.{Walk, IsComponent}
use llvm_loop_fission.Bp.Partition.Loop.{Partitions}
use llvm_loop_fission.Bp.Edges.Find.{find_prdg_lem, find_prdg_unique}
use llvm_loop_fission.Bp.Edges.Laws.{Depends}

-- Chains of dependences: a register dependence in either direction, a memory dependence forwards.
pub data Linked (reg mem_map : InstMapSet) (x : ℕ) : ℕ → Type 0 where
  here : Linked reg mem_map x x
  uses : {u v : ℕ} → Linked reg mem_map x u → mem v (deps reg u) ≡ true → Linked reg mem_map x v
  used : {u v : ℕ} → Linked reg mem_map x u → mem u (deps reg v) ≡ true → Linked reg mem_map x v
  memory :
      {u v : ℕ} → Linked reg mem_map x u → mem v (deps mem_map u) ≡ true → Linked reg mem_map x v

pub Linked-trans :
    {reg mem_map : InstMapSet} {x y z : ℕ}
    → Linked reg mem_map x y
    → Linked reg mem_map y z
    → Linked reg mem_map x z
Linked-trans l Linked.here = l
Linked-trans l (Linked.uses r e) = Linked.uses (Linked-trans l r) e
Linked-trans l (Linked.used r e) = Linked.used (Linked-trans l r) e
Linked-trans l (Linked.memory r e) = Linked.memory (Linked-trans l r) e

-- The edges are those that the memory dependences call for.
abbrev pub IsDrawn : List (List ℕ) → InstMapSet → VecMap → Type 0
IsDrawn prdg mem_map edges =
    (p q : List ℕ)
    → (mem_vec q (edges p) ≡ true)
      ↔ ((mem_vec p prdg ≡ true) × (mem_vec q prdg ≡ true) × Depends mem_map p q)

module _ (n : ℕ) (reg mem_map : InstMapSet) (graph : IsGraph n reg) (graph' : IsGraph n mem_map)
    (same_keys : (x : ℕ) → has mem_map x ≡ has reg x) (prdg : List (List ℕ))
    (parts : Partitions n (dual_dg_map n reg) prdg) (edges : VecMap)
    (drawn : IsDrawn prdg mem_map edges) where
  pub known : (x : ℕ) → mem x (flatten prdg) ≡ has reg x
  known x = parts.covers x ∙ has-dual_dg_map n reg graph x

  pub group_of :
      (x : ℕ) → has reg x ≡ true → (p : List ℕ) × (mem_vec p prdg ≡ true) × (mem x p ≡ true)
  group_of x h = let (p, _, i, j) = find_prdg_lem x prdg (known x ∙ h) in (p, j, i)

  pub apart :
      (p q : List ℕ) (x : ℕ)
      → mem_vec p prdg ≡ true
      → mem_vec q prdg ≡ true
      → mem x p ≡ true
      → mem x q ≡ true
      → p ≡ q
  apart p q x i j k l =
      let e1 = find_prdg_unique x p prdg parts.distinct i k in
      let e2 = find_prdg_unique x q prdg parts.distinct j l in cc (e1, e2)

  pub component : (p : List ℕ) → mem_vec p prdg ≡ true → IsComponent (dual_dg_map n reg) p
  component p h = All-elem vec_discrete (IsComponent (dual_dg_map n reg)) prdg p parts.components h

  Walk-Linked : {a b : ℕ} → Walk (dual_dg_map n reg) a b → Linked reg mem_map a b
  Walk-Linked Reach.here = Linked.here
  Walk-Linked (Reach.step {u} {v} w e) = elim (Bool-cases (mem v (deps reg u))) [
    | inl m ↦ Linked.uses (Walk-Linked w) m
    | inr m ↦ Linked.used (Walk-Linked w) (ground (arith, deps-dual_dg_map n reg graph u v, e))
  ]

  Walk-back : {a b : ℕ} → Walk (dual_dg_map n reg) a b → Linked reg mem_map b a
  Walk-back Reach.here = Linked.here
  Walk-back (Reach.step {u} {v} w e) =
      Linked-trans
        (Walk-Linked (Reach.step Reach.here (dual_dg_map-IsSymmetric n reg graph v u ∙ e)))
        (Walk-back w)

  within :
      (p : List ℕ) (a b : ℕ)
      → mem_vec p prdg ≡ true
      → mem a p ≡ true
      → mem b p ≡ true
      → Linked reg mem_map a b
  within p a b h i j =
      let c = component p h in
      Linked-trans (Walk-back (c.connected a i)) (Walk-Linked (c.connected b j))

  -- A walk between groups links all their instructions.
  pub Reach-Linked :
      {p q : List ℕ} (a b : ℕ)
      → mem_vec p prdg ≡ true
      → mem a p ≡ true
      → mem b q ≡ true
      → Reach vec_discrete edges p q
      → Linked reg mem_map a b
  Reach-Linked {p} a b vp i j Reach.here = within p a b vp i j
  Reach-Linked {p} a b vp i j (Reach.step {u} {v} r e) =
      let (vu, vv, (c, d, cu, dv, m)) = (drawn u v).0 e in
      Linked-trans (Linked.memory (Reach-Linked a c vp i cu r) m) (within v d b vv dv j)
