-- ===== src/Bp/Plan/Correct.antt =====
-- The partitions of a loop and the dependences between its instructions.
use mathlib.Core.List.{flatten}
use llvm_loop_fission.Base.{
  ℕ, ◌≡◌, refl, ap, sym, ◌∙◌, Bool, true, false, ◌||◌, List, [], ◌∷◌, map, ok, ◌>>=◌, arith, inl,
  inr, ◌⊎◌, Distinct, All, ℕ_discrete, Bool-cases, Bool-eq_of_iff, elem-append,
}
use llvm_loop_fission.Bp.Maps.{InstMapSet, mem, deps, has, IsGraph}
use llvm_loop_fission.Bp.Vectors.{VecMap, mem_vec, vec_discrete}
use llvm_loop_fission.Bp.Search.Spec.{Reach}
use llvm_loop_fission.Bp.Dual.{
  dual_dg_map, deps-dual_dg_map, has-dual_dg_map, dual_dg_map-IsGraph, dual_dg_map-IsSymmetric,
}
use llvm_loop_fission.Bp.Partition.Loop.{Partitions, build_partition_lem}
use llvm_loop_fission.Bp.Edges.Find.{find_prdg_lem, mem-flatten}
use llvm_loop_fission.Bp.Edges.Laws.{find_edges_lem}
use llvm_loop_fission.Bp.Scc.Marks.{Reach-trans}
use llvm_loop_fission.Bp.Scc.Members.{IsMutual}
use llvm_loop_fission.Bp.Scc.Loop.{HasNew, components_from-Covers}
use llvm_loop_fission.Bp.Heuristic.{Doubles}
use llvm_loop_fission.Bp.Plan.{scc_groups, build_scc, partition_loop}
use llvm_loop_fission.Bp.Plan.Flatten.{flatten-map-flatten, Distinct-flatten, Distinct-part}
use llvm_loop_fission.Bp.Plan.Linked.{
  Linked, IsDrawn, known, group_of, apart, component, Reach-Linked,
}

-- Some group holds both.
abbrev pub Together : ℕ → ℕ → List (List ℕ) → Type 0
Together x y [] = ⊥
Together x y (g ∷ gs) = ((mem x g ≡ true) × (mem y g ≡ true)) ⊎ Together x y gs

-- What a list of partitions is for these keys and dependences: no instruction is twice in one
-- partition; the partitions together have the keys and nothing else; a register dependence of a key
-- stays in a partition; two instructions of one partition are linked both ways; and each partition
-- has an instruction that no earlier one has.
pub record IsPartitioning (keys : ℕ → Bool) (reg mem_map : InstMapSet) (sccs : List (List ℕ))
    : Type 0 where
  pub distinct : All (Distinct ℕ_discrete) sccs
  pub covers : (x : ℕ) → mem x (flatten sccs) ≡ keys x
  pub dependent : (x y : ℕ) → keys x ≡ true → mem y (deps reg x) ≡ true → Together x y sccs
  pub linked : (x y : ℕ) → Together x y sccs → Linked reg mem_map x y × Linked reg mem_map y x
  pub new : HasNew ℕ_discrete (λ _. false) sccs

-- The instructions of a group stay in one partition.
joined :
    (comps : List (List (List ℕ))) (p : List ℕ) (x y : ℕ)
    → mem_vec p (flatten comps) ≡ true
    → mem x p ≡ true
    → mem y p ≡ true
    → Together x y (map flatten comps)
unfolding flatten
joined [] p x y h i j = absurd (ground (arith, h))
joined (c ∷ comps) p x y h i j = elim (Bool-cases (mem_vec p c)) [
  | inl m ↦ inl (mem-flatten x p c m i, mem-flatten y p c m j)
  | inr away ↦
      inr (joined comps p x y (ground (arith, elem-append vec_discrete p c (flatten comps))) i j)
]

-- Instructions that are joined are in groups that lead to one another.
parted :
    (edges : VecMap) (comps : List (List (List ℕ))) (x y : ℕ)
    → All (IsMutual vec_discrete edges) comps
    → Together x y (map flatten comps)
    → (p : List ℕ) × (q : List ℕ) × (mem_vec p (flatten comps) ≡ true)
      × (mem_vec q (flatten comps) ≡ true)
      × (mem x p ≡ true)
      × (mem y q ≡ true)
      × Reach vec_discrete edges p q
      × Reach vec_discrete edges q p
unfolding flatten
parted edges [] x y cs h = absurd h
parted edges (c ∷ comps) x y cs (inl (i, j)) =
    let (p, _, xp, vp) = find_prdg_lem x c i in
    let (q, _, yq, vq) = find_prdg_lem y c j in
    let k = cs.0 in
    (
      p,
      q,
      ground (arith, elem-append vec_discrete p c (flatten comps)),
      ground (arith, elem-append vec_discrete q c (flatten comps)),
      xp,
      yq,
      Reach-trans vec_discrete (k.mutual_back p vp) (k.mutual_out q vq),
      Reach-trans vec_discrete (k.mutual_back q vq) (k.mutual_out p vp),
    )
parted edges (c ∷ comps) x y cs (inr h) =
    let (p, q, vp, vq, xp, yq, onward, back) = parted edges comps x y cs.1 h in
    (
      p,
      q,
      ground (arith, elem-append vec_discrete p c (flatten comps)),
      ground (arith, elem-append vec_discrete q c (flatten comps)),
      xp,
      yq,
      onward,
      back,
    )

module _ (n : ℕ) (reg mem_map : InstMapSet) (g : IsGraph n reg) (g' : IsGraph n mem_map)
    (same : (x : ℕ) → has mem_map x ≡ has reg x) (prdg : List (List ℕ))
    (parts : Partitions n (dual_dg_map n reg) prdg) (edges : VecMap)
    (drawn : IsDrawn prdg mem_map edges) (comps : List (List (List ℕ)))
    (within : (p : List ℕ) → mem_vec p (flatten comps) ≡ true → mem_vec p prdg ≡ true)
    (all : (p : List ℕ) → mem_vec p prdg ≡ true → mem_vec p (flatten comps) ≡ true) where
  all_covered : (x : ℕ) → mem x (flatten (map flatten comps)) ≡ has reg x
  all_covered x =
      ap (mem x) (flatten-map-flatten comps)
      ∙ Bool-eq_of_iff _ _
          (λ h.
            let (p, _, xp, vp) = find_prdg_lem x (flatten comps) h in
            sym (known n reg mem_map g g' same prdg parts edges drawn x)
            ∙ mem-flatten x p prdg (within p vp) xp)
          (λ h.
            let (p, vp, xp) = group_of n reg mem_map g g' same prdg parts edges drawn x h in
            mem-flatten x p (flatten comps) (all p vp) xp)

  once_each :
      (cs : List (List (List ℕ)))
      → All (Distinct vec_discrete) cs
      → ((p : List ℕ) → mem_vec p (flatten cs) ≡ true → mem_vec p prdg ≡ true)
      → All (Distinct ℕ_discrete) (map flatten cs)
  unfolding flatten
  once_each [] d sub = tt
  once_each (c ∷ cs) d sub =
      let both = λ (p : List ℕ). elem-append vec_discrete p c (flatten cs) in
      let first = λ (p : List ℕ) (h : mem_vec p c ≡ true). sub p (ground (arith, both p, h)) in
      (
        Distinct-flatten c d.0 (λ p h. Distinct-part prdg p parts.distinct (first p h))
            (λ p q x i j.
              apart n reg mem_map g g' same prdg parts edges drawn p q x (first p i) (first q j)),
        once_each cs d.1 (λ p h. sub p (ground (arith, both p, h))),
      )

  -- An instruction of a group that is in none of some groups is in none of these.
  outside :
      (c : List (List ℕ)) (p : List ℕ) (x : ℕ)
      → ((q : List ℕ) → mem_vec q c ≡ true → mem_vec q prdg ≡ true)
      → mem_vec p prdg ≡ true
      → mem x p ≡ true
      → mem_vec p c ≡ false
      → mem x (flatten c) ≡ false
  outside c p x sub vp xp away = elim (Bool-cases (mem x (flatten c))) [
    | inr out ↦ out
    | inl m ↦
        let (q, _, xq, vq) = find_prdg_lem x c m in
        let same_group =
          apart n reg mem_map g g' same prdg parts edges drawn p q x vp (sub q vq) xp xq in
        absurd (ground (arith, ap (λ z. mem_vec z c) same_group, vq, away))
  ]

  new_ones :
      (cs : List (List (List ℕ))) (groups : List ℕ → Bool) (marks : ℕ → Bool)
      → ((p : List ℕ) → mem_vec p (flatten cs) ≡ true → mem_vec p prdg ≡ true)
      → ((p : List ℕ) (x : ℕ)
          → mem_vec p prdg ≡ true
          → mem x p ≡ true
          → groups p ≡ false
          → marks x ≡ false)
      → HasNew vec_discrete groups cs
      → HasNew ℕ_discrete marks (map flatten cs)
  unfolding flatten
  new_ones [] groups marks sub unmarked h = tt
  new_ones (c ∷ cs) groups marks sub unmarked ((p, in_c, fresh), h) =
      let both = λ (q : List ℕ). elem-append vec_discrete q c (flatten cs) in
      let first = λ (q : List ℕ) (m : mem_vec q c ≡ true). sub q (ground (arith, both q, m)) in
      let k = component n reg mem_map g g' same prdg parts edges drawn p (first p in_c) in
      (
        (
          k.leader,
          mem-flatten k.leader p c in_c k.led,
          unmarked p k.leader (first p in_c) k.led fresh,
        ),
        new_ones cs (λ q. mem_vec q c || groups q) (λ x. mem x (flatten c) || marks x)
            (λ q m. sub q (ground (arith, both q, m)))
            (λ q x vq xq away. ground (arith, outside c q x first vq xq, unmarked q x vq xq, away))
            h,
      )

  stays :
      (x y : ℕ) → has reg x ≡ true → mem y (deps reg x) ≡ true → Together x y (map flatten comps)
  stays x y h e =
      let (p, vp, xp) = group_of n reg mem_map g g' same prdg parts edges drawn x h in
      let c = component n reg mem_map g g' same prdg parts edges drawn p vp in
      joined comps p x y (all p vp) xp
        (c.closed x y xp (ground (arith, deps-dual_dg_map n reg g x y, e)))

  Together-Linked :
      All (IsMutual vec_discrete edges) comps
      → (x y : ℕ) → Together x y (map flatten comps)
      → Linked reg mem_map x y × Linked reg mem_map y x
  Together-Linked cs x y h =
      let (p, q, vp, vq, xp, yq, onward, back) = parted edges comps x y cs h in
      (
        Reach-Linked n reg mem_map g g' same prdg parts edges drawn x y (within p vp) xp yq onward,
        Reach-Linked n reg mem_map g g' same prdg parts edges drawn y x (within q vq) yq xp back,
      )

-- For two dependence graphs with keys below n, the same keys in both, and without the heuristic:
-- the partitioning that BP stores for an innermost loop always ends and meets no undefined step. No
-- instruction is twice in one partition; the partitions together have the keys and nothing else; a
-- key and what it depends on by registers share a partition; from an instruction to every other of
-- its partition and back there are chains of dependences, where a chain follows register dependences
-- both ways and memory dependences forwards; and each partition has an instruction that no earlier
-- one has.
pub partition_loop_correct :
    (d : Doubles) (header_insts n : ℕ) (reg mem_map : InstMapSet)
    → IsGraph n reg
    → IsGraph n mem_map
    → ((x : ℕ) → has mem_map x ≡ has reg x)
    → (sccs : List (List ℕ)) × (partition_loop d false header_insts n reg mem_map ≡ ok sccs)
      × IsPartitioning (has reg) reg mem_map sccs
unfolding partition_loop build_scc scc_groups
partition_loop_correct d header n reg mem_map g g' same =
    let (prdg, run1, parts) =
      build_partition_lem n (dual_dg_map n reg) (dual_dg_map-IsGraph n reg g)
        (dual_dg_map-IsSymmetric n reg g) in
    let (edges, run2, drawn) =
      find_edges_lem n prdg mem_map g' parts.distinct
        (λ x h. (parts.covers x ∙ has-dual_dg_map n reg g x) ∙ (sym (same x) ∙ h)) in
    let (comps, run3, c) =
      components_from-Covers vec_discrete prdg edges (λ p q vp e. ((drawn p q).0 e).1) prdg
        (λ _. false) (λ _. false) (λ p h. h) in
    (
      map flatten comps,
      rw (run1, ◌>>=◌, run2, ◌>>=◌, run3, ◌>>=◌) refl,
      record {
        distinct =
            once_each n reg mem_map g g' same prdg parts edges drawn comps c.within c.all comps
              c.distinct c.within;
        covers = all_covered n reg mem_map g g' same prdg parts edges drawn comps c.within c.all;
        dependent = stays n reg mem_map g g' same prdg parts edges drawn comps c.within c.all;
        linked =
            Together-Linked n reg mem_map g g' same prdg parts edges drawn comps c.within c.all
              c.components;
        new =
            new_ones n reg mem_map g g' same prdg parts edges drawn comps c.within c.all comps
              (λ _. false) (λ _. false) c.within (λ p x vp xp away. refl) c.new;
      },
    )
