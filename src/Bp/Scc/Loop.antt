-- ===== src/Bp/Scc/Loop.antt =====
-- The outer loop of BP::build_scc.
use mathlib.Core.List.{flatten}
use llvm_loop_fission.Base.{
  ◌≡◌, refl, sym, subst, ap, Bool, true, false, ◌||◌, List, [], ◌∷◌, ok, ◌>>=◌, arith, inl, inr,
  elem, Distinct, All, Bool-cases, elem-append,
}
use llvm_loop_fission.Bp.Search.Spec.{Reach}
use llvm_loop_fission.Bp.Scc.{take_valid, mark_all, assign, components_from}
use llvm_loop_fission.Bp.Scc.Marks.{elem-take_valid, take_valid-Distinct, mark_all_lem}
use llvm_loop_fission.Bp.Scc.Members.{
  IsMutual, search, walk_inside, reached_from, check_members-Says,
}

-- Each list has an item that was not marked and that no list before it has.
abbrev pub HasNew : {K : Type 0} → Discrete K → (K → Bool) → List (List K) → Type 0
HasNew {K} dec marks [] = Unit
HasNew {K} dec marks (g ∷ gs) =
    ((x : K) × (elem dec x g ≡ true) × (marks x ≡ false))
    × HasNew dec (λ x. elem dec x g || marks x) gs

module _ {K : Type 0} (dec : Discrete K) (prdg : List K) (edges : K → List K)
    (inside : (x y : K)
      → elem dec x prdg ≡ true
      → elem dec y (edges x) ≡ true
      → elem dec y prdg ≡ true) where
  -- What the loop from `rest` on returns, with `vis` visited before.
  pub record Covers (vis : K → Bool) (rest : List K) (sccs : List (List K)) : Type 0 where
    pub distinct : All (Distinct dec) sccs
    pub all : (x : K) → elem dec x rest ≡ true → (vis x || elem dec x (flatten sccs)) ≡ true
    pub within : (x : K) → elem dec x (flatten sccs) ≡ true → elem dec x prdg ≡ true
    pub components : All (IsMutual dec edges) sccs
    pub new : HasNew dec vis sccs

  first_valid :
      (root : K) (x : K) → assign dec (λ _. false) root true x ≡ true → Reach dec edges x root
  first_valid root x h = elim (dec x root) [
    | yes at ↦ subst (λ z. Reach dec edges z root) (sym at) Reach.here
    | no other ↦ absurd (ground (arith, h, dec x root))
  ]

  -- For groups and edges that stay inside them, and from any list of these groups and any marks: the
  -- loop of BP::build_scc ends and meets no undefined step. Each list that it returns has no group
  -- twice, has one group that leads to all the others and that all the others lead back to, and has a
  -- group that was not marked and that no earlier list has; the lists have all groups of the given
  -- list that were not marked, and none that the edges do not know.
  pub components_from-Covers :
      (rest : List K) (vis tmp : K → Bool)
      → ((x : K) → elem dec x rest ≡ true → elem dec x prdg ≡ true)
      → (sccs : List (List K)) × (components_from dec prdg edges rest vis tmp ≡ ok sccs)
        × Covers vis rest sccs
  unfolding components_from flatten
  components_from-Covers [] vis tmp sub = (
    [],
    refl,
    record { distinct = tt; all = λ x h. cc; within = λ x h. cc; components = tt; new = tt },
  )
  components_from-Covers (k ∷ rest) vis tmp sub = elim (Bool-cases (vis k)) [
    | inl old ↦
        let (sccs, run, c) =
          components_from-Covers rest vis tmp (λ x h. sub x (ground (arith, dec x k))) in
        (
          sccs,
          rw (old, components_from) run,
          record {
            distinct = c.distinct;
            all = λ x h. elim (dec x k) [
              | yes at ↦ ground (arith, ap vis at)
              | no other ↦ c.all x (ground (arith, h))
            ];
            within = c.within;
            components = c.components;
            new = c.new;
          },
        )
    | inr new ↦
        let top = sub k (ground (arith, dec k k)) in
        let (vec0, after, ran, f) = search dec prdg edges inside k tmp top in
        let (valid, checked, at_root, says) =
          check_members-Says dec prdg edges inside top f vis vec0 (assign dec (λ _. false) k true)
            (λ x h. h) (ground (arith, dec k k)) (first_valid k) in
        let group = take_valid dec valid vec0 in
        let member = λ (x : K). elem-take_valid dec valid vec0 x in
        let out = λ (x : K) (h : elem dec x group ≡ true).
          reached_from dec prdg edges inside top f x (ground (arith, member x, h)) in
        let rooted : elem dec k group ≡ true = ground (arith, member k, f.head, at_root) in
        let (sccs, run, c) =
          components_from-Covers rest (mark_all dec vis group) vis
            (λ x h. sub x (ground (arith, dec x k))) in
        let both = λ (x : K). elem-append dec x group (flatten sccs) in
        (
          group ∷ sccs,
          rw (new, components_from, ran, ◌>>=◌, checked, ◌>>=◌, run, ◌>>=◌) refl,
          record {
            distinct = (take_valid-Distinct dec valid vec0 f.distinct, c.distinct);
            all = λ x h. elim (dec x k) [
              | yes at ↦ ground (arith, both x, ap (λ z. elem dec z group) at, rooted)
              | no other ↦ ground (arith, both x, c.all x, mark_all_lem dec vis group x)
            ];
            within = λ x h. elim (Bool-cases (elem dec x group)) [
              | inl m ↦ walk_inside dec prdg edges inside top (out x m)
              | inr n ↦ c.within x (ground (arith, both x))
            ];
            components = (
              record {
                root = k;
                rooted = rooted;
                mutual_out = out;
                mutual_back = λ x h. says x (ground (arith, member x, h));
              },
              c.components,
            );
            new = (
              (k, rooted, new),
              subst (λ marks. HasNew dec marks sccs) (λ i x. mark_all_lem dec vis group x i) c.new,
            );
          },
        )
  ]
