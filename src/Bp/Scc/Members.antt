-- ===== src/Bp/Scc/Members.antt =====
-- One round of BP::build_scc: the members that it finds, and what they are.
use llvm_loop_fission.Base.{
  suc, ◌≡◌, refl, sym, subst, Bool, true, List, [], ◌∷◌, ok, ◌>>=◌, arith, inl, inr, elem, mark,
  length, unmarked-le-length, Bool-cases,
}
use llvm_loop_fission.Bp.Search.{Visited}
use llvm_loop_fission.Bp.Search.Spec.{Reach, Avoid-Reach, Explored}
use llvm_loop_fission.Bp.Search.Loop.{dfs_scc-Explored}
use llvm_loop_fission.Bp.Scc.{contains_all, same, assign, reachable, check_members}
use llvm_loop_fission.Bp.Scc.Marks.{contains_all_sound}

-- Nodes that some one of them leads to and that lead back to it.
pub record IsMutual {K : Type 0} (dec : Discrete K) (edges : K → List K) (members : List K)
    : Type 0 where
  pub root : K
  pub rooted : elem dec root members ≡ true
  pub mutual_out : (x : K) → elem dec x members ≡ true → Reach dec edges root x
  pub mutual_back : (x : K) → elem dec x members ≡ true → Reach dec edges x root

module _ {K : Type 0} (dec : Discrete K) (prdg : List K) (edges : K → List K)
    (inside : (x y : K)
      → elem dec x prdg ≡ true
      → elem dec y (edges x) ≡ true
      → elem dec y prdg ≡ true) where
  abbrev pub Walk : K → K → Type 0
  Walk = Reach dec edges

  -- A search from any marks.
  pub search :
      (x : K) (vis : K → Bool)
      → elem dec x prdg ≡ true
      → (group : List K) × (after : Visited K) × (reachable dec prdg edges x vis
          ≡ ok (group, after))
        × Explored dec edges x (mark dec vis x) group after
  search x vis top =
      let (group, after, run, e, all) =
        dfs_scc-Explored dec edges prdg inside (suc (length prdg)) x vis top
          (omega (arith, unmarked-le-length dec vis prdg)) in
      (group, after, run, e)

  pub walk_inside : {x y : K} → elem dec x prdg ≡ true → Walk x y → elem dec y prdg ≡ true
  walk_inside top Reach.here = top
  walk_inside top (Reach.step {u} {v} w e) = inside u v (walk_inside top w) e

  module _ {root : K} {vec0 : List K} {marks : K → Bool} {after : K → Bool}
      (top : elem dec root prdg ≡ true) (f : Explored dec edges root marks vec0 after) where
    -- What `valid` says of a group: the root only, and those that lead back to it.
    abbrev pub Says : K → Bool → Type 0
    Says x b = b ≡ true → Walk x root

    pub reached_from : (x : K) → elem dec x vec0 ≡ true → Walk root x
    reached_from x h = Avoid-Reach dec edges (f.sound x h)

    contains_all-Says :
        (x : K) (group : List K) (v w : K → Bool)
        → Explored dec edges x v group w
        → Says x (contains_all dec vec0 group)
    contains_all-Says x group v w g c =
        Avoid-Reach dec edges (g.sound root (contains_all_sound dec vec0 group root c f.head))

    say_assign :
        (d : K) (b : Bool) (valid : K → Bool) (x : K)
        → Says d b
        → Says x (valid x)
        → Says x (assign dec valid d b x)
    say_assign d b valid x s h = elim (dec x d) [
      | yes at ↦
          let e : b ≡ assign dec valid d b x = ground (arith, dec x d) in
          let s' : Says x b = subst (λ z. Says z b) (sym at) s in subst (Says x) e s'
      | no other ↦
          let e : valid x ≡ assign dec valid d b x = ground (arith, dec x d) in subst (Says x) e h
    ]

    -- The root stays valid.
    assign_root :
        (d : K) (b : Bool) (valid : K → Bool)
        → (d ≡ root → b ≡ true)
        → valid root ≡ true
        → assign dec valid d b root ≡ true
    assign_root d b valid h k = elim (dec root d) [
      | yes at ↦ ground (arith, dec root d, h (sym at))
      | no other ↦ ground (arith, dec root d, k)
    ]

    pub check_members-Says :
        (vis : K → Bool) (ds : List K) (valid : K → Bool)
        → ((x : K) → elem dec x ds ≡ true → elem dec x vec0 ≡ true)
        → valid root ≡ true
        → ((x : K) → Says x (valid x))
        → (valid' : K → Bool) × (check_members dec prdg edges root vec0 ds vis valid ≡ ok valid')
          × (valid' root ≡ true)
          × ((x : K) → Says x (valid' x))
    unfolding check_members
    check_members-Says vis [] valid sub at_root says = (valid, refl, at_root, says)
    check_members-Says vis (d ∷ ds) valid sub at_root says = elim (Bool-cases (same dec d root)) [
      | inl at ↦
          let e : d ≡ root = ground (arith, dec d root, at) in
          let here : Says d true = λ _. subst (λ z. Walk z root) (sym e) Reach.here in
          let (valid', run, kept, all) =
            check_members-Says vis ds (assign dec valid d true)
              (λ x m. sub x (ground (arith, dec x d)))
              (assign_root d true valid (λ _. refl) at_root)
              (λ x. say_assign d true valid x here (says x)) in
          (valid', rw (at, check_members) run, kept, all)
      | inr other ↦
          let d_in = sub d (ground (arith, dec d d)) in
          let (group, w, ran, g) = search d vis (walk_inside top (reached_from d d_in)) in
          let b = contains_all dec vec0 group in
          let here = contains_all-Says d group (mark dec vis d) w g in
          let away = λ (e : d ≡ root). absurd (ground (arith, dec d root, other, e)) in
          let (valid', run, kept, all) =
            check_members-Says vis ds (assign dec valid d b)
              (λ x m. sub x (ground (arith, dec x d))) (assign_root d b valid away at_root)
              (λ x. say_assign d b valid x here (says x)) in
          (valid', rw (other, check_members, ran, ◌>>=◌) run, kept, all)
    ]
