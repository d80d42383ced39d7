-- ===== src/Bp/Search/Loop.antt =====
-- The loop of BP::dfs and BP::dfs_scc over the successors, and the fuel of the two searches.
use llvm_loop_fission.Base.{
  ℕ, zero, suc, ◌≤◌, ◌<◌, ◌≡◌, refl, true, false, List, [], ◌∷◌, ◌++◌, ok, arith, elem, mark,
  unmarked, unmarked_mono, unmarked-mark, Bool-cases, inl, inr, elem-append, Distinct-append,
  Result, ◌>>=◌, ap, subst,
}
use llvm_loop_fission.Bp.Search.{Visited, kept, explore, dfs, dfs_scc}
use llvm_loop_fission.Bp.Search.Erase.{elem-kept, kept-Distinct, erase_all-kept}
use llvm_loop_fission.Bp.Search.Spec.{Avoid, Avoid-step_left, Avoid-weaken, Fresh, Explored}

module _ {K : Type 0} (dec : Discrete K) (deps : K → List K) where
  module _ (start : K) (before : Visited K) where
    -- Only the start can come back in the group of a successor.
    shared :
        {group : List K} {vis after : Visited K} {inst : K} {new : List K}
        → Explored dec deps start before group vis
        → Fresh dec deps inst vis new after
        → (a : K) → elem dec a new ≡ true
        → elem dec a group ≡ true
        → a ≡ start
    shared e f a m n = elim (dec a start) [
      | yes same ↦ same
      | no other ↦ absurd (ground (arith, e.exact a other, f.exact a))
    ]

    absorb :
        {group : List K} {vis after : Visited K} {inst : K} {new : List K}
        → elem dec inst (deps start) ≡ true
        → vis inst ≡ false
        → Explored dec deps start before group vis
        → Fresh dec deps inst vis new after
        → Explored dec deps start before (group ++ kept dec new group) after
    absorb {group} {vis} {after} {inst} {new} dep unseen e f = record {
      distinct =
          Distinct-append dec group (kept dec new group) e.distinct
            (kept-Distinct dec new group f.distinct)
            (λ a m. ground (arith, elem-kept dec a new group));
      head = ground (arith, elem-append dec start group (kept dec new group), e.head);
      grow = λ x m. f.grow x (e.grow x m);
      exact = λ x other. ground (
        arith,
        elem-append dec x group (kept dec new group),
        elem-kept dec x new group,
        e.exact x other,
        f.exact x,
        f.grow x,
        e.grow x,
      );
      closed = λ x y other m d. ground (
        arith,
        elem-append dec x group (kept dec new group),
        elem-kept dec x new group,
        f.closed x y,
        f.grow y,
        e.closed x y,
      );
      sound = λ x m. elim (Bool-cases (elem dec x group)) [
        | inl old ↦ e.sound x old
        | inr new_one ↦ Avoid-step_left dec deps dep (ground (arith, e.grow inst)) (
            Avoid-weaken dec deps e.grow (
              f.sound x (
                ground (
                  arith,
                  elem-append dec x group (kept dec new group),
                  elem-kept dec x new group,
                ))))
      ];
    }

  module _ (nodes : List K)
      (inside : (x y : K)
        → elem dec x nodes ≡ true
        → elem dec y (deps x) ≡ true
        → elem dec y nodes ≡ true) where
    -- What the recursive call promises with `fuel` to spend.
    abbrev pub Calls : (K → Visited K → Result (List K × Visited K)) → ℕ → Type 0
    Calls rec fuel =
        (inst : K) (vis : Visited K)
        → vis inst ≡ false
        → elem dec inst nodes ≡ true
        → unmarked dec (mark dec vis inst) nodes < fuel
        → (new : List K) × (after : Visited K) × (rec inst (mark dec vis inst) ≡ ok (new, after))
          × Fresh dec deps inst vis new after

    explore_lem :
        (rec : K → Visited K → Result (List K × Visited K)) (fuel : ℕ)
        → Calls rec fuel
        → (start : K) (before : Visited K) (ds group : List K) (vis : Visited K)
        → ((y : K) → elem dec y ds ≡ true → elem dec y (deps start) ≡ true)
        → elem dec start nodes ≡ true
        → Explored dec deps start before group vis
        → unmarked dec vis nodes ≤ fuel
        → (group' : List K) × (after : Visited K) × (explore dec rec ds group vis
            ≡ ok (group', after))
          × Explored dec deps start before group' after
          × ((y : K) → elem dec y ds ≡ true → after y ≡ true)
          × ((y : K) → vis y ≡ true → after y ≡ true)
    unfolding explore
    explore_lem rec fuel calls start before [] group vis sub top e u =
        (group, vis, refl, e, λ y m. cc, λ y m. m)
    explore_lem rec fuel calls start before (i ∷ ds) group vis sub top e u =
        elim (Bool-cases (vis i)) [
          | inl old ↦
              let (group', after, run, e', all, grow) =
                explore_lem rec fuel calls start before ds group vis
                  (λ y m. sub y (ground (arith, dec y i))) top e u in
              (
                group',
                after,
                rw (old, explore) run,
                e',
                (λ y m. ground (arith, all y, grow i old, dec y i)),
                grow,
              )
          | inr new_one ↦
              let dep = sub i (ground (arith, dec i i)) in
              let (new, after1, call, f) =
                calls i vis new_one (inside start i top dep)
                  (omega (arith, unmarked-mark dec vis i nodes new_one (inside start i top dep))) in
              let erase = erase_all-kept dec start new group f.distinct (shared start before e f) in
              let (group', after, run, e', all, grow) =
                explore_lem rec fuel calls start before ds (group ++ kept dec new group) after1
                  (λ y m. sub y (ground (arith, dec y i))) top (absorb start before dep new_one e f)
                  (omega (arith, unmarked_mono dec vis after1 nodes f.grow)) in
              (
                group',
                after,
                rw (new_one, explore, call, ◌>>=◌, erase, ◌>>=◌) run,
                e',
                (λ y m. ground (arith, all y, grow i f.entered, dec y i)),
                (λ y m. grow y (f.grow y m)),
              )
        ]

  entry : (start : K) (before : Visited K) → Explored dec deps start before (start ∷ []) before
  entry start before = record {
    distinct = (refl, tt);
    head = ground (arith, dec start start);
    grow = λ x m. m;
    exact = λ x other. ground (arith, dec x start);
    closed = λ x y other m d. ground (arith, dec x start);
    sound = λ x m. elim (dec x start) [
      | yes same ↦ rw same Avoid.here
      | no other ↦ absurd (ground (arith, m))
    ];
  }

  -- A call whose start was marked for it is fresh when it returns.
  pub Explored-Fresh :
      {start : K} {vis before : Visited K} {group : List K} {after : Visited K}
      → vis start ≡ false
      → ((x : K) → before x ≡ mark dec vis start x)
      → Explored dec deps start before group after
      → ((y : K) → elem dec y (deps start) ≡ true → after y ≡ true)
      → Fresh dec deps start vis group after
  Explored-Fresh {start} {vis} {before} {group} {after} new same e all = record {
    distinct = e.distinct;
    entered = e.grow start (ground (arith, same start, dec start start));
    grow = λ x m. e.grow x (ground (arith, same x, dec x start));
    exact = λ x. elim (dec x start) [
      | yes at ↦ ground (
        arith,
        ap vis at,
        ap after at,
        ap (λ y. elem dec y group) at,
        e.grow start,
        e.head,
        same start,
        dec start start,
      )
      | no other ↦ ground (arith, e.exact x other, same x, dec x start)
    ];
    closed = λ x y m d. elim (dec x start) [
      | yes at ↦ all y (subst (λ z. elem dec y (deps z) ≡ true) at d)
      | no other ↦ e.closed x y other m d
    ];
    sound = λ x m. Avoid-weaken dec deps (λ y h. ground (arith, same y, dec y start)) (e.sound x m);
  }

  module _ (nodes : List K)
      (inside : (x y : K)
        → elem dec x nodes ≡ true
        → elem dec y (deps x) ≡ true
        → elem dec y nodes ≡ true) where
    -- BP::dfs from any start, marked or not, ends and meets its specification.
    pub dfs-Explored :
        (fuel : ℕ) (start : K) (vis : Visited K)
        → elem dec start nodes ≡ true
        → unmarked dec vis nodes < fuel
        → (group : List K) × (after : Visited K) × (dfs dec fuel deps start vis ≡ ok (group, after))
          × Explored dec deps start vis group after
          × ((y : K) → elem dec y (deps start) ≡ true → after y ≡ true)
    unfolding dfs
    dfs-Explored zero start vis top u = absurd (omega arith)
    dfs-Explored (suc f) start vis top u =
        let (group, after, run, e, all, grow) =
          explore_lem nodes inside (dfs dec f deps) f
            (λ inst v new i room.
              let (g, w, run, e, all) = dfs-Explored f inst (mark dec v inst) i room in
              (g, w, run, Explored-Fresh new (λ x. refl) e all))
            start vis (deps start) (start ∷ []) vis (λ y m. m) top (entry start vis)
            (omega arith) in
        (group, after, run, e, all)

    remark :
        (vis : Visited K) (inst x : K) → mark dec (mark dec vis inst) inst x ≡ mark dec vis inst x
    remark vis inst x = ground (arith, dec x inst)

    -- BP::dfs_scc marks its start first.
    pub dfs_scc-Explored :
        (fuel : ℕ) (start : K) (vis : Visited K)
        → elem dec start nodes ≡ true
        → unmarked dec vis nodes < fuel
        → (group : List K) × (after : Visited K) × (dfs_scc dec fuel deps start vis
            ≡ ok (group, after))
          × Explored dec deps start (mark dec vis start) group after
          × ((y : K) → elem dec y (deps start) ≡ true → after y ≡ true)
    unfolding dfs_scc
    dfs_scc-Explored zero start vis top u = absurd (omega arith)
    dfs_scc-Explored (suc f) start vis top u =
        let marked = mark dec vis start in
        let (group, after, run, e, all, grow) =
          explore_lem nodes inside (dfs_scc dec f deps) f
            (λ inst v new i room.
              let (g, w, run, e, all) = dfs_scc-Explored f inst (mark dec v inst) i room in
              (g, w, run, Explored-Fresh new (remark v inst) e all))
            start marked (deps start) (start ∷ []) marked (λ y m. m) top (entry start marked)
            (omega (
              arith,
              unmarked_mono dec vis marked nodes (λ x m. ground (arith, m, dec x start)),
            )) in
        (group, after, run, e, all)
