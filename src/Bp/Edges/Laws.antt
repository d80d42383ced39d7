-- ===== src/Bp/Edges/Laws.antt =====
-- BP::find_edges and the dependences between groups.
use mathlib.Core.List.{flatten}
use llvm_loop_fission.Base.{
  ℕ, ◌≡◌, refl, ap, sym, ◌∙◌, subst, true, List, [], ◌∷◌, ok, ◌>>=◌, arith, inl, inr, ◌⊎◌, ◌↔◌,
  Distinct, ℕ_discrete, List-cases,
}
use llvm_loop_fission.Bp.Maps.{InstMapSet, mem, deps, has, has-deps, IsGraph}
use llvm_loop_fission.Bp.Partition.Loop.{mem-keys}
use llvm_loop_fission.Bp.Partition.{keys}
use llvm_loop_fission.Bp.Vectors.{
  VecMap, mem_vec, vec_discrete, insert_vec_edge, mem-insert_vec_edge,
}
use llvm_loop_fission.Bp.Edges.Find.{find_prdg_lem, find_prdg_unique}
use llvm_loop_fission.Bp.Edges.{find_prdg, edges_to, edges_from, find_edges}

insert_vec_edge_iff :
    (edges : VecMap) (first second x y : List ℕ)
    → (mem_vec y (insert_vec_edge edges first second x) ≡ true)
      ↔ ((mem_vec y (edges x) ≡ true) ⊎ ((x ≡ first) × (y ≡ second)))
insert_vec_edge_iff edges first second x y = (
  λ h. ground (
    arith,
    mem-insert_vec_edge edges first second x y,
    vec_discrete x first,
    vec_discrete y second,
    h,
  ),
  λ h. ground (
    arith,
    mem-insert_vec_edge edges first second x y,
    vec_discrete x first,
    vec_discrete y second,
    h,
  ),
)

module _ (prdg : List (List ℕ)) where
  -- An edge out of `first` that some item of `ds` calls for.
  abbrev Into : List ℕ → List ℕ → List ℕ → List ℕ → Type 0
  Into first ds x y = (x ≡ first) × ((b : ℕ) × (mem b ds ≡ true) × (find_prdg b prdg ≡ ok y))

  edges_to_lem :
      (first ds : List ℕ) (edges : VecMap)
      → ((b : ℕ) → mem b ds ≡ true → mem b (flatten prdg) ≡ true)
      → (edges' : VecMap) × (edges_to prdg first ds edges ≡ ok edges')
        × ((x y : List ℕ)
            → (mem_vec y (edges' x) ≡ true) ↔ ((mem_vec y (edges x) ≡ true) ⊎ Into first ds x y))
  unfolding edges_to
  edges_to_lem first [] edges known = (
    edges,
    refl,
    λ x y. (inl, λ h. elim h [ inl m ↦ m | inr (_, (_, m, _)) ↦ absurd (ground (arith, m)) ]),
  )
  edges_to_lem first (d ∷ ds) edges known =
      let (second, run1, _, _) = find_prdg_lem d prdg (known d (ground (arith, ℕ_discrete d d))) in
      let more = insert_vec_edge edges first second in
      let (edges', run, iff) =
        edges_to_lem first ds more (λ b m. known b (ground (arith, ℕ_discrete b d))) in
      (
        edges',
        rw (run1, ◌>>=◌) run,
        λ x y. (
          λ h. elim ((iff x y).0 h) [
            | inl m ↦ elim ((insert_vec_edge_iff edges first second x y).0 m) [
              | inl old ↦ inl old
              | inr (at, to) ↦ inr (at, (d, ground (arith, ℕ_discrete d d), run1 ∙ ap ok (sym to)))
            ]
            | inr (at, (b, m, f)) ↦ inr (at, (b, ground (arith, m, ℕ_discrete b d), f))
          ],
          λ h. elim h [
            | inl old ↦ (iff x y).1 (inl ((insert_vec_edge_iff edges first second x y).1 (inl old)))
            | inr (at, (b, m, f)) ↦ elim (ℕ_discrete b d) [
              | yes e ↦
                  let to : y ≡ second = cc (f, run1, ap (λ z. find_prdg z prdg) e) in
                  (iff x y).1 (inl ((insert_vec_edge_iff edges first second x y).1 (inr (at, to))))
              | no other ↦ (iff x y).1 (inr (at, (b, ground (arith, m), f)))
            ]
          ],
        ),
      )

  -- An edge that a memory dependence of a key among `ks` calls for.
  abbrev pub Calls : InstMapSet → List ℕ → List ℕ → List ℕ → Type 0
  Calls m ks x y =
      (a : ℕ) × (b : ℕ) × (mem a ks ≡ true)
      × (mem b (deps m a) ≡ true)
      × (find_prdg a prdg ≡ ok x)
      × (find_prdg b prdg ≡ ok y)

  -- The calls of one more key.
  Calls-cons :
      (m : InstMapSet) (k : ℕ) (ks first x y : List ℕ)
      → find_prdg k prdg ≡ ok first
      → Calls m (k ∷ ks) x y ↔ (Into first (deps m k) x y ⊎ Calls m ks x y)
  Calls-cons m k ks first x y run = (
    λ (a, b, i, j, f, g). elim (ℕ_discrete a k) [
      | yes e ↦ inl (
        cc (f, run, ap (λ z. find_prdg z prdg) e),
        (b, subst (λ z. mem b (deps m z) ≡ true) e j, g),
      )
      | no other ↦ inr (a, b, ground (arith, i), j, f, g)
    ],
    λ h. elim h [
      | inl (at, (b, j, g)) ↦ (k, b, ground (arith, ℕ_discrete k k), j, run ∙ ap ok (sym at), g)
      | inr (a, b, i, j, f, g) ↦ (a, b, ground (arith, i, ℕ_discrete a k), j, f, g)
    ],
  )

  edges_from_lem :
      (m : InstMapSet) (ks : List ℕ) (edges : VecMap)
      → ((a b : ℕ) → mem b (deps m a) ≡ true → mem a (flatten prdg) ≡ true)
      → ((a b : ℕ) → mem b (deps m a) ≡ true → mem b (flatten prdg) ≡ true)
      → (edges' : VecMap) × (edges_from prdg m ks edges ≡ ok edges')
        × ((x y : List ℕ)
            → (mem_vec y (edges' x) ≡ true) ↔ ((mem_vec y (edges x) ≡ true) ⊎ Calls m ks x y))
  unfolding edges_from
  edges_from_lem m [] edges from to = (
    edges,
    refl,
    λ x y. (inl, λ h. elim h [ inl e ↦ e | inr (_, _, k, _, _, _) ↦ absurd (ground (arith, k)) ]),
  )
  edges_from_lem m (k ∷ ks) edges from to = elim (List-cases (deps m k)) [
    | inl none_there ↦
        let (edges', run, iff) = edges_from_lem m ks edges from to in
        (
          edges',
          rw (none_there, edges_from) run,
          λ x y. (
            λ h. elim ((iff x y).0 h) [
              | inl old ↦ inl old
              | inr (a, b, i, j, f, g) ↦ inr (a, b, ground (arith, i, ℕ_discrete a k), j, f, g)
            ],
            λ h. elim h [
              | inl old ↦ (iff x y).1 (inl old)
              | inr (a, b, i, j, f, g) ↦ elim (ℕ_discrete a k) [
                | yes e ↦
                    absurd (ground (arith, j, ap (λ z. mem b (deps m z)) e, ap (mem b) none_there))
                | no other ↦ (iff x y).1 (inr (a, b, ground (arith, i), j, f, g))
              ]
            ],
          ),
        )
    | inr (d, ds, e) ↦
        let known = from k d (ground (arith, ap (mem d) e, ℕ_discrete d d)) in
        let (first, run1, _, _) = find_prdg_lem k prdg known in
        let (mid, run2, iff2) = edges_to_lem first (deps m k) edges (λ b. to k b) in
        let (edges', run, iff) = edges_from_lem m ks mid from to in
        (
          edges',
          rw (e, edges_from, run1, ◌>>=◌, run2, ◌>>=◌) run,
          λ x y.
              let one = Calls-cons m k ks first x y run1 in
              (
                λ h. elim ((iff x y).0 h) [
                  | inl m' ↦ elim ((iff2 x y).0 m') [
                    | inl old ↦ inl old
                    | inr c ↦ inr (one.1 (inl c))
                  ]
                  | inr c ↦ inr (one.1 (inr c))
                ],
                λ h. elim h [
                  | inl old ↦ (iff x y).1 (inl ((iff2 x y).1 (inl old)))
                  | inr c ↦ elim (one.0 c) [
                    | inl now ↦ (iff x y).1 (inl ((iff2 x y).1 (inr now)))
                    | inr later ↦ (iff x y).1 (inr later)
                  ]
                ],
              ),
        )
  ]

-- The memory dependences that lead from one group to another.
abbrev pub Depends : InstMapSet → List ℕ → List ℕ → Type 0
Depends m p q = (a : ℕ) × (b : ℕ) × (mem a p ≡ true) × (mem b q ≡ true) × (mem b (deps m a) ≡ true)

-- On a graph whose keys are all in the groups, where no instruction is in two places of the
-- groups: BP::find_edges never runs off the end of BP::find_prdg, and it draws an edge from a list
-- to a list exactly when both are groups and an instruction of the one has a dependence on one of
-- the other.
pub find_edges_lem :
    (n : ℕ) (prdg : List (List ℕ)) (m : InstMapSet)
    → IsGraph n m
    → Distinct ℕ_discrete (flatten prdg)
    → ((x : ℕ) → has m x ≡ true → mem x (flatten prdg) ≡ true)
    → (edges : VecMap) × (find_edges n prdg m ≡ ok edges)
      × ((p q : List ℕ)
          → (mem_vec q (edges p) ≡ true)
            ↔ ((mem_vec p prdg ≡ true) × (mem_vec q prdg ≡ true) × Depends m p q))
unfolding find_edges
find_edges_lem n prdg m g d covered =
    let (edges, run, iff) =
      edges_from_lem prdg m (keys n m) (λ _. []) (λ a b h. covered a (has-deps m a b h))
        (λ a b h. covered b (g.inside a b h)) in
    (
      edges,
      run,
      λ p q. (
        λ h. elim ((iff p q).0 h) [
          | inl e ↦ cc
          | inr (a, b, i, j, f1, f2) ↦
              let (r1, e1, m1, v1) = find_prdg_lem a prdg (covered a (has-deps m a b j)) in
              let (r2, e2, m2, v2) = find_prdg_lem b prdg (covered b (g.inside a b j)) in
              let p1 : r1 ≡ p = cc (e1, f1) in
              let p2 : r2 ≡ q = cc (e2, f2) in
              (
                subst (λ z. mem_vec z prdg ≡ true) p1 v1,
                subst (λ z. mem_vec z prdg ≡ true) p2 v2,
                (a, b, subst (λ z. mem a z ≡ true) p1 m1, subst (λ z. mem b z ≡ true) p2 m2, j),
              )
        ],
        λ (vp, vq, (a, b, ap, bq, j)). (iff p q).1 (
            inr (
              a,
              b,
              mem-keys a n m g ∙ has-deps m a b j,
              j,
              find_prdg_unique a p prdg d vp ap,
              find_prdg_unique b q prdg d vq bq,
            )),
      ),
    )
