-- ===== src/Bp/Heuristic/Best.antt =====
-- The loop of BP::check_partition that looks for the best score.
use llvm_loop_fission.Base.{
  ℕ, zero, suc, ◌+◌, ◌≡◌, refl, ap, sym, ◌∙◌, subst, true, false, List, [], ◌∷◌, some, arith,
  get_elem?, Bool-cases, inl, inr, ◌⊎◌,
}
use llvm_loop_fission.Bp.Heuristic.{Doubles, best_from, best_plan}

-- What `<` on `double` satisfies where no value is NaN.
pub record IsStrictOrder (d : Doubles) : Type 0 where
  pub irreflexive : (a : d.Double) → d.less a a ≡ false
  pub transitive : (a b c : d.Double) → d.less a b ≡ true → d.less b c ≡ true → d.less a c ≡ true

module _ (d : Doubles) (order : IsStrictOrder d) where
  open d use {Double, less}

  -- What the loop returns, from the plan `i` with the scores `ss` on: the place of the score `r`,
  -- which is `min_score` or one that is less.
  record Found (i min : ℕ) (min_score : Double) (ss : List Double) (best : ℕ) : Type 0 where
    r : Double
    place :
        ((best ≡ min) × (r ≡ min_score))
        ⊎ ((j : ℕ) × (best ≡ i + j) × (get_elem? ss j ≡ some r) × (less r min_score ≡ true))
    least : (j : ℕ) (s : Double) → get_elem? ss j ≡ some s → less s r ≡ false

  -- A score that is not below the best so far is not below the result.
  not_below :
      {i min best : ℕ} {m s : Double} {ss : List Double}
      → less s m ≡ false
      → (f : Found i min m ss best) → less s f.r ≡ false
  not_below {m = m} {s = s} h f = elim f.place [
    | inl (_, e) ↦ subst (λ z. less s z ≡ false) (sym e) h
    | inr (_, _, _, lower) ↦ ground (arith, order.transitive s f.r m)
  ]

  best_from-Found :
      (ss : List Double) (i min : ℕ) (m : Double) → Found i min m ss (best_from d i min m ss)
  unfolding best_from
  best_from-Found [] i min m = record { r = m; place = inl (refl, refl); least = λ j s h. cc }
  best_from-Found (s ∷ ss) i min m = elim (Bool-cases (less s m)) [
    | inl lower ↦
        let f = best_from-Found ss (suc i) i s in
        rw (lower, best_from)
          (record {
            r = f.r;
            place = inr (elim f.place [
              | inl (e, at) ↦ (
                0,
                e ∙ omega arith,
                ap some (sym at),
                subst (λ z. less z m ≡ true) (sym at) lower,
              )
              | inr (j, e, g, l) ↦ (suc j, e ∙ omega arith, g, order.transitive f.r s m l lower)
            ]);
            least = elim [
              | zero ↦ λ t h.
                  subst (λ z. less z f.r ≡ false) (ground (arith, h))
                    (not_below (order.irreflexive s) f)
              | suc j ↦ λ t h. f.least j t h
            ];
          })
    | inr higher ↦
        let f = best_from-Found ss (suc i) min m in
        rw (higher, best_from)
          (record {
            r = f.r;
            place = elim f.place [
              | inl p ↦ inl p
              | inr (j, e, g, l) ↦ inr (suc j, e ∙ omega arith, g, l)
            ];
            least = elim [
              | zero ↦
                  λ t h. subst (λ z. less z f.r ≡ false) (ground (arith, h)) (not_below higher f)
              | suc j ↦ λ t h. f.least j t h
            ];
          })
  ]

  -- Where the scores are ordered, BP::check_partition takes a plan of the least score: no plan has
  -- a score below that of the plan it takes.
  pub best_plan_least :
      (s : Double) (ss : List Double)
      → (r : Double) × (get_elem? (s ∷ ss) (best_plan d (s ∷ ss)) ≡ some r)
        × ((j : ℕ) (t : Double) → get_elem? (s ∷ ss) j ≡ some t → less t r ≡ false)
  unfolding best_plan
  best_plan_least s ss =
      let f = best_from-Found (s ∷ ss) 0 0 s in
      (
        f.r,
        elim f.place [
          | inl (e, at) ↦ ap (get_elem? (s ∷ ss)) e ∙ ap some (sym at)
          | inr (j, e, g, _) ↦ ap (get_elem? (s ∷ ss)) (e ∙ omega arith) ∙ g
        ],
        f.least,
      )
