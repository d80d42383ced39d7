-- ===== src/Bp/Scc/Marks.antt =====
-- The lists and the two maps that one round of BP::build_scc works on.
use llvm_loop_fission.Base.{
  ◌≡◌, refl, ap, Bool, true, ◌||◌, ◌&&◌, List, [], ◌∷◌, arith, elem, mark, Distinct,
}
use llvm_loop_fission.Bp.Search.Spec.{Reach}
use llvm_loop_fission.Bp.Scc.{contains_all, take_valid, mark_all}

module _ {K : Type 0} (dec : Discrete K) where
  pub contains_all_complete :
      (xs ys : List K)
      → ((y : K) → elem dec y xs ≡ true → elem dec y ys ≡ true)
      → contains_all dec xs ys ≡ true
  contains_all_complete [] ys h = refl
  contains_all_complete (x ∷ xs) ys h =
      ground
        (arith, contains_all_complete xs ys (λ y m. h y (ground (arith, dec y x))), h x, dec x x)

  pub contains_all_sound :
      (xs ys : List K) (y : K)
      → contains_all dec xs ys ≡ true
      → elem dec y xs ≡ true
      → elem dec y ys ≡ true
  contains_all_sound [] ys y c h = cc
  contains_all_sound (x ∷ xs) ys y c h = elim (dec y x) [
    | yes at ↦ ground (arith, ap (λ z. elem dec z ys) at)
    | no other ↦ ground (arith, contains_all_sound xs ys y)
  ]

  pub elem-take_valid :
      (valid : K → Bool) (xs : List K) (x : K)
      → elem dec x (take_valid dec valid xs) ≡ (elem dec x xs && valid x)
  elem-take_valid valid [] x = refl
  elem-take_valid valid (a ∷ xs) x = elim (dec x a) [
    | yes at ↦ ground (arith, elem-take_valid valid xs x, ap valid at)
    | no other ↦ ground (arith, elem-take_valid valid xs x)
  ]

  pub take_valid-Distinct :
      (valid : K → Bool) (xs : List K) → Distinct dec xs → Distinct dec (take_valid dec valid xs)
  take_valid-Distinct valid [] d = tt
  take_valid-Distinct valid (a ∷ xs) d =
      ground (arith, elem-take_valid valid xs a, take_valid-Distinct valid xs d.1)

  pub mark_all_lem :
      (visited : K → Bool) (xs : List K) (x : K)
      → mark_all dec visited xs x ≡ (elem dec x xs || visited x)
  mark_all_lem visited [] x = refl
  mark_all_lem visited (a ∷ xs) x = ground (arith, mark_all_lem (mark dec visited a) xs x, dec x a)

  pub Reach-trans :
      {deps : K → List K} {u v w : K} → Reach dec deps u v → Reach dec deps v w → Reach dec deps u w
  Reach-trans r Reach.here = r
  Reach-trans r (Reach.step s e) = Reach.step (Reach-trans r s) e
