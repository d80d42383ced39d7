-- ===== src/Bp/Search/Erase.antt =====
-- The removal of duplicates in BP::dfs and BP::dfs_scc: when it is defined, and what it leaves.
use llvm_loop_fission.Base.{
  ◌≡◌, refl, true, false, not, ◌&&◌, List, [], ◌∷◌, ok, arith, elem, Distinct, Bool-cases, ◌⊎◌, inl,
  inr,
}
use llvm_loop_fission.Bp.Search.{to_remove, kept, erase_all}

module _ {K : Type 0} (dec : Discrete K) where
  pub elem-kept :
      (a : K) (xs group : List K)
      → elem dec a (kept dec xs group) ≡ (elem dec a xs && not (elem dec a group))
  elem-kept a [] group = refl
  elem-kept a (x ∷ xs) group = ground (arith, elem-kept a xs group, dec a x)

  pub kept-Distinct : (xs group : List K) → Distinct dec xs → Distinct dec (kept dec xs group)
  kept-Distinct [] group d = tt
  kept-Distinct (x ∷ xs) group d = ground (arith, elem-kept x xs group, kept-Distinct xs group d.1)

  to_remove-nil :
      (xs group : List K)
      → ((a : K) → elem dec a xs ≡ true → elem dec a group ≡ false)
      → (to_remove dec xs group ≡ []) × (kept dec xs group ≡ xs)
  to_remove-nil [] group h = (refl, refl)
  to_remove-nil (x ∷ xs) group h =
      let none_left = to_remove-nil xs group (λ a m. ground (arith, h a, dec a x)) in
      ground (arith, none_left, h x, dec x x)

  at_most_one :
      (s : K) (xs group : List K)
      → Distinct dec xs
      → ((a : K) → elem dec a xs ≡ true → elem dec a group ≡ true → a ≡ s)
      → ((to_remove dec xs group ≡ []) × (kept dec xs group ≡ xs))
        ⊎ ((a : K) × (to_remove dec xs group ≡ a ∷ []))
  at_most_one s [] group d h = inl (refl, refl)
  at_most_one s (x ∷ xs) group d h = elim (Bool-cases (elem dec x group)) [
    | inl dup ↦
        let rest =
          to_remove-nil xs group (λ a m. ground (arith, h a, h x, dec a x, dec x x, d.0)) in
        inr (x, ground (arith, rest))
    | inr new ↦ ground (arith, at_most_one s xs group d.1 (λ a m. ground (arith, h a, dec a x)))
  ]

  -- If only one item can be in both lists, at most one iterator is erased.
  pub erase_all-kept :
      (s : K) (xs group : List K)
      → Distinct dec xs
      → ((a : K) → elem dec a xs ≡ true → elem dec a group ≡ true → a ≡ s)
      → erase_all dec xs group ≡ ok (kept dec xs group)
  unfolding erase_all
  erase_all-kept s xs group d h = ground (arith, at_most_one s xs group d h)
