-- ===== src/Dg/Memory.antt =====
-- The memory dependences that DG::buildDG records: the directions and the `memdaMap` test.
use llvm_loop_fission.Base.{
  ℕ, ◌≡◌, ◌≢◌, refl, ap, sym, ◌∙◌, Bool, true, false, ◌&&◌, ◌||◌, not, List, [], ◌∷◌, Option, none,
  some, arith, ◌==◌, if◌then◌else◌, ℕ_discrete, Distinct, Option-cases, inl, inr, Bool-cases, subst,
}
use llvm_loop_fission.Bp.Maps.{InstMapSet, mem, deps, mem-insert, deps-assign}
use llvm_loop_fission.Loops.{Llvm, Direction}
use llvm_loop_fission.Dg.{
  is_memory, add_direction, add_memory, add_users, sets_from, Maps, maps_from, build_maps,
}
use llvm_loop_fission.Dg.Laws.{next_maps}

-- Whether `y` stands behind the first `x` of a list.
abbrev pub comes_after : ℕ → ℕ → List ℕ → Bool
comes_after x y [] = false
comes_after x y (z ∷ zs) = if z == x then mem y zs else comes_after x y zs

-- What a direction asks for, given whether the opposite dependence has been recorded before.
abbrev pub wanted : Option Direction → Bool → Bool
wanted none opposite = false
wanted (some d) opposite = if d.lt then true else (if d.eq then not opposite else not d.gt)

module _ (llvm : Llvm) where
  open llvm use {kind, users, depends}

  -- A dependence that the code asks for: between two accesses of memory.
  abbrev pub direction : ℕ → ℕ → Option Direction
  direction src dst = if is_memory (kind dst) && is_memory (kind src) then depends src dst else none

  mem-add_direction :
      (d : Direction) (src dst : ℕ) (m : InstMapSet) (s : List ℕ) (y : ℕ)
      → mem y (add_direction llvm d src dst m s)
        ≡ (mem y s || ((y == dst) && wanted (some d) (mem src (deps m dst))))
  unfolding add_direction
  mem-add_direction d src dst m s y = ground (arith, mem-insert y dst s)

  mem-add_memory :
      (src dst : ℕ) (m : InstMapSet) (s : List ℕ) (y : ℕ)
      → mem y (add_memory llvm src dst m s)
        ≡ (mem y s || ((y == dst) && wanted (direction src dst) (mem src (deps m dst))))
  unfolding add_memory
  mem-add_memory src dst m s y = elim (Option-cases (depends src dst)) [
    | inl e ↦ ground (arith, e)
    | inr (d, e) ↦ ground (arith, e, mem-add_direction d src dst m s y)
  ]

  sets_from-wanted :
      (body : List ℕ) (src : ℕ) (m : InstMapSet) (ds s t : List ℕ) (y : ℕ)
      → mem y (sets_from llvm body src m ds s t).0 ≡ (
          mem y s
          || ((mem y ds && not (y == src)) && wanted (direction src y) (mem src (deps m y))))
  unfolding sets_from
  sets_from-wanted body src m [] s t y = ground arith
  sets_from-wanted body src m (d ∷ ds) s t y = elim (ℕ_discrete y d) [
    | yes at ↦ ground (
      arith,
      sets_from-wanted body src m ds s t y,
      sets_from-wanted body src m ds (add_memory llvm src d m s) (add_users llvm body (users src) t)
          y,
      mem-add_memory src d m s y,
      ap (λ z. wanted (direction src z) (mem src (deps m z))) at,
    )
    | no other ↦ ground (
      arith,
      sets_from-wanted body src m ds s t y,
      sets_from-wanted body src m ds (add_memory llvm src d m s) (add_users llvm body (users src) t)
          y,
      mem-add_memory src d m s y,
    )
  ]

  -- A round for other instructions leaves the entry of `x` alone.
  frozen :
      (body rest : List ℕ) (maps : Maps) (x : ℕ)
      → mem x rest ≡ false
      → deps (maps_from llvm body rest maps).memda_map x ≡ deps maps.memda_map x
  unfolding maps_from
  frozen body [] maps x out = refl
  frozen body (s ∷ rest) maps x out =
      let sets = sets_from llvm body s maps.memda_map body [] [] in
      frozen body rest (next_maps llvm body s maps) x (ground (arith, out))
      ∙ ground (arith, deps-assign maps.memda_map s sets.0 x, out)

  -- The entry of `x` in the final map answers, for `y`, to the order of the rounds `rest`.
  abbrev pub Answers : InstMapSet → List ℕ → List ℕ → ℕ → ℕ → Type 0
  Answers now body rest x y = mem y (deps now x) ≡ (
      (mem y body && not (y == x))
      && wanted (direction x y) (mem x (deps now y) && not (comes_after x y rest)))

  next-fresh :
      (body : List ℕ) (s : ℕ) (rest : List ℕ) (maps : Maps) (z : ℕ)
      → mem s rest ≡ false
      → (mem z (s ∷ rest) ≡ true → deps maps.memda_map z ≡ [])
      → mem z rest ≡ true
      → deps (next_maps llvm body s maps).memda_map z ≡ []
  next-fresh body s rest maps z out fresh at = elim (ℕ_discrete z s) [
    | yes same ↦ absurd (ground (arith, out, at, ap (λ w. mem w rest) same))
    | no other ↦ ground (
      arith,
      deps-assign maps.memda_map s (sets_from llvm body s maps.memda_map body [] []).0 z,
      fresh,
      at,
    )
  ]

  opposite-seen :
      (body : List ℕ) (s : ℕ) (rest : List ℕ) (maps : Maps) (y : ℕ)
      → y ≢ s
      → (mem y (s ∷ rest) ≡ true → deps maps.memda_map y ≡ [])
      → mem s (deps maps.memda_map y) ≡ (
          mem s (deps (maps_from llvm body rest (next_maps llvm body s maps)).memda_map y)
          && not (mem y rest))
  opposite-seen body s rest maps y other fresh = elim (Bool-cases (mem y rest)) [
    | inl at ↦ ground (arith, at, ap (mem s) (fresh (ground (arith, at))))
    | inr out ↦ ground (
      arith,
      out,
      other,
      ap (mem s) (frozen body rest (next_maps llvm body s maps) y out),
      ap (mem s)
          (deps-assign maps.memda_map s (sets_from llvm body s maps.memda_map body [] []).0 y),
    )
  ]

  first-wanted :
      (body : List ℕ) (s : ℕ) (rest : List ℕ) (maps : Maps) (y : ℕ)
      → mem s rest ≡ false
      → (mem y (s ∷ rest) ≡ true → deps maps.memda_map y ≡ [])
      → Answers
          (maps_from llvm body rest (next_maps llvm body s maps)).memda_map
          body
          (s ∷ rest)
          s
          y
  first-wanted body s rest maps y out fresh =
      let sets = sets_from llvm body s maps.memda_map body [] [] in
      let a = ap (mem y) (frozen body rest (next_maps llvm body s maps) s out) in
      let b = ap (mem y) (deps-assign maps.memda_map s sets.0 s) in
      let w = sets_from-wanted body s maps.memda_map body [] [] y in
      elim (ℕ_discrete y s) [
        | yes same ↦ ground (arith, a, b, w)
        | no other ↦ ground (
          arith,
          a,
          b,
          w,
          ap (wanted (direction s y)) (opposite-seen body s rest maps y other fresh),
        )
      ]

  maps_from-wanted :
      (body rest : List ℕ) (maps : Maps) (x y : ℕ)
      → Distinct ℕ_discrete rest
      → ((z : ℕ) → mem z rest ≡ true → deps maps.memda_map z ≡ [])
      → mem x rest ≡ true
      → Answers (maps_from llvm body rest maps).memda_map body rest x y
  unfolding maps_from
  maps_from-wanted body [] maps x y apart fresh at = absurd (ground (arith, at))
  maps_from-wanted body (s ∷ rest) maps x y apart fresh at = elim (ℕ_discrete x s) [
    | yes same ↦
        subst (λ z. Answers (maps_from llvm body (s ∷ rest) maps).memda_map body (s ∷ rest) z y)
          (sym same) (first-wanted body s rest maps y apart.0 (fresh y))
    | no other ↦
        let ih =
          maps_from-wanted body rest (next_maps llvm body s maps) x y apart.1
            (λ z. next-fresh body s rest maps z apart.0 (fresh z)) (ground (arith, at, other)) in
        ground (arith, ih, other)
  ]

  -- For distinct body instructions: `y` is in the memory entry of `x` exactly if it is another
  -- instruction of the body, and the code wants the dependence: both access memory and DA answers
  -- with LT, or with no direction at all, or with EQ and `y` stands behind `x` or has not itself
  -- recorded `x`.
  pub build_maps-memory :
      (body : List ℕ) (x y : ℕ)
      → Distinct ℕ_discrete body
      → mem x body ≡ true
      → Answers (build_maps llvm body).memda_map body body x y
  unfolding build_maps
  build_maps-memory body x y apart at = maps_from-wanted body body _ x y apart (λ z m. refl) at
