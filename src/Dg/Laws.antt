-- ===== src/Dg/Laws.antt =====
-- The register dependences that DG::buildDG records, and the keys of its two maps.
use llvm_loop_fission.Base.{
  ℕ, ◌≡◌, refl, ap, ◌∙◌, Bool, true, false, ◌&&◌, ◌||◌, not, List, [], ◌∷◌, Option, none, some,
  arith, ◌==◌, if◌then◌else◌, ℕ_discrete, ◌<◌,
}
use llvm_loop_fission.Bp.Maps.{
  InstMapSet, mem, insert, deps, has, assign, mem-insert, has-assign, deps-assign, IsGraph,
}
use llvm_loop_fission.Loops.{Llvm}
use llvm_loop_fission.Dg.{add_users, add_memory, sets_from, Maps, maps_from, build_maps}

-- Whether the instruction is among the users of a value.
abbrev pub is_user : ℕ → List (Option ℕ) → Bool
is_user y [] = false
is_user y (none ∷ us) = is_user y us
is_user y (some u ∷ us) = (y == u) || is_user y us

-- Whether some instruction of the list is another one.
abbrev pub has_other : ℕ → List ℕ → Bool
has_other x [] = false
has_other x (y ∷ ys) = not (y == x) || has_other x ys

module _ (llvm : Llvm) where
  open llvm use {kind, users, depends}

  mem-add_users :
      (body : List ℕ) (us : List (Option ℕ)) (s : List ℕ) (y : ℕ)
      → mem y (add_users llvm body us s) ≡ (mem y s || (mem y body && is_user y us))
  unfolding add_users
  mem-add_users body [] s y = ground arith
  mem-add_users body (none ∷ us) s y = mem-add_users body us s y
  mem-add_users body (some u ∷ us) s y = elim (ℕ_discrete y u) [
    | yes at ↦ ground (
      arith,
      mem-add_users body us (insert u s) y,
      mem-add_users body us s y,
      mem-insert y u s,
      ap (λ z. mem z body) at,
    )
    | no other ↦
        ground
          (arith, mem-add_users body us (insert u s) y, mem-add_users body us s y, mem-insert y u s)
  ]

  -- The users of `src` that count as its dependences.
  abbrev pub uses_in : List ℕ → ℕ → ℕ → Bool
  uses_in body src y = mem y body && is_user y (users src)

  sets_from-users :
      (body : List ℕ) (src : ℕ) (m : InstMapSet) (ds s t : List ℕ) (y : ℕ)
      → mem y (sets_from llvm body src m ds s t).1
        ≡ (mem y t || (has_other src ds && uses_in body src y))
  unfolding sets_from
  sets_from-users body src m [] s t y = ground arith
  sets_from-users body src m (d ∷ ds) s t y = ground (
    arith,
    sets_from-users body src m ds s t y,
    sets_from-users body src m ds (add_memory llvm src d m s) (add_users llvm body (users src) t) y,
    mem-add_users body (users src) t y,
  )

  -- One round of the loop over `SrcI`.
  abbrev pub next_maps : List ℕ → ℕ → Maps → Maps
  next_maps body src maps =
      let sets = sets_from llvm body src maps.memda_map body [] [] in
      record {
        memda_map = assign maps.memda_map src sets.0;
        regda_map = assign maps.regda_map src sets.1;
      }

  maps_from-keys :
      (body rest : List ℕ) (maps : Maps) (x : ℕ)
      → (has (maps_from llvm body rest maps).regda_map x ≡ (has maps.regda_map x || mem x rest))
        × (has (maps_from llvm body rest maps).memda_map x ≡ (has maps.memda_map x || mem x rest))
  unfolding maps_from
  maps_from-keys body [] maps x = ground arith
  maps_from-keys body (s ∷ rest) maps x =
      let sets = sets_from llvm body s maps.memda_map body [] [] in
      let ih = maps_from-keys body rest (next_maps body s maps) x in
      let a = has-assign maps.regda_map s sets.1 x in
      let b = has-assign maps.memda_map s sets.0 x in
      (ground (arith, ih.0, a, ℕ_discrete x s), ground (arith, ih.1, b, ℕ_discrete x s))

  maps_from-uses :
      (body rest : List ℕ) (maps : Maps) (x y : ℕ)
      → mem y (deps (maps_from llvm body rest maps).regda_map x) ≡ (
          if mem x rest
          then has_other x body && uses_in body x y
          else mem y (deps maps.regda_map x))
  unfolding maps_from
  maps_from-uses body [] maps x y = refl
  maps_from-uses body (s ∷ rest) maps x y =
      let sets = sets_from llvm body s maps.memda_map body [] [] in
      let ih = maps_from-uses body rest (next_maps body s maps) x y in
      let a = ap (mem y) (deps-assign maps.regda_map s sets.1 x) in
      let w = sets_from-users body s maps.memda_map body [] [] y in
      elim (ℕ_discrete x s) [
        | yes at ↦ ih ∙ ground (arith, a, w, ap (λ z. has_other z body && uses_in body z y) at)
        | no other ↦ ih ∙ ground (arith, a)
      ]

  pub build_maps-keys :
      (body : List ℕ) (x : ℕ)
      → (has (build_maps llvm body).regda_map x ≡ mem x body)
        × (has (build_maps llvm body).memda_map x ≡ mem x body)
  unfolding build_maps
  build_maps-keys body x = maps_from-keys body body _ x

  -- Of any body: the register entry of `x` holds exactly the instructions of the body that use `x`,
  -- if `x` is in the body together with some other instruction; otherwise the entry is empty.
  pub build_maps-uses :
      (body : List ℕ) (x y : ℕ)
      → mem y (deps (build_maps llvm body).regda_map x)
        ≡ (mem x body && (has_other x body && uses_in body x y))
  unfolding build_maps
  build_maps-uses body x y = maps_from-uses body body _ x y ∙ ground arith

  -- What buildDG passes on to the partitioning: both maps are graphs on the body's instructions.
  pub build_maps-uses-IsGraph :
      (n : ℕ) (body : List ℕ)
      → ((x : ℕ) → mem x body ≡ true → x < n)
      → IsGraph n (build_maps llvm body).regda_map
  build_maps-uses-IsGraph n body below = record {
    bounded = λ a e. below a (ground (arith, (build_maps-keys body a).0, e));
    inside = λ a b e. ground (arith, build_maps-uses body a b, e, (build_maps-keys body b).0);
  }
