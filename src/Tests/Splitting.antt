-- ===== src/Tests/Splitting.antt =====
-- The map of a copied block, and the theorem on it applied.
use llvm_loop_fission.Base.{◌≡◌, refl, [], ◌∷◌, none, some, arith, ℕ_discrete}
use llvm_loop_fission.Split.{map_insts}
use llvm_loop_fission.Split.Clones.{map_insts_lem}

map_insts_lem_example : map_insts (20 ∷ 21 ∷ 22 ∷ []) (0 ∷ 1 ∷ 2 ∷ []) (λ _. none) 21 ≡ some 1
unfolding ℕ_discrete
map_insts_lem_example =
    map_insts_lem (20 ∷ 21 ∷ 22 ∷ []) (0 ∷ 1 ∷ 2 ∷ []) (λ _. none) 1 21 (refl, (refl, (refl, tt)))
      (omega arith) refl
