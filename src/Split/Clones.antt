-- ===== src/Split/Clones.antt =====
-- What CreateOneLoop of splitpass2.cpp puts in `instMap`.
use llvm_loop_fission.Base.{
  ℕ, zero, suc, ◌≤◌, ◌≡◌, refl, ap, sym, ◌∙◌, false, List, [], ◌∷◌, Option, some, length, get_elem?,
  arith, ℕ_discrete, Distinct, ◌==◌, if◌then◌else◌,
}
use llvm_loop_fission.Bp.Maps.{mem}
use llvm_loop_fission.Split.{map_insts}

map_insts_other :
    (new old : List ℕ) (inst_map : ℕ → Option ℕ) (n : ℕ)
    → mem n new ≡ false
    → map_insts new old inst_map n ≡ inst_map n
unfolding map_insts
map_insts_other [] old inst_map n h = refl
map_insts_other (i ∷ new) [] inst_map n h = refl
map_insts_other (i ∷ new) (o ∷ old) inst_map n h =
    map_insts_other new old (λ j. if j == i then some o else inst_map j) n (ground (arith, h))
    ∙ ground (arith, h, ℕ_discrete n i)

-- For a copied block whose instructions are distinct and no more than those of its source: the map
-- sends its instruction at a place to the source's instruction at that place.
pub map_insts_lem :
    (new old : List ℕ) (inst_map : ℕ → Option ℕ) (place n : ℕ)
    → Distinct ℕ_discrete new
    → length new ≤ length old
    → get_elem? new place ≡ some n
    → map_insts new old inst_map n ≡ get_elem? old place
unfolding map_insts
map_insts_lem [] old inst_map place n d h g = cc
map_insts_lem (i ∷ new) [] inst_map place n d h g = absurd (omega (arith, h))
map_insts_lem (i ∷ new) (o ∷ old) inst_map zero n d h g =
    let at : i ≡ n = ground (arith, g) in
    map_insts_other new old (λ j. if j == i then some o else inst_map j) n
      (ap (λ z. mem z new) (sym at) ∙ d.0)
    ∙ ground (arith, at)
map_insts_lem (i ∷ new) (o ∷ old) inst_map (suc place) n d h g =
    map_insts_lem new old (λ j. if j == i then some o else inst_map j) place n d.1
      (omega (arith, h)) g
