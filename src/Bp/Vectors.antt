-- ===== src/Bp/Vectors.antt =====
-- The ordered containers of include/BP.h whose items are groups of instructions: inst_vec_set
-- (std::set<inst_vec>) and inst_map_vec_set. Groups are compared item by item.
use mathlib.Core.Logic.{ite}
use llvm_loop_fission.Base.{
  ℕ, ◌≡◌, refl, Bool, true, false, List, [], ◌∷◌, arith, ℕ_discrete, ltb, if◌then◌else◌, elem,
}

unfoldable pub vec_discrete : Discrete (List ℕ)
vec_discrete [] [] = yes refl
vec_discrete [] (y ∷ ys) = no (λ e. cc)
vec_discrete (x ∷ xs) [] = no (λ e. cc)
vec_discrete (x ∷ xs) (y ∷ ys) = elim (ℕ_discrete x y) [
  | yes p ↦ elim (vec_discrete xs ys) [ yes q ↦ yes (cc) | no q ↦ no (λ e. q (cc)) ]
  | no p ↦ no (λ e. p (cc))
]

abbrev pub mem_vec : List ℕ → List (List ℕ) → Bool
mem_vec = elem vec_discrete

-- operator< of std::vector
pub vec_less : List ℕ → List ℕ → Bool
vec_less xs [] = false
vec_less [] (y ∷ ys) = true
vec_less (x ∷ xs) (y ∷ ys) = if ltb x y then true else (if ltb y x then false else vec_less xs ys)

-- std::set<inst_vec>::insert
pub insert_vec : List ℕ → List (List ℕ) → List (List ℕ)
unfolding vec_less
insert_vec v [] = v ∷ []
insert_vec v (w ∷ ws) =
    if vec_less v w then v ∷ w ∷ ws else (if vec_less w v then w ∷ insert_vec v ws else w ∷ ws)

abbrev pub VecMap : Type 0
VecMap = List ℕ → List (List ℕ)

-- `edges[first].insert(second)`
unfoldable pub insert_vec_edge : VecMap → List ℕ → List ℕ → VecMap
unfolding insert_vec
insert_vec_edge edges first second v =
    ite (vec_discrete v first) (insert_vec second (edges first)) (edges v)

-- Groups that neither precede one another are equal.
vec_less_antisymm : (v w : List ℕ) → vec_less v w ≡ false → vec_less w v ≡ false → v ≡ w
unfolding vec_less
vec_less_antisymm [] [] h k = refl
vec_less_antisymm [] (y ∷ ys) h k = cc
vec_less_antisymm (x ∷ xs) [] h k = cc
vec_less_antisymm (x ∷ xs) (y ∷ ys) h k = ground (arith, vec_less_antisymm xs ys)

pub mem-insert_vec :
    (a v : List ℕ) (ws : List (List ℕ))
    → mem_vec a (insert_vec v ws) ≡ ite (vec_discrete a v) true (mem_vec a ws)
unfolding insert_vec
mem-insert_vec a v [] = refl
mem-insert_vec a v (w ∷ ws) =
    ground (arith, mem-insert_vec a v ws, vec_less_antisymm v w, vec_discrete a v, vec_discrete a w)

pub mem-insert_vec_edge :
    (edges : VecMap) (first second x y : List ℕ)
    → mem_vec y (insert_vec_edge edges first second x)
      ≡ ite
          (vec_discrete x first)
          (ite (vec_discrete y second) true (mem_vec y (edges x)))
          (mem_vec y (edges x))
unfolding insert_vec_edge
mem-insert_vec_edge edges first second x y =
    ground (arith, mem-insert_vec y second (edges first), vec_discrete x first)
