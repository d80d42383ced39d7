-- ===== src/Bp/Maps.antt =====
-- The containers of include/BP.h and include/DG.h. An Instruction* is a number, in the order of the
-- addresses; an inst_set (std::set) is the list of its items in that order; an inst_map_set
-- (std::map) gives for a key its set. A loop over a map goes through its keys below a number `n`,
-- in their order, where every instruction of the loop is below `n`.
use llvm_loop_fission.Base.{
  ℕ, ◌<◌, ◌≡◌, refl, Bool, true, false, ◌||◌, List, [], ◌∷◌, Option, none, some, arith, elem,
  ℕ_discrete, ltb, ◌==◌, if◌then◌else◌, ◌&&◌,
}

abbrev pub Instruction : Type 0
Instruction = ℕ

abbrev pub mem : ℕ → List ℕ → Bool
mem = elem ℕ_discrete

-- std::set::insert
pub insert : ℕ → List ℕ → List ℕ
insert a [] = a ∷ []
insert a (x ∷ xs) = if ltb a x then a ∷ x ∷ xs else (if a == x then x ∷ xs else x ∷ insert a xs)

abbrev pub InstMapSet : Type 0
InstMapSet = ℕ → Option (List ℕ)

-- What `map[inst]` reads; a missing key reads as the empty set.
abbrev pub set_of : Option (List ℕ) → List ℕ
set_of none = []
set_of (some s) = s

abbrev pub is_key : Option (List ℕ) → Bool
is_key none = false
is_key (some s) = true

abbrev pub deps : InstMapSet → ℕ → List ℕ
deps m k = set_of (m k)

abbrev pub has : InstMapSet → ℕ → Bool
has m k = is_key (m k)

-- `map[inst].insert(src)`
unfoldable pub insert_edge : InstMapSet → ℕ → ℕ → InstMapSet
unfolding insert
insert_edge m inst src k = if k == inst then some (insert src (deps m inst)) else m k

pub mem-insert : (b a : ℕ) (xs : List ℕ) → mem b (insert a xs) ≡ ((b == a) || mem b xs)
unfolding insert
mem-insert b a [] = ground (arith, ℕ_discrete b a)
mem-insert b a (x ∷ xs) = ground (arith, mem-insert b a xs, ℕ_discrete b x, ℕ_discrete b a)

set_of-if :
    (b : Bool) (s : List ℕ) (o : Option (List ℕ))
    → set_of (if b then some s else o) ≡ (if b then s else set_of o)
set_of-if true s o = refl
set_of-if false s o = refl

is_key-if :
    (b : Bool) (s : List ℕ) (o : Option (List ℕ))
    → is_key (if b then some s else o) ≡ (b || is_key o)
is_key-if true s o = refl
is_key-if false s o = refl

-- `map[inst] = set`
unfoldable pub assign : InstMapSet → ℕ → List ℕ → InstMapSet
assign m inst s k = if k == inst then some s else m k

pub has-assign :
    (m : InstMapSet) (inst : ℕ) (s : List ℕ) (x : ℕ)
    → has (assign m inst s) x ≡ ((x == inst) || has m x)
unfolding assign
has-assign m inst s x = is_key-if (x == inst) s (m x)

pub deps-assign :
    (m : InstMapSet) (inst : ℕ) (s : List ℕ) (x : ℕ)
    → deps (assign m inst s) x ≡ (if x == inst then s else deps m x)
unfolding assign
deps-assign m inst s x = set_of-if (x == inst) s (m x)

pub has-insert_edge :
    (m : InstMapSet) (inst src x : ℕ) → has (insert_edge m inst src) x ≡ ((x == inst) || has m x)
unfolding insert_edge
has-insert_edge m inst src x = is_key-if (x == inst) (insert src (deps m inst)) (m x)

deps-insert_edge :
    (m : InstMapSet) (inst src x : ℕ)
    → deps (insert_edge m inst src) x ≡ (if x == inst then insert src (deps m inst) else deps m x)
unfolding insert_edge
deps-insert_edge m inst src x = set_of-if (x == inst) (insert src (deps m inst)) (m x)

pub mem-insert_edge :
    (m : InstMapSet) (inst src x y : ℕ)
    → mem y (deps (insert_edge m inst src) x) ≡ (mem y (deps m x) || ((y == src) && (x == inst)))
mem-insert_edge m inst src x y = elim (ℕ_discrete x inst) [
  | yes at ↦ rw (deps-insert_edge m inst src x, at) (ground (arith, mem-insert y src (deps m inst)))
  | no other ↦ rw (deps-insert_edge m inst src x) (ground arith)
]

-- A map whose keys all lie below `n`, and whose sets name keys only: what DG hands over.
pub record IsGraph (n : ℕ) (m : InstMapSet) : Type 0 where
  pub bounded : (k : ℕ) → has m k ≡ true → k < n
  pub inside : (a b : ℕ) → mem b (deps m a) ≡ true → has m b ≡ true

abbrev pub IsSymmetric : InstMapSet → Type 0
IsSymmetric m = (a b : ℕ) → mem b (deps m a) ≡ mem a (deps m b)

pub has-deps : (m : InstMapSet) (a b : ℕ) → mem b (deps m a) ≡ true → has m a ≡ true
has-deps m a b = go (m a)
  where
    go : (o : Option (List ℕ)) → mem b (set_of o) ≡ true → is_key o ≡ true
    go none h = h
    go (some s) h = refl
