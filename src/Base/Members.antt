-- ===== src/Base/Members.antt =====
-- Membership as a Boolean, over any type with decided equality, and lists without repetitions.
use Prim.Native.Nat.{ℕ, zero, suc, ◌+◌, ◌≤◌, ◌<◌}
use mathlib.Core.Path.{◌≡◌, refl, ap, sym, subst}
use mathlib.Core.Logic.{ite}
use mathlib.Core.Bool.{Bool, true, false, ◌||◌, ◌&&◌}
use mathlib.Core.List.{List, [], ◌∷◌, ◌++◌}
use native.Mathlib.Omega.{arith}
use llvm_loop_fission.Base.Tests.{if◌then◌else◌, ltb, leb}
use llvm_loop_fission.Base.Lists.{length, range_from, All}
use native.Mathlib.Decide.{ℕ_discrete}

module _ {ℓ} {K : Type ℓ} (dec : Discrete K) where
  abbrev pub elem : K → List K → Bool
  elem a [] = false
  elem a (x ∷ xs) = ite (dec a x) true (elem a xs)

  -- `mark visited a` is `visited[a] = true`.
  abbrev pub mark : (K → Bool) → K → K → Bool
  mark vis a x = ite (dec x a) true (vis x)

  abbrev pub Distinct : List K → Type 0
  Distinct [] = Unit
  Distinct (x ∷ xs) = (elem x xs ≡ false) × Distinct xs

  -- The items of a list that are not yet marked.
  abbrev pub unmarked : (K → Bool) → List K → ℕ
  unmarked vis [] = 0
  unmarked vis (x ∷ xs) = if vis x then unmarked vis xs else suc (unmarked vis xs)

  pub elem-append : (a : K) (xs ys : List K) → elem a (xs ++ ys) ≡ (elem a xs || elem a ys)
  elem-append a [] ys = refl
  elem-append a (x ∷ xs) ys = ground (arith, elem-append a xs ys)

  pub unmarked_mono :
      (v w : K → Bool) (xs : List K)
      → ((x : K) → v x ≡ true → w x ≡ true)
      → unmarked w xs ≤ unmarked v xs
  unmarked_mono v w [] h = omega arith
  unmarked_mono v w (x ∷ xs) h = ground (arith, h x, unmarked_mono v w xs h)

  pub unmarked-mark :
      (v : K → Bool) (a : K) (xs : List K)
      → v a ≡ false
      → elem a xs ≡ true
      → unmarked (mark v a) xs < unmarked v xs
  unmarked-mark v a [] h e = cc
  unmarked-mark v a (x ∷ xs) h e = elim (dec a x) [
    | yes same ↦
        ground (arith, unmarked_mono v (mark v a) xs (λ y m. ground arith), h, ap v same, dec x a)
    | no other ↦ ground (arith, unmarked-mark v a xs h, dec x a)
  ]

  pub Distinct-append :
      (xs ys : List K)
      → Distinct xs
      → Distinct ys
      → ((a : K) → elem a xs ≡ true → elem a ys ≡ false)
      → Distinct (xs ++ ys)
  Distinct-append [] ys h k sep = k
  Distinct-append (x ∷ xs) ys h k sep = (
    ground (arith, elem-append x xs ys, h.0, sep x, dec x x),
    Distinct-append xs ys h.1 k (λ a m. ground (arith, sep a, dec a x)),
  )

  pub unmarked-le-length : (v : K → Bool) (xs : List K) → unmarked v xs ≤ length xs
  unmarked-le-length v [] = omega arith
  unmarked-le-length v (x ∷ xs) = ground (arith, unmarked-le-length v xs)

pub length-range_from : (i n : ℕ) → length (range_from i n) ≡ n
length-range_from i zero = refl
length-range_from i (suc n) = ap suc (length-range_from (suc i) n)

pub elem-range_from : (x i n : ℕ) → elem ℕ_discrete x (range_from i n) ≡ (leb i x && ltb x (i + n))
elem-range_from x i zero = ground arith
elem-range_from x i (suc n) = ground (arith, elem-range_from x (suc i) n, ℕ_discrete x i)

pub Distinct-range_from : (i n : ℕ) → Distinct ℕ_discrete (range_from i n)
Distinct-range_from i zero = tt
Distinct-range_from i (suc n) =
    (ground (arith, elem-range_from i (suc i) n), Distinct-range_from (suc i) n)

module _ {ℓ} {K : Type ℓ} (dec : Discrete K) where
  pub All-elem {κ} : (P : K → Type κ) (xs : List K) (x : K) → All P xs → elem dec x xs ≡ true → P x
  All-elem P [] x h m = absurd (ground (arith, m))
  All-elem P (y ∷ xs) x h m = elim (dec x y) [
    | yes at ↦ subst P (sym at) h.0
    | no other ↦ All-elem P xs x h.1 (ground (arith, m))
  ]
