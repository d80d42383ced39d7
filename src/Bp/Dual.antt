-- ===== src/Bp/Dual.antt =====
-- BP::dual_dg_map of lib/splitpass/BP.cpp: every dependence, in both directions.
use llvm_loop_fission.Base.{
  ℕ, zero, suc, ◌+◌, ◌≡◌, refl, ap, sym, ◌∙◌, true, ◌||◌, ◌&&◌, List, [], ◌∷◌, Option, none, some,
  arith, ltb, ◌==◌, ℕ_discrete,
}
use llvm_loop_fission.Bp.Maps.{
  InstMapSet, mem, set_of, deps, has, insert_edge, IsGraph, has-deps, IsSymmetric, mem-insert_edge,
  has-insert_edge,
}

-- The inner loop: `dg_inst_map[inst].insert(it->first)` for the items of `instset`.
pub reverse_edges : ℕ → List ℕ → InstMapSet → InstMapSet
reverse_edges src [] m = m
reverse_edges src (inst ∷ rest) m = reverse_edges src rest (insert_edge m inst src)

-- The round for the key `k`; `instset` is its set when the loop comes to it.
round : ℕ → InstMapSet → InstMapSet
round k m = elim (m k) [ none ↦ m | some instset ↦ reverse_edges k instset m ]

-- The outer loop, over the map that it changes: keys inserted ahead of `k` are met
-- later.
dual_from : ℕ → ℕ → InstMapSet → InstMapSet
dual_from zero k m = m
dual_from (suc rounds) k m = dual_from rounds (suc k) (round k m)

pub dual_dg_map : ℕ → InstMapSet → InstMapSet
unfolding dual_from round reverse_edges insert_edge
dual_dg_map n m = dual_from n 0 m

pub reverse_edges-deps :
    (src : ℕ) (s : List ℕ) (m : InstMapSet) (x y : ℕ)
    → mem y (deps (reverse_edges src s m) x) ≡ (mem y (deps m x) || ((y == src) && mem x s))
unfolding reverse_edges
reverse_edges-deps src [] m x y = ground arith
reverse_edges-deps src (i ∷ s) m x y = ground (
  arith,
  reverse_edges-deps src s (insert_edge m i src) x y,
  mem-insert_edge m i src x y,
  ℕ_discrete x i,
)

reverse_edges-has :
    (src : ℕ) (s : List ℕ) (m : InstMapSet) (x : ℕ)
    → has (reverse_edges src s m) x ≡ (has m x || mem x s)
unfolding reverse_edges
reverse_edges-has src [] m x = ground arith
reverse_edges-has src (i ∷ s) m x = ground (
  arith,
  reverse_edges-has src s (insert_edge m i src) x,
  has-insert_edge m i src x,
  ℕ_discrete x i,
)

round-deps :
    (k : ℕ) (m : InstMapSet) (x y : ℕ)
    → mem y (deps (round k m) x) ≡ (mem y (deps m x) || ((y == k) && mem x (deps m k)))
unfolding round
round-deps k m x y = go (m k) refl
  where
    go :
        (o : Option (List ℕ))
        → m k ≡ o
        → mem y (deps (round k m) x) ≡ (mem y (deps m x) || ((y == k) && mem x (deps m k)))
    go none e = rw (e, round) (ground (arith, ap set_of e))
    go (some s) e = rw (e, round) (ground (arith, reverse_edges-deps k s m x y))

dual_from-deps :
    (m0 : InstMapSet) (rounds k : ℕ) (m : InstMapSet)
    → ((x y : ℕ) → mem y (deps m x) ≡ (mem y (deps m0 x) || (mem x (deps m0 y) && ltb y k)))
    → (x y : ℕ)
    → mem y (deps (dual_from rounds k m) x)
      ≡ (mem y (deps m0 x) || (mem x (deps m0 y) && ltb y (k + rounds)))
unfolding dual_from
dual_from-deps m0 zero k m inv x y = ground (arith, inv x y)
dual_from-deps m0 (suc r) k m inv x y = ground (
  arith,
  dual_from-deps m0 r (suc k) (round k m)
      (λ x y. ground (arith, round-deps k m x y, inv x y, inv k x)) x y,
)

-- On a graph, after BP::dual_dg_map an instruction depends on another exactly when one of the two
-- depended on the other before, in either direction.
pub deps-dual_dg_map :
    (n : ℕ) (m : InstMapSet)
    → IsGraph n m
    → (x y : ℕ) → mem y (deps (dual_dg_map n m) x) ≡ (mem y (deps m x) || mem x (deps m y))
unfolding dual_dg_map
deps-dual_dg_map n m g x y =
    ground (arith, dual_from-deps m n 0 m (λ x y. ground arith) x y, g.bounded y, has-deps m y x)

round-has : (k : ℕ) (m : InstMapSet) (x : ℕ) → has (round k m) x ≡ (has m x || mem x (deps m k))
unfolding round
round-has k m x = go (m k) refl
  where
    go : (o : Option (List ℕ)) → m k ≡ o → has (round k m) x ≡ (has m x || mem x (deps m k))
    go none e = rw (e, round) (ground (arith, ap set_of e))
    go (some s) e = rw (e, round) (ground (arith, reverse_edges-has k s m x))

dual_from-has :
    (m0 : InstMapSet) (rounds k : ℕ) (m : InstMapSet)
    → ((a b : ℕ) → mem b (deps m0 a) ≡ true → has m0 b ≡ true)
    → ((x : ℕ) → has m x ≡ has m0 x)
    → ((x y : ℕ) → mem y (deps m x) ≡ (mem y (deps m0 x) || (mem x (deps m0 y) && ltb y k)))
    → (x : ℕ) → has (dual_from rounds k m) x ≡ has m0 x
unfolding dual_from
dual_from-has m0 zero k m inside keys inv x = keys x
dual_from-has m0 (suc r) k m inside keys inv x =
    dual_from-has m0 r (suc k) (round k m) inside
      (λ z. ground (arith, round-has k m z, keys z, inv k z, inside k z, has-deps m0 z k))
      (λ z y. ground (arith, round-deps k m z y, inv z y, inv k z)) x

-- The keys stay the same.
pub has-dual_dg_map :
    (n : ℕ) (m : InstMapSet) → IsGraph n m → (x : ℕ) → has (dual_dg_map n m) x ≡ has m x
unfolding dual_dg_map
has-dual_dg_map n m g = dual_from-has m n 0 m g.inside (λ x. refl) (λ x y. ground arith)

pub dual_dg_map-IsGraph : (n : ℕ) (m : InstMapSet) → IsGraph n m → IsGraph n (dual_dg_map n m)
dual_dg_map-IsGraph n m g = record {
  bounded = λ k h. g.bounded k (sym (has-dual_dg_map n m g k) ∙ h);
  inside = λ a b h.
      has-dual_dg_map n m g b
      ∙ ground (arith, deps-dual_dg_map n m g a b, g.inside a b, has-deps m b a, h);
}

pub dual_dg_map-IsSymmetric : (n : ℕ) (m : InstMapSet) → IsGraph n m → IsSymmetric (dual_dg_map n m)
dual_dg_map-IsSymmetric n m g a b =
    ground (arith, deps-dual_dg_map n m g a b, deps-dual_dg_map n m g b a)
