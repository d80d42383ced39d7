-- ===== src/Bp/Partition/Loop.antt =====
-- The loop of BP::build_partition over the keys of the map.
use mathlib.Core.List.{flatten}
use llvm_loop_fission.Base.{
  ℕ, suc, ◌≡◌, refl, ap, sym, ◌∙◌, Bool, true, false, ◌||◌, ◌&&◌, List, [], ◌∷◌, ok, arith,
  ℕ_discrete, inl, inr, range_from, Distinct, All, elem-append, Distinct-append, Bool-cases, ◌>>=◌,
  unmarked-le-length, length-range_from, elem-range_from, Distinct-range_from,
}
use llvm_loop_fission.Bp.Maps.{InstMapSet, mem, deps, has, IsGraph, IsSymmetric}
use llvm_loop_fission.Bp.Search.{dfs}
use llvm_loop_fission.Bp.Search.Spec.{Avoid-Reach, Explored}
use llvm_loop_fission.Bp.Search.Loop.{dfs-Explored}
use llvm_loop_fission.Bp.Partition.Components.{
  IsComponent, Rounds, Walk-has, group-untaken, group-IsComponent, next-Rounds,
}
use llvm_loop_fission.Bp.Partition.{keys_among, keys, partition_from, build_partition}

module _ (n : ℕ) (m : InstMapSet) (graph : IsGraph n m) (symmetric : IsSymmetric m) where
  -- What the rest of the loop returns.
  record Covers (taken : ℕ → Bool) (rest : List ℕ) (parts : List (List ℕ)) : Type 0 where
    distinct : Distinct ℕ_discrete (flatten parts)
    untaken : (x : ℕ) → mem x (flatten parts) ≡ true → taken x ≡ false
    all : (x : ℕ) → mem x rest ≡ true → (taken x || mem x (flatten parts)) ≡ true
    keys : (x : ℕ) → mem x (flatten parts) ≡ true → has m x ≡ true
    components : All (IsComponent m) parts

  nodes : List ℕ
  nodes = range_from 0 n

  nodes-inside : (x y : ℕ) → mem x nodes ≡ true → mem y (deps m x) ≡ true → mem y nodes ≡ true
  unfolding nodes
  nodes-inside x y h d = ground (arith, elem-range_from y 0 n, graph.bounded y, graph.inside x y d)

  -- One call of `dfs` from a key.
  call :
      (k : ℕ) (vis : ℕ → Bool)
      → has m k ≡ true
      → (group : List ℕ) × (after : ℕ → Bool) × (dfs ℕ_discrete (suc n) (deps m) k vis
          ≡ ok (group, after))
        × Explored ℕ_discrete (deps m) k vis group after
        × ((y : ℕ) → mem y (deps m k) ≡ true → after y ≡ true)
  unfolding nodes
  call k vis h =
      dfs-Explored ℕ_discrete (deps m) nodes nodes-inside (suc n) k vis
        (ground (arith, elem-range_from k 0 n, graph.bounded k))
        (omega (arith, unmarked-le-length ℕ_discrete vis nodes, length-range_from 0 n))

  partition_from-Covers :
      (rest : List ℕ) (taken vis : ℕ → Bool)
      → Distinct ℕ_discrete rest
      → ((x : ℕ) → mem x rest ≡ true → has m x ≡ true)
      → Rounds n m graph symmetric taken vis rest
      → (parts : List (List ℕ)) × (partition_from n m rest vis ≡ ok parts) × Covers taken rest parts
  unfolding partition_from flatten
  partition_from-Covers [] taken vis d k inv = (
    [],
    refl,
    record {
      distinct = tt;
      untaken = λ x h. cc;
      all = λ x h. cc;
      keys = λ x h. cc;
      components = tt;
    },
  )
  partition_from-Covers (k ∷ rest) taken vis d ks inv = elim (Bool-cases (vis k)) [
    | inl old ↦
        let (parts, run, c) =
          partition_from-Covers rest taken vis d.1 (λ x h. ks x (ground (arith, ℕ_discrete x k)))
            (record {
              visited = inv.visited;
              isolated = inv.isolated;
              passed = λ x t v. ground (arith, inv.passed x t v);
              closed = inv.closed;
            }) in
        (
          parts,
          rw (old, partition_from) run,
          record {
            distinct = c.distinct;
            untaken = c.untaken;
            all = λ x h. elim (ℕ_discrete x k) [
              | yes at ↦ ground (arith, ap taken at, inv.visited k old)
              | no other ↦ c.all x (ground arith)
            ];
            keys = c.keys;
            components = c.components;
          },
        )
    | inr new ↦
        let (group, after, ran, e, all) = call k vis (ks k (ground (arith, ℕ_discrete k k))) in
        let (parts, run, c) =
          partition_from-Covers rest (λ x. taken x || mem x group) after d.1
            (λ x h. ks x (ground (arith, ℕ_discrete x k)))
            (next-Rounds n m graph symmetric inv new e all d.0) in
        (
          group ∷ parts,
          rw (new, partition_from, ran, ◌>>=◌, run, ◌>>=◌) refl,
          record {
            distinct =
                Distinct-append ℕ_discrete group (flatten parts) e.distinct c.distinct
                  (λ a h. ground (arith, c.untaken a));
            untaken = λ x h. ground (
              arith,
              elem-append ℕ_discrete x group (flatten parts),
              group-untaken n m graph symmetric inv new e all x,
              c.untaken x,
            );
            all = λ x h. elim (ℕ_discrete x k) [
              | yes at ↦ ground (
                arith,
                elem-append ℕ_discrete x group (flatten parts),
                ap (λ z. mem z group) at,
                e.head,
              )
              | no other ↦ ground (arith, elem-append ℕ_discrete x group (flatten parts), c.all x)
            ];
            keys = λ x h. elim (Bool-cases (mem x group)) [
              | inl here_now ↦
                  Walk-has n m graph symmetric (ks k (ground (arith, ℕ_discrete k k)))
                    (Avoid-Reach ℕ_discrete (deps m) (e.sound x here_now))
              | inr later ↦
                  c.keys x (ground (arith, elem-append ℕ_discrete x group (flatten parts)))
            ];
            components = (group-IsComponent n m graph symmetric inv new e all, c.components);
          },
        )
  ]

mem-keys_among :
    (x : ℕ) (m : InstMapSet) (ks : List ℕ) → mem x (keys_among m ks) ≡ (mem x ks && has m x)
mem-keys_among x m [] = refl
mem-keys_among x m (k ∷ ks) = elim (ℕ_discrete x k) [
  | yes at ↦ ground (arith, mem-keys_among x m ks, ap (has m) at)
  | no other ↦ ground (arith, mem-keys_among x m ks)
]

keys_among-Distinct :
    (m : InstMapSet) (ks : List ℕ) → Distinct ℕ_discrete ks → Distinct ℕ_discrete (keys_among m ks)
keys_among-Distinct m [] d = tt
keys_among-Distinct m (k ∷ ks) d =
    ground (arith, mem-keys_among k m ks, keys_among-Distinct m ks d.1)

pub mem-keys : (x n : ℕ) (m : InstMapSet) → IsGraph n m → mem x (keys n m) ≡ has m x
mem-keys x n m g =
    ground (arith, mem-keys_among x m (range_from 0 n), elem-range_from x 0 n, g.bounded x)

-- The groups of a partition of the instructions of `m`.
pub record Partitions (n : ℕ) (m : InstMapSet) (parts : List (List ℕ)) : Type 0 where
  pub distinct : Distinct ℕ_discrete (flatten parts)
  pub covers : (x : ℕ) → mem x (flatten parts) ≡ has m x
  pub components : All (IsComponent m) parts

-- On a symmetric graph with keys below n: BP::build_partition ends and meets no undefined step;
-- every key is in exactly one of its groups, once, and each group is a connected component, which
-- one instruction reaches whole and no dependence leaves.
pub build_partition_lem :
    (n : ℕ) (m : InstMapSet)
    → IsGraph n m
    → IsSymmetric m
    → (parts : List (List ℕ)) × (build_partition n m ≡ ok parts) × Partitions n m parts
unfolding build_partition
build_partition_lem n m g s =
    let (parts, run, c) =
      partition_from-Covers n m g s (keys n m) (λ _. false) (λ _. false)
        (keys_among-Distinct m (range_from 0 n) (Distinct-range_from 0 n))
        (λ x h. sym (mem-keys x n m g) ∙ h)
        (record {
          visited = λ x h. cc;
          isolated = λ x y h. cc;
          passed = λ x h. cc;
          closed = λ x y h. cc;
        }) in
    (
      parts,
      run,
      record {
        distinct = c.distinct;
        covers = λ x. ground (arith, c.keys x, c.all x, mem-keys x n m g);
        components = c.components;
      },
    )
