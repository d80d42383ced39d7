-- ===== src/Bp/Partition/Components.antt =====
-- The groups of BP::build_partition on a symmetric graph, and connected components.
use llvm_loop_fission.Base.{
  ℕ, ◌≡◌, ◌≢◌, refl, ap, sym, ◌∙◌, subst, Bool, true, false, ◌||◌, List, ◌∷◌, arith, ℕ_discrete,
  inl, inr, Bool-cases,
}
use llvm_loop_fission.Bp.Maps.{InstMapSet, mem, deps, has, IsGraph, IsSymmetric}
use llvm_loop_fission.Bp.Search.Spec.{Reach, Avoid-Reach, Explored}

abbrev pub Walk : InstMapSet → ℕ → ℕ → Type 0
Walk m = Reach ℕ_discrete (deps m)

-- A group that walks from one instruction fill, and that no dependence leaves.
pub record IsComponent (m : InstMapSet) (part : List ℕ) : Type 0 where
  pub leader : ℕ
  pub led : mem leader part ≡ true
  pub connected : (x : ℕ) → mem x part ≡ true → Walk m leader x
  pub closed : (x y : ℕ) → mem x part ≡ true → mem y (deps m x) ≡ true → mem y part ≡ true

module _ (n : ℕ) (m : InstMapSet) (graph : IsGraph n m) (symmetric : IsSymmetric m) where
  pub Walk-has : {k x : ℕ} → has m k ≡ true → Walk m k x → has m x ≡ true
  Walk-has h Reach.here = h
  Walk-has h (Reach.step {u} {v} w e) = graph.inside u v e

  -- The last dependence of a walk goes back, too.
  Walk-back : {k x : ℕ} → Walk m k x → x ≢ k → (u : ℕ) × (mem u (deps m x) ≡ true)
  Walk-back Reach.here ne = absurd (ne refl)
  Walk-back (Reach.step {u} {v} w e) ne = (u, symmetric v u ∙ e)

  -- Between two rounds: `taken` are the instructions in the groups so far.
  pub record Rounds (taken vis : ℕ → Bool) (rest : List ℕ) : Type 0 where
    pub visited : (x : ℕ) → vis x ≡ true → taken x ≡ true
    pub isolated : (x y : ℕ) → taken x ≡ true → vis x ≡ false → mem y (deps m x) ≡ false
    pub passed : (x : ℕ) → taken x ≡ true → vis x ≡ false → mem x rest ≡ false
    pub closed : (x y : ℕ) → taken x ≡ true → mem y (deps m x) ≡ true → taken y ≡ true

  module _ {taken vis after : ℕ → Bool} {k : ℕ} {rest group : List ℕ}
      (inv : Rounds taken vis (k ∷ rest)) (new : vis k ≡ false)
      (e : Explored ℕ_discrete (deps m) k vis group after)
      (all : (y : ℕ) → mem y (deps m k) ≡ true → after y ≡ true) where
    untaken : taken k ≡ false
    untaken = ground (arith, inv.passed k)

    pub group-untaken : (x : ℕ) → mem x group ≡ true → taken x ≡ false
    group-untaken x h = elim (ℕ_discrete x k) [
      | yes at ↦ ap taken at ∙ untaken
      | no other ↦
          let (u, back) = Walk-back (Avoid-Reach ℕ_discrete (deps m) (e.sound x h)) other in
          ground (arith, e.exact x other, inv.isolated x u)
    ]

    group-closed : (x y : ℕ) → mem x group ≡ true → mem y (deps m x) ≡ true → after y ≡ true
    group-closed x y h d = elim (ℕ_discrete x k) [
      | yes at ↦ all y (subst (λ z. mem y (deps m z) ≡ true) at d)
      | no other ↦ e.closed x y other h d
    ]

    after-taken : (x : ℕ) → after x ≡ true → (taken x || mem x group) ≡ true
    after-taken x h = elim (ℕ_discrete x k) [
      | yes at ↦ ground (arith, ap (λ z. mem z group) at, e.head)
      | no other ↦ ground (arith, e.exact x other, inv.visited x)
    ]

    pub group-IsComponent : IsComponent m group
    group-IsComponent = record {
      leader = k;
      led = e.head;
      connected = λ x h. Avoid-Reach ℕ_discrete (deps m) (e.sound x h);
      closed = λ x y h d. ground (
        arith,
        after-taken y (group-closed x y h d),
        inv.closed y x,
        symmetric x y,
        group-untaken x h,
        d,
      );
    }

    -- The start of a group stays unmarked only if it has no dependence.
    start-isolated : (y : ℕ) → after k ≡ false → mem y (deps m k) ≡ false
    start-isolated y h = elim (Bool-cases (mem y (deps m k))) [
      | inr free ↦ free
      | inl d ↦
          let back = symmetric y k ∙ d in
          let y_in = group-IsComponent.closed k y e.head d in
          elim (ℕ_discrete y k) [
            | yes at ↦ absurd (ground (arith, ap after at, all y d))
            | no other ↦ absurd (ground (arith, e.closed y k other y_in back))
          ]
    ]

    pub next-Rounds : mem k rest ≡ false → Rounds (λ x. taken x || mem x group) after rest
    next-Rounds fresh = record {
      visited = after-taken;
      isolated = λ x y t a. elim (ℕ_discrete x k) [
        | yes at ↦ ap (λ z. mem y (deps m z)) at ∙ start-isolated y (sym (ap after at) ∙ a)
        | no other ↦ ground (arith, e.exact x other, e.grow x, inv.isolated x y)
      ];
      passed = λ x t a. elim (ℕ_discrete x k) [
        | yes at ↦ ap (λ z. mem z rest) at ∙ fresh
        | no other ↦ ground (arith, e.exact x other, e.grow x, inv.passed x)
      ];
      closed = λ x y t d. elim (Bool-cases (taken x)) [
        | inl old ↦ ground (arith, inv.closed x y old d)
        | inr fresh_one ↦ after-taken y (group-closed x y (ground arith) d)
      ];
    }
