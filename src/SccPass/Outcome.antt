-- ===== src/SccPass/Outcome.antt =====
-- What the searches of splitpass_scc.cpp come to.
use llvm_loop_fission.Base.{
  ℕ, zero, suc, ◌<◌, ◌≤◌, ◌≡◌, refl, ap, sym, ◌∙◌, true, false, ◌||◌, List, [], ◌∷◌, ◌++◌, none,
  Result, ok, ◌>>=◌, ℕ_discrete, mark, unmarked, unmarked-mark, unmarked-le-length, length,
  replicate, arith, Bool-cases, inl, inr, range_from, elem-range_from, length-range_from,
  Option-cases, ◌+◌,
}
use llvm_loop_fission.Bp.Maps.{InstMapSet, mem, deps, has, IsGraph, has-deps}
use llvm_loop_fission.Bp.Dual.{reverse_edges, reverse_edges-deps}
use llvm_loop_fission.Bp.Partition.{keys}
use llvm_loop_fission.Bp.Partition.Loop.{mem-keys}
use llvm_loop_fission.SccPass.{
  Visited, Returned, fill_each, fill_order, visit_each, dfs_util, fill_all, reverse_all, pop_all,
  find_sccs,
}

module _ (map : InstMapSet) (nodes : List ℕ)
    (inside : (x y : ℕ) → mem y (deps map x) ≡ true → mem y nodes ≡ true) where
  abbrev Within : List ℕ → Type 0
  Within stack = (y : ℕ) → mem y stack ≡ true → mem y nodes ≡ true

  -- The recursive call pushes at least one instruction, and none that is no node.
  abbrev Pushes : (ℕ → Visited → List ℕ → Result (List ℕ)) → Visited → Type 0
  Pushes rec vis =
      (i : ℕ) (stack : List ℕ)
      → mem i nodes ≡ true
      → vis i ≡ false
      → Within stack
      → (pushed : List ℕ) × (rec i vis stack ≡ ok pushed)
        × (length stack < length pushed)
        × Within pushed

  fill_each_lem :
      (rec : ℕ → Visited → List ℕ → Result (List ℕ)) (vis : Visited)
      → Pushes rec vis
      → (insts stack : List ℕ) → Within insts
      → Within stack
      → (pushed : List ℕ) × (fill_each rec insts vis stack ≡ ok pushed)
        × (length stack ≤ length pushed)
        × Within pushed
  unfolding fill_each
  fill_each_lem rec vis ih [] stack sub w = (stack, refl, omega arith, w)
  fill_each_lem rec vis ih (i ∷ is) stack sub w = elim (Bool-cases (vis i)) [
    | inl old ↦
        let (pushed, run, le, in_nodes) =
          fill_each_lem rec vis ih is stack (λ y h. sub y (ground (arith, h))) w in
        (pushed, rw (fill_each, old) run, le, in_nodes)
    | inr new ↦
        let (first, ran, lt, w2) = ih i stack (sub i (ground (arith, ℕ_discrete i i))) new w in
        let (pushed, run, le, in_nodes) =
          fill_each_lem rec vis ih is first (λ y h. sub y (ground (arith, h))) w2 in
        (pushed, rw (fill_each, new, ran, ◌>>=◌) run, omega (arith, lt, le), in_nodes)
  ]

  fill_order_lem :
      (fuel : ℕ) (vis : Visited)
      → unmarked ℕ_discrete vis nodes < fuel
      → Pushes (fill_order fuel map) vis
  unfolding fill_order
  fill_order_lem zero vis enough i stack top new w = absurd (omega (arith, enough))
  fill_order_lem (suc fuel) vis enough i stack top new w =
      let after = mark ℕ_discrete vis i in
      let (pushed, run, le, in_nodes) =
        fill_each_lem (fill_order fuel map) after
          (fill_order_lem fuel after
            (omega (arith, enough, unmarked-mark ℕ_discrete vis i nodes new top)))
          (deps map i) stack (inside i) w in
      (
        i ∷ pushed,
        rw (fill_order, run, ◌>>=◌) refl,
        omega (arith, le),
        λ y h. elim (ℕ_discrete y i) [
          | yes at ↦ ap (λ z. mem z nodes) at ∙ top
          | no other ↦ in_nodes y (ground (arith, h, other))
        ],
      )

  abbrev Ends : (ℕ → Visited → List ℕ → Returned) → Visited → Type 0
  Ends rec vis =
      (i : ℕ) (new_scc : List ℕ) → mem i nodes ≡ true → vis i ≡ false → rec i vis new_scc ≡ ok tt

  visit_each_lem :
      (rec : ℕ → Visited → List ℕ → Returned) (vis : Visited)
      → Ends rec vis
      → (insts new_scc : List ℕ) → ((y : ℕ) → mem y insts ≡ true → mem y nodes ≡ true)
      → visit_each rec insts vis new_scc ≡ ok tt
  unfolding visit_each
  visit_each_lem rec vis ih [] new_scc sub = refl
  visit_each_lem rec vis ih (i ∷ is) new_scc sub = elim (Bool-cases (vis i)) [
    | inl old ↦
        rw (visit_each, old)
          (visit_each_lem rec vis ih is new_scc (λ y h. sub y (ground (arith, h))))
    | inr new ↦
        let ran = ih i new_scc (sub i (ground (arith, ℕ_discrete i i))) new in
        rw (visit_each, new, ran, ◌>>=◌)
          (visit_each_lem rec vis ih is new_scc (λ y h. sub y (ground (arith, h))))
  ]

  dfs_util_lem :
      (fuel : ℕ) (vis : Visited)
      → unmarked ℕ_discrete vis nodes < fuel
      → Ends (dfs_util fuel map) vis
  unfolding dfs_util
  dfs_util_lem zero vis enough i new_scc top new = absurd (omega (arith, enough))
  dfs_util_lem (suc fuel) vis enough i new_scc top new =
      let after = mark ℕ_discrete vis i in
      visit_each_lem (dfs_util fuel map) after
        (dfs_util_lem fuel after
          (omega (arith, enough, unmarked-mark ℕ_discrete vis i nodes new top)))
        (deps map i) (new_scc ++ i ∷ []) (inside i)

  fill_all_lem :
      (fuel : ℕ) (insts stack : List ℕ)
      → unmarked ℕ_discrete (λ _. false) nodes < fuel
      → Within insts
      → Within stack
      → (pushed : List ℕ) × (fill_all fuel map insts (λ _. false) stack ≡ ok pushed)
        × (length insts + length stack ≤ length pushed)
        × Within pushed
  unfolding fill_all
  fill_all_lem fuel [] stack enough sub w = (stack, refl, omega arith, w)
  fill_all_lem fuel (i ∷ is) stack enough sub w =
      let (first, ran, lt, w2) =
        fill_order_lem fuel (λ _. false) enough i stack (sub i (ground (arith, ℕ_discrete i i)))
          refl w in
      let (pushed, run, le, in_nodes) =
        fill_all_lem fuel is first enough (λ y h. sub y (ground (arith, h))) w2 in
      (pushed, rw (fill_all, ran, ◌>>=◌) run, omega (arith, lt, le), in_nodes)

  pop_all_lem :
      (fuel : ℕ) (stack : List ℕ)
      → unmarked ℕ_discrete (λ _. false) nodes < fuel
      → Within stack
      → pop_all fuel map stack (λ _. false) [] ≡ ok (replicate (length stack) [])
  unfolding pop_all
  pop_all_lem fuel [] enough w = refl
  pop_all_lem fuel (i ∷ stack) enough w =
      let ended =
        dfs_util_lem fuel (λ _. false) enough i [] (w i (ground (arith, ℕ_discrete i i))) refl in
      let rest = pop_all_lem fuel stack enough (λ y h. w y (ground (arith, h))) in
      rw (pop_all, ended, ◌>>=◌, rest, ◌>>=◌) refl

reverse_all-deps :
    (dg_temp acc : InstMapSet) (insts : List ℕ) (x y : ℕ)
    → mem y (deps (reverse_all dg_temp insts acc) x) ≡ true
    → (mem y (deps acc x) || mem x (deps dg_temp y)) ≡ true
unfolding reverse_all
reverse_all-deps dg_temp acc [] x y h = ground (arith, h)
reverse_all-deps dg_temp acc (i ∷ is) x y h = elim (Option-cases (dg_temp i)) [
  | inl e ↦ ground (arith, reverse_all-deps dg_temp acc is x y, h, e)
  | inr (s, e) ↦ elim (ℕ_discrete y i) [
    | yes at ↦ ground (
      arith,
      reverse_all-deps dg_temp (reverse_edges i s acc) is x y,
      reverse_edges-deps i s acc x y,
      ap (mem x) (ap (deps dg_temp) at),
      e,
      h,
    )
    | no other ↦ ground (
      arith,
      reverse_all-deps dg_temp (reverse_edges i s acc) is x y,
      reverse_edges-deps i s acc x y,
      e,
      h,
    )
  ]
]

-- For any dependence graph with keys below n: both searches end, and every component that
-- runOnFunction of splitpass_scc.cpp collects is empty; there are at least as many of them as
-- instructions with an entry.
pub find_sccs_lem :
    (n : ℕ) (dg_temp : InstMapSet)
    → IsGraph n dg_temp
    → (count : ℕ) × (find_sccs n dg_temp ≡ ok (replicate count []))
      × (length (keys n dg_temp) ≤ count)
unfolding find_sccs
find_sccs_lem n dg_temp g =
    let nodes = range_from 0 n in
    let node : (x : ℕ) → has dg_temp x ≡ true → mem x nodes ≡ true =
      λ x h. ground (arith, elem-range_from x 0 n, g.bounded x h) in
    let enough : unmarked ℕ_discrete (λ _. false) nodes < suc n =
      omega (arith, unmarked-le-length ℕ_discrete (λ _. false) nodes, length-range_from 0 n) in
    let rev = reverse_all dg_temp (keys n dg_temp) (λ _. none) in
    let (stack, run, le, w) =
      fill_all_lem dg_temp nodes (λ x y h. node y (g.inside x y h)) (suc n) (keys n dg_temp) []
        enough (λ y h. node y (sym (mem-keys y n dg_temp g) ∙ h)) (λ y h. cc h) in
    let back =
      pop_all_lem rev nodes
        (λ x y h.
          node y
            (has-deps dg_temp y x (reverse_all-deps dg_temp (λ _. none) (keys n dg_temp) x y h)))
        (suc n) stack enough w in
    (length stack, rw (run, ◌>>=◌) back, omega (arith, le))
