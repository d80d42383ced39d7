-- ===== src/Bp/Edges/Find.antt =====
-- BP::find_prdg: the group of an instruction.
use mathlib.Core.List.{flatten}
use llvm_loop_fission.Base.{
  ℕ, ◌≡◌, refl, ap, sym, subst, true, false, List, [], ◌∷◌, ◌++◌, ok, arith, inl, inr, Distinct,
  Bool-cases, elem-append, ℕ_discrete,
}
use llvm_loop_fission.Bp.Maps.{mem}
use llvm_loop_fission.Bp.Vectors.{mem_vec, vec_discrete}
use llvm_loop_fission.Bp.Edges.{find_prdg}

pub find_prdg_lem :
    (inst : ℕ) (prdg : List (List ℕ))
    → mem inst (flatten prdg) ≡ true
    → (rdg : List ℕ) × (find_prdg inst prdg ≡ ok rdg)
      × (mem inst rdg ≡ true)
      × (mem_vec rdg prdg ≡ true)
unfolding find_prdg flatten
find_prdg_lem inst [] h = absurd (ground (arith, h))
find_prdg_lem inst (p ∷ ps) h = elim (Bool-cases (mem inst p)) [
  | inl m ↦ (p, rw (m, find_prdg) refl, m, ground (arith, vec_discrete p p))
  | inr n ↦
      let (rdg, run, i, j) =
        find_prdg_lem inst ps (ground (arith, elem-append ℕ_discrete inst p (flatten ps))) in
      (rdg, rw (n, find_prdg) run, i, ground (arith, j, vec_discrete rdg p))
]

pub mem-flatten :
    (inst : ℕ) (rdg : List ℕ) (prdg : List (List ℕ))
    → mem_vec rdg prdg ≡ true
    → mem inst rdg ≡ true
    → mem inst (flatten prdg) ≡ true
unfolding flatten
mem-flatten inst rdg [] h m = cc
mem-flatten inst rdg (p ∷ ps) h m = elim (vec_discrete rdg p) [
  | yes at ↦ ground (arith, elem-append ℕ_discrete inst p (flatten ps), ap (mem inst) at)
  | no other ↦ ground (
    arith,
    elem-append ℕ_discrete inst p (flatten ps),
    mem-flatten inst rdg ps (ground (arith, h)) m,
  )
]

Distinct-apart :
    (inst : ℕ) (xs ys : List ℕ)
    → Distinct ℕ_discrete (xs ++ ys)
    → mem inst xs ≡ true
    → mem inst ys ≡ false
Distinct-apart inst [] ys d h = cc
Distinct-apart inst (x ∷ xs) ys d h = elim (ℕ_discrete inst x) [
  | yes at ↦ ground (arith, elem-append ℕ_discrete x xs ys, ap (λ z. mem z ys) at, d.0)
  | no other ↦ Distinct-apart inst xs ys d.1 (ground (arith, h))
]

Distinct-tail : (xs ys : List ℕ) → Distinct ℕ_discrete (xs ++ ys) → Distinct ℕ_discrete ys
Distinct-tail [] ys d = d
Distinct-tail (x ∷ xs) ys d = Distinct-tail xs ys d.1

-- Where no instruction is in two groups, BP::find_prdg gives the group of an instruction.
pub find_prdg_unique :
    (inst : ℕ) (rdg : List ℕ) (prdg : List (List ℕ))
    → Distinct ℕ_discrete (flatten prdg)
    → mem_vec rdg prdg ≡ true
    → mem inst rdg ≡ true
    → find_prdg inst prdg ≡ ok rdg
unfolding find_prdg flatten
find_prdg_unique inst rdg [] d h m = absurd (ground (arith, h))
find_prdg_unique inst rdg (p ∷ ps) d h m = elim (vec_discrete rdg p) [
  | yes at ↦
      let here_p : mem inst p ≡ true = subst (λ z. mem inst z ≡ true) at m in
      rw (here_p, find_prdg) (ap ok (sym at))
  | no other ↦
      let later : mem_vec rdg ps ≡ true = ground (arith, h) in
      let away : mem inst p ≡ false =
        ground (arith, Distinct-apart inst p (flatten ps) d, mem-flatten inst rdg ps later m) in
      rw (away, find_prdg) (find_prdg_unique inst rdg ps (Distinct-tail p (flatten ps) d) later m)
]
