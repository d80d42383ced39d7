-- ===== src/Bp/Plan/Flatten.antt =====
-- Lists of lists of groups: what they hold once they are joined.
use mathlib.Core.List.{flatten}
use llvm_loop_fission.Base.{
  ℕ, ◌≡◌, refl, ap, sym, ◌∙◌, subst, true, List, [], ◌∷◌, ◌++◌, map, arith, inl, inr, Distinct,
  Bool-cases, elem-append, Distinct-append, ℕ_discrete, append_assoc,
}
use llvm_loop_fission.Bp.Maps.{mem}
use llvm_loop_fission.Bp.Vectors.{mem_vec, vec_discrete}
use llvm_loop_fission.Bp.Edges.Find.{find_prdg_lem}

pub flatten-append {ℓ} :
    {A : Type ℓ} (xs ys : List (List A)) → flatten (xs ++ ys) ≡ flatten xs ++ flatten ys
unfolding flatten
flatten-append [] ys = refl
flatten-append (x ∷ xs) ys =
    ap (◌++◌ x) (flatten-append xs ys) ∙ sym (append_assoc x (flatten xs) (flatten ys))

pub flatten-map-flatten :
    (xs : List (List (List ℕ))) → flatten (map flatten xs) ≡ flatten (flatten xs)
unfolding flatten
flatten-map-flatten [] = refl
flatten-map-flatten (x ∷ xs) =
    ap (◌++◌ (flatten x)) (flatten-map-flatten xs) ∙ sym (flatten-append x (flatten xs))

-- Groups with no repetition in or between them have none when they are joined.
pub Distinct-flatten :
    (ps : List (List ℕ))
    → Distinct vec_discrete ps
    → ((p : List ℕ) → mem_vec p ps ≡ true → Distinct ℕ_discrete p)
    → ((p q : List ℕ) (x : ℕ)
        → mem_vec p ps ≡ true
        → mem_vec q ps ≡ true
        → mem x p ≡ true
        → mem x q ≡ true
        → p ≡ q)
    → Distinct ℕ_discrete (flatten ps)
unfolding flatten
Distinct-flatten [] d each apart = tt
Distinct-flatten (p ∷ ps) d each apart =
    let self : mem_vec p (p ∷ ps) ≡ true = ground (arith, vec_discrete p p) in
    let later = λ (q : List ℕ) (h : mem_vec q ps ≡ true).
      let m : mem_vec q (p ∷ ps) ≡ true = ground (arith, vec_discrete q p) in m in
    Distinct-append ℕ_discrete p (flatten ps) (each p self)
      (Distinct-flatten ps d.1 (λ q h. each q (later q h))
        (λ q r x i j. apart q r x (later q i) (later r j)))
      (λ a h. elim (Bool-cases (mem a (flatten ps))) [
        | inr away ↦ away
        | inl m ↦
            let (q, _, i, j) = find_prdg_lem a ps m in
            let e = apart p q a self (later q j) h i in
            absurd (ground (arith, ap (λ z. mem_vec z ps) e, j, d.0))
      ])

Distinct-append_left : (xs ys : List ℕ) → Distinct ℕ_discrete (xs ++ ys) → Distinct ℕ_discrete xs
Distinct-append_left [] ys d = tt
Distinct-append_left (x ∷ xs) ys d =
    (ground (arith, elem-append ℕ_discrete x xs ys, d.0), Distinct-append_left xs ys d.1)

Distinct-append_right : (xs ys : List ℕ) → Distinct ℕ_discrete (xs ++ ys) → Distinct ℕ_discrete ys
Distinct-append_right [] ys d = d
Distinct-append_right (x ∷ xs) ys d = Distinct-append_right xs ys d.1

pub Distinct-part :
    (ps : List (List ℕ)) (p : List ℕ)
    → Distinct ℕ_discrete (flatten ps)
    → mem_vec p ps ≡ true
    → Distinct ℕ_discrete p
unfolding flatten
Distinct-part [] p d h = absurd (ground (arith, h))
Distinct-part (q ∷ ps) p d h = elim (vec_discrete p q) [
  | yes at ↦ subst (Distinct ℕ_discrete) (sym at) (Distinct-append_left q (flatten ps) d)
  | no other ↦ Distinct-part ps p (Distinct-append_right q (flatten ps) d) (ground (arith, h))
]
