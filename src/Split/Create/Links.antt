-- ===== src/Split/Create/Links.antt =====
-- Where the steps of CreateOneLoop leave each block.
use mathlib.Core.Path.{fun_ext}
use llvm_loop_fission.Base.{
  ℕ, ◌≡◌, ◌≢◌, refl, ap, sym, subst, ◌∙◌, false, List, [], ◌∷◌, map, ◌==◌, arith, Bool-cases, inl,
  inr, Distinct, elem, ℕ_discrete, if_true, if_false,
}
use llvm_loop_fission.Split.Cfg.Views.{map_some, change}
use llvm_loop_fission.Split.Create.{last_of}
use llvm_loop_fission.Split.Create.Copies.{View}
use llvm_loop_fission.Split.Create.Connect.{set_first, remap_all, link_all}

pub change-at : (b : ℕ) (t : List ℕ → List ℕ) (v : View) → change b t v b ≡ map_some t (v b)
change-at b t v = if_true (b == b) _ _ (ground arith)

pub change-other : (b c : ℕ) (t : List ℕ → List ℕ) (v : View) → c ≢ b → change b t v c ≡ v c
change-other b c t v h = if_false (c == b) _ _ (ground (arith, h))

change_comm :
    (a b : ℕ) (s t : List ℕ → List ℕ) (v : View)
    → a ≢ b
    → change a s (change b t v) ≡ change b t (change a s v)
change_comm a b s t v h = fun_ext λ c. elim (Bool-cases (c == a)) [
  | inl at ↦
      let same : c ≡ a = ground (arith, at) in
      let away : (c == b) ≡ false = ground (arith, same, h) in rw (at, away) refl
  | inr away ↦ rw (away) refl
]

pub remap_all-other :
    (r : ℕ → ℕ) (ns : List ℕ) (v : View) (c : ℕ)
    → elem ℕ_discrete c ns ≡ false
    → remap_all r ns v c ≡ v c
remap_all-other r [] v c h = refl
remap_all-other r (n ∷ ns) v c h =
    remap_all-other r ns (change n (map r) v) c (ground (arith, h))
    ∙ change-other n c (map r) v (λ e. ground (arith, h, e, ℕ_discrete c n))

pub link_all-other :
    (n : ℕ) (ns : List ℕ) (v : View) (c : ℕ)
    → elem ℕ_discrete c (n ∷ ns) ≡ false
    → link_all n ns v c ≡ v c
link_all-other n [] v c h = refl
link_all-other n (m ∷ ns) v c h =
    link_all-other m ns (change n (set_first m) v) c (ground (arith, h))
    ∙ change-other n c (set_first m) v (λ e. ground (arith, h, e, ℕ_discrete c n))

pub last_of-other : (c n : ℕ) (ns : List ℕ) → elem ℕ_discrete c (n ∷ ns) ≡ false → c ≢ last_of n ns
last_of-other c n [] h e = absurd (ground (arith, h, e, ℕ_discrete c n))
last_of-other c n (m ∷ ns) h e = last_of-other c m ns (ground (arith, h)) e

-- Each block's first successor is the next one, and the last one's is the first block.
abbrev pub IsLinked : ℕ → View → View → ℕ → List ℕ → Type 0
IsLinked first v w n [] = w n ≡ map_some (set_first first) (v n)
IsLinked first v w n (m ∷ ns) = (w n ≡ map_some (set_first m) (v n)) × IsLinked first v w m ns

IsLinked-other :
    (first b : ℕ) (t : List ℕ → List ℕ) (v w : View) (n : ℕ) (ns : List ℕ)
    → elem ℕ_discrete b (n ∷ ns) ≡ false
    → IsLinked first (change b t v) w n ns
    → IsLinked first v w n ns
IsLinked-other first b t v w n [] h e =
    e
    ∙ ap (map_some (set_first first))
        (change-other b n t v (λ same. ground (arith, h, same, ℕ_discrete b n)))
IsLinked-other first b t v w n (m ∷ ns) h (e, rest) = (
  e
      ∙ ap (map_some (set_first m))
          (change-other b n t v (λ same. ground (arith, h, same, ℕ_discrete b n))),
  IsLinked-other first b t v w m ns (ground (arith, h)) rest,
)

pub link_all-IsLinked :
    (first n : ℕ) (ns : List ℕ) (v : View)
    → Distinct ℕ_discrete (n ∷ ns)
    → IsLinked first v (link_all n ns (change (last_of n ns) (set_first first) v)) n ns
link_all-IsLinked first n [] v d = change-at n (set_first first) v
link_all-IsLinked first n (m ∷ ns) v (outside, d) =
    let apart = last_of-other n m ns outside in
    let t = set_first m in
    let v' = change n t v in
    let closed = change (last_of m ns) (set_first first) v' in
    let moved = change_comm n (last_of m ns) t (set_first first) v apart in
    subst (λ u. IsLinked first v (link_all m ns u) n (m ∷ ns)) (sym moved)
      (
        link_all-other m ns closed n outside
            ∙ change-other (last_of m ns) n (set_first first) v' apart
            ∙ change-at n t v,
        IsLinked-other first n t v _ m ns outside (link_all-IsLinked first m ns v' d),
      )
