-- ===== src/Split/Create/Exits.antt =====
-- The edges that leave a loop, before and after CreateOneLoop.
use llvm_loop_fission.Base.{
  ℕ, ◌≡◌, refl, ap, subst, ◌∙◌, true, false, List, [], ◌∷◌, ◌++◌, map, Option, none, some,
  if◌then◌else◌, ◌==◌, arith, All, elem, ℕ_discrete, Bool-cases, inl, inr,
}
use llvm_loop_fission.Split.Cfg.{replace}
use llvm_loop_fission.Split.Cfg.Views.{Term, map_some}
use llvm_loop_fission.Split.Create.Copies.{View}
use llvm_loop_fission.Split.Create.Straight.{IsRenamed}

-- The blocks of a list that are not in the loop.
abbrev pub outside : List ℕ → List ℕ → List ℕ
outside members [] = []
outside members (s ∷ ss) =
    if elem ℕ_discrete s members then outside members ss else s ∷ outside members ss

abbrev pub targets : Option Term → List ℕ
targets none = []
targets (some s) = s.1

-- The targets of the edges from some blocks of a loop out of it, edge by edge.
abbrev pub exits_of : View → List ℕ → List ℕ → List ℕ
exits_of v members [] = []
exits_of v members (b ∷ bs) = outside members (targets (v b)) ++ exits_of v members bs

pub outside-first :
    (members ss : List ℕ) (e : ℕ) (rest : List ℕ)
    → outside members ss ≡ e ∷ rest
    → elem ℕ_discrete e members ≡ false
outside-first members [] e rest h = absurd (cc h)
outside-first members (s ∷ ss) e rest h = elim (Bool-cases (elem ℕ_discrete s members)) [
  | inl in_loop ↦
      outside-first members ss e rest (
        subst (λ b. (if b then outside members ss else s ∷ outside members ss) ≡ e ∷ rest) in_loop
          h)
  | inr out ↦
      let first : s ≡ e =
        ap (λ (l : List ℕ). elim l [ [] ↦ s | x ∷ xs ↦ x ])
          (subst (λ b. (if b then outside members ss else s ∷ outside members ss) ≡ e ∷ rest) out
            h) in
      subst (λ x. elem ℕ_discrete x members ≡ false) first out
]

pub outside-replace :
    (members ss : List ℕ) (e n : ℕ)
    → elem ℕ_discrete e members ≡ false
    → elem ℕ_discrete n members ≡ false
    → outside members (replace e n ss) ≡ replace e n (outside members ss)
outside-replace members [] e n h k = refl
outside-replace members (s ∷ ss) e n h k =
    let ih = outside-replace members ss e n h k in
    elim (Bool-cases (s == e)) [
      | inl at ↦
          let same : s ≡ e = ground (arith, at) in
          let out : elem ℕ_discrete s members ≡ false =
            ap (λ x. elem ℕ_discrete x members) same ∙ h in
          rw (at, k, out, at) (ap (◌∷◌ n) ih)
      | inr away ↦ elim (Bool-cases (elem ℕ_discrete s members)) [
        | inl in_loop ↦ rw (away, in_loop) ih
        | inr out ↦ rw (away, out, away) (ap (◌∷◌ s) ih)
      ]
    ]

-- A loop whose blocks keep their successors keeps its exits.
pub exits_of-keeps :
    (v w : View) (members bs : List ℕ)
    → All (λ b. w b ≡ v b) bs
    → exits_of w members bs ≡ exits_of v members bs
exits_of-keeps v w members [] h = refl
exits_of-keeps v w members (b ∷ bs) (here, h) =
    ap (λ o. outside members (targets o) ++ exits_of w members bs) here
    ∙ ap (λ l. outside members (targets (v b)) ++ l) (exits_of-keeps v w members bs h)

pub IsRenamed-member :
    (r : ℕ → ℕ) (v w : View) (bs ns : List ℕ) (c : ℕ)
    → IsRenamed r v w bs ns
    → elem ℕ_discrete c bs ≡ true
    → elem ℕ_discrete (r c) ns ≡ true
IsRenamed-member r v w [] [] c h m = m
IsRenamed-member r v w [] (n ∷ ns) c h m = absurd h
IsRenamed-member r v w (b ∷ bs) [] c h m = absurd h
IsRenamed-member r v w (b ∷ bs) (n ∷ ns) c (new, at, e, h) m = elim (ℕ_discrete c b) [
  | yes same ↦ ground (arith, at, ap r same, ℕ_discrete (r c) n)
  | no other ↦
      ground (arith, IsRenamed-member r v w bs ns c h, m, other, ℕ_discrete c b, ℕ_discrete (r c) n)
]

pub IsRenamed-outside :
    (r : ℕ → ℕ) (v w : View) (bs ns : List ℕ) (c : ℕ) (s : Term)
    → v c ≡ some s
    → IsRenamed r v w bs ns
    → elem ℕ_discrete c ns ≡ false
IsRenamed-outside r v w [] [] c s h renamed = refl
IsRenamed-outside r v w [] (n ∷ ns) c s h renamed = absurd renamed
IsRenamed-outside r v w (b ∷ bs) [] c s h renamed = absurd renamed
IsRenamed-outside r v w (b ∷ bs) (n ∷ ns) c s h (new, at, e, renamed) = ground (
  arith,
  IsRenamed-outside r v w bs ns c s h renamed,
  λ (same : c ≡ n). ap v same,
  new,
  h,
  ℕ_discrete c n,
)

-- A block that the renaming leaves alone and that is no new block.
abbrev pub IsKept : (ℕ → ℕ) → List ℕ → ℕ → Type 0
IsKept r ns c = (r c ≡ c) × (elem ℕ_discrete c ns ≡ false)

outside-renamed :
    (r : ℕ → ℕ) (members ns ss : List ℕ)
    → ((c : ℕ) → elem ℕ_discrete c members ≡ true → elem ℕ_discrete (r c) ns ≡ true)
    → All (IsKept r ns) (outside members ss)
    → outside ns (map r ss) ≡ outside members ss
outside-renamed r members ns [] f h = refl
outside-renamed r members ns (s ∷ ss) f h = elim (Bool-cases (elem ℕ_discrete s members)) [
  | inl in_loop ↦
      rw (f s in_loop, in_loop)
        (outside-renamed r members ns ss f (
          subst (λ b. All (IsKept r ns) (if b then outside members ss else s ∷ outside members ss))
            in_loop h))
  | inr out ↦
      let ((same, new), rest) =
        subst (λ b. All (IsKept r ns) (if b then outside members ss else s ∷ outside members ss))
          out h in
      let kept : elem ℕ_discrete (r s) ns ≡ false = ap (λ x. elem ℕ_discrete x ns) same ∙ new in
      rw (kept, out)
        (ap (λ x. x ∷ outside ns (map r ss)) same
          ∙ ap (◌∷◌ s) (outside-renamed r members ns ss f rest))
]

All-left : (P : ℕ → Type 0) (xs ys : List ℕ) → All P (xs ++ ys) → All P xs × All P ys
All-left P [] ys h = (tt, h)
All-left P (x ∷ xs) ys (here, h) = let both = All-left P xs ys h in ((here, both.0), both.1)

targets-renamed : (r : ℕ → ℕ) (o : Option Term) → targets (map_some (map r) o) ≡ map r (targets o)
targets-renamed r none = refl
targets-renamed r (some s) = refl

-- The copy of a loop has the exits of the loop.
pub exits_of-renamed :
    (r : ℕ → ℕ) (v w : View) (members news bs ns : List ℕ)
    → ((c : ℕ) → elem ℕ_discrete c members ≡ true → elem ℕ_discrete (r c) news ≡ true)
    → IsRenamed r v w bs ns
    → All (IsKept r news) (exits_of v members bs)
    → exits_of w news ns ≡ exits_of v members bs
exits_of-renamed r v w members news [] [] f renamed h = refl
exits_of-renamed r v w members news [] (n ∷ ns) f renamed h = absurd renamed
exits_of-renamed r v w members news (b ∷ bs) [] f renamed h = absurd renamed
exits_of-renamed r v w members news (b ∷ bs) (n ∷ ns) f (new, at, e, renamed) h =
    let (here, rest) = All-left (IsKept r news) (outside members (targets (v b))) _ h in
    ap (λ o. outside news (targets o) ++ exits_of w news ns) e
    ∙ ap (λ l. outside news l ++ exits_of w news ns) (targets-renamed r (v b))
    ∙ ap (λ l. l ++ exits_of w news ns) (outside-renamed r members news (targets (v b)) f here)
    ∙ ap (λ l. outside members (targets (v b)) ++ l)
        (exits_of-renamed r v w members news bs ns f renamed rest)
