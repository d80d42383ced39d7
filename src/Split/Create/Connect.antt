-- ===== src/Split/Create/Connect.antt =====
-- How CreateOneLoop connects the copied blocks.
use mathlib.Core.Path.{fun_ext}
use llvm_loop_fission.Base.{
  ℕ, ◌≡◌, refl, ap, sym, subst, ◌∙◌, true, List, [], ◌∷◌, map, Option, none, some, if◌then◌else◌,
  ◌==◌, ok, arith, Bool-cases, inl, inr, All, step_ok,
}
use llvm_loop_fission.Split.Cfg.{
  Func, on_block, mapped, remap_instruction, on_terminator, set_successor,
}
use llvm_loop_fission.Split.Cfg.Views.{
  view, map_some, change, on_block-view, remap_instruction-Changes, on_terminator-Changes,
}
use llvm_loop_fission.Split.Create.{remap_blocks, link_blocks}
use llvm_loop_fission.Split.Create.Copies.{View, IsThere}

-- A block that ends with a branch that has a successor.
abbrev pub IsBranch : View → ℕ → Type 0
IsBranch v b = (s : ℕ) × (rest : List ℕ) × (v b ≡ some (true, s ∷ rest))

abbrev pub set_first : ℕ → List ℕ → List ℕ
set_first m [] = []
set_first m (s ∷ rest) = m ∷ rest

-- What the steps do to the successors.
abbrev pub remap_all : (ℕ → ℕ) → List ℕ → View → View
remap_all r [] v = v
remap_all r (n ∷ ns) v = remap_all r ns (change n (map r) v)

abbrev pub link_all : ℕ → List ℕ → View → View
link_all n [] v = v
link_all n (m ∷ ns) v = link_all m ns (change n (set_first m) v)

pub change-same : (b : ℕ) (v : View) → change b (λ s. s) v ≡ v
change-same b v = fun_ext λ c.
    elim (v c) as (λ o. (if c == b then map_some (λ s. s) o else o) ≡ o) [
      | none ↦ ground arith
      | some t ↦ ground arith
    ]

pub IsThere-change :
    (b c : ℕ) (t : List ℕ → List ℕ) (v : View) → IsThere v c → IsThere (change b t v) c
IsThere-change b c t v (s, h) = elim (Bool-cases (c == b)) [
  | inl at ↦ ((s.0, t s.1), rw (at, h) refl)
  | inr away ↦ (s, rw (away) h)
]

-- A change that leaves no block without successors.
abbrev pub KeepsFirst : (List ℕ → List ℕ) → Type 0
KeepsFirst t = (s : ℕ) (rest : List ℕ) → (s' : ℕ) × (rest' : List ℕ) × (t (s ∷ rest) ≡ s' ∷ rest')

pub IsBranch-change :
    (b c : ℕ) (t : List ℕ → List ℕ) (v : View)
    → KeepsFirst t
    → IsBranch v c
    → IsBranch (change b t v) c
IsBranch-change b c t v k (s, rest, h) = elim (Bool-cases (c == b)) [
  | inl at ↦
      let (s', rest', e) = k s rest in
      (s', rest', rw (at, h) (ap (λ (l : List ℕ). some (true, l)) e))
  | inr away ↦ (s, rest, rw (away) h)
]

pub All-change :
    (P : View → ℕ → Type 0) (b : ℕ) (t : List ℕ → List ℕ) (v : View) (ns : List ℕ)
    → ((c : ℕ) → P v c → P (change b t v) c)
    → All (P v) ns
    → All (P (change b t v)) ns
All-change P b t v [] f h = tt
All-change P b t v (n ∷ ns) f (here, h) = (f n here, All-change P b t v ns f h)

pub remap_blocks-view :
    (values blocks : ℕ → Option ℕ) (ns : List ℕ) (f : Func)
    → All (IsThere (view f)) ns
    → (f' : Func) × (remap_blocks values blocks ns f ≡ ok f')
      × (view f' ≡ remap_all (mapped blocks) ns (view f))
unfolding remap_blocks
remap_blocks-view values blocks [] f h = (f, refl, refl)
remap_blocks-view values blocks (n ∷ ns) f ((s, here), h) =
    let t = map (mapped blocks) in
    let (next, run, new) =
      on_block-view n (λ insts. ok (map (remap_instruction values blocks) insts)) t f s here
        (remap_instruction-Changes values blocks s) in
    let there =
      subst (λ v. All (IsThere v) ns) (sym new)
        (All-change IsThere n t (view f) ns (λ c. IsThere-change n c t (view f)) h) in
    let (f', run_on, new_on) = remap_blocks-view values blocks ns next there in
    (
      f',
      step_ok (on_block n _ f) next _ _ run run_on,
      new_on ∙ ap (remap_all (mapped blocks) ns) new,
    )

pub set_first-KeepsFirst : (m : ℕ) → KeepsFirst (set_first m)
set_first-KeepsFirst m s rest = (m, rest, refl)

-- setSuccessor(0, m) on a branch.
pub set_successor-view :
    (n m : ℕ) (f : Func)
    → IsBranch (view f) n
    → (f' : Func) × (on_block n (on_terminator (set_successor m)) f ≡ ok f')
      × (view f' ≡ change n (set_first m) (view f))
set_successor-view n m f (s, rest, h) =
    on_block-view n (on_terminator (set_successor m)) (set_first m) f (true, s ∷ rest) h
      (on_terminator-Changes (set_successor m) (set_first m) (s ∷ rest) refl)

pub link_blocks-view :
    (n : ℕ) (ns : List ℕ) (f : Func)
    → All (IsBranch (view f)) (n ∷ ns)
    → (f' : Func) × (link_blocks n ns f ≡ ok f') × (view f' ≡ link_all n ns (view f))
unfolding link_blocks
link_blocks-view n [] f h = (f, refl, refl)
link_blocks-view n (m ∷ ns) f (here, h) =
    let (next, run, new) = set_successor-view n m f here in
    let there =
      subst (λ v. All (IsBranch v) (m ∷ ns)) (sym new)
        (All-change IsBranch n (set_first m) (view f) (m ∷ ns)
          (λ c. IsBranch-change n c (set_first m) (view f) (set_first-KeepsFirst m)) h) in
    let (f', run_on, new_on) = link_blocks-view m ns next there in
    (f', step_ok (on_block n _ f) next _ _ run run_on, new_on ∙ ap (link_all m ns) new)
