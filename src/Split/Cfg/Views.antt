-- ===== src/Split/Cfg/Views.antt =====
-- The successors of the blocks, whether they end with a branch, and how the changes of blocks change them.
use mathlib.Core.Path.{fun_ext}
use llvm_loop_fission.Base.{
  ℕ, ◌≡◌, refl, ap, sym, ◌∙◌, Bool, true, false, List, [], ◌∷◌, ◌++◌, map, Option, none, some,
  if◌then◌else◌, ◌==◌, Result, ok, ◌>>=◌, arith, Option-cases, Bool-cases, inl, inr, step_ok,
}
use llvm_loop_fission.Split.Cfg.{
  Inst, phi, br, other, Func, block_of, set_block, on_block, mapped, remap_instruction, fix_phis,
  on_terminator, is_block,
}

-- Whether an instruction is a branch, and its successors.
abbrev pub Term : Type 0
Term = Bool × List ℕ

abbrev pub successors : List Inst → Option Term
successors [] = none
successors (phi id incoming ∷ []) = none
successors (br id condition next ∷ []) = some (true, next)
successors (other id values blocks ∷ []) = some (false, blocks)
successors (i ∷ j ∷ insts) = successors (j ∷ insts)

abbrev successors_in : Option (List Inst) → Option Term
successors_in none = none
successors_in (some insts) = successors insts

-- The successors of each block; none where there is no block, or one that is empty or ends with a phi.
unfoldable pub view : Func → ℕ → Option Term
view f b = successors_in (block_of b f)

abbrev pub map_some : (List ℕ → List ℕ) → Option Term → Option Term
map_some t none = none
map_some t (some s) = some (s.0, t s.1)

abbrev pub change : ℕ → (List ℕ → List ℕ) → (ℕ → Option Term) → ℕ → Option Term
change b t v c = if c == b then map_some t (v c) else v c

pub block_of-set_block :
    (b c : ℕ) (old new : List Inst) (f : Func)
    → block_of b f ≡ some old
    → block_of c (set_block b new f) ≡ (if c == b then some new else block_of c f)
unfolding block_of set_block
block_of-set_block b c old new [] h = cc h
block_of-set_block b c old new ((d, insts) ∷ f) h =
    ground (arith, block_of-set_block b c old new f, h)

-- A change of a block's instructions that does this to its successors.
abbrev pub Changes : (List Inst → Result (List Inst)) → (List ℕ → List ℕ) → Term → Type 0
Changes g t s =
    (insts : List Inst)
    → successors insts ≡ some s
    → (out : List Inst) × (g insts ≡ ok out) × (successors out ≡ some (s.0, t s.1))

found_block :
    (b : ℕ) (g : List Inst → Result (List Inst)) (f : Func) (insts : List Inst)
    → block_of b f ≡ some insts
    → on_block b g f ≡ (g insts >>= (λ new. ok (set_block b new f)))
unfolding on_block
found_block b g f insts found = rw (on_block, found) refl

pub on_block-view :
    (b : ℕ) (g : List Inst → Result (List Inst)) (t : List ℕ → List ℕ) (f : Func) (s : Term)
    → view f b ≡ some s
    → Changes g t s
    → (f' : Func) × (on_block b g f ≡ ok f') × (view f' ≡ change b t (view f))
unfolding view
on_block-view b g t f s h change_b = elim (Option-cases (block_of b f)) [
  | inl missing ↦ cc (missing, h)
  | inr (insts, found) ↦
      let (out, run, new) = change_b insts (ap successors_in (sym found) ∙ h) in
      (
        set_block b out f,
        found_block b g f insts found
            ∙ step_ok (g insts) out (λ new. ok (set_block b new f)) _ run refl,
        fun_ext λ c. elim (Bool-cases (c == b)) [
          | inl at ↦
              let same : c ≡ b = ground (arith, at) in
              rw (block_of-set_block b c insts out f found, at)
                (new ∙ sym (ap (map_some t) (ap (λ d. successors_in (block_of d f)) same ∙ h)))
          | inr away ↦ rw (block_of-set_block b c insts out f found, away) refl
        ],
      )
]

-- An instruction in front of a block that ends with a branch.
successors-cons :
    (i : Inst) (insts : List Inst) (s : Term)
    → successors insts ≡ some s
    → successors (i ∷ insts) ≡ some s
successors-cons i [] s h = cc h
successors-cons i (j ∷ insts) s h = h

successors-remap_instruction :
    (values blocks : ℕ → Option ℕ) (insts : List Inst)
    → successors (map (remap_instruction values blocks) insts)
      ≡ map_some (map (mapped blocks)) (successors insts)
unfolding remap_instruction
successors-remap_instruction values blocks [] = refl
successors-remap_instruction values blocks (phi id incoming ∷ []) = refl
successors-remap_instruction values blocks (br id condition next ∷ []) = refl
successors-remap_instruction values blocks (other id vs bs ∷ []) = refl
successors-remap_instruction values blocks (i ∷ j ∷ insts) =
    successors-remap_instruction values blocks (j ∷ insts)

pub remap_instruction-Changes :
    (values blocks : ℕ → Option ℕ) (s : Term)
    → Changes (λ insts. ok (map (remap_instruction values blocks) insts)) (map (mapped blocks)) s
remap_instruction-Changes values blocks s insts h = (
  map (remap_instruction values blocks) insts,
  refl,
  successors-remap_instruction values blocks insts ∙ ap (map_some (map (mapped blocks))) h,
)

pub fix_phis-Changes : (old : Option ℕ) (new : ℕ) (s : Term) → Changes (fix_phis old new) (λ t. t) s
unfolding fix_phis
fix_phis-Changes old new s [] h = cc h
fix_phis-Changes old new s (phi id incoming ∷ []) h = cc h
fix_phis-Changes old new s (phi id incoming ∷ j ∷ insts) h =
    let (out, run, kept) = fix_phis-Changes old new s (j ∷ insts) h in
    (
      _,
      step_ok (fix_phis old new (j ∷ insts)) out _ _ run refl,
      successors-cons
          (phi id (map (λ (p : ℕ × ℕ). (p.0, if is_block old p.1 then new else p.1)) incoming)) out
          s kept,
    )
fix_phis-Changes old new s (br id condition next ∷ insts) h = (_, refl, h)
fix_phis-Changes old new s (other id vs bs ∷ insts) h = (_, refl, h)

some-inj : (a b : Term) → some a ≡ some b → a ≡ b
some-inj a b e = ap (λ o. elim o [ none ↦ a | some c ↦ c ]) e

pub on_terminator-Changes :
    (g : List ℕ → Result (List ℕ)) (t : List ℕ → List ℕ) (s : List ℕ)
    → g s ≡ ok (t s)
    → Changes (on_terminator g) t (true, s)
unfolding on_terminator
on_terminator-Changes g t s e [] h = cc h
on_terminator-Changes g t s e (phi id incoming ∷ []) h = cc h
on_terminator-Changes g t s e (br id condition next ∷ []) h =
    let same = ap (λ (d : Term). d.1) (some-inj (true, next) (true, s) h) in
    (_, step_ok (g next) (t s) _ _ (ap g same ∙ e) refl, refl)
on_terminator-Changes g t s e (other id vs bs ∷ []) h =
    absurd (cc (ap (λ (d : Term). d.0) (some-inj (false, bs) (true, s) h)))
on_terminator-Changes g t s e (i ∷ j ∷ insts) h =
    let (out, run, new) = on_terminator-Changes g t s e (j ∷ insts) h in
    (
      _,
      step_ok (on_terminator g (j ∷ insts)) out _ _ run refl,
      successors-cons i out (true, t s) new,
    )

-- An instruction without its number.
abbrev pub unnumbered : Inst → Inst
unnumbered (phi id incoming) = phi 0 incoming
unnumbered (br id condition next) = br 0 condition next
unnumbered (other id values blocks) = other 0 values blocks

successors-unnumbered : (insts : List Inst) → successors (map unnumbered insts) ≡ successors insts
successors-unnumbered [] = refl
successors-unnumbered (phi id incoming ∷ []) = refl
successors-unnumbered (br id condition next ∷ []) = refl
successors-unnumbered (other id values blocks ∷ []) = refl
successors-unnumbered (i ∷ j ∷ insts) = successors-unnumbered (j ∷ insts)

pub same-successors :
    (xs ys : List Inst) → map unnumbered xs ≡ map unnumbered ys → successors xs ≡ successors ys
same-successors xs ys h =
    sym (successors-unnumbered xs) ∙ ap successors h ∙ successors-unnumbered ys

abbrev pub add_block : ℕ → Option Term → (ℕ → Option Term) → ℕ → Option Term
add_block n s v c = if c == n then s else v c

pub block_of-append :
    (n c : ℕ) (insts : List Inst) (f : Func)
    → block_of n f ≡ none
    → block_of c (f ++ (n, insts) ∷ []) ≡ (if c == n then some insts else block_of c f)
unfolding block_of
block_of-append n c insts [] h = refl
block_of-append n c insts ((d, old) ∷ f) h = ground (arith, block_of-append n c insts f, h)

pub view-append :
    (n : ℕ) (insts : List Inst) (f : Func)
    → block_of n f ≡ none
    → view (f ++ (n, insts) ∷ []) ≡ add_block n (successors insts) (view f)
unfolding view
view-append n insts f h = fun_ext λ c. elim (Bool-cases (c == n)) [
  | inl at ↦ rw (block_of-append n c insts f h, at) refl
  | inr away ↦ rw (block_of-append n c insts f h, away) refl
]

pub view-none : (f : Func) (b : ℕ) → block_of b f ≡ none → view f b ≡ none
unfolding view
view-none f b h = ap successors_in h

pub view-some :
    (f : Func) (b : ℕ) (insts : List Inst) → block_of b f ≡ some insts → view f b ≡ successors insts
unfolding view
view-some f b insts h = ap successors_in h
