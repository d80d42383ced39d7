-- ===== src/Split/Create/Copies.antt =====
-- What CreateOneLoop has before it connects the copied blocks.
use llvm_loop_fission.Base.{
  ℕ, ◌≡◌, ◌≢◌, refl, ap, sym, subst, ◌∙◌, false, List, [], ◌∷◌, ◌++◌, map, append_assoc, append-nil,
  Option, none, some, ok, arith, Option-cases, inl, inr, All, Distinct, elem, ℕ_discrete,
}
use llvm_loop_fission.Dg.{put}
use llvm_loop_fission.Split.Cfg.{Inst, Func, block_of}
use llvm_loop_fission.Split.Cfg.Views.{
  Term, view, unnumbered, same-successors, add_block, block_of-append, view-append, view-none,
  view-some,
}
use llvm_loop_fission.Split.Create.{Llvm, Copy, add_copy, copy_blocks}

-- CloneBasicBlock: a block with an address of its own, and the same instructions but for their
-- numbers.
pub record IsCloning (llvm : Llvm) : Type 0 where
  pub fresh : (f : Func) (insts : List Inst) → block_of (llvm.clone_block f insts).id f ≡ none
  pub same :
      (f : Func) (insts : List Inst)
      → map unnumbered (llvm.clone_block f insts).insts ≡ map unnumbered insts

abbrev pub View : Type 0
View = ℕ → Option Term

abbrev pub IsThere : View → ℕ → Type 0
IsThere v b = (s : Term) × (v b ≡ some s)

-- The second list has the blocks that are new and copied from those of the first.
abbrev pub IsCopied : View → View → List ℕ → List ℕ → Type 0
IsCopied v w [] [] = Unit
IsCopied v w [] (n ∷ ns) = ⊥
IsCopied v w (b ∷ bs) [] = ⊥
IsCopied v w (b ∷ bs) (n ∷ ns) = (v n ≡ none) × (w n ≡ v b) × IsCopied v w bs ns

-- LastValueMap's blocks.
abbrev pub put_all : (ℕ → Option ℕ) → List ℕ → List ℕ → ℕ → Option ℕ
put_all m [] ns = m
put_all m (b ∷ bs) [] = m
put_all m (b ∷ bs) (n ∷ ns) = put_all (put m b n) bs ns

-- The first new block has the instructions of the first block, but for their numbers.
abbrev pub FirstCode : Func → Func → List ℕ → List ℕ → Type 0
FirstCode f g [] ns = Unit
FirstCode f g (b ∷ bs) [] = ⊥
FirstCode f g (b ∷ bs) (n ∷ ns) =
    (xs : List Inst) × (ys : List Inst) × (block_of b f ≡ some xs)
    × (block_of n g ≡ some ys)
    × (map unnumbered ys ≡ map unnumbered xs)

pub record Copied (copy out : Copy) (body ns : List ℕ) : Type 0 where
  pub names : out.new_body ≡ copy.new_body ++ ns
  pub keeps : (c : ℕ) (s : Term) → view copy.func c ≡ some s → view out.func c ≡ some s
  pub copies : IsCopied (view copy.func) (view out.func) body ns
  pub holds :
      (c : ℕ) (insts : List Inst)
      → block_of c copy.func ≡ some insts
      → block_of c out.func ≡ some insts
  pub first : FirstCode copy.func out.func body ns
  pub apart : Distinct ℕ_discrete ns
  pub blocks : out.blocks ≡ put_all copy.blocks body ns

All-IsThere_mono :
    (v w : View) (bs : List ℕ)
    → ((c : ℕ) (t : Term) → v c ≡ some t → w c ≡ some t)
    → All (IsThere v) bs
    → All (IsThere w) bs
All-IsThere_mono v w [] f h = tt
All-IsThere_mono v w (b ∷ bs) f ((s, here), h) = ((s, f b s here), All-IsThere_mono v w bs f h)

module _ (v w : View) (n : ℕ) (t : Term) (free : v n ≡ none) where
  add_block-there : (c : ℕ) (s : Term) → v c ≡ some s → add_block n (some t) v c ≡ some s
  add_block-there c s h = ground (arith, h, free)

  add_block-free : (c : ℕ) → add_block n (some t) v c ≡ none → (v c ≡ none) × (c ≢ n)
  add_block-free c h = (ground (arith, h), λ e. ground (arith, h, e))

  -- Copies of a larger function, without its new block.
  IsCopied-back :
      (bs ns : List ℕ)
      → All (IsThere v) bs
      → IsCopied (add_block n (some t) v) w bs ns
      → IsCopied v w bs ns × (elem ℕ_discrete n ns ≡ false)
  IsCopied-back [] [] there h = (tt, refl)
  IsCopied-back [] (m ∷ ns) there h = absurd h
  IsCopied-back (b ∷ bs) [] there h = absurd h
  IsCopied-back (b ∷ bs) (m ∷ ns) ((s, here), there) (new, copied, h) =
      let (rest, outside) = IsCopied-back bs ns there h in
      let (unused, other) = add_block-free m new in
      (
        (unused, copied ∙ add_block-there b s here ∙ sym here, rest),
        ground (arith, other, outside, ℕ_discrete n m),
      )

copy_blocks-cons :
    (llvm : Llvm) (b : ℕ) (body : List ℕ) (copy : Copy) (insts : List Inst)
    → block_of b copy.func ≡ some insts
    → copy_blocks llvm (b ∷ body) copy
      ≡ copy_blocks llvm body (add_copy llvm b insts (llvm.clone_block copy.func insts) copy)
unfolding copy_blocks
copy_blocks-cons llvm b body copy insts found = rw (copy_blocks, found) refl

module _ (llvm : Llvm) (cloning : IsCloning llvm) where
  pub copy_blocks_lem :
      (body : List ℕ) (copy : Copy)
      → All (IsThere (view copy.func)) body
      → (out : Copy) × (ns : List ℕ) × (copy_blocks llvm body copy ≡ ok out)
        × Copied copy out body ns
  unfolding copy_blocks
  copy_blocks_lem [] copy h = (
    copy,
    [],
    refl,
    record {
      names = sym (append-nil copy.new_body);
      keeps = λ c s e. e;
      copies = tt;
      holds = λ c insts e. e;
      first = tt;
      apart = tt;
      blocks = refl;
    },
  )
  copy_blocks_lem (b ∷ body) copy ((s, here), h) = elim (Option-cases (block_of b copy.func)) [
    | inl missing ↦ cc (view-none copy.func b missing, here)
    | inr (insts, found) ↦
        let v = view copy.func in
        let new = llvm.clone_block copy.func insts in
        let next = add_copy llvm b insts new copy in
        let free = view-none copy.func new.id (cloning.fresh copy.func insts) in
        let added : view next.func ≡ add_block new.id (some s) v =
          view-append new.id new.insts copy.func (cloning.fresh copy.func insts)
          ∙ ap (λ t. add_block new.id t v)
              (same-successors new.insts insts (cloning.same copy.func insts)
                ∙ sym (view-some copy.func b insts found)
                ∙ here) in
        let grows : (c : ℕ) (t : Term) → v c ≡ some t → view next.func c ≡ some t =
          λ c t e. ap (λ u. u c) added ∙ add_block-there v v new.id s free c t e in
        let held : (c : ℕ) (xs : List Inst)
            → block_of c copy.func ≡ some xs
            → block_of c next.func ≡ some xs =
          λ c xs e.
            block_of-append new.id c new.insts copy.func (cloning.fresh copy.func insts)
            ∙ ground (arith, e, cloning.fresh copy.func insts) in
        let (out, ns, run, copied) =
          copy_blocks_lem body next (All-IsThere_mono v (view next.func) body grows h) in
        let (copies, outside) =
          IsCopied-back v (view out.func) new.id s free body ns h
            (subst (λ u. IsCopied u (view out.func) body ns) added copied.copies) in
        let kept : view out.func new.id ≡ some s =
          copied.keeps new.id s (ap (λ u. u new.id) added ∙ ground arith) in
        (
          out,
          new.id ∷ ns,
          copy_blocks-cons llvm b body copy insts found ∙ run,
          record {
            names = copied.names ∙ append_assoc copy.new_body (new.id ∷ []) ns;
            keeps = λ c t e. copied.keeps c t (grows c t e);
            holds = λ c xs e. copied.holds c xs (held c xs e);
            first = (
              insts,
              new.insts,
              found,
              copied.holds new.id new.insts (
                  block_of-append new.id new.id new.insts copy.func (cloning.fresh copy.func insts)
                  ∙ ground arith),
              cloning.same copy.func insts,
            );
            copies = (free, kept ∙ sym here, copies);
            apart = (outside, copied.apart);
            blocks = copied.blocks;
          },
        )
  ]
