-- ===== src/Split/Cfg/Phis.antt =====
-- The incoming blocks of the phis at the front of a block, and how the changes of blocks change them.
use mathlib.Core.Path.{fun_ext}
use llvm_loop_fission.Base.{
  ℕ, ◌≡◌, ◌≢◌, refl, ap, sym, ◌∙◌, List, [], ◌∷◌, map, Option, none, some, if◌then◌else◌, ◌==◌,
  Result, ok, ◌>>=◌, arith, Option-cases, Bool-cases, inl, inr, step_inv, ok-inj, if_true, if_false,
  undefined,
}
use llvm_loop_fission.Split.Cfg.{
  Inst, phi, br, other, Func, block_of, set_block, on_block, mapped, remap_instruction, is_block,
  fix_phis, on_terminator,
}
use llvm_loop_fission.Split.Cfg.Views.{block_of-set_block, unnumbered}

abbrev pub phis : List Inst → List (List ℕ)
phis [] = []
phis (phi id incoming ∷ insts) = map (λ (p : ℕ × ℕ). p.1) incoming ∷ phis insts
phis (br id condition next ∷ insts) = []
phis (other id values blocks ∷ insts) = []

abbrev pub phis_in : Option (List Inst) → Option (List (List ℕ))
phis_in none = none
phis_in (some insts) = some (phis insts)

-- The incoming blocks of each phi at the front of a block.
unfoldable pub phis_of : Func → ℕ → Option (List (List ℕ))
phis_of f b = phis_in (block_of b f)

-- The same change of each incoming block.
abbrev pub each_block : (ℕ → ℕ) → Option (List (List ℕ)) → Option (List (List ℕ))
each_block t none = none
each_block t (some p) = some (map (map t) p)

abbrev pub Phis : Type 0
Phis = ℕ → Option (List (List ℕ))

abbrev pub change_phis : ℕ → (ℕ → ℕ) → Phis → Phis
change_phis b t v c = if c == b then each_block t (v c) else v c

pub change_phis-at : (b : ℕ) (t : ℕ → ℕ) (v : Phis) → change_phis b t v b ≡ each_block t (v b)
change_phis-at b t v = if_true (b == b) _ _ (ground arith)

pub change_phis-other : (b c : ℕ) (t : ℕ → ℕ) (v : Phis) → c ≢ b → change_phis b t v c ≡ v c
change_phis-other b c t v h = if_false (c == b) _ _ (ground (arith, h))

-- A change of a block's instructions that, where it succeeds, does this to the incoming blocks.
abbrev pub ChangesPhis : (List Inst → Result (List Inst)) → (ℕ → ℕ) → Type 0
ChangesPhis g t = (insts out : List Inst) → g insts ≡ ok out → phis out ≡ map (map t) (phis insts)

pub on_block-phis :
    (b : ℕ) (g : List Inst → Result (List Inst)) (t : ℕ → ℕ) (f f' : Func)
    → ChangesPhis g t
    → on_block b g f ≡ ok f'
    → phis_of f' ≡ change_phis b t (phis_of f)
unfolding on_block phis_of
on_block-phis b g t f f' change run = elim (Option-cases (block_of b f)) [
  | inl missing ↦ cc (
      ap
        (λ o. elim o as (λ _. Result Func) [
          | none ↦ undefined
          | some insts ↦ g insts >>= (λ new. ok (set_block b new f))
        ])
        (sym missing)
      ∙ run)
  | inr (insts, found) ↦
      let changed : (g insts >>= (λ new. ok (set_block b new f))) ≡ ok f' =
        ap
          (λ o. elim o as (λ _. Result Func) [
            | none ↦ undefined
            | some insts ↦ g insts >>= (λ new. ok (set_block b new f))
          ])
          (sym found)
        ∙ run in
      let (out, at, done) = step_inv (g insts) (λ new. ok (set_block b new f)) f' changed in
      let same : set_block b out f ≡ f' = ok-inj _ _ done in
      ap (λ k c. phis_in (block_of c k)) (sym same)
      ∙ (fun_ext λ c. elim (Bool-cases (c == b)) [
        | inl here ↦
            let c_is_b : c ≡ b = ground (arith, here) in
            rw (block_of-set_block b c insts out f found, here)
              (ap some (change insts out at)
                ∙ sym (
                    ap (λ d. each_block t (phis_in (block_of d f))) c_is_b
                    ∙ ap (λ o. each_block t (phis_in o)) found))
        | inr away ↦ rw (block_of-set_block b c insts out f found, away) refl
      ])
]

map_snd-map :
    (t : ℕ → ℕ) (u : ℕ → ℕ) (incoming : List (ℕ × ℕ))
    → map (λ (p : ℕ × ℕ). p.1) (map (λ (p : ℕ × ℕ). (u p.0, t p.1)) incoming)
      ≡ map t (map (λ (p : ℕ × ℕ). p.1) incoming)
map_snd-map t u [] = refl
map_snd-map t u (p ∷ incoming) = ap (◌∷◌ (t p.1)) (map_snd-map t u incoming)

phis-remap :
    (values blocks : ℕ → Option ℕ) (insts : List Inst)
    → phis (map (remap_instruction values blocks) insts) ≡ map (map (mapped blocks)) (phis insts)
unfolding remap_instruction
phis-remap values blocks [] = refl
phis-remap values blocks (phi id incoming ∷ insts) =
    ap (λ l. l ∷ phis (map (remap_instruction values blocks) insts))
      (map_snd-map (mapped blocks) (mapped values) incoming)
    ∙ ap (◌∷◌ (map (mapped blocks) (map (λ (p : ℕ × ℕ). p.1) incoming)))
        (phis-remap values blocks insts)
phis-remap values blocks (br id condition next ∷ insts) = refl
phis-remap values blocks (other id vs bs ∷ insts) = refl

pub remap-ChangesPhis :
    (values blocks : ℕ → Option ℕ)
    → ChangesPhis (λ insts. ok (map (remap_instruction values blocks) insts)) (mapped blocks)
remap-ChangesPhis values blocks insts out run =
    ap phis (sym (ok-inj _ _ run)) ∙ phis-remap values blocks insts

-- The incoming block that fix_phis puts in.
abbrev pub fixed : Option ℕ → ℕ → ℕ → ℕ
fixed old new b = if is_block old b then new else b

pub fix_phis-ChangesPhis :
    (old : Option ℕ) (new : ℕ) → ChangesPhis (fix_phis old new) (fixed old new)
unfolding fix_phis
fix_phis-ChangesPhis old new [] out run = cc run
fix_phis-ChangesPhis old new (phi id incoming ∷ insts) out run =
    let (rest, at, done) = step_inv (fix_phis old new insts) _ out run in
    ap phis (sym (ok-inj _ _ done))
    ∙ ap (λ l. l ∷ phis rest) (map_snd-map (fixed old new) (λ v. v) incoming)
    ∙ ap (◌∷◌ (map (fixed old new) (map (λ (p : ℕ × ℕ). p.1) incoming)))
        (fix_phis-ChangesPhis old new insts rest at)
fix_phis-ChangesPhis old new (br id condition next ∷ insts) out run = ap phis (sym (ok-inj _ _ run))
fix_phis-ChangesPhis old new (other id vs bs ∷ insts) out run = ap phis (sym (ok-inj _ _ run))

blocks_same : (xs : List ℕ) → xs ≡ map (λ b. b) xs
blocks_same [] = refl
blocks_same (x ∷ xs) = ap (◌∷◌ x) (blocks_same xs)

lists_same : (xs : List (List ℕ)) → xs ≡ map (map (λ (b : ℕ). b)) xs
lists_same [] = refl
lists_same (x ∷ xs) = ap (λ l. l ∷ xs) (blocks_same x) ∙ ap (◌∷◌ (map (λ b. b) x)) (lists_same xs)

terminator_phis :
    (g : List ℕ → Result (List ℕ)) (insts out : List Inst)
    → on_terminator g insts ≡ ok out
    → phis out ≡ phis insts
unfolding on_terminator
terminator_phis g [] out run = cc run
terminator_phis g (phi id incoming ∷ []) out run = cc run
terminator_phis g (br id condition next ∷ []) out run =
    let (new, at, done) = step_inv (g next) _ out run in ap phis (sym (ok-inj _ _ done))
terminator_phis g (other id vs bs ∷ []) out run = cc run
terminator_phis g (phi id incoming ∷ j ∷ insts) out run =
    let (rest, at, done) = step_inv (on_terminator g (j ∷ insts)) _ out run in
    ap phis (sym (ok-inj _ _ done))
    ∙ ap (◌∷◌ (map (λ (p : ℕ × ℕ). p.1) incoming)) (terminator_phis g (j ∷ insts) rest at)
terminator_phis g (br id condition next ∷ j ∷ insts) out run =
    let (rest, at, done) = step_inv (on_terminator g (j ∷ insts)) _ out run in
    ap phis (sym (ok-inj _ _ done))
terminator_phis g (other id vs bs ∷ j ∷ insts) out run =
    let (rest, at, done) = step_inv (on_terminator g (j ∷ insts)) _ out run in
    ap phis (sym (ok-inj _ _ done))

change_phis-same : (b : ℕ) (v : Phis) → change_phis b (λ a. a) v ≡ v
change_phis-same b v =
    fun_ext
      λ c. elim (Bool-cases (c == b)) [ inl at ↦ rw (at) (same (v c)) | inr away ↦ rw (away) refl ]
  where
    same : (o : Option (List (List ℕ))) → each_block (λ a. a) o ≡ o
    same none = refl
    same (some p) = ap some (sym (lists_same p))

-- A change of a terminator keeps the phis.
pub on_terminator-phis :
    (b : ℕ) (g : List ℕ → Result (List ℕ)) (f f' : Func)
    → on_block b (on_terminator g) f ≡ ok f'
    → phis_of f' ≡ phis_of f
on_terminator-phis b g f f' run =
    on_block-phis b (on_terminator g) (λ a. a) f f'
      (λ insts out at. terminator_phis g insts out at ∙ lists_same (phis insts)) run
    ∙ change_phis-same b (phis_of f)

pub phis-unnumbered :
    (xs ys : List Inst) → map unnumbered xs ≡ map unnumbered ys → phis xs ≡ phis ys
phis-unnumbered xs ys h = sym (phis_numbers xs) ∙ ap phis h ∙ phis_numbers ys
  where
    phis_numbers : (zs : List Inst) → phis (map unnumbered zs) ≡ phis zs
    phis_numbers [] = refl
    phis_numbers (phi id incoming ∷ zs) =
        ap (◌∷◌ (map (λ (p : ℕ × ℕ). p.1) incoming)) (phis_numbers zs)
    phis_numbers (br id condition next ∷ zs) = refl
    phis_numbers (other id vs bs ∷ zs) = refl
