-- ===== src/Split/Cfg.antt =====
-- The blocks and instructions of a function, as CreateOneLoop of lib/splitpass/splitpass2.cpp changes
-- them. The order of the blocks in a function is kept.
pub mod Phis
pub mod Views
use llvm_loop_fission.Base.{
  ℕ, Bool, true, false, List, [], ◌∷◌, ◌++◌, map, Option, none, some, if◌then◌else◌, ◌==◌, Result,
  ok, undefined, aborted, ◌>>=◌,
}

-- A phi has its incoming values and blocks, a branch its condition and its successors, any other
-- instruction its operands that are values and those that are blocks.
pub data Inst : Type 0 where
  phi : ℕ → List (ℕ × ℕ) → Inst
  br : ℕ → List ℕ → List ℕ → Inst
  other : ℕ → List ℕ → List ℕ → Inst

abbrev pub inst_id : Inst → ℕ
inst_id (phi id incoming) = id
inst_id (br id condition successors) = id
inst_id (other id values blocks) = id

abbrev pub Func : Type 0
Func = List (ℕ × List Inst)

unfoldable pub block_of : ℕ → Func → Option (List Inst)
block_of b [] = none
block_of b ((c, insts) ∷ f) = if b == c then some insts else block_of b f

pub set_block : ℕ → List Inst → Func → Func
set_block b new [] = []
set_block b new ((c, insts) ∷ f) = if b == c then (c, new) ∷ f else (c, insts) ∷ set_block b new f

-- A change of the instructions of a block; a block that is not there is a dangling pointer.
pub on_block : ℕ → (List Inst → Result (List Inst)) → Func → Result Func
on_block b change f = elim (block_of b f) [
  | none ↦ undefined
  | some insts ↦ change insts >>= (λ new. ok (set_block b new f))
]

-- VMap[old], or the value itself where there is no entry.
abbrev pub mapped : (ℕ → Option ℕ) → ℕ → ℕ
mapped vmap old = elim (vmap old) [ none ↦ old | some new ↦ new ]

-- SplitPass2::remapInstruction; LastValueMap's values and its blocks.
pub remap_instruction : (ℕ → Option ℕ) → (ℕ → Option ℕ) → Inst → Inst
remap_instruction values blocks (phi id incoming) =
    phi id (map (λ (p : ℕ × ℕ). (mapped values p.0, mapped blocks p.1)) incoming)
remap_instruction values blocks (br id condition successors) =
    br id (map (mapped values) condition) (map (mapped blocks) successors)
remap_instruction values blocks (other id operands block_operands) =
    other id (map (mapped values) operands) (map (mapped blocks) block_operands)

abbrev pub is_block : Option ℕ → ℕ → Bool
is_block none b = false
is_block (some a) b = b == a

-- setIncomingBlock for each phi of a block's front whose incoming block is the given one.
pub fix_phis : Option ℕ → ℕ → List Inst → Result (List Inst)
fix_phis old new [] = undefined
fix_phis old new (phi id incoming ∷ insts) = do
  rest ← fix_phis old new insts
  ok (phi id (map (λ (p : ℕ × ℕ). (p.0, if is_block old p.1 then new else p.1)) incoming) ∷ rest)
fix_phis old new (br id condition successors ∷ insts) = ok (br id condition successors ∷ insts)
fix_phis old new (other id values blocks ∷ insts) = ok (other id values blocks ∷ insts)

-- cast<BranchInst>(getTerminator()), and a change of its successors.
pub on_terminator : (List ℕ → Result (List ℕ)) → List Inst → Result (List Inst)
on_terminator change [] = aborted
on_terminator change (phi id incoming ∷ []) = aborted
on_terminator change (br id condition successors ∷ []) = do
  new ← change successors
  ok (br id condition new ∷ [])
on_terminator change (other id values blocks ∷ []) = aborted
on_terminator change (i ∷ j ∷ insts) = do rest ← on_terminator change (j ∷ insts); ok (i ∷ rest)

-- setSuccessor(0, b), which asserts that there is one.
abbrev pub set_successor : ℕ → List ℕ → Result (List ℕ)
set_successor b [] = aborted
set_successor b (s ∷ successors) = ok (b ∷ successors)

abbrev pub replace : ℕ → ℕ → List ℕ → List ℕ
replace old new successors = map (λ s. if s == old then new else s) successors
