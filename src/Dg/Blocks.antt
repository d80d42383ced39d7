-- ===== src/Dg/Blocks.antt =====
-- Which loops DG::buildDG accepts, which instructions it takes, and in which order it visits loops.
use llvm_loop_fission.Base.{
  ℕ, ◌≡◌, refl, ap, sym, ◌∙◌, Bool, true, false, ◌&&◌, ◌||◌, not, List, [], ◌∷◌, ◌++◌, none, some,
  arith, ◌==◌, if◌then◌else◌,
}
use llvm_loop_fission.Loops.{Kind, Block, Loop, Loops, loop, nil, cons, Llvm}
use llvm_loop_fission.Dg.{
  is_barrier, is_branch, block_allowed, body_insts, Dg, build_innermost, build_dg, build_each,
  run_on_function,
}

-- The instructions of the blocks other than the header, block after block.
abbrev pub taken : ℕ → List Block → List ℕ
taken header [] = []
taken header (bb ∷ blocks) =
    if bb.id == header then taken header blocks else bb.insts ++ taken header blocks

-- Whether every block other than the header passes.
abbrev pub all_allowed : (List ℕ → Bool) → ℕ → List Block → Bool
all_allowed allowed header [] = true
all_allowed allowed header (bb ∷ blocks) =
    (bb.id == header || allowed bb.insts) && all_allowed allowed header blocks

-- No barrier anywhere, and a branch at the end only.
abbrev pub well_ended : (ℕ → Kind) → List ℕ → Bool
well_ended kind [] = true
well_ended kind (x ∷ []) = not (is_barrier (kind x))
well_ended kind (x ∷ y ∷ ys) =
    not (is_barrier (kind x)) && (not (is_branch (kind x)) && well_ended kind (y ∷ ys))

module _ (llvm : Llvm) where
  open llvm use {kind}

  block_allowed-ended : (xs : List ℕ) → block_allowed llvm xs ≡ well_ended kind xs
  unfolding block_allowed
  block_allowed-ended [] = refl
  block_allowed-ended (x ∷ []) = ground arith
  block_allowed-ended (x ∷ y ∷ ys) = ground (arith, block_allowed-ended (y ∷ ys))

  -- Of any blocks: buildDG goes on exactly if every block but the header has no call, return,
  -- switch, invoke or indirect branch, and a branch as its last instruction at most; it then goes on
  -- with the instructions of these blocks, all of them and in their order.
  pub body_insts_lem :
      (header : ℕ) (blocks : List Block)
      → body_insts llvm header blocks
        ≡ (if all_allowed (well_ended kind) header blocks then some (taken header blocks) else none)
  unfolding body_insts
  body_insts_lem header [] = refl
  body_insts_lem header (bb ∷ blocks) =
      ground (arith, body_insts_lem header blocks, block_allowed-ended bb.insts)

-- The innermost loops below a loop, the first subloop's before the second's.
mutual
  pub innermost : Loop → List (ℕ × ℕ × List Block)
  innermost (loop l header blocks nil) = (l, header, blocks) ∷ []
  innermost (loop l header blocks (cons sub subs)) = innermost sub ++ innermost_each subs

  pub innermost_each : Loops → List (ℕ × ℕ × List Block)
  innermost_each nil = []
  innermost_each (cons sub subs) = innermost sub ++ innermost_each subs

abbrev pub build_list : Llvm → List (ℕ × ℕ × List Block) → Dg → Dg
build_list llvm [] dg = dg
build_list llvm ((l, header, blocks) ∷ ls) dg =
    build_list llvm ls (build_innermost llvm l (body_insts llvm header blocks) dg).0

build_list-append :
    (llvm : Llvm) (xs ys : List (ℕ × ℕ × List Block)) (dg : Dg)
    → build_list llvm (xs ++ ys) dg ≡ build_list llvm ys (build_list llvm xs dg)
build_list-append llvm [] ys dg = refl
build_list-append llvm ((l, header, blocks) ∷ xs) ys dg =
    build_list-append llvm xs ys (build_innermost llvm l (body_insts llvm header blocks) dg).0

mutual
  unfolding build_dg innermost

  pub build_dg_lem :
      (llvm : Llvm) (l : Loop) (dg : Dg) → (build_dg llvm l dg).0 ≡ build_list llvm (innermost l) dg
  build_dg_lem llvm (loop l header blocks nil) dg = refl
  build_dg_lem llvm (loop l header blocks (cons sub subs)) dg =
      ap (build_each llvm subs) (build_dg_lem llvm sub dg)
      ∙ (build_each_lem llvm subs (build_list llvm (innermost sub) dg)
          ∙ sym (build_list-append llvm (innermost sub) (innermost_each subs) dg))

  pub build_each_lem :
      (llvm : Llvm) (ls : Loops) (dg : Dg)
      → build_each llvm ls dg ≡ build_list llvm (innermost_each ls) dg
  build_each_lem llvm nil dg = refl
  build_each_lem llvm (cons sub subs) dg =
      ap (build_each llvm subs) (build_dg_lem llvm sub dg)
      ∙ (build_each_lem llvm subs (build_list llvm (innermost sub) dg)
          ∙ sym (build_list-append llvm (innermost sub) (innermost_each subs) dg))

-- The innermost loops of a function: below the loops that have no parent.
abbrev pub innermost_loops : List (Bool × Loop) → List (ℕ × ℕ × List Block)
innermost_loops [] = []
innermost_loops ((has_parent, l) ∷ ls) =
    if has_parent then innermost_loops ls else innermost l ++ innermost_loops ls

-- Of any function: the recursion over subloops analyses exactly the innermost loops, each as often
-- as the forest below the loops without a parent holds it, from left to right, and a loop that is
-- refused stops neither its siblings nor its parent.
pub run_on_function_lem :
    (llvm : Llvm) (ls : List (Bool × Loop)) (dg : Dg)
    → run_on_function llvm ls dg ≡ build_list llvm (innermost_loops ls) dg
unfolding run_on_function
run_on_function_lem llvm [] dg = refl
run_on_function_lem llvm ((true, l) ∷ ls) dg = run_on_function_lem llvm ls dg
run_on_function_lem llvm ((false, l) ∷ ls) dg =
    ap (run_on_function llvm ls) (build_dg_lem llvm l dg)
    ∙ (run_on_function_lem llvm ls (build_list llvm (innermost l) dg)
        ∙ sym (build_list-append llvm (innermost l) (innermost_loops ls) dg))
