-- ===== src/Loops.antt =====
-- What the passes read of a function: LLVM's loops, blocks and instructions. The kind of an
-- instruction, its users and the answers of DependenceAnalysis are LLVM's, and so parameters.
use llvm_loop_fission.Base.{ℕ, Bool, List, Option}

-- The instruction classes that the passes test by `isa`.
pub data Kind : Type 0 where
  load store call return switch invoke indirect_br branch phi other : Kind

pub record Block : Type 0 where
  pub id : ℕ
  pub insts : List ℕ

mutual
  -- A loop with its number, its header's number, its blocks and its subloops.
  pub data Loop : Type 0 where
    loop : ℕ → ℕ → List Block → Loops → Loop

  pub data Loops : Type 0 where
    nil : Loops
    cons : Loop → Loops → Loops

-- The bits of Dependence::DVEntry that DG tests: LT, EQ, GT.
pub record Direction : Type 0 where
  pub lt : Bool
  pub eq : Bool
  pub gt : Bool

-- The code of LLVM that DG calls. A user that is no instruction is `none`; `depends` is the
-- direction at the last level, if `DA->depends(src, dst, true)` finds a dependence.
pub record Llvm : Type 0 where
  pub kind : ℕ → Kind
  pub users : ℕ → List (Option ℕ)
  pub depends : ℕ → ℕ → Option Direction
