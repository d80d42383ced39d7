-- ===== src/Split/Create.antt =====
-- CreateOneLoop of lib/splitpass/splitpass2.cpp and the copies that runOnFunction makes with it.
-- CloneBasicBlock, getExitBlock and getLoopPredecessor are LLVM's.
pub mod Chain
pub mod Connect
pub mod Copies
pub mod Copying
pub mod Exits
pub mod Flow
pub mod Incoming
pub mod Links
pub mod Loop
pub mod Ready
pub mod Straight
use llvm_loop_fission.Base.{
  ℕ, zero, suc, ◌-◌, Bool, true, false, List, [], ◌∷◌, ◌++◌, map, Option, none, some, if◌then◌else◌,
  ◌==◌, leb, length, Result, ok, undefined, ◌>>=◌,
}
use llvm_loop_fission.Dg.{put}
use llvm_loop_fission.Split.{map_insts}
use llvm_loop_fission.Split.Cfg.{
  Inst, inst_id, Func, block_of, on_block, remap_instruction, fix_phis, on_terminator,
  set_successor, replace,
}

-- What CloneBasicBlock returns: the address of the new block, its instructions, and VMap.
pub record Clone : Type 0 where
  pub id : ℕ
  pub insts : List Inst
  pub vmap : ℕ → Option ℕ

pub record Llvm : Type 0 where
  pub clone_block : Func → List Inst → Clone
  pub exit_block : Func → List ℕ → Option ℕ
  pub loop_predecessor : Func → List ℕ → Option ℕ

-- What the first loop of CreateOneLoop builds: the function, new_body, LastValueMap and instMap.
pub record Copy : Type 0 where
  pub func : Func
  pub new_body : List ℕ
  pub values : ℕ → Option ℕ
  pub blocks : ℕ → Option ℕ
  pub inst_map : ℕ → Option ℕ

-- LastValueMap with the entries of VMap.
abbrev pub over : (ℕ → Option ℕ) → (ℕ → Option ℕ) → ℕ → Option ℕ
over vmap values v = elim (vmap v) [ none ↦ values v | some new ↦ some new ]

module _ (llvm : Llvm) where
  abbrev pub add_copy : ℕ → List Inst → Clone → Copy → Copy
  add_copy b insts new copy = record {
    func = copy.func ++ (new.id, new.insts) ∷ [];
    new_body = copy.new_body ++ new.id ∷ [];
    values = over new.vmap copy.values;
    blocks = put copy.blocks b new.id;
    inst_map = map_insts (map inst_id new.insts) (map inst_id insts) copy.inst_map;
  }

  pub copy_blocks : List ℕ → Copy → Result Copy
  copy_blocks [] copy = ok copy
  copy_blocks (b ∷ body) copy = elim (block_of b copy.func) [
    | none ↦ undefined
    | some insts ↦ copy_blocks body (add_copy b insts (llvm.clone_block copy.func insts) copy)
  ]

-- The loop over new_body that calls remapInstruction.
pub remap_blocks : (ℕ → Option ℕ) → (ℕ → Option ℕ) → List ℕ → Func → Result Func
remap_blocks values blocks [] f = ok f
remap_blocks values blocks (n ∷ new_body) f = do
  next ← on_block n (λ insts. ok (map (remap_instruction values blocks) insts)) f
  remap_blocks values blocks new_body next

-- new_body[new_body.size() - 1]
abbrev pub last_of : ℕ → List ℕ → ℕ
last_of n [] = n
last_of n (m ∷ ns) = last_of m ns

-- Each block's first successor becomes the next block.
pub link_blocks : ℕ → List ℕ → Func → Result Func
link_blocks n [] f = ok f
link_blocks n (m ∷ ns) f = do
  next ← on_block n (on_terminator (set_successor m)) f
  link_blocks m ns next

-- The phis, the back edge, the links and the header's exit, for the copy of a loop.
pub connect : ℕ → List ℕ → Option ℕ → Option ℕ → Copy → Result Func
connect header [] preheader exit copy = undefined
connect header (n ∷ ns) preheader none copy = undefined
connect header (n ∷ ns) preheader (some exit) copy = do
  remapped ← remap_blocks copy.values copy.blocks (n ∷ ns) copy.func
  entered ← on_block n (fix_phis preheader header) remapped
  left ← on_block exit (fix_phis (some header) n) entered
  closed ← on_block (last_of n ns) (on_terminator (set_successor n)) left
  linked ← link_blocks n ns closed
  on_block header (on_terminator (λ successors. ok (replace exit n successors))) linked

module _ (llvm : Llvm) where
  -- SplitPass2::CreateOneLoop, for a loop by its blocks, the header first: the function, the blocks of
  -- the new loop and instMap.
  pub create_one_loop : List ℕ → Func → (ℕ → Option ℕ) → Result (Func × List ℕ × (ℕ → Option ℕ))
  create_one_loop [] f inst_map = undefined
  create_one_loop (header ∷ body) f inst_map = do
    copy ← copy_blocks llvm (header ∷ body) (record {
      func = f;
      new_body = [];
      values = λ _. none;
      blocks = λ _. none;
      inst_map = inst_map;
    })
    connected ←
        connect header copy.new_body (llvm.loop_predecessor f (header ∷ body))
          (llvm.exit_block f (header ∷ body)) copy
    ok (connected, copy.new_body, copy.inst_map)

  -- The loop of runOnFunction that makes the copies: the function, `loops` and `loops_map`.
  pub create_loops : ℕ → List ℕ → Func → Result (Func × List (List ℕ × (ℕ → Option ℕ)))
  create_loops zero body f = ok (f, [])
  create_loops (suc n) body f = do
    (next, new_body, inst_map) ← create_one_loop body f (λ _. none)
    (done, loops) ← create_loops n body next
    ok (done, (new_body, inst_map) ∷ loops)
