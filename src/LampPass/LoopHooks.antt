-- ===== src/LampPass/LoopHooks.antt =====
-- lib/LAMPProfiling.cpp: the pass LAMPLoopProfiler, which puts the hooks of a loop into its blocks,
-- and LAMPInit, which puts the call of LAMP_init into `main`.
pub mod Calls
pub mod Numbers
use llvm_loop_fission.Base.{
  ℕ, ◌+◌, ◌%◌, ◌^◌, Bool, true, false, List, [], ◌∷◌, ◌++◌, Option, none, some, if◌then◌else◌, ◌==◌,
  Result, ok, undefined, ◌>>=◌, elem, ℕ_discrete,
}
use llvm_loop_fission.LampPass.{
  InstKind, phi, alloca, terminator, Inst, Function, Counter, bump32, get_count_insts,
}
use llvm_loop_fission.LampPass.Instrument.{
  Hook, init, loop_invocation, iteration_begin, iteration_end, loop_exit, Item, source, hook,
}

-- The instructions of the blocks, which LLVM keeps.
abbrev pub Blocks : Type 0
Blocks = ℕ → List Item

-- What LLVM tells of a loop; no preheader or latch is `none`.
pub record LoopShape : Type 0 where
  pub header : ℕ
  pub preheader : Option ℕ
  pub latch : Option ℕ
  pub exit_blocks : List ℕ

-- numLoops, loop_id and IDInitFlag.
pub record LoopState : Type 0 where
  pub num_loops : ℕ
  pub loop_id : ℕ
  pub id_init_flag : Bool

abbrev pub new_loop_state : LoopState
new_loop_state = record { num_loops = 0; loop_id = 0; id_init_flag = false }

abbrev pub update : Blocks → ℕ → List Item → Blocks
update blocks b items c = if c == b then items else blocks c

-- In front of the terminator, which is the last instruction; an empty block takes the call alone.
pub before_terminator : Item → List Item → List Item
before_terminator new [] = new ∷ []
before_terminator new (i ∷ []) = new ∷ i ∷ []
before_terminator new (i ∷ j ∷ items) = i ∷ before_terminator new (j ∷ items)

abbrev pub is_phi : Item → Bool
is_phi (source i) = elim i.kind [ phi ↦ true | _ ↦ false ]
is_phi _ = false

abbrev pub is_alloca : Item → Bool
is_alloca (source i) = elim i.kind [ alloca ↦ true | _ ↦ false ]
is_alloca _ = false

-- In front of the first instruction of the header that is no phi; nowhere if there is none.
pub after_phis : Item → List Item → List Item
after_phis new [] = []
after_phis new (i ∷ items) = if is_phi i then i ∷ after_phis new items else new ∷ i ∷ items

-- The same for an exit block, whose end the source does not look for.
pub exit_calls : List Item → Result (List Item)
exit_calls [] = undefined
exit_calls (i ∷ items) = do
  rest ← if is_phi i then exit_calls items else ok items
  ok (if is_phi i then i ∷ rest else hook iteration_end [] ∷ hook loop_exit [] ∷ i ∷ rest)

-- The loop over the exit blocks; BBSet holds those that are done.
pub instrument_exits : List ℕ → List ℕ → Blocks → Result Blocks
instrument_exits [] bb_set blocks = ok blocks
instrument_exits (b ∷ exits) bb_set blocks =
    if elem ℕ_discrete b bb_set then instrument_exits exits bb_set blocks else (do
      items ← exit_calls (blocks b)
      instrument_exits exits (b ∷ bb_set) (update blocks b items))

-- A null preheader or latch is dereferenced.
abbrev pub at_block : Option ℕ → (List Item → List Item) → Blocks → Result Blocks
at_block none f blocks = undefined
at_block (some b) f blocks = ok (update blocks b (f (blocks b)))

-- The number of the next loop, and the state with it.
pub next_loop : Counter → LoopState → LoopState
next_loop counter s =
    let before =
      if s.id_init_flag then s.loop_id else (get_count_insts counter + 4294967295) % 2 ^ 32 in
    record { num_loops = bump32 s.num_loops; loop_id = bump32 before; id_init_flag = true }

-- LAMPLoopProfiler::runOnLoop; the counter gets the number of loops.
pub run_on_loop : LoopShape → Counter × LoopState × Blocks → Result (Counter × LoopState × Blocks)
run_on_loop lp (counter, s, blocks) = do
  let next = next_loop counter s
  entered ←
      at_block lp.preheader (before_terminator (hook loop_invocation (next.loop_id ∷ []))) blocks
  let begun = update entered lp.header (after_phis (hook iteration_begin []) (entered lp.header))
  ended ← at_block lp.latch (before_terminator (hook iteration_end [])) begun
  exited ← instrument_exits lp.exit_blocks [] ended
  ok (record counter { num_loops = next.num_loops }, next, exited)

pub run_on_loops :
    List LoopShape → Counter × LoopState × Blocks → Result (Counter × LoopState × Blocks)
run_on_loops [] s = ok s
run_on_loops (lp ∷ loops) s = do next ← run_on_loop lp s; run_on_loops loops next

-- In front of the first instruction that is no alloca; the end of the block is not looked for.
pub after_allocas : Item → List Item → Result (List Item)
after_allocas new [] = undefined
after_allocas new (i ∷ items) = do
  rest ← if is_alloca i then after_allocas new items else ok items
  ok (if is_alloca i then i ∷ rest else new ∷ i ∷ rest)

abbrev pub init_entry : Counter → List (List Item) → Result (List (List Item))
init_entry counter [] = undefined
init_entry counter (entry ∷ blocks) = do
  items ← after_allocas (hook init (get_count_insts counter ∷ counter.num_loops ∷ 1 ∷ 0 ∷ [])) entry
  ok (items ∷ blocks)

-- LAMPInit::runOnModule: the first function with the name `main`.
pub run_init : Counter → List (Bool × List (List Item)) → Result (List (Bool × List (List Item)))
run_init counter [] = ok []
run_init counter ((is_main, blocks) ∷ m) = do
  entry ← if is_main then init_entry counter blocks else ok blocks
  rest ← if is_main then ok m else run_init counter m
  ok ((is_main, entry) ∷ rest)
