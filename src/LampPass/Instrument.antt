-- ===== src/LampPass/Instrument.antt =====
-- lib/LAMPProfiling.cpp: the pass LAMPProfiler, which puts a call of a hook before every load, store
-- and external call. The passes of LLVM run a function pass on the functions that have a body.
pub mod Ids
use llvm_loop_fission.Base.{
  ℕ, ◌+◌, ◌%◌, ◌^◌, Bool, true, false, List, [], ◌∷◌, ◌++◌, if◌then◌else◌, ◌==◌,
}
use llvm_loop_fission.LampPass.{
  Ty, float, double, pointer, InstKind, load, store, call, Inst, Function, bump32, is_external,
}

-- The functions of the runtime that the passes call; `memory` is an entry of lampFuncs.
pub data Hook : Type 0 where
  memory : ℕ → Hook
  register init loop_invocation iteration_begin iteration_end loop_exit : Hook

-- An instruction of an instrumented block: one that was there, a cast or a load of the hook's
-- arguments, or the call of a hook with its constant arguments.
pub data Item : Type 0 where
  source : Inst → Item
  ptr_to_int fp_to_si sext copied_load : ℕ → Item
  hook : Hook → List ℕ → Item

module _ (size_in_bits : Ty → ℕ) where
  -- LAMPProfiler::getIndex
  pub get_index : Ty → ℕ
  get_index ty =
      let i = size_in_bits ty in
      if i == 8
      then 0
      else (if i == 16 then 1 else (if i == 32 then 2 else (if i == 64 then 3 else 0)))

  -- The value that a store passes on, as a 64-bit number.
  pub cast_value : ℕ → Ty → List Item
  cast_value v float = fp_to_si v ∷ []
  cast_value v double = fp_to_si v ∷ []
  cast_value v pointer = ptr_to_int v ∷ []
  cast_value v ty = if size_in_bits ty == 64 then [] else sext v ∷ []

  -- What is put before an instruction, for the next number.
  pub hooks_of : InstKind → ℕ → List Item
  hooks_of (load p ty) id =
      ptr_to_int p ∷ copied_load p ∷ hook (memory (get_index ty)) (id ∷ []) ∷ []
  hooks_of (store p v ty) id =
      ptr_to_int p ∷ cast_value v ty ++ hook (memory (get_index ty + 4)) (id ∷ []) ∷ []
  hooks_of (call callee) id = if is_external callee then hook register (id ∷ []) ∷ [] else []
  hooks_of _ id = []

  -- `++instruction_id`, for the instructions that have hooks.
  pub next_id : InstKind → ℕ → ℕ
  next_id (load p ty) id = bump32 id
  next_id (store p v ty) id = bump32 id
  next_id (call callee) id = if is_external callee then bump32 id else id
  next_id _ id = id

  -- The loop over a block: the number before it, and the block and the number after it.
  pub instrument_block : List Inst → ℕ → List Item × ℕ
  instrument_block [] id = ([], id)
  instrument_block (i ∷ insts) id =
      let next = next_id i.kind id in
      let rest = instrument_block insts next in (hooks_of i.kind next ++ source i ∷ rest.0, rest.1)

  -- LAMPProfiler::runOnFunction
  pub instrument_function : List (List Inst) → ℕ → List (List Item) × ℕ
  instrument_function [] id = ([], id)
  instrument_function (bb ∷ blocks) id =
      let done = instrument_block bb id in
      let rest = instrument_function blocks done.1 in (done.0 ∷ rest.0, rest.1)

  pub instrument_module : List Function → ℕ → List (List (List Item)) × ℕ
  instrument_module [] id = ([], id)
  instrument_module (f ∷ m) id =
      if f.is_declaration
      then (let rest = instrument_module m id in ([] ∷ rest.0, rest.1))
      else (let done = instrument_function f.blocks id in
          let rest = instrument_module m done.1 in (done.0 ∷ rest.0, rest.1))

-- `instruction_id` before the first function.
abbrev pub first_instruction_id : ℕ
first_instruction_id = 4294967295
