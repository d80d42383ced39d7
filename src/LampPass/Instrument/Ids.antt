-- ===== src/LampPass/Instrument/Ids.antt =====
-- The numbers that LAMPProfiler gives to the instructions of a module.
use llvm_loop_fission.Base.{
  ℕ, suc, ◌+◌, ◌%◌, ◌^◌, ◌<◌, ◌≡◌, refl, ap, sym, subst, ◌∙◌, List, [], ◌∷◌, ◌++◌, append_assoc,
  flatten, map, Option, none, some, if◌then◌else◌, length, length-append, arith, Bool-cases, inl,
  inr, if_true, if_false,
}
use llvm_loop_fission.LampPass.{
  Ty, float, double, pointer, integer, other_type, InstKind, load, store, call, indirect, declared,
  has_body, phi, alloca, terminator, other, Inst, Function,
}
use llvm_loop_fission.LampPass.Profiled.{
  is_profiled, profiled, profiled-append, module_insts, numbered, numbered-append,
}
use llvm_loop_fission.LampPass.Instrument.{
  memory, register, Item, source, hook, cast_value, hooks_of, next_id, instrument_block,
  instrument_function, instrument_module, first_instruction_id,
}

-- The hooks for a memory access or a call, each with the instruction of the module that comes next.
abbrev pub take_target : Option ℕ → Inst → List (ℕ × Inst) → List (ℕ × Inst)
take_target none i rest = rest
take_target (some id) i rest = (id, i) ∷ rest

pub hook_targets : Option ℕ → List Item → List (ℕ × Inst)
hook_targets pending [] = []
hook_targets pending (source i ∷ items) = take_target pending i (hook_targets none items)
hook_targets pending (hook (memory index) (id ∷ args) ∷ items) = hook_targets (some id) items
hook_targets pending (hook register (id ∷ args) ∷ items) = hook_targets (some id) items
hook_targets pending (_ ∷ items) = hook_targets pending items

-- `instruction_id` after n instructions have got their numbers.
abbrev pub last_id : ℕ → ℕ
last_id n = (n + 4294967295) % 2 ^ 32

module _ (size_in_bits : Ty → ℕ) where
  cast_value-targets :
      (v : ℕ) (ty : Ty) (pending : Option ℕ) (items : List Item)
      → hook_targets pending (cast_value size_in_bits v ty ++ items) ≡ hook_targets pending items
  unfolding cast_value hook_targets
  cast_value-targets v float pending items = refl
  cast_value-targets v double pending items = refl
  cast_value-targets v pointer pending items = refl
  cast_value-targets v (integer n) pending items = ground arith
  cast_value-targets v (other_type n) pending items = ground arith

  -- The number of an instruction, after n numbers.
  next_id-last_id :
      (kind : InstKind) (n : ℕ)
      → n < 2 ^ 32
      → next_id size_in_bits kind (last_id n) ≡ (if is_profiled kind then n else last_id n)
  unfolding next_id
  next_id-last_id (load p ty) n h = omega (arith, h)
  next_id-last_id (store p v ty) n h = omega (arith, h)
  next_id-last_id (call indirect) n h = omega (arith, h)
  next_id-last_id (call declared) n h = omega (arith, h)
  next_id-last_id (call has_body) n h = refl
  next_id-last_id phi n h = refl
  next_id-last_id alloca n h = refl
  next_id-last_id terminator n h = refl
  next_id-last_id other n h = refl

  -- The hooks of an instruction, with the number they carry.
  hooks_of-targets :
      (i : Inst) (kind : InstKind) (id : ℕ) (items : List Item)
      → hook_targets none (hooks_of size_in_bits kind id ++ source i ∷ items)
        ≡ (if is_profiled kind then (id, i) ∷ hook_targets none items else hook_targets none items)
  unfolding hooks_of hook_targets
  hooks_of-targets i (load p ty) id items = refl
  hooks_of-targets i (store p v ty) id items =
      ap (hook_targets none) (append_assoc (cast_value size_in_bits v ty) _ _)
      ∙ cast_value-targets v ty none _
  hooks_of-targets i (call indirect) id items = refl
  hooks_of-targets i (call declared) id items = refl
  hooks_of-targets i (call has_body) id items = refl
  hooks_of-targets i phi id items = refl
  hooks_of-targets i alloca id items = refl
  hooks_of-targets i terminator id items = refl
  hooks_of-targets i other id items = refl

  -- A block, after n numbers.
  pub instrument_block-targets :
      (insts : List Inst) (n id : ℕ) (items : List Item)
      → id ≡ last_id n
      → n + length (profiled insts) < 2 ^ 32
      → (hook_targets none ((instrument_block size_in_bits insts id).0 ++ items)
          ≡ numbered n (profiled insts) ++ hook_targets none items)
        × ((instrument_block size_in_bits insts id).1 ≡ last_id (n + length (profiled insts)))
  unfolding instrument_block
  instrument_block-targets [] n id items at h = (refl, omega (arith, at))
  instrument_block-targets (i ∷ insts) n id items at h =
      let next = next_id size_in_bits i.kind id in
      let block = instrument_block size_in_bits insts next in
      let here =
        ap (hook_targets none) (append_assoc (hooks_of size_in_bits i.kind next) _ items)
        ∙ hooks_of-targets i i.kind next (block.0 ++ items) in
      let number =
        ap (next_id size_in_bits i.kind) at ∙ next_id-last_id i.kind n (ground (arith, h)) in
      elim (Bool-cases (is_profiled i.kind)) [
        | inl with_hook ↦
            let same : next ≡ n = number ∙ if_true _ _ _ with_hook in
            let size : suc n + length (profiled insts) < 2 ^ 32 = ground (arith, h, with_hook) in
            let ih =
              instrument_block-targets insts (suc n) next items (omega (arith, same, size)) size in
            rw (with_hook) (
              here
                  ∙ if_true _ _ _ with_hook
                  ∙ ap (λ k. (k, i) ∷ hook_targets none (block.0 ++ items)) same
                  ∙ ap (◌∷◌ (n, i)) ih.0,
              ih.1 ∙ omega arith,
            )
        | inr without ↦
            let same : next ≡ last_id n = number ∙ if_false _ _ _ without in
            let ih =
              instrument_block-targets insts n next items same (ground (arith, h, without)) in
            rw (without) (here ∙ if_false _ _ _ without ∙ ih.0, ih.1)
      ]

  pub instrument_function-targets :
      (blocks : List (List Inst)) (n id : ℕ) (items : List Item)
      → id ≡ last_id n
      → n + length (profiled (flatten blocks)) < 2 ^ 32
      → (hook_targets none (flatten (instrument_function size_in_bits blocks id).0 ++ items)
          ≡ numbered n (profiled (flatten blocks)) ++ hook_targets none items)
        × ((instrument_function size_in_bits blocks id).1
            ≡ last_id (n + length (profiled (flatten blocks))))
  unfolding instrument_function mathlib.Core.List.flatten
  instrument_function-targets [] n id items at h = (refl, omega (arith, at))
  instrument_function-targets (bb ∷ blocks) n id items at h =
      let done = instrument_block size_in_bits bb id in
      let rest = instrument_function size_in_bits blocks done.1 in
      let parts = profiled-append bb (flatten blocks) in
      let size = ap length parts ∙ length-append (profiled bb) (profiled (flatten blocks)) in
      let one =
        instrument_block-targets bb n id (flatten rest.0 ++ items) at (omega (arith, size, h)) in
      let more =
        instrument_function-targets blocks (n + length (profiled bb)) done.1 items one.1
          (omega (arith, size, h)) in
      (
        ap (hook_targets none) (append_assoc done.0 (flatten rest.0) items)
            ∙ one.0
            ∙ ap (λ t. numbered n (profiled bb) ++ t) more.0
            ∙ sym (append_assoc (numbered n (profiled bb)) _ (hook_targets none items))
            ∙ ap (λ t. t ++ hook_targets none items)
                (sym (numbered-append n (profiled bb) (profiled (flatten blocks)))
                  ∙ ap (numbered n) (sym parts)),
        more.1 ∙ omega (arith, size),
      )

  instrument_module-from :
      (m : List Function) (n id : ℕ)
      → id ≡ last_id n
      → n + length (profiled (module_insts m)) < 2 ^ 32
      → hook_targets none (flatten (map flatten (instrument_module size_in_bits m id).0))
        ≡ numbered n (profiled (module_insts m))
  unfolding instrument_module mathlib.Core.List.flatten hook_targets
  instrument_module-from [] n id at h = refl
  instrument_module-from (f ∷ m) n id at h = elim (Bool-cases f.is_declaration) [
    | inl declaration ↦
        rw (declaration) (instrument_module-from m n id at (ground (arith, h, declaration)))
    | inr body ↦
        let parts = profiled-append (flatten f.blocks) (module_insts m) in
        let size =
          ap length parts
          ∙ length-append (profiled (flatten f.blocks)) (profiled (module_insts m)) in
        let all =
          subst
            (λ b.
              n
                + length
                    (profiled (if b then module_insts m else flatten f.blocks ++ module_insts m))
              < 2 ^ 32)
            body h in
        let done = instrument_function size_in_bits f.blocks id in
        let rest = instrument_module size_in_bits m done.1 in
        let one =
          instrument_function-targets f.blocks n id (flatten (map flatten rest.0)) at
            (omega (arith, size, all)) in
        let more =
          instrument_module-from m (n + length (profiled (flatten f.blocks))) done.1 one.1
            (omega (arith, size, all)) in
        rw (body) (
          one.0
          ∙ ap (λ t. numbered n (profiled (flatten f.blocks)) ++ t) more
          ∙ sym (numbered-append n (profiled (flatten f.blocks)) (profiled (module_insts m)))
          ∙ ap (numbered n) (sym parts))
  ]

  -- For fewer than 2^32 loads, stores and external calls: LAMPProfiler puts exactly one call of a
  -- hook for a memory access or a call before each of them and before no other instruction, and their
  -- numbers are 0, 1, … in the order of the module.
  pub instrument_module_lem :
      (m : List Function)
      → length (profiled (module_insts m)) < 2 ^ 32
      → hook_targets none
          (flatten (map flatten (instrument_module size_in_bits m first_instruction_id).0))
        ≡ numbered 0 (profiled (module_insts m))
  instrument_module_lem m h =
      instrument_module-from m 0 first_instruction_id (omega arith) (omega (arith, h))
