-- ===== src/LampPass/Reader/Ids.antt =====
-- The numbers that LAMPLoadProfile gives to the instructions of a module, and those in the hooks.
use llvm_loop_fission.Base.{
  ℕ, suc, ◌+◌, ◌^◌, ◌<◌, ◌≡◌, refl, ap, sym, ◌∙◌, false, List, [], ◌∷◌, ◌++◌, map, flatten, some,
  arith, length, All, Bool-cases, inl, inr, Distinct, elem, ℕ_discrete, if◌then◌else◌,
}
use llvm_loop_fission.LampPass.{
  InstKind, load, store, call, phi, alloca, terminator, other, Inst, Function,
}
use llvm_loop_fission.LampPass.Profiled.{
  is_profiled, profiled, profiled-append, module_insts, numbered,
}
use llvm_loop_fission.LampPass.Instrument.Ids.{last_id}
use llvm_loop_fission.LampPass.Reader.{
  InstIds, add_id, map_inst, map_block, map_function, map_module,
}

pub add_ids : List Inst → InstIds → InstIds
add_ids [] ids = ids
add_ids (i ∷ insts) ids = add_ids insts (add_id i.id ids)

add_ids-append :
    (xs ys : List Inst) (ids : InstIds) → add_ids (xs ++ ys) ids ≡ add_ids ys (add_ids xs ids)
unfolding add_ids
add_ids-append [] ys ids = refl
add_ids-append (i ∷ xs) ys ids = add_ids-append xs ys (add_id i.id ids)

map_inst_lem :
    (i : Inst) (kind : InstKind) (ids : InstIds)
    → map_inst i kind ids ≡ (if is_profiled kind then add_id i.id ids else ids)
unfolding map_inst
map_inst_lem i (load p ty) ids = refl
map_inst_lem i (store p v ty) ids = refl
map_inst_lem i (call callee) ids = refl
map_inst_lem i phi ids = refl
map_inst_lem i alloca ids = refl
map_inst_lem i terminator ids = refl
map_inst_lem i other ids = refl

map_block_lem :
    (insts : List Inst) (ids : InstIds) → map_block insts ids ≡ add_ids (profiled insts) ids
unfolding map_block add_ids
map_block_lem [] ids = refl
map_block_lem (i ∷ insts) ids =
    let here =
      map_block_lem insts (map_inst i i.kind ids)
      ∙ ap (add_ids (profiled insts)) (map_inst_lem i i.kind ids) in
    elim (Bool-cases (is_profiled i.kind)) [
      | inl with_hook ↦ rw (with_hook) (here ∙ ap (add_ids (profiled insts)) (rw (with_hook) refl))
      | inr without ↦ rw (without) (here ∙ ap (add_ids (profiled insts)) (rw (without) refl))
    ]

map_function_lem :
    (blocks : List (List Inst)) (ids : InstIds)
    → map_function blocks ids ≡ add_ids (profiled (flatten blocks)) ids
unfolding map_function mathlib.Core.List.flatten add_ids
map_function_lem [] ids = refl
map_function_lem (bb ∷ blocks) ids =
    map_function_lem blocks (map_block bb ids)
    ∙ ap (add_ids (profiled (flatten blocks))) (map_block_lem bb ids)
    ∙ sym (add_ids-append (profiled bb) (profiled (flatten blocks)) ids)
    ∙ ap (λ t. add_ids t ids) (sym (profiled-append bb (flatten blocks)))

pub map_module_lem :
    (m : List Function) (ids : InstIds) → map_module m ids ≡ add_ids (profiled (module_insts m)) ids
unfolding map_module add_ids
map_module_lem [] ids = refl
map_module_lem (f ∷ m) ids = elim (Bool-cases f.is_declaration) [
  | inl declaration ↦ rw (declaration) (map_module_lem m ids)
  | inr body ↦ rw (body) (
      map_module_lem m (map_function f.blocks ids)
      ∙ ap (add_ids (profiled (module_insts m))) (map_function_lem f.blocks ids)
      ∙ sym (add_ids-append (profiled (flatten f.blocks)) (profiled (module_insts m)) ids)
      ∙ ap (λ t. add_ids t ids) (sym (profiled-append (flatten f.blocks) (module_insts m))))
]

-- The numbers and the instructions that are not among the new ones keep their entries.
add_ids-below :
    (insts : List Inst) (n : ℕ) (ids : InstIds) (k : ℕ)
    → ids.lamp_id ≡ last_id n
    → n + length insts < 2 ^ 32
    → k < n
    → (add_ids insts ids).id_to_inst k ≡ ids.id_to_inst k
unfolding add_ids
add_ids-below [] n ids k at h less = refl
add_ids-below (i ∷ insts) n ids k at h less =
    add_ids-below insts (suc n) (add_id i.id ids) k (omega (arith, at, h)) (omega (arith, h))
      (omega (arith, less))
    ∙ ground (arith, at, h, less)

add_ids-outside :
    (insts : List Inst) (ids : InstIds) (inst : ℕ)
    → elem ℕ_discrete inst (map (λ (i : Inst). i.id) insts) ≡ false
    → (add_ids insts ids).inst_to_id inst ≡ ids.inst_to_id inst
unfolding add_ids
add_ids-outside [] ids inst h = refl
add_ids-outside (i ∷ insts) ids inst h =
    add_ids-outside insts (add_id i.id ids) inst (ground (arith, h))
    ∙ ground (arith, h, ℕ_discrete inst i.id)

-- The maps send a number and an instruction to each other.
abbrev pub IsIdOf : InstIds → ℕ × Inst → Type 0
IsIdOf ids (k, i) = (ids.id_to_inst k ≡ some i.id) × (ids.inst_to_id i.id ≡ some k)

pub add_ids-IsIdOf :
    (insts : List Inst) (n : ℕ) (ids : InstIds)
    → Distinct ℕ_discrete (map (λ (i : Inst). i.id) insts)
    → ids.lamp_id ≡ last_id n
    → n + length insts < 2 ^ 32
    → All (IsIdOf (add_ids insts ids)) (numbered n insts)
unfolding add_ids
add_ids-IsIdOf [] n ids d at h = tt
add_ids-IsIdOf (i ∷ insts) n ids d at h =
    let ids' = add_id i.id ids in
    let new : ids'.lamp_id ≡ n = omega (arith, at, h) in
    let next : ids'.lamp_id ≡ last_id (suc n) = omega (arith, new, h) in
    (
      (
        add_ids-below insts (suc n) ids' n next (omega (arith, h)) (omega arith)
            ∙ ground (arith, new),
        add_ids-outside insts ids' i.id d.0 ∙ ground (arith, new),
      ),
      add_ids-IsIdOf insts (suc n) ids' d.1 next (omega (arith, h)),
    )
