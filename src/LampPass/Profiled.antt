-- ===== src/LampPass/Profiled.antt =====
-- The instructions of a module that have hooks, and LdStCallCounter's number of them.
use llvm_loop_fission.Base.{
  ℕ, suc, ◌+◌, ◌^◌, ◌<◌, ◌≡◌, refl, ap, subst, ◌∙◌, Bool, true, false, List, [], ◌∷◌, ◌++◌, flatten,
  if◌then◌else◌, length, length-append, arith, Bool-cases, inl, inr,
}
use llvm_loop_fission.LampPass.{
  InstKind, load, store, call, indirect, declared, has_body, phi, alloca, terminator, other, Inst,
  Function, is_external, Counter, new_counter, count_inst, count_block, count_function,
  count_module, run_counter, get_count_insts,
}

-- The instructions with hooks: loads, stores and external calls.
abbrev pub is_profiled : InstKind → Bool
is_profiled (load p ty) = true
is_profiled (store p v ty) = true
is_profiled (call callee) = is_external callee
is_profiled _ = false

abbrev pub profiled : List Inst → List Inst
profiled [] = []
profiled (i ∷ insts) = if is_profiled i.kind then i ∷ profiled insts else profiled insts

pub profiled-append : (xs ys : List Inst) → profiled (xs ++ ys) ≡ profiled xs ++ profiled ys
profiled-append [] ys = refl
profiled-append (i ∷ xs) ys = ground (arith, profiled-append xs ys)

-- The instructions of the functions that have a body, in the order of the module.
abbrev pub module_insts : List Function → List Inst
module_insts [] = []
module_insts (f ∷ m) =
    if f.is_declaration then module_insts m else flatten f.blocks ++ module_insts m

-- Each instruction with its place, from a first number on.
abbrev pub numbered : ℕ → List Inst → List (ℕ × Inst)
numbered n [] = []
numbered n (i ∷ insts) = (n, i) ∷ numbered (suc n) insts

pub numbered-append :
    (n : ℕ) (xs ys : List Inst)
    → numbered n (xs ++ ys) ≡ numbered n xs ++ numbered (n + length xs) ys
numbered-append n [] ys = ap (λ k. numbered k ys) (omega arith)
numbered-append n (i ∷ xs) ys =
    ap (◌∷◌ (n, i))
      (numbered-append (suc n) xs ys ∙ ap (λ k. numbered (suc n) xs ++ numbered k ys) (omega arith))

-- The three counts together.
abbrev counted : Counter → ℕ
counted c = c.num_loads + c.num_stores + c.num_calls

abbrev one_if : Bool → ℕ
one_if b = if b then 1 else 0

count_inst-counted :
    (kind : InstKind) (c : Counter)
    → counted c + one_if (is_profiled kind) < 2 ^ 32
    → counted (count_inst kind c) ≡ counted c + one_if (is_profiled kind)
unfolding count_inst
count_inst-counted (load p ty) c h = omega (arith, h)
count_inst-counted (store p v ty) c h = omega (arith, h)
count_inst-counted (call indirect) c h = omega (arith, h)
count_inst-counted (call declared) c h = omega (arith, h)
count_inst-counted (call has_body) c h = omega arith
count_inst-counted phi c h = omega arith
count_inst-counted alloca c h = omega arith
count_inst-counted terminator c h = omega arith
count_inst-counted other c h = omega arith

pub length-profiled :
    (i : Inst) (insts : List Inst)
    → length (profiled (i ∷ insts)) ≡ one_if (is_profiled i.kind) + length (profiled insts)
length-profiled i insts = ground arith

count_block-counted :
    (insts : List Inst) (c : Counter)
    → counted c + length (profiled insts) < 2 ^ 32
    → counted (count_block insts c) ≡ counted c + length (profiled insts)
unfolding count_block
count_block-counted [] c h = omega arith
count_block-counted (i ∷ insts) c h =
    let size = length-profiled i insts in
    let one = count_inst-counted i.kind c (omega (arith, size, h)) in
    count_block-counted insts (count_inst i.kind c) (omega (arith, one, size, h))
    ∙ omega (arith, one, size)

count_function-counted :
    (blocks : List (List Inst)) (c : Counter)
    → counted c + length (profiled (flatten blocks)) < 2 ^ 32
    → counted (count_function blocks c) ≡ counted c + length (profiled (flatten blocks))
unfolding count_function mathlib.Core.List.flatten
count_function-counted [] c h = omega arith
count_function-counted (bb ∷ blocks) c h =
    let size =
      ap length (profiled-append bb (flatten blocks))
      ∙ length-append (profiled bb) (profiled (flatten blocks)) in
    let one = count_block-counted bb c (omega (arith, size, h)) in
    count_function-counted blocks (count_block bb c) (omega (arith, one, size, h))
    ∙ omega (arith, one, size)

count_module-counted :
    (m : List Function) (c : Counter)
    → counted c + length (profiled (module_insts m)) < 2 ^ 32
    → counted (count_module m c) ≡ counted c + length (profiled (module_insts m))
unfolding count_module
count_module-counted [] c h = omega arith
count_module-counted (f ∷ m) c h = elim (Bool-cases f.is_declaration) [
  | inl declaration ↦ rw (declaration) (count_module-counted m c (ground (arith, h, declaration)))
  | inr body ↦
      let size =
        ap length (profiled-append (flatten f.blocks) (module_insts m))
        ∙ length-append (profiled (flatten f.blocks)) (profiled (module_insts m)) in
      let all =
        subst
          (λ b.
            counted c
              + length (profiled (if b then module_insts m else flatten f.blocks ++ module_insts m))
            < 2 ^ 32)
          body h in
      let one = count_function-counted f.blocks c (omega (arith, size, all)) in
      rw (body) (
        count_module-counted m (count_function f.blocks c) (omega (arith, one, size, all))
        ∙ omega (arith, one, size))
]

-- The number of instructions with hooks that the first run of LdStCallCounter counts.
pub run_counter_lem :
    (m : List Function)
    → length (profiled (module_insts m)) < 2 ^ 32
    → get_count_insts (run_counter m new_counter) ≡ length (profiled (module_insts m))
unfolding run_counter get_count_insts
run_counter_lem m h = omega (arith, count_module-counted m new_counter (omega (arith, h)), h)
