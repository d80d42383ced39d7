-- ===== src/LampPass/Reader/Agree.antt =====
-- The numbers in the hooks of a module, its count and the maps that LAMPLoadProfile builds from it.
use llvm_loop_fission.Base.{
  ℕ, suc, ◌+◌, ◌^◌, ◌<◌, ◌≡◌, sym, subst, List, [], ◌∷◌, map, flatten, none, arith, length, All,
  Distinct, ℕ_discrete,
}
use llvm_loop_fission.LampPass.{Ty, Inst, Function, new_counter, run_counter, get_count_insts}
use llvm_loop_fission.LampPass.Profiled.{profiled, module_insts, numbered, run_counter_lem}
use llvm_loop_fission.LampPass.Instrument.{instrument_module, first_instruction_id}
use llvm_loop_fission.LampPass.Instrument.Ids.{hook_targets, instrument_module_lem}
use llvm_loop_fission.LampPass.Reader.{new_ids, map_module}
use llvm_loop_fission.LampPass.Reader.Ids.{IsIdOf, add_ids, add_ids-IsIdOf, map_module_lem}

numbered-All :
    (P Q : ℕ × Inst → Type 0) (insts : List Inst) (n bound : ℕ)
    → n + length insts ≡ bound
    → ((k : ℕ) (i : Inst) → k < bound → P (k, i) → Q (k, i))
    → All P (numbered n insts)
    → All Q (numbered n insts)
numbered-All P Q [] n bound e f h = tt
numbered-All P Q (i ∷ insts) n bound e f (here, h) =
    (f n i (omega (arith, e)) here, numbered-All P Q insts (suc n) bound (omega (arith, e)) f h)

-- The instructions with hooks are fewer than 2^32 and distinct.
abbrev pub IsModule : List Function → Type 0
IsModule m =
    Distinct ℕ_discrete (map (λ (i : Inst). i.id) (profiled (module_insts m)))
    × (length (profiled (module_insts m)) < 2 ^ 32)

-- For a module with fewer than 2^32 loads, stores and external calls, all distinct: each number that
-- LAMPProfiler puts into a hook before an instruction is below the number of instructions that
-- LdStCallCounter counts, and LAMPLoadProfile's maps send that number and that instruction to each
-- other.
pub instrument_module-map_module :
    (size_in_bits : Ty → ℕ) (m : List Function)
    → IsModule m
    → All
        (λ target.
          (target.0 < get_count_insts (run_counter m new_counter))
          × IsIdOf (map_module m new_ids) target)
        (hook_targets none
          (flatten (map flatten (instrument_module size_in_bits m first_instruction_id).0)))
instrument_module-map_module size_in_bits m (distinct, few) =
    let insts = profiled (module_insts m) in
    let count = run_counter_lem m few in
    let ids = map_module_lem m new_ids in
    subst (All _) (sym (instrument_module_lem size_in_bits m few)) (
      numbered-All (IsIdOf (add_ids insts new_ids)) _ insts 0 (length insts) (omega arith)
        (λ k i less h. (omega (arith, count, less), subst (λ t. IsIdOf t (k, i)) (sym ids) h))
        (add_ids-IsIdOf insts 0 new_ids distinct (omega arith) (omega (arith, few))))
