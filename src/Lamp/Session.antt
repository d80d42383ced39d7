-- ===== src/Lamp/Session.antt =====
-- LAMP_init and the hooks for loops of tools/lamp-profiler/lamp_hooks.cxx, and LAMP_register. The
-- output files, the clock and the mem_gran fields, which nothing reads, are left out; the loop of
-- LAMP_init that computes them is not.
pub mod Start
pub mod Past
pub mod Kept
pub mod Steps
use Prim.Native.Nat.{bit_and}
use llvm_loop_fission.Base.{
  ℕ, zero, suc, ◌+◌, ◌-◌, ◌%◌, ◌^◌, Bool, true, false, not, ◌||◌, List, [], ◌∷◌, ◌++◌, map, Option,
  none, some, if◌then◌else◌, ltb, leb, ◌==◌, length, replicate, Result, ok, out_of_fuel, aborted,
  ◌>>=◌, of_option,
}
use llvm_loop_fission.Memory.Page.{Page}
use llvm_loop_fission.Memory.Map.{get_or_create_node}
use llvm_loop_fission.Lamp.{bump64}
use llvm_loop_fission.Lamp.Stamps.{Timestamp, instr_max}
use llvm_loop_fission.Lamp.Hierarchy
use llvm_loop_fission.Lamp.Hierarchy.{
  Buffers, LoopInfo, LoopHierarchy, change_at, enter_loop, exit_loop, loop_iteration,
}
use llvm_loop_fission.Lamp.Profile.{Instructions}
use llvm_loop_fission.Lamp.Hooks.{State, DependenceSets}

-- Which of the variables of the environment are set.
pub record Environment : Type 0 where
  pub profile_silent_stores : Bool
  pub profile_measure_iterations : Bool
  pub profile_profile_output : Bool

abbrev pub has_flag : ℕ → ℕ → Bool
has_flag flags bit = not (bit_and flags bit == 0)

-- The constructor of KeyDistanceProfiler.
pub new_profiler : ℕ → Result Instructions
new_profiler num_instrs = if ltb 65535 num_instrs then aborted else ok (replicate num_instrs [])

-- The loop of LAMP_init over the bits below mem_gran, with the fuel, `i` and mem_gran_shift. `i` is a
-- uint32_t; doubled once it is 2 ^ 31 it is 0, and stays 0.
pub mem_gran_shift : ℕ → ℕ → ℕ → ℕ → Result ℕ
mem_gran_shift mem_gran zero i shift = out_of_fuel
mem_gran_shift mem_gran (suc fuel) i shift = elim (ltb i mem_gran) [
  | true ↦ mem_gran_shift mem_gran fuel ((i + i) % 2 ^ 32) (shift + 1)
  | false ↦ ok shift
]

module _ (buffers : Buffers) where
  -- The constructor of LoopHierarchy; `empty` is a new circular buffer.
  pub new_hierarchy : buffers.Buffer → Option (LoopHierarchy buffers DependenceSets)
  new_hierarchy empty = enter_loop buffers DependenceSets 0 0 (record {
    max_depth = 0;
    current_depth = 4294967295;
    loop_info = replicate 1024 (record {
      iteration_time_stamps = empty;
      invocation_time_stamp = 0;
      loop_id = 0;
      item = [];
    });
  })

  -- A change of the item of the loop that runs.
  pub change_item :
      (DependenceSets → DependenceSets)
      → LoopHierarchy buffers DependenceSets
      → Result (LoopHierarchy buffers DependenceSets)
  change_item f h = do
    infos ← of_option (
        change_at buffers DependenceSets h.current_depth
          (λ info. record info { item = f info.item }) h.loop_info)
    ok (record h { loop_info = infos })

  -- The sets of a loop: two of them, and empty.
  pub cleared_sets : DependenceSets → DependenceSets
  cleared_sets sets = map (λ _. []) (sets ++ replicate (2 - length sets) [])

  pub initialize_sets : State buffers → Result (State buffers)
  initialize_sets s =
      if not s.measure_iterations
      then ok s
      else do h ← change_item cleared_sets s.hierarchy; ok (record s { hierarchy = h })

  pub loop_iteration_begin : State buffers → Result (State buffers)
  loop_iteration_begin s = do
    h ← of_option (loop_iteration buffers DependenceSets (bump64 s.time_stamp) s.hierarchy)
    initialize_sets (record s { time_stamp = bump64 s.time_stamp; hierarchy = h })

  pub loop_exit : State buffers → State buffers
  loop_exit s = record s { hierarchy = exit_loop buffers DependenceSets s.hierarchy }

  pub loop_invocation : ℕ → State buffers → Result (State buffers)
  loop_invocation loop s = do
    h ← of_option (enter_loop buffers DependenceSets (loop % 2 ^ 16) s.time_stamp s.hierarchy)
    initialize_sets (record s { hierarchy = h })

  pub register : ℕ → State buffers → State buffers
  register id s = record s { external_call_id = id % 2 ^ 32 }

  module _ (fresh : ℕ → ℕ → Timestamp) where
    -- What LAMP_init does after its checks, up to the page cache.
    pub init_globals : ℕ → ℕ → Environment → State buffers → State buffers
    init_globals num_instrs flags env s =
        let output = has_flag flags 4 || env.profile_profile_output in
        record s {
          silent_stores = has_flag flags 1 || env.profile_silent_stores;
          measure_iterations = has_flag flags 2 || env.profile_measure_iterations;
          profile_flow = not output;
          profile_output = output;
          dyn_stores = 0;
          dyn_loads = 0;
          external_call_id = 0;
        }

    -- The number of loops is not used.
    pub init : ℕ → ℕ → ℕ → ℕ → Environment → State buffers → Result (State buffers)
    init num_instrs num_loops mem_gran flags env s =
        if leb instr_max num_instrs then aborted else do
          gran_shift ← mem_gran_shift mem_gran 33 1 0
          let globals = init_globals num_instrs flags env s
          profiles ← new_profiler num_instrs
          iterated ← of_option (loop_iteration buffers DependenceSets 0 globals.hierarchy)
          h ← change_item (λ _. [] ∷ [] ∷ []) iterated
          pages ← get_or_create_node fresh globals.memory_stamp 0
          ok (record globals {
            profiler = profiles;
            hierarchy = h;
            time_stamp = 1;
            memory_stamp = pages;
            page_cache = replicate num_instrs (some 0);
            initialized = true;
          })
