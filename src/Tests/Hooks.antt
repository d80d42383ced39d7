-- ===== src/Tests/Hooks.antt =====
-- The theorems on the hooks of the profiler, applied to a program with three instructions that has
-- touched the page at 8192, and to one with two instructions that starts.
use llvm_loop_fission.Base.{
  ℕ, zero, suc, ◌+◌, ◌&&◌, Bool, ◌≤◌, ap, sym, ◌∙◌, subst, Option-cases, ◌<◌, ◌≡◌, refl, true,
  false, List, [], ◌∷◌, some, arith, ◌==◌, if◌then◌else◌, ok, ◌>>=◌, inl, inr, take,
}
use llvm_loop_fission.Memory.Bits.Masks.{in_range}
use llvm_loop_fission.Memory.Page.{Page, am_page_addr, am_offset}
use llvm_loop_fission.Memory.Page.Status.{unknown, invalid, valid, status_of, status}
use llvm_loop_fission.Memory.Map.{find_page}
use llvm_loop_fission.Memory.Map.Look.{
  find_page-only, look_in, one_page-IsPaged, no_page-IsPaged, find_page-one, look,
}
use llvm_loop_fission.Lamp.Stamps.{Timestamp, IsStamp}
use llvm_loop_fission.Lamp.Hierarchy.{
  Buffers, LoopInfo, LoopHierarchy, find_loop, find_from, calculate_distance,
}
use llvm_loop_fission.Lamp.Profile.{tracked_distance}
use llvm_loop_fission.Lamp.Profile.Counts.{total, fresh_total}
use llvm_loop_fission.Lamp.Hooks.{State, DependenceSets, store, load, external_store, deallocate}
use llvm_loop_fission.Lamp.Hooks.Running.{IsRunning, Points, Steps, with_pages, looked}
use llvm_loop_fission.Lamp.Hooks.Stores.{IsStoring, counted_store, stamp, store-look}
use llvm_loop_fission.Lamp.Hooks.Regions.{external_store-look, deallocate-look}
use llvm_loop_fission.Lamp.Hooks.Loads.{IsLoading, Counts}
use llvm_loop_fission.Lamp.Hooks.Flow.{store-load}
use llvm_loop_fission.Lamp.Session.{Environment, init, register}
use llvm_loop_fission.Lamp.Session.Past.{IsProfiling}
use llvm_loop_fission.Lamp.Session.Steps.{
  Run, started, then_step, stored, registered, Run-IsProfiling,
}
use llvm_loop_fission.Lamp.Session.Start.{IsStarted, init-IsStarted}

abbrev lists : Buffers
lists = record {
  Buffer = List ℕ;
  clear = λ _. [];
  push_back = λ r t. take 2 (t ∷ r);
  newest_first = λ r. r;
}

abbrev fresh : ℕ → ℕ → Timestamp
fresh _ _ = record { instr = 0; timestamp = 0 }

abbrev program : LoopInfo lists DependenceSets
program = record {
  iteration_time_stamps = 0 ∷ [];
  invocation_time_stamp = 0;
  loop_id = 0;
  item = [] ∷ [] ∷ [];
}

abbrev hierarchy : LoopHierarchy lists DependenceSets
hierarchy = record { max_depth = 0; current_depth = 0; loop_info = program ∷ program ∷ [] }

-- The page at 8192, whose byte 3 was stored by instruction 2 at time 1.
abbrev page : Page Timestamp
page = record {
  page_addr = 8192;
  values = λ i. record { instr = 2; timestamp = 1 };
  valid = λ i. if i == 0 then 8 else 0;
  invalid = λ i. 0;
}

abbrev state : State lists
state = record {
  initialized = true;
  silent_stores = false;
  measure_iterations = false;
  profile_flow = true;
  profile_output = false;
  dyn_loads = 0;
  dyn_stores = 0;
  external_call_id = 2;
  time_stamp = 4;
  profiler = [] ∷ [] ∷ [] ∷ [];
  hierarchy = hierarchy;
  memory_stamp = (8192, page) ∷ [];
  page_cache = some 8192 ∷ some 8192 ∷ some 8192 ∷ [];
}

state-cached : (i : ℕ) → i < 3 → (key : ℕ) × Points lists state.memory_stamp state.page_cache i key
state-cached zero lt = (8192, (refl, page, find_page-one page))
state-cached (suc zero) lt = (8192, (refl, page, find_page-one page))
state-cached (suc (suc zero)) lt = (8192, (refl, page, find_page-one page))
state-cached (suc (suc (suc i))) lt = absurd (omega arith)

state-IsRunning : IsRunning lists state
state-IsRunning = record { started = refl; paged = one_page-IsPaged page; cached = state-cached }

state-IsStoring : (instr : ℕ) → instr < 3 → IsStoring lists instr 4 state
state-IsStoring instr lt = record {
  running = state-IsRunning;
  has_place = lt;
  only_flow = refl;
  now = refl;
}

state-IsLoading : (instr : ℕ) → instr < 3 → IsLoading lists instr state
state-IsLoading instr lt = record {
  running = state-IsRunning;
  has_place = lt;
  flow = refl;
  off = refl;
}

fits : IsStamp 1 4
fits = record { instr_bits = omega arith; timestamp_bits = omega arith }

fits_two : IsStamp 2 4
fits_two = record { instr_bits = omega arith; timestamp_bits = omega arith }

-- Four bytes that end in the next page.
store-look_example :
    Steps lists
      (IsStoring lists 1 4)
      (counted_store lists state)
      (store lists fresh 4 1 12286 0 9 state)
      (λ a. if in_range 4 12286 a then valid (stamp lists 1 4) else looked lists state a)
store-look_example =
    store-look lists fresh 4 1 4 12286 0 9 state (inr (inr (inl refl))) (omega arith) fits
      (state-IsStoring 1 (omega arith)) refl

program_runs : find_loop lists DependenceSets 4 hierarchy ≡ some program
unfolding find_loop find_from
program_runs = refl

store-load_example :
    (next : State lists) × ((store lists fresh 4 1 12286 0 9 state >>= load lists fresh 1 0 12288)
      ≡ ok next)
    × ((l d st : ℕ)
        → total next.profiler l d st
          ≡ total state.profiler l d st
            + (if l == 0
                  && (d == tracked_distance 2 (calculate_distance lists DependenceSets program 4)
                      && st == 1)
                then 1
                else 0))
    × ((x : ℕ)
        → looked lists next x
          ≡ (if in_range 4 12286 x then valid (stamp lists 1 4) else looked lists state x))
store-load_example =
    store-load lists fresh 4 1 4 12286 0 9 0 12288 program state (inr (inr (inl refl)))
      (omega arith) fits (state-IsStoring 1 (omega arith)) refl (state-IsLoading 0 (omega arith))
      refl program_runs (inl refl, (inl refl, (inl refl, tt))) (omega arith)
      (λ l d st. omega (arith, fresh_total 3 l d st))

external_store-look_example :
    Steps lists
      (IsStoring lists 2 4)
      state
      (external_store lists fresh 12280 5000 state)
      (λ a. if in_range 5000 12280 a then valid (stamp lists 2 4) else looked lists state a)
external_store-look_example =
    external_store-look lists fresh 4 12280 5000 state (omega arith) fits_two
      (state-IsStoring 2 (omega arith))

deallocate-look_example :
    Steps lists
      (IsStoring lists 1 4)
      state
      (deallocate lists fresh 1 8190 16 state)
      (λ a. if in_range 16 8190 a then unknown else looked lists state a)
deallocate-look_example =
    deallocate-look lists fresh 1 4 8190 16 state (omega arith) fits
      (state-IsStoring 1 (omega arith))

abbrev first_stamp : Timestamp
first_stamp = record { instr = 1; timestamp = 4 }

-- Before LAMP_init.
abbrev before : State lists
before = record state {
  initialized = false;
  time_stamp = 0;
  profiler = [];
  memory_stamp = [];
  page_cache = [];
}

abbrev no_variable : Environment
no_variable = record {
  profile_silent_stores = false;
  profile_measure_iterations = false;
  profile_profile_output = false;
}

init-IsStarted_example :
    (next : State lists) × (init lists fresh 2 1 8 0 no_variable before ≡ ok next)
    × IsStarted lists 2 next
    × ((a : ℕ) → look next.memory_stamp a ≡ look before.memory_stamp a)
init-IsStarted_example =
    init-IsStarted lists fresh 2 1 8 0 no_variable before (omega arith) (omega arith)
      no_page-IsPaged (omega arith)

held_by : (v i : Bool) (item w : Timestamp) → status_of v i item ≡ valid w → item ≡ w
held_by true i item w e = ap (λ st. elim st [ valid x ↦ x | unknown ↦ item | invalid ↦ item ]) e
held_by false true item w e = absurd (cc e)
held_by false false item w e = absurd (cc e)

state-past : (a : ℕ) (v : Timestamp) → looked lists state a ≡ valid v → v.timestamp ≤ 4
state-past a v e = elim (Option-cases (find_page (am_page_addr a) state.memory_stamp)) [
  | inl gone ↦ absurd (cc (sym e ∙ ap (λ o. look_in o (am_offset a)) gone))
  | inr (p, found) ↦
      let there = find_page-only 8192 (am_page_addr a) page p found in
      let here : status page (am_offset a) ≡ valid v =
        ap (λ q. status q (am_offset a)) there
        ∙ (sym (ap (λ o. look_in o (am_offset a)) found) ∙ e) in
      subst (λ w. w.timestamp ≤ 4) (held_by _ _ _ v here) (omega arith)
]

state-IsProfiling : IsProfiling lists 3 state
state-IsProfiling = record {
  running = state-IsRunning;
  places = refl;
  only_flow = refl;
  flow = refl;
  off = refl;
  registered = omega arith;
  past = state-past;
}

-- A store by instruction 1, and then the call 0 is registered.
stored_word :
    Steps lists
      (IsStoring lists 1 4)
      (counted_store lists state)
      (store lists fresh 4 1 12286 0 9 state)
      (λ a. if in_range 4 12286 a then valid (stamp lists 1 4) else looked lists state a)
stored_word =
    store-look lists fresh 4 1 4 12286 0 9 state (inr (inr (inl refl))) (omega arith) fits
      (state-IsStoring 1 (omega arith)) refl

abbrev after_store : State lists
after_store = with_pages lists (counted_store lists state) stored_word.0 stored_word.1

two_steps : Run lists fresh 3 state (register lists 0 after_store)
two_steps =
    then_step after_store _
      (then_step state _ started (
        stored 4 1 12286 0 9 (inr (inr (inl refl))) (omega arith) (omega arith) fits stored_word.2))
      (registered 0 (omega arith) refl)

Run-IsProfiling_example : IsProfiling lists 3 (register lists 0 after_store)
Run-IsProfiling_example =
    Run-IsProfiling lists fresh 3 state (register lists 0 after_store) state-IsProfiling two_steps
