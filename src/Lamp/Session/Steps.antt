-- ===== src/Lamp/Session/Steps.antt =====
-- The runs of the hooks as the steps of the profiler.
use llvm_loop_fission.Base.{
  ℕ, suc, ◌+◌, ◌%◌, ◌^◌, ◌≤◌, ◌<◌, ◌≡◌, ap, ◌∙◌, sym, subst, not, arith, ok, of_option, if_true,
  step_inv, ok-inj,
}
use llvm_loop_fission.Lamp.{bump64}
use llvm_loop_fission.Lamp.Stamps.{Timestamp, IsStamp}
use llvm_loop_fission.Lamp.Hierarchy.{Buffers, LoopHierarchy, enter_loop, loop_iteration}
use llvm_loop_fission.Lamp.Hooks.{
  State, DependenceSets, store, load, external_load, external_store, allocate, deallocate,
}
use llvm_loop_fission.Lamp.Hooks.Stores.{IsWidth}
use llvm_loop_fission.Lamp.Session.{
  initialize_sets, loop_iteration_begin, loop_exit, loop_invocation, register,
}
use llvm_loop_fission.Lamp.Session.Past.{IsProfiling}
use llvm_loop_fission.Lamp.Session.Kept.{
  store-keeps, load-keeps, external_store-keeps, external_load-keeps, allocate-keeps,
  deallocate-keeps,
}

module _ (b : Buffers) (fresh : ℕ → ℕ → Timestamp) where
  -- One run of a hook that gives a result, for instructions and calls that LAMP_init was told of, while
  -- the clock fits into a stamp.
  pub data Step (num : ℕ) (s t : State b) : Type 0 where
    stored :
        (size instr addr current value : ℕ)
        → IsWidth size
        → addr + size ≤ 2 ^ 64
        → instr < num
        → IsStamp instr s.time_stamp
        → store b fresh size instr addr current value s ≡ ok t
        → Step num s t
    loaded :
        (size instr addr : ℕ)
        → IsWidth size
        → addr + size ≤ 2 ^ 64
        → instr < num
        → load b fresh size instr addr s ≡ ok t
        → Step num s t
    stored_outside :
        (dest size : ℕ)
        → dest + size ≤ 2 ^ 64
        → IsStamp s.external_call_id s.time_stamp
        → external_store b fresh dest size s ≡ ok t
        → Step num s t
    loaded_outside :
        (src size : ℕ) → src < 2 ^ 64 → external_load b fresh src size s ≡ ok t → Step num s t
    allocated :
        (lamp_id memory size : ℕ)
        → memory + size ≤ 2 ^ 64
        → allocate b fresh lamp_id memory size s ≡ ok t
        → Step num s t
    deallocated :
        (lamp_id memory size : ℕ)
        → memory + size ≤ 2 ^ 64
        → lamp_id < num
        → IsStamp lamp_id s.time_stamp
        → deallocate b fresh lamp_id memory size s ≡ ok t
        → Step num s t
    iterated : suc s.time_stamp < 2 ^ 64 → loop_iteration_begin b s ≡ ok t → Step num s t
    exited : loop_exit b s ≡ t → Step num s t
    invoked : (loop : ℕ) → loop_invocation b loop s ≡ ok t → Step num s t
    registered : (id : ℕ) → id < num → register b id s ≡ t → Step num s t

  -- Any number of steps.
  pub data Run (num : ℕ) (s : State b) : State b → Type 0 where
    started : Run num s s
    then_step : (t u : State b) → Run num s t → Step num t u → Run num s u

  moved :
      (num time : ℕ) (h : LoopHierarchy b DependenceSets) (s : State b)
      → s.time_stamp ≤ time
      → IsProfiling b num s
      → IsProfiling b num (record s { time_stamp = time; hierarchy = h })
  moved num time h s le i = record {
    running = record {
      started = i.running.started;
      paged = i.running.paged;
      cached = i.running.cached;
    };
    places = i.places;
    only_flow = i.only_flow;
    flow = i.flow;
    off = i.off;
    registered = i.registered;
    past = λ a v e. omega (arith, i.past a v e, le);
  }

  sets-keeps :
      (num : ℕ) (s t : State b)
      → IsProfiling b num s
      → initialize_sets b s ≡ ok t
      → IsProfiling b num t
  unfolding initialize_sets
  sets-keeps num s t i e =
      subst (IsProfiling b num) (ok-inj _ _ (sym (if_true _ _ _ (ap not i.off)) ∙ e)) i

  iteration-keeps :
      (num : ℕ) (s t : State b)
      → suc s.time_stamp < 2 ^ 64
      → IsProfiling b num s
      → loop_iteration_begin b s ≡ ok t
      → IsProfiling b num t
  unfolding loop_iteration_begin
  iteration-keeps num s t early i e =
      let (h, found, rest) =
        step_inv (of_option (loop_iteration b DependenceSets (bump64 s.time_stamp) s.hierarchy))
          (λ h. initialize_sets b (record s { time_stamp = bump64 s.time_stamp; hierarchy = h })) t
          e in
      sets-keeps num (record s { time_stamp = bump64 s.time_stamp; hierarchy = h }) t
        (moved num (bump64 s.time_stamp) h s (omega (arith, early)) i) rest

  invocation-keeps :
      (num loop : ℕ) (s t : State b)
      → IsProfiling b num s
      → loop_invocation b loop s ≡ ok t
      → IsProfiling b num t
  unfolding loop_invocation
  invocation-keeps num loop s t i e =
      let (h, found, rest) =
        step_inv (of_option (enter_loop b DependenceSets (loop % 2 ^ 16) s.time_stamp s.hierarchy))
          (λ h. initialize_sets b (record s { hierarchy = h })) t e in
      sets-keeps num (record s { hierarchy = h }) t (moved num s.time_stamp h s (omega arith) i)
        rest

  register-keeps :
      (num id : ℕ) (s : State b)
      → id < num
      → IsProfiling b num s
      → IsProfiling b num (register b id s)
  unfolding register
  register-keeps num id s lt i = record {
    running = record {
      started = i.running.started;
      paged = i.running.paged;
      cached = i.running.cached;
    };
    places = i.places;
    only_flow = i.only_flow;
    flow = i.flow;
    off = i.off;
    registered = omega (arith, lt);
    past = i.past;
  }

  exit-keeps : (num : ℕ) (s : State b) → IsProfiling b num s → IsProfiling b num (loop_exit b s)
  unfolding loop_exit
  exit-keeps num s i = moved num s.time_stamp (loop_exit b s).hierarchy s (omega arith) i

  Step-keeps : (num : ℕ) (s t : State b) → IsProfiling b num s → Step num s t → IsProfiling b num t
  Step-keeps num s t i (stored size instr addr current value w bounded lt fits e) =
      store-keeps b fresh num size instr addr current value s t w bounded lt fits i e
  Step-keeps num s t i (loaded size instr addr w bounded lt e) =
      load-keeps b fresh num size instr addr s t w bounded lt i e
  Step-keeps num s t i (stored_outside dest size bounded fits e) =
      external_store-keeps b fresh num dest size s t bounded fits i e
  Step-keeps num s t i (loaded_outside src size small e) =
      external_load-keeps b fresh num src size s t small i e
  Step-keeps num s t i (allocated lamp_id memory size bounded e) =
      allocate-keeps b fresh num lamp_id memory size s t bounded i e
  Step-keeps num s t i (deallocated lamp_id memory size bounded lt fits e) =
      deallocate-keeps b fresh num lamp_id memory size s t bounded lt fits i e
  Step-keeps num s t i (iterated early e) = iteration-keeps num s t early i e
  Step-keeps num s t i (exited e) = subst (IsProfiling b num) e (exit-keeps num s i)
  Step-keeps num s t i (invoked loop e) = invocation-keeps num loop s t i e
  Step-keeps num s t i (registered id lt e) =
      subst (IsProfiling b num) e (register-keeps num id s lt i)

  -- For a run of hooks that each give a result, with accesses of the four sizes, instructions and
  -- registered calls below the number that LAMP_init was told, regions below 2^64, stores and
  -- deallocations whose stamps fit and a clock below 2^64, from a running state with that many places
  -- in the page cache, in which loads and not stores are profiled, iterations are not measured and no
  -- stamp is later than the clock: the state at its end is such a state too, with the pages filed
  -- right, a page behind each place of the page cache, and no byte of the shadow memory with a stamp
  -- later than the clock.
  pub Run-IsProfiling :
      (num : ℕ) (s t : State b) → IsProfiling b num s → Run num s t → IsProfiling b num t
  Run-IsProfiling num s t i started = i
  Run-IsProfiling num s t i (then_step mid last run step) =
      Step-keeps num mid last (Run-IsProfiling num s mid i run) step
