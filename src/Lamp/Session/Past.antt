-- ===== src/Lamp/Session/Past.antt =====
-- The state while loads are profiled: no stamp in the shadow memory is later than the clock.
use llvm_loop_fission.Base.{
  ℕ, ◌≤◌, ◌<◌, ◌≡◌, ap, ◌∙◌, sym, subst, Bool, true, false, List, Option, none, some, if◌then◌else◌,
  length, Result, ok, ok-inj,
}
use llvm_loop_fission.Memory.Page.Status.{Status, valid, unknown, invalid, invalidated}
use llvm_loop_fission.Lamp.Stamps.{Timestamp}
use llvm_loop_fission.Lamp.Hierarchy.{Buffers}
use llvm_loop_fission.Lamp.Profile.{Dependence, Instructions, increment_all}
use llvm_loop_fission.Lamp.Hooks.{State, load}
use llvm_loop_fission.Lamp.Hooks.Running.{IsRunning, Steps, with_pages, looked}
use llvm_loop_fission.Lamp.Hooks.Counted.{counted_after, count_stamps, dependences, with_profiler}

module _ (b : Buffers) where
  -- A running state for a number of instructions, where loads and not stores are profiled, iterations
  -- are not measured, the registered call is one of the instructions, and no byte has a stamp later
  -- than the clock.
  pub record IsProfiling (num : ℕ) (s : State b) : Type 0 where
    pub running : IsRunning b s
    pub places : length s.page_cache ≡ num
    pub only_flow : s.profile_output ≡ false
    pub flow : s.profile_flow ≡ true
    pub off : s.measure_iterations ≡ false
    pub registered : s.external_call_id < num
    pub past : (a : ℕ) (v : Timestamp) → looked b s a ≡ valid v → v.timestamp ≤ s.time_stamp

  pub Steps-keeps :
      (num : ℕ) (Inv : State b → Type 0) (s t : State b) (run : Result (State b))
      (holds : ℕ → Status Timestamp)
      → Steps b Inv s run holds
      → IsProfiling num s
      → ((u : State b) → Inv u → IsRunning b u)
      → ((a : ℕ) (v : Timestamp) → holds a ≡ valid v → v.timestamp ≤ s.time_stamp)
      → run ≡ ok t
      → IsProfiling num t
  Steps-keeps num Inv s t run holds (pages, cache, e, inv, same_size, looks) i runs early done =
      subst (IsProfiling num) (ok-inj _ _ (sym e ∙ done)) (record {
        running = runs (with_pages b s pages cache) inv;
        places = same_size ∙ i.places;
        only_flow = i.only_flow;
        flow = i.flow;
        off = i.off;
        registered = i.registered;
        past = λ a v h. early a v (sym (looks a) ∙ h);
      })

  valid-inj : (v w : Timestamp) → Status.valid v ≡ Status.valid w → v ≡ w
  valid-inj v w e = ap (λ st. elim st [ valid x ↦ x | unknown ↦ v | invalid ↦ v ]) e

  pub stamped_past :
      (c : Bool) (new v : Timestamp) (old : Status Timestamp) (time : ℕ)
      → new.timestamp ≤ time
      → (old ≡ valid v → v.timestamp ≤ time)
      → (if c then valid new else old) ≡ valid v
      → v.timestamp ≤ time
  stamped_past true new v old time now before e =
      subst (λ w. w.timestamp ≤ time) (valid-inj new v e) now
  stamped_past false new v old time now before e = before e

  pub forgotten_past :
      (c : Bool) (v : Timestamp) (old : Status Timestamp) (time : ℕ)
      → (old ≡ valid v → v.timestamp ≤ time)
      → (if c then unknown else old) ≡ valid v
      → v.timestamp ≤ time
  forgotten_past true v old time before e = absurd (cc e)
  forgotten_past false v old time before e = before e

  pub invalidated_past :
      (c : Bool) (v : Timestamp) (old : Status Timestamp) (time : ℕ)
      → (old ≡ valid v → v.timestamp ≤ time)
      → (if c then invalidated old else old) ≡ valid v
      → v.timestamp ≤ time
  invalidated_past true v (valid w) time before e = absurd (cc e)
  invalidated_past true v unknown time before e = absurd (cc e)
  invalidated_past true v invalid time before e = absurd (cc e)
  invalidated_past false v old time before e = before e

  pub count_stamps-keeps :
      (num load : ℕ) (vs : List Timestamp) (s t : State b)
      → IsProfiling num s
      → count_stamps b s load vs ≡ ok t
      → IsProfiling num t
  count_stamps-keeps num load vs s t i e = counted_keeps (dependences b s.hierarchy load vs) e
    where
      with_keeps : (o : Option Instructions) → with_profiler b s o ≡ ok t → IsProfiling num t
      with_keeps none e = absurd (cc e)
      with_keeps (some profiles) e = subst (IsProfiling num) (ok-inj _ _ e) (record {
        running = record {
          started = i.running.started;
          paged = i.running.paged;
          cached = i.running.cached;
        };
        places = i.places;
        only_flow = i.only_flow;
        flow = i.flow;
        off = i.off;
        registered = i.registered;
        past = i.past;
      })

      counted_keeps :
          (o : Option (List Dependence)) → counted_after b s o ≡ ok t → IsProfiling num t
      counted_keeps none e = absurd (cc e)
      counted_keeps (some deps) e = with_keeps (increment_all 2 deps s.profiler) e
