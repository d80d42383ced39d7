-- ===== src/Lamp/Hooks/Counted.antt =====
-- What a load reports for the stamps that it sees, while iterations are not measured.
use llvm_loop_fission.Base.{
  ℕ, ◌≡◌, refl, ap, ◌∙◌, false, not, List, [], ◌∷◌, ◌⊎◌, inl, inr, Option, none, some, Option-cases,
  Result, ok, aborted, ◌>>=◌, of_option, if_true,
}
use llvm_loop_fission.Lamp.Stamps.{Timestamp}
use llvm_loop_fission.Lamp.Hierarchy.{
  Buffers, LoopInfo, LoopHierarchy, find_loop, calculate_distance,
}
use llvm_loop_fission.Lamp.Profile.{
  Dependence, Instructions, tracked_distance, increment, increment_all,
}
use llvm_loop_fission.Lamp.Hooks.{State, DependenceSets, fill_in_dependence, measure, profile_store}

module _ (b : Buffers) where
  -- The dependence of a load on a store, in the loop that findLoop gives.
  abbrev pub dependence_in : Timestamp → ℕ → LoopInfo b DependenceSets → Dependence
  dependence_in value load loop = record {
    store = value.instr;
    loop_id = loop.loop_id;
    dist = tracked_distance 2 (calculate_distance b DependenceSets loop value.timestamp);
    load = load;
  }

  abbrev pub cons_option : {A : Type 0} → Option A → Option (List A) → Option (List A)
  cons_option none rest = none
  cons_option (some a) none = none
  cons_option (some a) (some rest) = some (a ∷ rest)

  abbrev pub map_option : {A B : Type 0} → (A → B) → Option A → Option B
  map_option f none = none
  map_option f (some a) = some (f a)

  abbrev pub dependence : LoopHierarchy b DependenceSets → ℕ → Timestamp → Option Dependence
  dependence h load value =
      map_option (dependence_in value load) (find_loop b DependenceSets value.timestamp h)

  -- The dependences of a load on stores, where findLoop finds the loop of each.
  abbrev pub dependences :
      LoopHierarchy b DependenceSets → ℕ → List Timestamp → Option (List Dependence)
  dependences h load [] = some []
  dependences h load (v ∷ vs) = cons_option (dependence h load v) (dependences h load vs)

  abbrev pub with_profiler : State b → Option Instructions → Result (State b)
  with_profiler s none = aborted
  with_profiler s (some profiles) = ok (record s { profiler = profiles })

  abbrev pub counted_after : State b → Option (List Dependence) → Result (State b)
  counted_after s none = aborted
  counted_after s (some deps) = with_profiler s (increment_all 2 deps s.profiler)

  -- All of them are counted, in order.
  abbrev pub count_stamps : State b → ℕ → List Timestamp → Result (State b)
  count_stamps s load vs = counted_after s (dependences s.hierarchy load vs)

  measure_off :
      (value : Timestamp) (dep : Dependence) (s : State b)
      → s.measure_iterations ≡ false
      → measure b value dep s ≡ ok s
  unfolding measure
  measure_off value dep s off = if_true (not s.measure_iterations) (ok s) _ (ap not off)

  abbrev after_one : State b → Option Dependence → Result (State b)
  after_one s none = aborted
  after_one s (some dep) = with_profiler s (increment 2 dep s.profiler)

  -- The rest of profile_store where findLoop gave a loop.
  counted_one :
      (value : Timestamp) (dep : Dependence) (s : State b) (o : Option Instructions)
      → s.measure_iterations ≡ false
      → (of_option o >>= λ profiles. measure b value dep (record s { profiler = profiles }))
        ≡ with_profiler s o
  counted_one value dep s none off = refl
  counted_one value dep s (some profiles) off =
      measure_off value dep (record s { profiler = profiles }) off

  profile_store_lem :
      (dest_id : ℕ) (value : Timestamp) (s : State b)
      → s.measure_iterations ≡ false
      → profile_store b dest_id value s ≡ after_one s (dependence s.hierarchy dest_id value)
  unfolding profile_store fill_in_dependence
  profile_store_lem dest_id value s off =
      elim (Option-cases (find_loop b DependenceSets value.timestamp s.hierarchy)) [
        | inl e ↦ rw (profile_store, fill_in_dependence, e, ◌>>=◌) refl
        | inr (loop, e) ↦
            let dep = dependence_in value dest_id loop in
            rw (profile_store, fill_in_dependence, e, ◌>>=◌)
              (counted_one value dep s (increment 2 dep s.profiler) off)
      ]

  with_profiler-cases :
      (s : State b) (o : Option Instructions)
      → (with_profiler s o ≡ aborted)
        ⊎ ((profiles : Instructions) × (with_profiler s o ≡ ok (record s { profiler = profiles })))
  with_profiler-cases s none = inl refl
  with_profiler-cases s (some profiles) = inr (profiles, refl)

  after_one-cases :
      (s : State b) (o : Option Dependence)
      → (after_one s o ≡ aborted)
        ⊎ ((profiles : Instructions) × (after_one s o ≡ ok (record s { profiler = profiles })))
  after_one-cases s none = inl refl
  after_one-cases s (some dep) = with_profiler-cases s (increment 2 dep s.profiler)

  pub profile_store-cases :
      (dest_id : ℕ) (value : Timestamp) (s : State b)
      → s.measure_iterations ≡ false
      → (profile_store b dest_id value s ≡ aborted)
        ⊎ ((profiles : Instructions) × (profile_store b dest_id value s
              ≡ ok (record s { profiler = profiles })))
  profile_store-cases dest_id value s off =
      elim (after_one-cases s (dependence s.hierarchy dest_id value)) [
        | inl e ↦ inl (profile_store_lem dest_id value s off ∙ e)
        | inr (profiles, e) ↦ inr (profiles, profile_store_lem dest_id value s off ∙ e)
      ]

  increment_first :
      (s : State b) (dep : Dependence) (rest : Option (List Dependence)) (o : Option Instructions)
      → increment 2 dep s.profiler ≡ o
      → (with_profiler s o >>= λ next. counted_after next rest)
        ≡ counted_after s (cons_option (some dep) rest)
  unfolding increment_all
  increment_first s dep none none e = refl
  increment_first s dep none (some profiles) e = refl
  increment_first s dep (some deps) none e = rw (increment_all, e) refl
  increment_first s dep (some deps) (some profiles) e = rw (increment_all, e) refl

  after_one-cons :
      (s : State b) (o : Option Dependence) (rest : Option (List Dependence))
      → (after_one s o >>= λ next. counted_after next rest) ≡ counted_after s (cons_option o rest)
  after_one-cons s none rest = refl
  after_one-cons s (some dep) rest = increment_first s dep rest (increment 2 dep s.profiler) refl

  -- Counting the dependence on one store, and those on the others.
  pub count_stamps-cons :
      (s : State b) (load : ℕ) (v : Timestamp) (vs : List Timestamp)
      → s.measure_iterations ≡ false
      → (profile_store b load v s >>= λ next. counted_after next (dependences s.hierarchy load vs))
        ≡ count_stamps s load (v ∷ vs)
  count_stamps-cons s load v vs off =
      ap (λ run. run >>= λ next. counted_after next (dependences s.hierarchy load vs))
        (profile_store_lem load v s off)
      ∙ after_one-cons s (dependence s.hierarchy load v) (dependences s.hierarchy load vs)
