-- ===== src/Lamp/Hooks/Flow.antt =====
-- A store, and a load of what it stored.
use llvm_loop_fission.Base.{
  ℕ, ◌+◌, ◌%◌, ◌^◌, ◌≤◌, ◌<◌, ◌≡◌, refl, ap, sym, ◌∙◌, true, false, not, List, [], ◌∷◌, none, some,
  suc, ok, All, length, if◌then◌else◌, ◌&&◌, arith, ◌==◌, ◌>>=◌, subst, if_false, if_true, step_ok,
}
use llvm_loop_fission.Memory.Page.Status.{Status, valid, unknown, invalid, item_of}
use llvm_loop_fission.Memory.Bits.Masks.{in_range}
use llvm_loop_fission.Memory.Page.{Page}
use llvm_loop_fission.Memory.Map.Laws.{one-IsSpan}
use llvm_loop_fission.Lamp.{bump64}
use llvm_loop_fission.Lamp.Stamps.{Timestamp, IsStamp}
use llvm_loop_fission.Lamp.Hierarchy.{Buffers, LoopInfo, find_loop, calculate_distance}
use llvm_loop_fission.Lamp.Hooks.{State, DependenceSets, is_silent_store, store, load, aligned_load}
use llvm_loop_fission.Lamp.Hooks.Running.{with_pages, looked}
use llvm_loop_fission.Lamp.Hooks.Counted.{
  dependence_in, cons_option, map_option, with_profiler, counted_after, count_stamps,
}
use llvm_loop_fission.Lamp.Profile.{tracked_distance}
use llvm_loop_fission.Lamp.Profile.Lookup.{IsShape}
use llvm_loop_fission.Lamp.Profile.Counts.{times, total, increment_all_lem}
use llvm_loop_fission.Memory.Map.Look.{look}
use llvm_loop_fission.Lamp.Hooks.Stores.{IsStoring, IsWidth, stamp, counted_store, store-look}
use llvm_loop_fission.Lamp.Hooks.Loads.{IsLoading, stamps, changes, aligned_load-Counts}

module _ (b : Buffers) (fresh : ℕ → ℕ → Timestamp) where
  abbrev pub counted_load : State b → State b
  counted_load s = record s { dyn_loads = bump64 s.dyn_loads }

  load_one :
      (instr addr : ℕ) (s : State b)
      → load b fresh 1 instr addr s ≡ aligned_load b fresh 1 instr addr (counted_load s)
  unfolding load
  load_one instr addr s = if_false (not (addr % 1 == 0)) _ _ (ground arith)

  counted-IsLoading :
      (instr : ℕ) (s : State b) → IsLoading b instr s → IsLoading b instr (counted_load s)
  counted-IsLoading instr s i = record {
    running = record {
      started = i.running.started;
      paged = i.running.paged;
      cached = i.running.cached;
    };
    has_place = i.has_place;
    flow = i.flow;
    off = i.off;
  }

  abbrev one_stamp : Status Timestamp → List Timestamp
  one_stamp (valid v) = v ∷ []
  one_stamp unknown = []
  one_stamp invalid = []

  changes_one : (f : ℕ → Status Timestamp) (a : ℕ) → changes none (stamps 1 f a) ≡ one_stamp (f a)
  changes_one f a = seen_one (f a)
    where
      seen_one :
          (st : Status Timestamp)
          → changes none (elim (item_of st) [ none ↦ [] | some v ↦ v ∷ [] ]) ≡ one_stamp st
      seen_one (valid v) = refl
      seen_one unknown = refl
      seen_one invalid = refl

  store_then_load :
      (size instr time addr current value loader a : ℕ) (s : State b)
      → IsWidth size
      → addr + size ≤ 2 ^ 64
      → IsStamp instr time
      → IsStoring b instr time s
      → is_silent_store b size current value s ≡ false
      → IsLoading b loader s
      → in_range size addr a ≡ true
      → (pages : List (ℕ × Page Timestamp)) × (cache : List _) × ((store b fresh size instr addr
              current value s
            >>= load b fresh 1 loader a)
          ≡ count_stamps b
              (with_pages b (counted_load (counted_store b s)) pages cache)
              loader
              (stamp b instr time ∷ []))
        × ((x : ℕ)
            → look pages x
              ≡ (if in_range size addr x then valid (stamp b instr time) else looked b s x))
  store_then_load size instr time addr current value loader a s w bounded fits storing loud loading
        among =
      let (pages, cache, run, j, same_size, holds) =
        store-look b fresh size instr time addr current value s w bounded fits storing loud in
      let after = with_pages b (counted_store b s) pages cache in
      let ready : IsLoading b loader after = record {
        running = j.running;
        has_place = subst (λ n. loader < n) (sym same_size) loading.has_place;
        flow = loading.flow;
        off = loading.off;
      } in
      let (pages2, cache2, run2, k, size2, same) =
        aligned_load-Counts b fresh 1 loader a (counted_load after)
          (one-IsSpan a (ground (arith, among, bounded))) (counted-IsLoading loader after ready) in
      let here : looked b after a ≡ valid (stamp b instr time) = holds a ∙ if_true _ _ _ among in
      (
        pages2,
        cache2,
        step_ok _ after _ _ run (
            load_one loader a after
            ∙ (run2
                ∙ ap (count_stamps b (with_pages b (counted_load after) pages2 cache2) loader)
                    (changes_one (looked b (counted_load after)) a ∙ ap one_stamp here))),
        λ x. same x ∙ holds x,
      )

  increments :
      (loader time d st instr l : ℕ) (loop : LoopInfo b DependenceSets)
      → times 2 l d st (dependence_in b (stamp b instr time) loader loop ∷ []) ≡ (
          if l == loader
            && (d == tracked_distance 2 (calculate_distance b DependenceSets loop time)
                && st == instr)
          then 1
          else 0)
  increments loader time d st instr l loop = ground arith

  -- For a running state at a time whose stamps fit, in which loads and not stores are profiled and
  -- iterations are not measured, in which findLoop finds a loop for the time, and whose profiler has
  -- a place for the load, maps of the right shape and room for one more of each count: after a store
  -- of one of the four sizes that is not silent, by an instruction with a place in the page cache, a
  -- load of one of its bytes does not abort. The profiler then has one more dependence of the load on
  -- that store, at the distance of the store's time in that loop, and every other count as before;
  -- and the bytes of the store are valid with it and all others as before.
  pub store-load :
      (size instr time addr current value loader a : ℕ) (loop : LoopInfo b DependenceSets)
      (s : State b)
      → IsWidth size
      → addr + size ≤ 2 ^ 64
      → IsStamp instr time
      → IsStoring b instr time s
      → is_silent_store b size current value s ≡ false
      → IsLoading b loader s
      → in_range size addr a ≡ true
      → find_loop b DependenceSets time s.hierarchy ≡ some loop
      → All (IsShape 2) s.profiler
      → loader < length s.profiler
      → ((l d st : ℕ) → suc (total s.profiler l d st) < 2 ^ 64)
      → (next : State b) × ((store b fresh size instr addr current value s
            >>= load b fresh 1 loader a)
          ≡ ok next)
        × ((l d st : ℕ)
            → total next.profiler l d st
              ≡ total s.profiler l d st
                + (if l == loader
                      && (d == tracked_distance 2 (calculate_distance b DependenceSets loop time)
                          && st == instr)
                    then 1
                    else 0))
        × ((x : ℕ)
            → looked b next x
              ≡ (if in_range size addr x then valid (stamp b instr time) else looked b s x))
  store-load size instr time addr current value loader a loop s w bounded fits storing loud loading
        among in_loop shape place room =
      let (pages, cache, run, holds) =
        store_then_load size instr time addr current value loader a s w bounded fits storing loud
          loading among in
      let after = with_pages b (counted_load (counted_store b s)) pages cache in
      let dep = dependence_in b (stamp b instr time) loader loop in
      let (profiles, done, counts) =
        increment_all_lem 2 (dep ∷ []) s.profiler (omega arith) shape (place, tt)
          (λ l d st. omega (arith, room l d st)) in
      (
        record after { profiler = profiles },
        run
            ∙ (ap
                  (λ o. counted_after b after (
                    cons_option b (map_option b (dependence_in b (stamp b instr time) loader) o)
                      (some [])))
                  in_loop
                ∙ ap (with_profiler b after) done),
        λ l d st.
            counts l d st
            ∙ ap (◌+◌ (total s.profiler l d st)) (increments loader time d st instr l loop),
        holds,
      )
