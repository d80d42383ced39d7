-- ===== src/Lamp/Profile/Counts.antt =====
-- What MemoryProfiler has counted after a run of increments.
use llvm_loop_fission.Base.{
  ℕ, zero, suc, ◌+◌, ◌<◌, ◌^◌, ◌≡◌, refl, ap, sym, ◌&&◌, List, [], ◌∷◌, Option, none, some, inl,
  inr, Bool-cases, subst, arith, length, replicate, if◌then◌else◌, ◌==◌, All,
}
use llvm_loop_fission.Lamp.Profile.{
  Dependence, MemoryProfile, new_memory_profile, increment_profile, Instructions, tracked_distance,
  increment, increment_all,
}
use llvm_loop_fission.Lamp.Profile.Lookup.{
  found, changed, IsShape, length-replicate, Accessed, with_profile-Accessed,
}

-- How many of the dependences have this load, tracked distance and store, in whichever loop.
abbrev pub times : ℕ → ℕ → ℕ → ℕ → List Dependence → ℕ
times max load d s [] = 0
times max load d s (dep ∷ deps) =
    (if load == dep.load && (d == tracked_distance max dep.dist && s == dep.store) then 1 else 0)
    + times max load d s deps

abbrev pub total_in : Option MemoryProfile → ℕ
total_in none = 0
total_in (some p) = p.total_count

-- The count that is reported for a load, a tracked distance and a store.
abbrev pub total : Instructions → ℕ → ℕ → ℕ → ℕ
total info load d s = total_in (found info load d s)

changed_total :
    (o : Option MemoryProfile)
    → suc (total_in o) < 2 ^ 64
    → (changed new_memory_profile increment_profile o).total_count ≡ suc (total_in o)
changed_total none h = refl
changed_total (some p) h = omega arith

increment-total :
    (max : ℕ) (dep : Dependence) (info next : Instructions)
    → Accessed max new_memory_profile increment_profile dep info next
    → suc (total info dep.load (tracked_distance max dep.dist) dep.store) < 2 ^ 64
    → (load d s : ℕ) → total next load d s ≡ total info load d s + times max load d s (dep ∷ [])
increment-total max dep info next acc b load d s =
    let td = tracked_distance max dep.dist in
    let now = ap total_in (acc.looks load d s) in
    let new = changed_total (found info dep.load td dep.store) b in
    elim (Bool-cases (load == dep.load && (d == td && s == dep.store))) [
      | inl here ↦
          let at_load : load ≡ dep.load = ground (arith, here) in
          let at_dist : d ≡ td = ground (arith, here) in
          let at_store : s ≡ dep.store = ground (arith, here) in
          let before : total info load d s ≡ total info dep.load td dep.store =
            cc (at_load, at_dist, at_store) in
          ground (arith, now, new, before, here)
      | inr away ↦ ground (arith, now, away)
    ]

All-size :
    (info after : Instructions) (deps : List Dependence)
    → length after ≡ length info
    → All (λ (dep : Dependence). dep.load < length info) deps
    → All (λ (dep : Dependence). dep.load < length after) deps
All-size info after deps e h =
    subst (λ size. All (λ (dep : Dependence). dep.load < size) deps) (sym e) h

-- The counts after some increments.
pub increment_all_lem :
    (max : ℕ) (deps : List Dependence) (info : Instructions)
    → 0 < max
    → All (IsShape max) info
    → All (λ (dep : Dependence). dep.load < length info) deps
    → ((load d s : ℕ) → total info load d s + length deps < 2 ^ 64)
    → (next : Instructions) × (increment_all max deps info ≡ some next)
      × ((load d s : ℕ) → total next load d s ≡ total info load d s + times max load d s deps)
unfolding increment_all increment
increment_all_lem max [] info pos shape below b = (info, refl, λ load d s. omega arith)
increment_all_lem max (dep ∷ deps) info pos shape below b =
    let (after, run, acc) =
      with_profile-Accessed max new_memory_profile increment_profile dep info pos shape below.0 in
    let counted =
      increment-total max dep info after acc
        (omega (arith, b dep.load (tracked_distance max dep.dist) dep.store)) in
    let (next, done, counts) =
      increment_all_lem max deps after pos acc.shape (All-size info after deps acc.size below.1)
        (λ load d s. ground (arith, b load d s, counted load d s)) in
    (
      next,
      rw (increment_all, increment, run) done,
      λ load d s. omega (arith, counts load d s, counted load d s),
    )

fresh-IsShape : (max n : ℕ) → All (IsShape {T = MemoryProfile} max) (replicate n [])
fresh-IsShape max zero = tt
fresh-IsShape max (suc n) = (inl refl, fresh-IsShape max n)

pub fresh_total : (n load d s : ℕ) → total (replicate n []) load d s ≡ 0
fresh_total zero load d s = refl
fresh_total (suc n) zero d s = refl
fresh_total (suc n) (suc load) d s = fresh_total n load d s

-- For a profiler of `n` instructions, at least one tracked distance, and fewer than 2^64 increments
-- of loads below `n`: MemoryProfiler::increment never throws, and then reports for each load,
-- tracked distance and store how many increments named them, whatever loop they named.
pub increment_all-total :
    (max n : ℕ) (deps : List Dependence)
    → 0 < max
    → All (λ (dep : Dependence). dep.load < n) deps
    → length deps < 2 ^ 64
    → (next : Instructions) × (increment_all max deps (replicate n []) ≡ some next)
      × ((load d s : ℕ) → total next load d s ≡ times max load d s deps)
increment_all-total max n deps pos below b =
    let (next, run, counts) =
      increment_all_lem max deps (replicate n []) pos (fresh-IsShape max n)
        (subst (λ size. All (λ (dep : Dependence). dep.load < size) deps)
          (sym (length-replicate n [])) below)
        (λ load d s. omega (arith, fresh_total n load d s, b)) in
    (next, run, λ load d s. omega (arith, counts load d s, fresh_total n load d s))
