-- ===== src/Lamp/Hooks/Stores.antt =====
-- What the hooks for stores do to the shadow memory.
use llvm_loop_fission.Base.{
  ℕ, ◌+◌, ◌%◌, ◌^◌, ◌≤◌, ◌<◌, ◌≡◌, refl, ap, sym, ◌∙◌, true, false, not, some, arith, ◌==◌, ==_iff,
  if◌then◌else◌, Result, ok, ◌>>=◌, Bool-cases, inl, inr, ◌⊎◌, get_elem?, subst, length, if_false,
  step_ok,
}
use llvm_loop_fission.Memory.Page.{Page, am_page_addr}
use llvm_loop_fission.Memory.Page.Status.{valid}
use llvm_loop_fission.Memory.Bits.Masks.{in_range}
use llvm_loop_fission.Memory.Page.Laws.{in_range_one}
use llvm_loop_fission.Memory.Map.{find_page, get_node}
use llvm_loop_fission.Memory.Map.Laws.{IsSpan, one-IsSpan, set_item_at}
use llvm_loop_fission.Lamp.{bump64}
use llvm_loop_fission.Lamp.Stamps.{Timestamp, IsStamp, form_timestamp, form_timestamp_lem}
use llvm_loop_fission.Lamp.Hierarchy.{Buffers}
use llvm_loop_fission.Lamp.Hooks.{
  State, each_byte, set_stamp, use_page, aligned_store, unaligned_store, store, is_silent_store,
}
use llvm_loop_fission.Lamp.Hooks.Running.{
  IsRunning, Steps, with_pages, looked, each_byte_lem, cached_page_lem, use_page_lem,
  Keeps-IsRunning,
}

-- The sizes of the hooks.
abbrev pub IsWidth : ℕ → Type 0
IsWidth size = (size ≡ 1) ⊎ (size ≡ 2) ⊎ (size ≡ 4) ⊎ (size ≡ 8)

pub aligned-IsSpan :
    (size addr : ℕ)
    → IsWidth size
    → (addr % size == 0) ≡ true
    → addr + size ≤ 2 ^ 64
    → IsSpan addr size
aligned-IsSpan size addr (inl e) at bounded =
    subst (IsSpan addr) (sym e) (one-IsSpan addr (omega (arith, bounded, e)))
aligned-IsSpan size addr (inr (inl e)) at bounded =
    let two : addr % 2 ≡ 0 = (==_iff (addr % 2) 0).0 (subst (λ n. (addr % n == 0) ≡ true) e at) in
    record {
      ends = omega (arith, e, two);
      some_bytes = omega (arith, e);
      bounded = omega (arith, bounded, e);
    }
aligned-IsSpan size addr (inr (inr (inl e))) at bounded =
    let four : addr % 4 ≡ 0 = (==_iff (addr % 4) 0).0 (subst (λ n. (addr % n == 0) ≡ true) e at) in
    record {
      ends = omega (arith, e, four);
      some_bytes = omega (arith, e);
      bounded = omega (arith, bounded, e);
    }
aligned-IsSpan size addr (inr (inr (inr e))) at bounded =
    let eight : addr % 8 ≡ 0 = (==_iff (addr % 8) 0).0 (subst (λ n. (addr % n == 0) ≡ true) e at) in
    record {
      ends = omega (arith, e, eight);
      some_bytes = omega (arith, e);
      bounded = omega (arith, bounded, e);
    }

module _ (b : Buffers) where
  -- A running state at a time, with a place for the instruction in the page cache, where stores are
  -- not profiled as loads.
  pub record IsStoring (instr time : ℕ) (s : State b) : Type 0 where
    pub running : IsRunning b s
    pub has_place : instr < length s.page_cache
    pub only_flow : s.profile_output ≡ false
    pub now : s.time_stamp ≡ time

  -- The page of an address is the cached one.
  record IsStamping (instr time key : ℕ) (s : State b) : Type 0 where
    storing : IsStoring instr time s
    pointer : get_elem? s.page_cache instr ≡ some (some key)
    there : (p : Page Timestamp) × (find_page key s.memory_stamp ≡ some p)

  abbrev pub stamp : ℕ → ℕ → Timestamp
  stamp instr time = record { instr = instr; timestamp = time }

  set_stamp_lem :
      (instr time key : ℕ) (val : Timestamp) (addr : ℕ) (s : State b)
      → am_page_addr addr ≡ key
      → addr < 2 ^ 64
      → IsStamping instr time key s
      → Steps b
          (IsStamping instr time key)
          s
          (set_stamp b instr val addr s)
          (λ a. if a == addr then valid val else looked b s a)
  unfolding set_stamp
  set_stamp_lem instr time key val addr s at bounded i =
      let (p, found) = i.there in
      let here : get_node s.memory_stamp addr ≡ some p =
        ap (λ k. find_page k s.memory_stamp) at ∙ found in
      let (next, run, v, keeps, holds) =
        set_item_at s.memory_stamp p addr val i.storing.running.paged here bounded in
      (
        next,
        s.page_cache,
        rw (set_stamp, cached_page_lem b s instr key i.pointer, ◌>>=◌, sym at, run) refl,
        record {
          storing = record {
            running = Keeps-IsRunning b s next i.storing.running v keeps;
            has_place = i.storing.has_place;
            only_flow = i.storing.only_flow;
            now = i.storing.now;
          };
          pointer = i.pointer;
          there = keeps key p found;
        },
        refl,
        holds,
      )

  abbrev pub counted_store : State b → State b
  counted_store s = record s { dyn_stores = bump64 s.dyn_stores }

  module _ (fresh : ℕ → ℕ → Timestamp) where
    aligned_store_run :
        (size instr addr : ℕ) (val : Timestamp) (s cached : State b) (out : Result (State b))
        → s.initialized ≡ true
        → use_page b fresh instr addr s ≡ ok cached
        → cached.profile_output ≡ false
        → form_timestamp instr cached.time_stamp ≡ ok val
        → each_byte b (set_stamp b instr val) size addr cached ≡ out
        → aligned_store b fresh size instr addr s ≡ out
    unfolding aligned_store
    aligned_store_run size instr addr val s cached out started used only_flow formed run =
        if_false (not s.initialized) (ok s) _ (ap not started)
        ∙ step_ok (use_page b fresh instr addr s) cached _ out used (
            step_ok _ cached _ out (if_false cached.profile_output _ (ok cached) only_flow)
              (step_ok (form_timestamp instr cached.time_stamp) val _ out formed run))

    -- Bytes that lie in one page.
    aligned_store_lem :
        (size instr time addr : ℕ) (s : State b)
        → IsSpan addr size
        → IsStamp instr time
        → IsStoring instr time s
        → Steps b
            (IsStoring instr time)
            s
            (aligned_store b fresh size instr addr s)
            (λ a. if in_range size addr a then valid (stamp instr time) else looked b s a)
    unfolding aligned_store
    aligned_store_lem size instr time addr s span fits i =
        let (pages, cache, used, r, c, size_kept, same) =
          use_page_lem b fresh s instr addr i.running i.has_place in
        let storing : IsStoring instr time (with_pages b s pages cache) = record {
          running = r;
          has_place = subst (λ n. instr < n) (sym size_kept) i.has_place;
          only_flow = i.only_flow;
          now = i.now;
        } in
        let (pages2, cache2, run, i2, size2, holds) =
          each_byte_lem b (IsStamping instr time (am_page_addr addr))
            (λ a. am_page_addr a ≡ am_page_addr addr) (set_stamp b instr (stamp instr time))
            (λ _. valid (stamp instr time))
            (λ a t. set_stamp_lem instr time (am_page_addr addr) (stamp instr time) a t) size addr
            (with_pages b s pages cache) (omega (arith, span.ends, span.bounded))
            (λ a h. ground (arith, h, span.ends))
            (record { storing = storing; pointer = c.pointer; there = (c.page, c.there) }) in
        (
          pages2,
          cache2,
          aligned_store_run size instr addr (stamp instr time) s (with_pages b s pages cache) _
              i.running.started used i.only_flow
              (ap (form_timestamp instr) i.now ∙ form_timestamp_lem instr time fits) run,
          i2.storing,
          size2 ∙ size_kept,
          λ a.
              holds a
              ∙ ap (λ t. if in_range size addr a then valid (stamp instr time) else t) (same a),
        )

    pub aligned_store_byte :
        (instr time addr : ℕ) (s : State b)
        → addr < 2 ^ 64
        → IsStamp instr time
        → IsStoring instr time s
        → Steps b
            (IsStoring instr time)
            s
            (aligned_store b fresh 1 instr addr s)
            (λ a. if a == addr then valid (stamp instr time) else looked b s a)
    aligned_store_byte instr time addr s lt fits i =
        let (pages, cache, run, next, same_size, holds) =
          aligned_store_lem 1 instr time addr s (one-IsSpan addr lt) fits i in
        (
          pages,
          cache,
          run,
          next,
          same_size,
          λ x.
              holds x
              ∙ ap (λ c. if c then valid (stamp instr time) else looked b s x)
                  (in_range_one addr x),
        )

    -- Any bytes, one by one.
    pub unaligned_store_lem :
        (size instr time addr : ℕ) (s : State b)
        → addr + size ≤ 2 ^ 64
        → IsStamp instr time
        → IsStoring instr time s
        → Steps b
            (IsStoring instr time)
            s
            (each_byte b (aligned_store b fresh 1 instr) size addr s)
            (λ a. if in_range size addr a then valid (stamp instr time) else looked b s a)
    unaligned_store_lem size instr time addr s bounded fits i =
        each_byte_lem b (IsStoring instr time) (λ a. Unit) (aligned_store b fresh 1 instr)
          (λ _. valid (stamp instr time))
          (λ a t u lt j. aligned_store_byte instr time a t lt fits j) size addr s bounded
          (λ a h. tt) i

    -- For a running state at a time whose stamps fit, an instruction with a place in the page cache,
    -- where stores are not profiled, one of the four sizes, bytes below 2^64, aligned or not, and no
    -- silent store: LAMP_store does not abort, counts the store, makes each of the bytes valid with
    -- the instruction and the time, leaves what every other address holds, and the state as before.
    pub store-look :
        (size instr time addr current value : ℕ) (s : State b)
        → IsWidth size
        → addr + size ≤ 2 ^ 64
        → IsStamp instr time
        → IsStoring instr time s
        → is_silent_store b size current value s ≡ false
        → Steps b
            (IsStoring instr time)
            (counted_store s)
            (store b fresh size instr addr current value s)
            (λ a. if in_range size addr a then valid (stamp instr time) else looked b s a)
    unfolding store unaligned_store
    store-look size instr time addr current value s w bounded fits i loud =
        let counted : IsStoring instr time (counted_store s) = record {
          running = record {
            started = i.running.started;
            paged = i.running.paged;
            cached = i.running.cached;
          };
          has_place = i.has_place;
          only_flow = i.only_flow;
          now = i.now;
        } in
        elim (Bool-cases (addr % size == 0)) [
          | inl at ↦
              let (pages, cache, run, j, same_size, holds) =
                aligned_store_lem size instr time addr (counted_store s)
                  (aligned-IsSpan size addr w at bounded) fits counted in
              (pages, cache, rw (store, loud, at) run, j, same_size, holds)
          | inr other ↦
              let (pages, cache, run, j, same_size, holds) =
                unaligned_store_lem size instr time addr (counted_store s) bounded fits counted in
              (pages, cache, rw (store, loud, other) run, j, same_size, holds)
        ]
