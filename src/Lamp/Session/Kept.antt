-- ===== src/Lamp/Session/Kept.antt =====
-- Each hook keeps the state of Lamp/Session/Past, where it gives a result.
use llvm_loop_fission.Base.{
  ℕ, ◌+◌, ◌%◌, ◌^◌, ◌≤◌, ◌<◌, ◌≡◌, refl, ap, ◌∙◌, sym, subst, not, arith, ◌==◌, ok, if_true,
  if_false, ok-inj, Bool-cases, inl, inr,
}
use llvm_loop_fission.Memory.Bits.Masks.{in_range}
use llvm_loop_fission.Memory.Map.Laws.{IsSpan, one-IsSpan}
use llvm_loop_fission.Lamp.{bump64}
use llvm_loop_fission.Lamp.Stamps.{Timestamp, IsStamp}
use llvm_loop_fission.Lamp.Hierarchy.{Buffers}
use llvm_loop_fission.Lamp.Hooks.{
  State, is_silent_store, store, load, unaligned_load, external_load, aligned_load, external_store,
  allocate, deallocate,
}
use llvm_loop_fission.Lamp.Hooks.Running.{IsRunning, each_byte-keeps, with_pages}
use llvm_loop_fission.Lamp.Hooks.Stores.{
  IsStoring, IsWidth, aligned-IsSpan, counted_store, stamp, store-look,
}
use llvm_loop_fission.Lamp.Hooks.Regions.{external_store-look, allocate-look, deallocate-look}
use llvm_loop_fission.Lamp.Hooks.Loads.{IsLoading, aligned_load-Counts}
use llvm_loop_fission.Lamp.Session.Past.{
  IsProfiling, Steps-keeps, stamped_past, forgotten_past, invalidated_past, count_stamps-keeps,
}

IsWidth-lt : (size addr : ℕ) → IsWidth size → addr + size ≤ 2 ^ 64 → addr < 2 ^ 64
IsWidth-lt size addr (inl e) h = omega (arith, e, h)
IsWidth-lt size addr (inr (inl e)) h = omega (arith, e, h)
IsWidth-lt size addr (inr (inr (inl e))) h = omega (arith, e, h)
IsWidth-lt size addr (inr (inr (inr e))) h = omega (arith, e, h)

module _ (b : Buffers) where
  module _ (fresh : ℕ → ℕ → Timestamp) where
    pub aligned_load-keeps :
        (num size instr addr : ℕ) (s t : State b)
        → IsSpan addr size
        → instr < num
        → IsProfiling b num s
        → aligned_load b fresh size instr addr s ≡ ok t
        → IsProfiling b num t
    aligned_load-keeps num size instr addr s t span lt i e =
        let loading : IsLoading b instr s = record {
          running = i.running;
          has_place = subst (λ n. instr < n) (sym i.places) lt;
          flow = i.flow;
          off = i.off;
        } in
        let (pages, cache, run, j, same_size, same) =
          aligned_load-Counts b fresh size instr addr s span loading in
        count_stamps-keeps b num instr _ (with_pages b s pages cache) t
          (record {
            running = j.running;
            places = same_size ∙ i.places;
            only_flow = i.only_flow;
            flow = i.flow;
            off = i.off;
            registered = i.registered;
            past = λ a v h. i.past a v (sym (same a) ∙ h);
          })
          (sym run ∙ e)

    counted_load-IsProfiling :
        (num : ℕ) (s : State b)
        → IsProfiling b num s
        → IsProfiling b num (record s { dyn_loads = bump64 s.dyn_loads })
    counted_load-IsProfiling num s i = record {
      running = record {
        started = i.running.started;
        paged = i.running.paged;
        cached = i.running.cached;
      };
      places = i.places;
      only_flow = i.only_flow;
      flow = i.flow;
      off = i.off;
      registered = i.registered;
      past = i.past;
    }

    pub load-keeps :
        (num size instr addr : ℕ) (s t : State b)
        → IsWidth size
        → addr + size ≤ 2 ^ 64
        → instr < num
        → IsProfiling b num s
        → load b fresh size instr addr s ≡ ok t
        → IsProfiling b num t
    unfolding load unaligned_load
    load-keeps num size instr addr s t w bounded lt i e =
        let counted = record s { dyn_loads = bump64 s.dyn_loads } in
        let j = counted_load-IsProfiling num s i in
        elim (Bool-cases (addr % size == 0)) [
          | inl at ↦
              aligned_load-keeps num size instr addr counted t
                (aligned-IsSpan size addr w at bounded) lt j (sym (if_false _ _ _ (ap not at)) ∙ e)
          | inr other ↦
              each_byte-keeps b (IsProfiling b num) (aligned_load b fresh 1 instr)
                (λ a u v small k run.
                  aligned_load-keeps num 1 instr a u v (one-IsSpan a small) lt k run)
                size addr counted t (IsWidth-lt size addr w bounded) j
                (sym (if_true _ _ _ (ap not other)) ∙ e)
        ]

    pub store-keeps :
        (num size instr addr current value : ℕ) (s t : State b)
        → IsWidth size
        → addr + size ≤ 2 ^ 64
        → instr < num
        → IsStamp instr s.time_stamp
        → IsProfiling b num s
        → store b fresh size instr addr current value s ≡ ok t
        → IsProfiling b num t
    unfolding store
    store-keeps num size instr addr current value s t w bounded lt fits i e =
        let counted : IsProfiling b num (counted_store b s) = record {
          running = record {
            started = i.running.started;
            paged = i.running.paged;
            cached = i.running.cached;
          };
          places = i.places;
          only_flow = i.only_flow;
          flow = i.flow;
          off = i.off;
          registered = i.registered;
          past = i.past;
        } in
        elim (Bool-cases (is_silent_store b size current value s)) [
          | inl silent ↦
              subst (IsProfiling b num) (ok-inj _ _ (sym (if_true _ _ _ silent) ∙ e)) counted
          | inr loud ↦
              let storing : IsStoring b instr s.time_stamp s = record {
                running = i.running;
                has_place = subst (λ n. instr < n) (sym i.places) lt;
                only_flow = i.only_flow;
                now = refl;
              } in
              Steps-keeps b num (IsStoring b instr s.time_stamp) (counted_store b s) t _ _
                (store-look b fresh size instr s.time_stamp addr current value s w bounded fits
                  storing loud)
                counted (λ u k. k.running)
                (λ a v h.
                  stamped_past b (in_range size addr a) (stamp b instr s.time_stamp) v _
                    s.time_stamp (omega arith) (i.past a v) h)
                e
        ]

    IsProfiling-IsStoring :
        (num : ℕ) (instr : ℕ) (s : State b)
        → instr < num
        → IsProfiling b num s
        → IsStoring b instr s.time_stamp s
    IsProfiling-IsStoring num instr s lt i = record {
      running = i.running;
      has_place = subst (λ n. instr < n) (sym i.places) lt;
      only_flow = i.only_flow;
      now = refl;
    }

    pub external_load-keeps :
        (num src size : ℕ) (s t : State b)
        → src < 2 ^ 64
        → IsProfiling b num s
        → external_load b fresh src size s ≡ ok t
        → IsProfiling b num t
    unfolding external_load
    external_load-keeps num src size s t small i e =
        each_byte-keeps b (IsProfiling b num) (λ a u. load b fresh 1 u.external_call_id a u)
          (λ a u v lt k run.
            load-keeps num 1 u.external_call_id a u v (inl refl) (omega (arith, lt)) k.registered k
              run)
          size src s t small i e

    pub external_store-keeps :
        (num dest size : ℕ) (s t : State b)
        → dest + size ≤ 2 ^ 64
        → IsStamp s.external_call_id s.time_stamp
        → IsProfiling b num s
        → external_store b fresh dest size s ≡ ok t
        → IsProfiling b num t
    external_store-keeps num dest size s t bounded fits i e =
        let id = s.external_call_id in
        Steps-keeps b num (IsStoring b id s.time_stamp) s t _ _
          (external_store-look b fresh s.time_stamp dest size s bounded fits
            (IsProfiling-IsStoring num id s i.registered i))
          i (λ u k. k.running)
          (λ a v h.
            stamped_past b (in_range size dest a) (stamp b id s.time_stamp) v _ s.time_stamp
              (omega arith) (i.past a v) h)
          e

    pub allocate-keeps :
        (num lamp_id memory size : ℕ) (s t : State b)
        → memory + size ≤ 2 ^ 64
        → IsProfiling b num s
        → allocate b fresh lamp_id memory size s ≡ ok t
        → IsProfiling b num t
    allocate-keeps num lamp_id memory size s t bounded i e =
        Steps-keeps b num (IsRunning b) s t _ _
          (allocate-look b fresh lamp_id memory size s bounded i.running) i (λ u k. k)
          (λ a v h. invalidated_past b (in_range size memory a) v _ s.time_stamp (i.past a v) h) e

    pub deallocate-keeps :
        (num lamp_id memory size : ℕ) (s t : State b)
        → memory + size ≤ 2 ^ 64
        → lamp_id < num
        → IsStamp lamp_id s.time_stamp
        → IsProfiling b num s
        → deallocate b fresh lamp_id memory size s ≡ ok t
        → IsProfiling b num t
    deallocate-keeps num lamp_id memory size s t bounded lt fits i e =
        Steps-keeps b num (IsStoring b lamp_id s.time_stamp) s t _ _
          (deallocate-look b fresh lamp_id s.time_stamp memory size s bounded fits
            (IsProfiling-IsStoring num lamp_id s lt i))
          i (λ u k. k.running)
          (λ a v h. forgotten_past b (in_range size memory a) v _ s.time_stamp (i.past a v) h) e
