-- ===== src/Lamp/Hooks/Regions.antt =====
-- What LAMP_external_store, LAMP_allocate and LAMP_deallocate do to the shadow memory of a region.
use llvm_loop_fission.Base.{
  ℕ, ◌+◌, ◌^◌, ◌≤◌, ◌<◌, ◌≡◌, refl, ap, ◌∙◌, Bool, true, false, List, ◌==◌, if◌then◌else◌, ok,
  arith, step_ok,
}
use llvm_loop_fission.Memory.Page.{Page}
use llvm_loop_fission.Memory.Page.Status.{Status, unknown, valid, invalidated}
use llvm_loop_fission.Memory.Bits.Masks.{in_range}
use llvm_loop_fission.Memory.Page.Laws.{in_range_one}
use llvm_loop_fission.Memory.Map
use llvm_loop_fission.Memory.Map.{find_page, get_node, change_page}
use llvm_loop_fission.Memory.Map.Look.{look}
use llvm_loop_fission.Memory.Map.Laws.{one-IsSpan, set_invalid-look}
use llvm_loop_fission.Lamp.Stamps.{Timestamp, IsStamp}
use llvm_loop_fission.Lamp.Hierarchy.{Buffers}
use llvm_loop_fission.Lamp.Hooks.{
  State, aligned_store, external_store, invalidate_byte, invalidate_region, allocate, deallocate,
}
use llvm_loop_fission.Lamp.Hooks.Stores.{IsStoring, stamp, aligned_store_byte, unaligned_store_lem}
use llvm_loop_fission.Lamp.Hooks.Running.{
  IsRunning, Steps, with_pages, looked, each_byte_lem, Keeps-IsRunning,
}

forgotten :
    (c : Bool) (item : Timestamp) (old now : Status Timestamp)
    → now ≡ (if c then valid item else old)
    → (if c then invalidated now else now) ≡ (if c then unknown else old)
forgotten true item old now e = ap invalidated e
forgotten false item old now e = e

module _ (b : Buffers) where
  -- The stores are those of the external call that is registered.
  record IsExternal (id time : ℕ) (s : State b) : Type 0 where
    storing : IsStoring b id time s
    registered : s.external_call_id ≡ id

  module _ (fresh : ℕ → ℕ → Timestamp) where
    invalidate_byte_lem :
        (Inv : State b → Type 0)
        → ((t : State b) → Inv t → IsRunning b t)
        → ((t : State b) (pages : List (ℕ × Page Timestamp))
            → Inv t
            → IsRunning b (with_pages b t pages t.page_cache)
            → Inv (with_pages b t pages t.page_cache))
        → (addr : ℕ) (s : State b) → addr < 2 ^ 64
        → Inv s
        → Steps b Inv s
            (invalidate_byte b fresh addr s)
            (λ a. if a == addr then invalidated (looked b s a) else looked b s a)
    unfolding invalidate_byte
    invalidate_byte_lem Inv runs keeps_inv addr s bounded i =
        let r = runs s i in
        let (pages, run, v, keeps, holds) =
          set_invalid-look fresh 1 s.memory_stamp addr r.paged (one-IsSpan addr bounded)
            (omega arith) in
        (
          pages,
          s.page_cache,
          step_ok (Map.set_invalid fresh 1 s.memory_stamp addr) pages _
              (ok (with_pages b s pages s.page_cache)) run refl,
          keeps_inv s pages i (Keeps-IsRunning b s pages r v keeps),
          refl,
          λ x.
              holds x
              ∙ ap (λ c. if c then invalidated (looked b s x) else looked b s x)
                  (in_range_one addr x),
        )

    -- For a running state and bytes below 2^64: LAMP_allocate does not abort, makes each of the bytes
    -- unknown where it was valid and invalid otherwise, leaves what every other address holds, and
    -- the state running.
    pub allocate-look :
        (lamp_id memory size : ℕ) (s : State b)
        → memory + size ≤ 2 ^ 64
        → IsRunning b s
        → Steps b
            (IsRunning b)
            s
            (allocate b fresh lamp_id memory size s)
            (λ a. if in_range size memory a then invalidated (looked b s a) else looked b s a)
    unfolding allocate invalidate_region
    allocate-look lamp_id memory size s bounded r =
        each_byte_lem b (IsRunning b) (λ a. Unit) (invalidate_byte b fresh) invalidated
          (λ a t u lt i. invalidate_byte_lem (IsRunning b) (λ t i. i) (λ t pages i j. j) a t lt i)
          size memory s bounded (λ a h. tt) r

    -- For a running state at a time whose stamps fit, in which stores are not profiled, an id with a
    -- place in the page cache, and bytes below 2^64: LAMP_deallocate does not abort, makes each of the bytes unknown, leaves what every other address holds, and the state
    -- running at the same time.
    pub deallocate-look :
        (lamp_id time memory size : ℕ) (s : State b)
        → memory + size ≤ 2 ^ 64
        → IsStamp lamp_id time
        → IsStoring b lamp_id time s
        → Steps b
            (IsStoring b lamp_id time)
            s
            (deallocate b fresh lamp_id memory size s)
            (λ a. if in_range size memory a then unknown else looked b s a)
    unfolding deallocate invalidate_region
    deallocate-look lamp_id time memory size s bounded fits i =
        let (pages1, cache1, run1, i1, size1, holds1) =
          unaligned_store_lem b fresh size lamp_id time memory s bounded fits i in
        let (pages2, cache2, run2, i2, size2, holds2) =
          each_byte_lem b (IsStoring b lamp_id time) (λ a. Unit) (invalidate_byte b fresh)
            invalidated
            (λ a t u lt j.
              invalidate_byte_lem (IsStoring b lamp_id time) (λ t j. j.running)
                (λ t pages j r. record {
                  running = r;
                  has_place = j.has_place;
                  only_flow = j.only_flow;
                  now = j.now;
                })
                a t lt j)
            size memory (with_pages b s pages1 cache1) bounded (λ a h. tt) i1 in
        (
          pages2,
          cache2,
          step_ok _ (with_pages b s pages1 cache1) _ _ run1 run2,
          i2,
          size2 ∙ size1,
          λ a.
              holds2 a
              ∙ forgotten (in_range size memory a) (stamp b lamp_id time) (looked b s a)
                  (look pages1 a) (holds1 a),
        )

    -- For a running state at a time whose stamps fit, a registered call with a place in the page
    -- cache, where stores are not profiled, and bytes below 2^64: LAMP_external_store does not abort,
    -- makes each of the bytes valid with the call and the time, leaves what every other address
    -- holds, and the state as before.
    pub external_store-look :
        (time dest size : ℕ) (s : State b)
        → dest + size ≤ 2 ^ 64
        → IsStamp s.external_call_id time
        → IsStoring b s.external_call_id time s
        → Steps b (IsStoring b s.external_call_id time) s (external_store b fresh dest size s) (λ a.
          if in_range size dest a then valid (stamp b s.external_call_id time) else looked b s a)
    unfolding external_store
    external_store-look time dest size s bounded fits i =
        let id = s.external_call_id in
        let (pages, cache, run, j, same_size, holds) =
          each_byte_lem b (IsExternal id time) (λ a. Unit)
            (λ a t. aligned_store b fresh 1 t.external_call_id a t) (λ _. valid (stamp b id time))
            (λ a t u lt k.
              let (pages, cache, run, next, same_size, holds) =
                aligned_store_byte b fresh id time a t lt fits k.storing in
              (
                pages,
                cache,
                ap (λ n. aligned_store b fresh 1 n a t) k.registered ∙ run,
                record { storing = next; registered = k.registered },
                same_size,
                holds,
              ))
            size dest s bounded (λ a h. tt) (record { storing = i; registered = refl }) in
        (pages, cache, run, j.storing, same_size, holds)
