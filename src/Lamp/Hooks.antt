-- ===== src/Lamp/Hooks.antt =====
-- The hooks of tools/lamp-profiler/lamp_hooks.cxx for loads, stores and allocations. The state is
-- the globals of that file that the hooks read; a pointer to a page is the address of the page. A
-- size is `sizeof(T)`. What `at` throws is not caught, and aborts.
pub mod Running
pub mod Stores
pub mod Regions
pub mod Counted
pub mod Loads
pub mod Flow
use llvm_loop_fission.Base.{
  ℕ, zero, suc, ◌+◌, ◌*◌, ◌%◌, ◌^◌, Bool, true, false, not, ◌&&◌, ◌||◌, List, [], ◌∷◌, Option, none,
  some, if◌then◌else◌, ◌==◌, get_elem?, set, Result, ok, undefined, aborted, ◌>>=◌, of_option,
}
use llvm_loop_fission.Memory.Page
use llvm_loop_fission.Memory.Page.{Page, am_page_addr, in_page}
use llvm_loop_fission.Memory.Map
use llvm_loop_fission.Memory.Map.{find_page, change_page, get_or_create_node}
use llvm_loop_fission.Lamp.{bump64}
use llvm_loop_fission.Lamp.Stamps.{Timestamp, same_stamp, form_timestamp}
use llvm_loop_fission.Lamp.Hierarchy.{
  Buffers, LoopInfo, LoopHierarchy, change_at, find_loop, find_depth, calculate_distance,
}
use llvm_loop_fission.Lamp.Profile.{
  Dependence, MemoryProfile, new_memory_profile, Instructions, tracked_distance, increment,
  increment_loop, with_profile,
}

abbrev pub same_dependence : Dependence → Dependence → Bool
same_dependence a b =
    a.store == b.store && (a.loop_id == b.loop_id && (a.dist == b.dist && a.load == b.load))

-- DependenceSet
abbrev pub DependenceSets : Type 0
DependenceSets = List (List Dependence)

pub contains : Dependence → List Dependence → Bool
contains dep [] = false
contains dep (d ∷ deps) = if same_dependence d dep then true else contains dep deps

-- Each item of the page cache is a pointer to a page, at first NULL.
pub record State (buffers : Buffers) : Type 0 where
  pub initialized : Bool
  pub silent_stores : Bool
  pub measure_iterations : Bool
  pub profile_flow : Bool
  pub profile_output : Bool
  pub dyn_loads : ℕ
  pub dyn_stores : ℕ
  pub external_call_id : ℕ
  pub time_stamp : ℕ
  pub profiler : Instructions
  pub hierarchy : LoopHierarchy buffers DependenceSets
  pub memory_stamp : List (ℕ × Page Timestamp)
  pub page_cache : List (Option ℕ)

-- What memory_profile carries from byte to byte.
pub record Seen (buffers : Buffers) : Type 0 where
  pub last_store : Option Timestamp
  pub state : State buffers

module _ (buffers : Buffers) where
  -- `pageCache.at(instr)`, and `getStampPage` of it.
  pub cached_page : State buffers → ℕ → Result ℕ
  cached_page s instr = elim (get_elem? s.page_cache instr) [
    | none ↦ aborted
    | some none ↦ undefined
    | some (some key) ↦ ok key
  ]

  -- A read through the pointer to a page.
  pub page_at : State buffers → ℕ → Result (Page Timestamp)
  page_at s key = elim (find_page key s.memory_stamp) [ none ↦ undefined | some p ↦ ok p ]

  -- fillInDependence; the constructor has set `load`.
  pub fill_in_dependence : State buffers → Timestamp → ℕ → Result Dependence
  fill_in_dependence s value load = do
    loop ← of_option (find_loop buffers DependenceSets value.timestamp s.hierarchy)
    ok (record {
      store = value.instr;
      loop_id = loop.loop_id;
      dist = calculate_distance buffers DependenceSets loop value.timestamp;
      load = load;
    })

  -- `dependenceSets[dep.dist].insert(dep)` in the loop at a depth, and the count of the loop.
  pub insert_dependence :
      ℕ → Dependence → LoopInfo buffers DependenceSets → State buffers → Result (State buffers)
  insert_dependence depth dep loop s = elim (get_elem? loop.item dep.dist) [
    | none ↦ undefined
    | some seen ↦ elim (contains dep seen) [
      | true ↦ ok s
      | false ↦ do
        infos ← of_option (
            change_at buffers DependenceSets depth
              (λ info. record info { item = set info.item dep.dist (dep ∷ seen) })
              s.hierarchy.loop_info)
        profiles ← of_option (with_profile 2 new_memory_profile increment_loop dep s.profiler)
        ok (record s { hierarchy = record s.hierarchy { loop_info = infos }; profiler = profiles })
    ]
  ]

  pub measure : Timestamp → Dependence → State buffers → Result (State buffers)
  measure value dep s = if not s.measure_iterations then ok s else do
    depth ← of_option (find_depth buffers DependenceSets value.timestamp s.hierarchy)
    loop ← of_option (get_elem? s.hierarchy.loop_info depth)
    insert_dependence depth dep loop s

  -- What is done for a store that differs from the last one.
  pub profile_store : ℕ → Timestamp → State buffers → Result (State buffers)
  profile_store dest_id value s = do
    filled ← fill_in_dependence s value dest_id
    let dep = record filled { dist = tracked_distance 2 filled.dist }
    profiles ← of_option (increment 2 dep s.profiler)
    measure value dep (record s { profiler = profiles })

  abbrev pub is_last : Option Timestamp → Timestamp → Bool
  is_last none value = false
  is_last (some last) value = same_stamp value last

  -- The body of the loop of memory_profile; `continue` goes on with the next byte.
  abbrev pub profile_item : ℕ → Seen buffers → Option Timestamp → Result (Seen buffers)
  profile_item dest_id seen none = ok seen
  profile_item dest_id seen (some value) =
      if is_last seen.last_store value
      then ok seen
      else (profile_store dest_id value seen.state >>= λ next.
          ok (record { last_store = some value; state = next }))

  pub profile_byte : ℕ → ℕ → Seen buffers → Result (Seen buffers)
  profile_byte dest_id addr seen = do
    key ← cached_page seen.state dest_id
    page ← page_at seen.state key
    store_value ← Page.get_item page addr
    profile_item dest_id seen store_value

  pub profile_bytes : ℕ → ℕ → ℕ → Seen buffers → Result (Seen buffers)
  profile_bytes zero dest_id addr seen = ok seen
  profile_bytes (suc rounds) dest_id addr seen = do
    next ← profile_byte dest_id addr seen
    profile_bytes rounds dest_id (bump64 addr) next

  pub memory_profile : ℕ → ℕ → ℕ → State buffers → Result (State buffers)
  memory_profile size dest_id addr s = do
    seen ← profile_bytes size dest_id addr (record { last_store = none; state = s })
    ok seen.state

  -- A loop over the bytes of a region.
  pub each_byte :
      (ℕ → State buffers → Result (State buffers)) → ℕ → ℕ → State buffers → Result (State buffers)
  each_byte f zero addr s = ok s
  each_byte f (suc rounds) addr s = do next ← f addr s; each_byte f rounds (bump64 addr) next

  -- `setItem` on the cached page, for one byte.
  pub set_stamp : ℕ → Timestamp → ℕ → State buffers → Result (State buffers)
  set_stamp instr val addr s = do
    key ← cached_page s instr
    pages ← change_page key (λ page. Page.set_item page addr val) s.memory_stamp
    ok (record s { memory_stamp = pages })

  -- is_silent_store; `current` is what the program's memory holds at the address.
  abbrev pub is_silent_store : ℕ → ℕ → ℕ → State buffers → Bool
  is_silent_store size current value s = s.silent_stores && current == value % 2 ^ (8 * size)

  module _ (fresh : ℕ → ℕ → Timestamp) where
    -- The page of the address becomes the cached one.
    pub use_page : ℕ → ℕ → State buffers → Result (State buffers)
    use_page instr addr s = do
      key ← cached_page s instr
      page ← page_at s key
      if in_page page addr then ok s else do
        pages ← get_or_create_node fresh s.memory_stamp addr
        ok (record s {
          memory_stamp = pages;
          page_cache = set s.page_cache instr (some (am_page_addr addr));
        })

    pub aligned_load : ℕ → ℕ → ℕ → State buffers → Result (State buffers)
    aligned_load size instr addr s = if not s.initialized then ok s else do
      cached ← use_page instr addr s
      if cached.profile_flow then memory_profile size instr addr cached else ok cached

    unfoldable pub unaligned_load : ℕ → ℕ → ℕ → State buffers → Result (State buffers)
    unaligned_load size instr addr s = each_byte (aligned_load 1 instr) size addr s

    unfoldable pub load : ℕ → ℕ → ℕ → State buffers → Result (State buffers)
    load size instr addr s =
        let counted = record s { dyn_loads = bump64 s.dyn_loads } in
        if not (addr % size == 0)
        then unaligned_load size instr addr counted
        else aligned_load size instr addr counted

    unfoldable pub external_load : ℕ → ℕ → State buffers → Result (State buffers)
    external_load src size s = each_byte (λ addr t. load 1 t.external_call_id addr t) size src s

    pub aligned_store : ℕ → ℕ → ℕ → State buffers → Result (State buffers)
    aligned_store size instr addr s = if not s.initialized then ok s else do
      cached ← use_page instr addr s
      profiled ← if cached.profile_output then memory_profile size instr addr cached else ok cached
      val ← form_timestamp instr profiled.time_stamp
      each_byte (set_stamp instr val) size addr profiled

    pub unaligned_store : ℕ → ℕ → ℕ → State buffers → Result (State buffers)
    unaligned_store size instr addr s = each_byte (aligned_store 1 instr) size addr s

    unfoldable pub store : ℕ → ℕ → ℕ → ℕ → ℕ → State buffers → Result (State buffers)
    store size instr addr current value s =
        let counted = record s { dyn_stores = bump64 s.dyn_stores } in
        if is_silent_store size current value counted
        then ok counted
        else (if not (addr % size == 0)
            then unaligned_store size instr addr counted
            else aligned_store size instr addr counted)

    pub external_store : ℕ → ℕ → State buffers → Result (State buffers)
    external_store dest size s =
        each_byte (λ addr t. aligned_store 1 t.external_call_id addr t) size dest s

    pub invalidate_byte : ℕ → State buffers → Result (State buffers)
    invalidate_byte addr s = do
      pages ← Map.set_invalid fresh 1 s.memory_stamp addr
      ok (record s { memory_stamp = pages })

    pub invalidate_region : ℕ → ℕ → State buffers → Result (State buffers)
    invalidate_region memory size s = each_byte invalidate_byte size memory s

    pub allocate : ℕ → ℕ → ℕ → State buffers → Result (State buffers)
    allocate lamp_id memory size s = invalidate_region memory size s

    pub deallocate : ℕ → ℕ → ℕ → State buffers → Result (State buffers)
    deallocate lamp_id memory size s = do
      stored ← each_byte (aligned_store 1 lamp_id) size memory s
      invalidate_region memory size stored
