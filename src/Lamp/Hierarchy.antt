-- ===== src/Lamp/Hierarchy.antt =====
-- LoopInfo and LoopHierarchy of tools/utils/LoopHierarchy.hxx: the stack of the loops that run now.
-- Its circular_buffer is another project's, and so a parameter.
pub mod Stack
pub mod Distance
pub mod Total
pub mod Depth
use llvm_loop_fission.Base.{
  ℕ, zero, suc, ◌+◌, ◌%◌, ◌^◌, List, [], ◌∷◌, Option, none, some, if◌then◌else◌, ◌==◌, ltb, leb,
  get_elem?, set,
}

-- circular_buffer<uint64_t> as the code uses it; `newest_first` is what its reverse iterator runs over.
pub record Buffers : Type 1 where
  pub Buffer : Type 0
  pub clear : Buffer → Buffer
  pub push_back : Buffer → ℕ → Buffer
  pub newest_first : Buffer → List ℕ

-- The loop of calculateDistance over the time stamps, the newest first.
pub distance_from : ℕ → List ℕ → ℕ
distance_from time [] = 0
distance_from time (t ∷ ts) = if leb t time then 0 else suc (distance_from time ts)

module _ (buffers : Buffers) (T : Type 0) where
  open buffers use {Buffer, clear, push_back, newest_first}

  pub record LoopInfo : Type 0 where
    pub iteration_time_stamps : Buffer
    pub invocation_time_stamp : ℕ
    pub loop_id : ℕ
    pub item : T

  -- LoopInfo::reset and LoopInfo::iteration. The item is left as it is.
  abbrev pub reset : ℕ → ℕ → LoopInfo → LoopInfo
  reset loop_id time_stamp info = record info {
    loop_id = loop_id % 2 ^ 16;
    invocation_time_stamp = time_stamp;
    iteration_time_stamps = clear info.iteration_time_stamps;
  }

  abbrev pub iteration : ℕ → LoopInfo → LoopInfo
  iteration time_stamp info = record info {
    iteration_time_stamps = push_back info.iteration_time_stamps time_stamp;
  }

  pub record LoopHierarchy : Type 0 where
    pub max_depth : ℕ
    pub current_depth : ℕ
    pub loop_info : List LoopInfo

  -- A change of `loop_info.at(depth)`; `none` is the exception of `at`.
  pub change_at : ℕ → (LoopInfo → LoopInfo) → List LoopInfo → Option (List LoopInfo)
  change_at depth f infos = elim (get_elem? infos depth) [
    | none ↦ none
    | some info ↦ some (set infos depth (f info))
  ]

  abbrev pub with_infos : ℕ → ℕ → Option (List LoopInfo) → Option LoopHierarchy
  with_infos max_depth depth none = none
  with_infos max_depth depth (some infos) =
      some (record { max_depth = max_depth; current_depth = depth; loop_info = infos })

  abbrev pub larger : ℕ → ℕ → ℕ
  larger depth max_depth = if ltb max_depth depth then depth else max_depth

  -- The depth is a uint32_t, which starts at -1.
  pub enter_loop : ℕ → ℕ → LoopHierarchy → Option LoopHierarchy
  enter_loop loop_id timestamp h =
      let depth = suc h.current_depth % 2 ^ 32 in
      with_infos (larger depth h.max_depth) depth
        (change_at depth (reset loop_id timestamp) h.loop_info)

  pub exit_loop : LoopHierarchy → LoopHierarchy
  exit_loop h = record h { current_depth = (h.current_depth + 4294967295) % 2 ^ 32 }

  pub loop_iteration : ℕ → LoopHierarchy → Option LoopHierarchy
  loop_iteration time_stamp h =
      with_infos h.max_depth h.current_depth
        (change_at h.current_depth (iteration time_stamp) h.loop_info)

  abbrev pub unless_later : ℕ → Option LoopInfo → Option LoopInfo
  unless_later time none = none
  unless_later time (some base) = if ltb time base.invocation_time_stamp then none else some base

  abbrev pub if_before : ℕ → Option LoopInfo → Option LoopInfo → Option LoopInfo
  if_before time none rest = none
  if_before time (some info) rest = if ltb info.invocation_time_stamp time then some info else rest

  -- The loop of findLoop from a depth down; `none` at the end is its abort.
  unfoldable pub find_from : ℕ → ℕ → List LoopInfo → Option LoopInfo
  find_from zero time infos = unless_later time (get_elem? infos 0)
  find_from (suc depth) time infos =
      if_before time (get_elem? infos (suc depth)) (find_from depth time infos)

  unfoldable pub find_loop : ℕ → LoopHierarchy → Option LoopInfo
  find_loop store_time_stamp h =
      if store_time_stamp == 0
      then get_elem? h.loop_info 0
      else find_from h.current_depth store_time_stamp h.loop_info

  -- The depth of the loop that findLoop refers to.
  abbrev pub there_at : ℕ → Option LoopInfo → Option ℕ
  there_at depth none = none
  there_at depth (some info) = some depth

  abbrev pub depth_before : ℕ → ℕ → Option LoopInfo → Option ℕ → Option ℕ
  depth_before time depth none rest = none
  depth_before time depth (some info) rest =
      if ltb info.invocation_time_stamp time then some depth else rest

  pub depth_from : ℕ → ℕ → List LoopInfo → Option ℕ
  depth_from zero time infos = there_at 0 (unless_later time (get_elem? infos 0))
  depth_from (suc depth) time infos =
      depth_before time (suc depth) (get_elem? infos (suc depth)) (depth_from depth time infos)

  pub find_depth : ℕ → LoopHierarchy → Option ℕ
  find_depth store_time_stamp h =
      if store_time_stamp == 0
      then there_at 0 (get_elem? h.loop_info 0)
      else depth_from h.current_depth store_time_stamp h.loop_info

  pub calculate_distance : LoopInfo → ℕ → ℕ
  calculate_distance store_loop store_time_stamp =
      distance_from store_time_stamp (newest_first store_loop.iteration_time_stamps)
