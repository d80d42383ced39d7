-- ===== src/Lamp/Hierarchy/Depth.antt =====
-- The depth of the loop that LoopHierarchy::findLoop refers to.
use llvm_loop_fission.Base.{
  ℕ, zero, suc, ltb, ◌==◌, Bool-cases, inl, inr, ◌≡◌, refl, List, Option, none, some, get_elem?,
}
use llvm_loop_fission.Lamp.Hierarchy.{
  Buffers, LoopInfo, LoopHierarchy, unless_later, if_before, there_at, depth_before, depth_from,
  find_depth, find_from, find_loop,
}

module _ (b : Buffers) (T : Type 0) where
  abbrev pub look_at : List (LoopInfo b T) → Option ℕ → Option (LoopInfo b T)
  look_at infos none = none
  look_at infos (some depth) = get_elem? infos depth

  there_at_lem :
      (time depth : ℕ) (infos : List (LoopInfo b T)) (o : Option (LoopInfo b T))
      → get_elem? infos depth ≡ o
      → look_at infos (there_at b T depth (unless_later b T time o)) ≡ unless_later b T time o
  there_at_lem time depth infos none e = refl
  there_at_lem time depth infos (some info) e =
      elim (Bool-cases (ltb time info.invocation_time_stamp)) [
        | inl late ↦ rw late refl
        | inr in_time ↦ rw in_time e
      ]

  depth_before_lem :
      (time depth : ℕ) (infos : List (LoopInfo b T)) (o rest : Option (LoopInfo b T))
      (found : Option ℕ)
      → get_elem? infos depth ≡ o
      → look_at infos found ≡ rest
      → look_at infos (depth_before b T time depth o found) ≡ if_before b T time o rest
  depth_before_lem time depth infos none rest found e h = refl
  depth_before_lem time depth infos (some info) rest found e h =
      elim (Bool-cases (ltb info.invocation_time_stamp time)) [
        | inl earlier ↦ rw earlier e
        | inr later ↦ rw later h
      ]

  depth_from_lem :
      (depth time : ℕ) (infos : List (LoopInfo b T))
      → look_at infos (depth_from b T depth time infos) ≡ find_from b T depth time infos
  unfolding depth_from find_from
  depth_from_lem zero time infos = there_at_lem time 0 infos (get_elem? infos 0) refl
  depth_from_lem (suc depth) time infos =
      depth_before_lem time (suc depth) infos (get_elem? infos (suc depth))
        (find_from b T depth time infos) (depth_from b T depth time infos) refl
        (depth_from_lem depth time infos)

  first_lem :
      (infos : List (LoopInfo b T)) (o : Option (LoopInfo b T))
      → get_elem? infos 0 ≡ o
      → look_at infos (there_at b T 0 o) ≡ o
  first_lem infos none e = refl
  first_lem infos (some info) e = e

  -- The loop at the depth that find_depth gives is the loop that findLoop refers to.
  pub find_depth-find_loop :
      (time : ℕ) (h : LoopHierarchy b T)
      → look_at h.loop_info (find_depth b T time h) ≡ find_loop b T time h
  unfolding find_depth find_loop
  find_depth-find_loop time h = elim (Bool-cases (time == 0)) [
    | inl first ↦
        rw (find_depth, find_loop, first) (first_lem h.loop_info (get_elem? h.loop_info 0) refl)
    | inr later ↦
        rw (find_depth, find_loop, later) (depth_from_lem h.current_depth time h.loop_info)
  ]
