-- ===== src/Lamp/Hierarchy/Total.antt =====
-- Operations of LoopHierarchy that do not throw, in a state whose depth is an index.
use llvm_loop_fission.Base.{ℕ, ◌<◌, ◌≡◌, refl, sym, subst, List, some, length, length-set, set}
use llvm_loop_fission.Lamp.Profile.Lookup.{get_elem?-lt}
use llvm_loop_fission.Lamp.Hierarchy.{
  Buffers, LoopInfo, LoopHierarchy, iteration, change_at, loop_iteration,
}

module _ (b : Buffers) (T : Type 0) where
  pub change_at-some :
      (depth : ℕ) (f : LoopInfo b T → LoopInfo b T) (infos : List (LoopInfo b T))
      → depth < length infos
      → (next : List (LoopInfo b T)) × (change_at b T depth f infos ≡ some next)
        × (length next ≡ length infos)
  unfolding change_at
  change_at-some depth f infos lt =
      let (info, e) = get_elem?-lt infos depth lt in
      (set infos depth (f info), rw (change_at, e) refl, length-set infos depth (f info))

  pub loop_iteration-some :
      (time : ℕ) (h : LoopHierarchy b T)
      → h.current_depth < length h.loop_info
      → (next : LoopHierarchy b T) × (loop_iteration b T time h ≡ some next)
        × (next.current_depth < length next.loop_info)
  unfolding loop_iteration
  loop_iteration-some time h lt =
      let (infos, e, same) = change_at-some h.current_depth (iteration b T time) h.loop_info lt in
      (
        record { max_depth = h.max_depth; current_depth = h.current_depth; loop_info = infos },
        rw (loop_iteration, e) refl,
        subst (λ n. h.current_depth < n) (sym same) lt,
      )
