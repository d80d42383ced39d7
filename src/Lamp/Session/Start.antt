-- ===== src/Lamp/Session/Start.antt =====
-- The state that LAMP_init leaves.
use llvm_loop_fission.Base.{
  ℕ, zero, suc, ◌+◌, ◌%◌, ◌^◌, ◌<◌, ◌≤◌, ◌≡◌, refl, ap, ◌∙◌, subst, true, false, not, [], ◌∷◌, some,
  arith, ltb, leb, length, replicate, get_elem?, ok, aborted, of_option, if_false, step_ok,
  Bool-cases, inl, inr,
}
use llvm_loop_fission.Memory.Map.Look.{IsPaged, look, get_or_create_node_lem}
use llvm_loop_fission.Lamp.Stamps.{Timestamp, instr_max}
use llvm_loop_fission.Lamp.Hierarchy.{Buffers, LoopHierarchy}
use llvm_loop_fission.Lamp.Hierarchy.Total.{change_at-some, loop_iteration-some}
use llvm_loop_fission.Lamp.Profile.Lookup.{length-replicate}
use llvm_loop_fission.Lamp.Hooks.{State, DependenceSets}
use llvm_loop_fission.Lamp.Hooks.Running.{IsRunning}
use llvm_loop_fission.Lamp.Session.{
  Environment, new_profiler, mem_gran_shift, change_item, init_globals, init,
}

get_elem?-replicate : {A : Type 0} (n i : ℕ) (a : A) → i < n → get_elem? (replicate n a) i ≡ some a
get_elem?-replicate zero i a lt = absurd (omega arith)
get_elem?-replicate (suc n) zero a lt = refl
get_elem?-replicate (suc n) (suc i) a lt = get_elem?-replicate n i a (omega (arith, lt))

-- What doubling a number so often gives.
abbrev doubled : ℕ → ℕ → ℕ
doubled zero i = i
doubled (suc times) i = doubled times (i + i)

mem_gran_shift-more :
    (mem_gran fuel i shift : ℕ)
    → ltb i mem_gran ≡ true
    → mem_gran_shift mem_gran (suc fuel) i shift
      ≡ mem_gran_shift mem_gran fuel ((i + i) % 2 ^ 32) (shift + 1)
unfolding mem_gran_shift
mem_gran_shift-more mem_gran fuel i shift more = rw (mem_gran_shift, more) refl

ltb-false : (i n : ℕ) → n ≤ i → ltb i n ≡ false
ltb-false i n h = ground (arith, h)

-- The loop ends before its number is doubled beyond 2^31.
mem_gran_shift-ok :
    (mem_gran fuel i shift : ℕ)
    → mem_gran ≤ 2 ^ 31
    → mem_gran ≤ doubled fuel i
    → (out : ℕ) × (mem_gran_shift mem_gran (suc fuel) i shift ≡ ok out)
unfolding mem_gran_shift
mem_gran_shift-ok mem_gran zero i shift few reaches =
    (shift, rw (mem_gran_shift, ltb-false i mem_gran reaches) refl)
mem_gran_shift-ok mem_gran (suc fuel) i shift few reaches = elim (Bool-cases (ltb i mem_gran)) [
  | inr done ↦ (shift, rw (mem_gran_shift, done) refl)
  | inl more ↦
      let whole : (i + i) % 2 ^ 32 ≡ i + i = ground (arith, more, few) in
      let (out, run) = mem_gran_shift-ok mem_gran fuel (i + i) (shift + 1) few reaches in
      let next = ap (λ n. mem_gran_shift mem_gran (suc fuel) n (shift + 1)) whole in
      (out, mem_gran_shift-more mem_gran (suc fuel) i shift more ∙ (next ∙ run))
]

module _ (b : Buffers) where
  -- A state that LAMP_init has set up for a number of instructions.
  pub record IsStarted (num_instrs : ℕ) (s : State b) : Type 0 where
    pub running : IsRunning b s
    pub places : length s.page_cache ≡ num_instrs
    pub counters : length s.profiler ≡ num_instrs
    pub first : s.time_stamp ≡ 1
    pub one_mode : s.profile_flow ≡ not s.profile_output

  change_item-ok :
      (f : DependenceSets → DependenceSets) (h : LoopHierarchy b DependenceSets)
      → h.current_depth < length h.loop_info
      → (next : LoopHierarchy b DependenceSets) × (change_item b f h ≡ ok next)
  unfolding change_item
  change_item-ok f h lt =
      let (infos, e, same) =
        change_at-some b DependenceSets h.current_depth (λ info. record info { item = f info.item })
          h.loop_info lt in
      (record h { loop_info = infos }, rw (change_item, e) refl)

  module _ (fresh : ℕ → ℕ → Timestamp) where
    -- For at most 65535 instructions, a granularity of at most 2^31, a shadow memory whose pages are
    -- filed right and a loop hierarchy whose depth is an index: LAMP_init ends, does not abort and leaves a running state with a place in the
    -- page cache and a counter for each instruction, at time 1, where either loads or stores are
    -- profiled; what each address holds stays as it is.
    pub init-IsStarted :
        (num_instrs num_loops mem_gran flags : ℕ) (env : Environment) (s : State b)
        → num_instrs ≤ 65535
        → mem_gran ≤ 2 ^ 31
        → IsPaged s.memory_stamp
        → s.hierarchy.current_depth < length s.hierarchy.loop_info
        → (next : State b) × (init b fresh num_instrs num_loops mem_gran flags env s ≡ ok next)
          × IsStarted num_instrs next
          × ((a : ℕ) → look next.memory_stamp a ≡ look s.memory_stamp a)
    unfolding init new_profiler init_globals
    init-IsStarted num_instrs num_loops mem_gran flags env s few gran v depth =
        let (shift, e0) = mem_gran_shift-ok mem_gran 32 1 0 (omega arith) (omega (arith, gran)) in
        let (iterated, e1, in_range) = loop_iteration-some b DependenceSets 0 s.hierarchy depth in
        let (h, e2) = change_item-ok (λ _. [] ∷ [] ∷ []) iterated in_range in
        let (pages, p, e3, v2, keeps, there, at, same) =
          get_or_create_node_lem fresh s.memory_stamp 0 v in
        let next : State b = record (init_globals b fresh num_instrs flags env s) {
          profiler = replicate num_instrs [];
          hierarchy = h;
          time_stamp = 1;
          memory_stamp = pages;
          page_cache = replicate num_instrs (some 0);
          initialized = true;
        } in
        let places = length-replicate num_instrs (some 0) in
        (
          next,
          if_false (leb instr_max num_instrs) aborted _ (ground arith)
              ∙ step_ok (mem_gran_shift mem_gran 33 1 0) shift _ _ e0 (
                  step_ok _ (replicate num_instrs []) _ _
                    (if_false (ltb 65535 num_instrs) aborted _ (ground arith))
                    (step_ok _ iterated _ _ (ap of_option e1)
                      (step_ok _ h _ _ e2 (step_ok _ pages _ _ e3 refl)))),
          record {
            running = record {
              started = refl;
              paged = v2;
              cached = λ i lt. (
                0,
                (
                  get_elem?-replicate num_instrs i (some 0) (subst (λ n. i < n) places lt),
                  p,
                  there,
                ),
              );
            };
            places = places;
            counters = length-replicate num_instrs [];
            first = refl;
            one_mode = refl;
          },
          same,
        )
