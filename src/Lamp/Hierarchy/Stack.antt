-- ===== src/Lamp/Hierarchy/Stack.antt =====
-- LoopHierarchy as a stack of the running loops.
use llvm_loop_fission.Base.{
  ℕ, zero, suc, ◌+◌, ◌%◌, ◌^◌, ◌<◌, ◌≡◌, refl, ap, sym, ◌∙◌, List, [], ◌∷◌, Option, none, some,
  if◌then◌else◌, ◌==◌, ltb, get_elem?, set, length, arith, length-set, false, ◌-◌, ◌≤◌, subst,
  Bool-cases, inl, inr, if_false,
}
use llvm_loop_fission.Lamp.Profile.Lookup.{get_elem?-set, get_elem?-lt}
use llvm_loop_fission.Lamp.Hierarchy.{
  Buffers, LoopInfo, LoopHierarchy, reset, change_at, with_infos, enter_loop, exit_loop,
  unless_later, if_before, find_from, find_loop,
}

module _ (buffers : Buffers) (T : Type 0) where
  abbrev pub Info : Type 0
  Info = LoopInfo buffers T

  abbrev pub State : Type 0
  State = LoopHierarchy buffers T

  abbrev pub cons_some : Option Info → List Info → List Info
  cons_some none rest = rest
  cons_some (some i) rest = i ∷ rest

  -- The loops that run, the innermost first, down to the outermost one at depth 0.
  abbrev pub down : ℕ → List Info → List Info
  down zero infos = cons_some (get_elem? infos 0) []
  down (suc depth) infos = cons_some (get_elem? infos (suc depth)) (down depth infos)

  abbrev pub running : State → List Info
  running h = down h.current_depth h.loop_info

  -- The depth is an index of `loop_info`, whose size is far below 2^32.
  pub record IsValid (h : State) : Type 0 where
    pub depth : h.current_depth < length h.loop_info
    pub size : length h.loop_info < 4294967296

  down-set :
      (depth k : ℕ) (infos : List Info) (i : Info)
      → depth < k
      → k < length infos
      → down depth (set infos k i) ≡ down depth infos
  down-set zero k infos i h b =
      ap (λ o. cons_some o []) (get_elem?-set infos k 0 i b ∙ ground (arith, h))
  down-set (suc depth) k infos i h b =
      ap (λ o. cons_some o (down depth (set infos k i)))
        (get_elem?-set infos k (suc depth) i b ∙ ground (arith, h))
      ∙ ap (cons_some (get_elem? infos (suc depth))) (down-set depth k infos i (omega arith) b)

  get_elem?-set-same :
      (k : ℕ) (infos : List Info) (i : Info)
      → k < length infos
      → get_elem? (set infos k i) k ≡ some i
  get_elem?-set-same k infos i b = get_elem?-set infos k k i b ∙ ground arith

  change_at_lem :
      (depth : ℕ) (f : Info → Info) (infos : List Info) (old : Info)
      → get_elem? infos depth ≡ some old
      → change_at buffers T depth f infos ≡ some (set infos depth (f old))
  unfolding change_at
  change_at_lem depth f infos old e = rw (change_at, e) refl

  entered :
      (loop_id timestamp : ℕ) (h : State) (old : Info)
      → IsValid h
      → suc h.current_depth < length h.loop_info
      → get_elem? h.loop_info (suc h.current_depth) ≡ some old
      → (next : State) × (enter_loop buffers T loop_id timestamp h ≡ some next)
        × IsValid next
        × (running next ≡ reset buffers T loop_id timestamp old ∷ running h)
  unfolding enter_loop
  entered loop_id timestamp h old v free e =
      let k = suc h.current_depth in
      let new = reset buffers T loop_id timestamp old in
      let infos = set h.loop_info k new in
      let depth : k % 2 ^ 32 ≡ k = omega (arith, v.size, free) in
      (
        record {
          max_depth = if ltb h.max_depth k then k else h.max_depth;
          current_depth = k;
          loop_info = infos;
        },
        rw (enter_loop, depth)
            (ap (with_infos buffers T (if ltb h.max_depth k then k else h.max_depth) k)
              (change_at_lem k (reset buffers T loop_id timestamp) h.loop_info old e)),
        record {
          depth = ground (arith, length-set h.loop_info k new, free);
          size = ground (arith, length-set h.loop_info k new, v.size);
        },
        ap (λ o. cons_some o (down h.current_depth infos))
              (get_elem?-set-same k h.loop_info new free)
            ∙ ap (◌∷◌ new) (down-set h.current_depth k h.loop_info new (omega arith) free),
      )

  -- In a valid state with a free place: LoopHierarchy::enterLoop does not throw, the state stays
  -- valid, and one loop comes on top of the running ones: with the low 16 bits of the id, the time
  -- stamp as its invocation, a cleared buffer of iterations, and the item that was in its place.
  pub enter_loop-running :
      (loop_id timestamp : ℕ) (h : State)
      → IsValid h
      → suc h.current_depth < length h.loop_info
      → (next : State) × (old : Info) × (enter_loop buffers T loop_id timestamp h ≡ some next)
        × IsValid next
        × (get_elem? h.loop_info (suc h.current_depth) ≡ some old)
        × (running next
            ≡ record {
              iteration_time_stamps = buffers.clear old.iteration_time_stamps;
              invocation_time_stamp = timestamp;
              loop_id = loop_id % 2 ^ 16;
              item = old.item;
            }
              ∷ running h)
  enter_loop-running loop_id timestamp h v free =
      let (old, e) = get_elem?-lt h.loop_info (suc h.current_depth) free in
      let (next, run, valid, on_top) = entered loop_id timestamp h old v free e in
      (next, old, run, valid, e, on_top)

  -- In a valid state with a loop above depth 0: LoopHierarchy::exitLoop takes the top off, and the
  -- state stays valid.
  pub exit_loop-running :
      (h : State)
      → IsValid h
      → 0 < h.current_depth
      → (top : Info) × IsValid (exit_loop buffers T h)
        × (running h ≡ top ∷ running (exit_loop buffers T h))
  unfolding exit_loop
  exit_loop-running h v above =
      let k = h.current_depth - 1 in
      let (top, got) = get_elem?-lt h.loop_info h.current_depth v.depth in
      let back : (h.current_depth + 4294967295) % 2 ^ 32 ≡ k =
        omega (arith, above, v.depth, v.size) in
      let up : suc k ≡ h.current_depth = omega (arith, above) in
      (
        top,
        record { depth = omega (arith, back, v.depth); size = v.size },
        ap (λ z. down z h.loop_info) (sym up)
            ∙ (ap (λ o. cons_some o (down k h.loop_info)) (ap (get_elem? h.loop_info) up ∙ got)
                ∙ ap (λ z. top ∷ down z h.loop_info) (sym back)),
      )

  -- The innermost of the running loops that started before a time; the outermost one only has to
  -- have started no later.
  abbrev started_before : ℕ → List Info → Option Info
  started_before time [] = none
  started_before time (i ∷ []) = unless_later buffers T time (some i)
  started_before time (i ∷ j ∷ rest) =
      if_before buffers T time (some i) (started_before time (j ∷ rest))

  started_before_cons :
      (time depth : ℕ) (i : Info) (infos : List Info)
      → depth < length infos
      → started_before time (i ∷ down depth infos)
        ≡ if_before buffers T time (some i) (started_before time (down depth infos))
  started_before_cons time zero i infos b = let (base, e) = get_elem?-lt infos 0 b in rw e refl
  started_before_cons time (suc depth) i infos b =
      let (j, e) = get_elem?-lt infos (suc depth) b in rw e refl

  find_from-running :
      (depth time : ℕ) (infos : List Info)
      → depth < length infos
      → find_from buffers T depth time infos ≡ started_before time (down depth infos)
  unfolding find_from
  find_from-running zero time infos b = let (base, e) = get_elem?-lt infos 0 b in rw e refl
  find_from-running (suc depth) time infos b =
      let (i, e) = get_elem?-lt infos (suc depth) b in
      ap (λ o. if_before buffers T time o (find_from buffers T depth time infos)) e
      ∙ (ap (if_before buffers T time (some i)) (find_from-running depth time infos (omega arith))
          ∙ (sym (started_before_cons time depth i infos (omega arith))
              ∙ sym (ap (λ o. started_before time (cons_some o (down depth infos))) e)))

  -- What findLoop is to give for a store at a time, of the running loops, the innermost first: the
  -- first one that started before the time; if none did, the outermost one, and nothing if that one
  -- started after the time.
  pub data IsFound (time : ℕ) : List Info → Option Info → Type 0 where
    before :
        {i j : Info} {rest : List Info}
        → i.invocation_time_stamp < time
        → IsFound time (i ∷ j ∷ rest) (some i)
    further :
        {i j : Info} {rest : List Info} {found : Option Info}
        → time ≤ i.invocation_time_stamp
        → IsFound time (j ∷ rest) found
        → IsFound time (i ∷ j ∷ rest) found
    outermost : {i : Info} → i.invocation_time_stamp ≤ time → IsFound time (i ∷ []) (some i)
    too_late : {i : Info} → time < i.invocation_time_stamp → IsFound time (i ∷ []) none

  started_before-IsFound :
      (time : ℕ) (i : Info) (rest : List Info)
      → IsFound time (i ∷ rest) (started_before time (i ∷ rest))
  started_before-IsFound time i [] = elim (Bool-cases (ltb time i.invocation_time_stamp)) [
    | inl late ↦ rw late (IsFound.too_late (ground (arith, late)))
    | inr early ↦ rw early (IsFound.outermost (ground (arith, early)))
  ]
  started_before-IsFound time i (j ∷ rest) = elim (Bool-cases (ltb i.invocation_time_stamp time)) [
    | inl early ↦ rw early (IsFound.before (ground (arith, early)))
    | inr late ↦
        rw late (IsFound.further (ground (arith, late)) (started_before-IsFound time j rest))
  ]

  down-IsFound :
      (time depth : ℕ) (infos : List Info)
      → depth < length infos
      → IsFound time (down depth infos) (started_before time (down depth infos))
  down-IsFound time zero infos b =
      let (i, e) = get_elem?-lt infos 0 b in rw e (started_before-IsFound time i [])
  down-IsFound time (suc depth) infos b =
      let (i, e) = get_elem?-lt infos (suc depth) b in
      rw e (started_before-IsFound time i (down depth infos))

  -- In a valid state and for a store after time 0: LoopHierarchy::findLoop gives the innermost
  -- running loop that started before the store; where none did, the outermost one, and it aborts if
  -- that one started later than the store.
  pub find_loop-running :
      (time : ℕ) (h : State)
      → IsValid h
      → 0 < time
      → IsFound time (running h) (find_loop buffers T time h)
  unfolding find_loop
  find_loop-running time h v pos =
      let after : (time == 0) ≡ false = ground (arith, pos) in
      let same = find_from-running h.current_depth time h.loop_info v.depth in
      subst (IsFound time (running h)) (sym (if_false _ _ _ after ∙ same))
        (down-IsFound time h.current_depth h.loop_info v.depth)
