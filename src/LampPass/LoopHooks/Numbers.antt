-- ===== src/LampPass/LoopHooks/Numbers.antt =====
-- The numbers of loops in the hooks, and those that LAMPBuildLoopMap of lib/LAMPLoadProfile.cpp gives.
use llvm_loop_fission.Base.{
  ℕ, suc, ◌+◌, ◌%◌, ◌^◌, ◌<◌, ◌≡◌, refl, ap, sym, ◌∙◌, true, List, [], ◌∷◌, some, if◌then◌else◌, ok,
  arith, length, step_ok,
}
use llvm_loop_fission.LampPass.{Counter, get_count_insts}
use llvm_loop_fission.LampPass.Instrument.{
  loop_invocation, iteration_begin, iteration_end, Item, hook,
}
use llvm_loop_fission.LampPass.LoopHooks.{
  Blocks, LoopShape, LoopState, update, before_terminator, after_phis, at_block, next_loop,
  run_on_loop, run_on_loops,
}
use llvm_loop_fission.LampPass.LoopHooks.Calls.{
  invokes, invokes-before_terminator, has_code-before_terminator, invokes-after_phis,
  has_code-after_phis, HasCode, Grows, Grows-update, instrument_exits-Grows,
}

-- A loop with a preheader and a latch.
abbrev pub IsSimple : LoopShape → Type 0
IsSimple lp = (p : ℕ) × (l : ℕ) × (lp.preheader ≡ some p) × (lp.latch ≡ some l)

Grows-before_terminator :
    (blocks : Blocks) (b : ℕ) (new : Item)
    → HasCode blocks
    → Grows blocks (update blocks b (before_terminator new (blocks b)))
Grows-before_terminator blocks b new code =
    Grows-update blocks b (before_terminator new (blocks b)) code (
      has_code-before_terminator new (blocks b) (code b),
      λ k e. ground (arith, invokes-before_terminator k new (blocks b), e),
    )

-- One loop: its call of LAMP_loop_invocation stands in its preheader, and no call is lost.
run_on_loop-Grows :
    (lp : LoopShape) (counter : Counter) (s : LoopState) (blocks : Blocks)
    → IsSimple lp
    → HasCode blocks
    → (p : ℕ) × (next : Blocks) × (run_on_loop lp (counter, s, blocks)
        ≡ ok (
          record counter { num_loops = (next_loop counter s).num_loops },
          next_loop counter s,
          next,
        ))
      × (lp.preheader ≡ some p)
      × (invokes (next_loop counter s).loop_id (next p) ≡ true)
      × Grows blocks next
unfolding run_on_loop
run_on_loop-Grows lp counter s blocks (p, l, at_p, at_l) code =
    let k = (next_loop counter s).loop_id in
    let call : Item = hook loop_invocation (k ∷ []) in
    let entered = update blocks p (before_terminator call (blocks p)) in
    let grows1 = Grows-before_terminator blocks p call code in
    let code1 : HasCode entered = λ b. (grows1 b).0 in
    let h = lp.header in
    let begun = update entered h (after_phis (hook iteration_begin []) (entered h)) in
    let grows2 =
      Grows-update entered h (after_phis (hook iteration_begin []) (entered h)) code1
        (has_code-after_phis (entered h) (code1 h), λ k e. invokes-after_phis k (entered h) ∙ e) in
    let code2 : HasCode begun = λ b. (grows2 b).0 in
    let ended = update begun l (before_terminator (hook iteration_end []) (begun l)) in
    let grows3 = Grows-before_terminator begun l (hook iteration_end []) code2 in
    let (next, run, grows4) = instrument_exits-Grows lp.exit_blocks [] ended (λ b. (grows3 b).0) in
    let here : invokes k (entered p) ≡ true =
      ground (arith, invokes-before_terminator k call (blocks p)) in
    (
      p,
      next,
      step_ok _ entered _ _ (ap (λ o. at_block o (before_terminator call) blocks) at_p) (
          step_ok _ ended _ _
            (ap (λ o. at_block o (before_terminator (hook iteration_end [])) begun) at_l)
            (step_ok _ next _ _ run refl)),
      at_p,
      (grows4 p).1 k ((grows3 p).1 k ((grows2 p).1 k here)),
      λ b. (
        (grows4 b).0,
        λ j e. (grows4 b).1 j ((grows3 b).1 j ((grows2 b).1 j ((grows1 b).1 j e))),
      ),
    )

-- The preheader of each loop calls LAMP_loop_invocation with its number, counted from a first one.
abbrev pub IsNumbered : Blocks → ℕ → List LoopShape → Type 0
IsNumbered blocks n [] = Unit
IsNumbered blocks n (lp ∷ loops) =
    ((p : ℕ) × (lp.preheader ≡ some p) × (invokes n (blocks p) ≡ true))
    × IsNumbered blocks (suc n) loops

IsNumbered-Grows :
    (old new : Blocks) (n : ℕ) (loops : List LoopShape)
    → Grows old new
    → IsNumbered old n loops
    → IsNumbered new n loops
IsNumbered-Grows old new n [] g h = tt
IsNumbered-Grows old new n (lp ∷ loops) g ((p, at, here), h) =
    ((p, at, (g p).1 n here), IsNumbered-Grows old new (suc n) loops g h)

-- The number before the next loop's, where the next loop is to get n.
abbrev pub IsAt : Counter → LoopState → ℕ → Type 0
IsAt counter s n =
    (if s.id_init_flag then s.loop_id else (get_count_insts counter + 4294967295) % 2 ^ 32)
    ≡ (n + 4294967295) % 2 ^ 32

next_loop_lem :
    (counter : Counter) (s : LoopState) (n : ℕ)
    → IsAt counter s n
    → n < 2 ^ 32
    → s.num_loops + 1 < 2 ^ 32
    → ((next_loop counter s).loop_id ≡ n)
      × ((next_loop counter s).id_init_flag ≡ true)
      × ((next_loop counter s).num_loops ≡ s.num_loops + 1)
unfolding next_loop
next_loop_lem counter s n at h k = (omega (arith, at, h), refl, omega (arith, k))

abbrev pub AllSimple : List LoopShape → Type 0
AllSimple [] = Unit
AllSimple (lp ∷ loops) = IsSimple lp × AllSimple loops

pub run_on_loops-from :
    (loops : List LoopShape) (counter : Counter) (s : LoopState) (blocks : Blocks) (n : ℕ)
    → AllSimple loops
    → HasCode blocks
    → IsAt counter s n
    → n + length loops < 2 ^ 32
    → s.num_loops + length loops < 2 ^ 32
    → counter.num_loops ≡ s.num_loops
    → (counter' : Counter) × (s' : LoopState) × (next : Blocks) × (run_on_loops loops
          (counter, s, blocks)
        ≡ ok (counter', s', next))
      × (counter'.num_loops ≡ s.num_loops + length loops)
      × IsNumbered next n loops
      × Grows blocks next
unfolding run_on_loops
run_on_loops-from [] counter s blocks n simple code at h k same =
    (counter, s, blocks, refl, omega (arith, same), tt, λ b. (code b, λ j e. e))
run_on_loops-from (lp ∷ loops) counter s blocks n (simple, others) code at h k same =
    let (number, flag, count) =
      next_loop_lem counter s n at (omega (arith, h)) (omega (arith, k)) in
    let t = next_loop counter s in
    let counter' : Counter = record counter { num_loops = t.num_loops } in
    let (p, one, run, at_p, here, grows) = run_on_loop-Grows lp counter s blocks simple code in
    let there : IsAt counter' t (suc n) = rw (flag) (number ∙ omega (arith, h)) in
    let (counter'', s', next, done, total, numbered, grows_on) =
      run_on_loops-from loops counter' t one (suc n) others (λ b. (grows b).0) there
        (omega (arith, h)) (omega (arith, count, k)) refl in
    (
      counter'',
      s',
      next,
      step_ok (run_on_loop lp (counter, s, blocks)) (counter', t, one) _ _ run done,
      omega (arith, total, count),
      ((p, at_p, (grows_on p).1 n (ap (λ j. invokes j (one p)) (sym number) ∙ here)), numbered),
      λ b. ((grows_on b).0, λ j e. (grows_on b).1 j ((grows b).1 j e)),
    )
