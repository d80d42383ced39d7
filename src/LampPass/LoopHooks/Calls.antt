-- ===== src/LampPass/LoopHooks/Calls.antt =====
-- Which calls the passes leave in a block.
use llvm_loop_fission.Base.{
  ℕ, ◌≡◌, refl, ap, sym, ◌∙◌, Bool, true, false, ◌||◌, not, List, [], ◌∷◌, ◌==◌, ok, arith,
  Bool-cases, inl, inr, elem, ℕ_discrete, step_ok,
}
use llvm_loop_fission.LampPass.Instrument.{
  loop_invocation, iteration_begin, iteration_end, loop_exit, Item, hook,
}
use llvm_loop_fission.LampPass.LoopHooks.{
  Blocks, update, before_terminator, is_phi, after_phis, exit_calls, instrument_exits,
}

-- The call of LAMP_loop_invocation with this number.
abbrev pub is_invocation : ℕ → Item → Bool
is_invocation k (hook loop_invocation (n ∷ [])) = n == k
is_invocation k _ = false

abbrev pub invokes : ℕ → List Item → Bool
invokes k [] = false
invokes k (i ∷ items) = is_invocation k i || invokes k items

-- An instruction that is no phi.
abbrev pub has_code : List Item → Bool
has_code [] = false
has_code (i ∷ items) = not (is_phi i) || has_code items

pub invokes-before_terminator :
    (k : ℕ) (new : Item) (items : List Item)
    → invokes k (before_terminator new items) ≡ (is_invocation k new || invokes k items)
unfolding before_terminator
invokes-before_terminator k new [] = refl
invokes-before_terminator k new (i ∷ []) = refl
invokes-before_terminator k new (i ∷ j ∷ items) =
    ground (arith, invokes-before_terminator k new (j ∷ items))

pub has_code-before_terminator :
    (new : Item) (items : List Item)
    → has_code items ≡ true
    → has_code (before_terminator new items) ≡ true
unfolding before_terminator
has_code-before_terminator new [] h = cc h
has_code-before_terminator new (i ∷ []) h = ground (arith, h)
has_code-before_terminator new (i ∷ j ∷ items) h =
    ground (arith, h, has_code-before_terminator new (j ∷ items))

pub invokes-after_phis :
    (k : ℕ) (items : List Item)
    → invokes k (after_phis (hook iteration_begin []) items) ≡ invokes k items
unfolding after_phis
invokes-after_phis k [] = refl
invokes-after_phis k (i ∷ items) = ground (arith, invokes-after_phis k items)

pub has_code-after_phis :
    (items : List Item)
    → has_code items ≡ true
    → has_code (after_phis (hook iteration_begin []) items) ≡ true
unfolding after_phis
has_code-after_phis [] h = cc h
has_code-after_phis (i ∷ items) h = ground (arith, h, has_code-after_phis items)

-- A block that has the calls of another one, and an instruction that is no phi.
abbrev pub IsGrown : List Item → List Item → Type 0
IsGrown old new = (has_code new ≡ true) × ((k : ℕ) → invokes k old ≡ true → invokes k new ≡ true)

pub exit_calls-IsGrown :
    (items : List Item)
    → has_code items ≡ true
    → (out : List Item) × (exit_calls items ≡ ok out) × IsGrown items out
unfolding exit_calls
exit_calls-IsGrown [] h = cc h
exit_calls-IsGrown (i ∷ items) h = elim (Bool-cases (is_phi i)) [
  | inl at ↦
      let (out, run, (code, calls)) = exit_calls-IsGrown items (ground (arith, h, at)) in
      (
        i ∷ out,
        rw (exit_calls, at) (step_ok (exit_calls items) out _ _ run refl),
        (ground (arith, code), λ k e. ground (arith, e, calls k)),
      )
  | inr away ↦ (
    hook iteration_end [] ∷ hook loop_exit [] ∷ i ∷ items,
    rw (exit_calls, away) refl,
    (refl, λ k e. e),
  )
]

-- Every block has an instruction that is no phi.
abbrev pub HasCode : Blocks → Type 0
HasCode blocks = (b : ℕ) → has_code (blocks b) ≡ true

abbrev pub Grows : Blocks → Blocks → Type 0
Grows blocks next = (b : ℕ) → IsGrown (blocks b) (next b)

pub Grows-update :
    (blocks : Blocks) (b : ℕ) (items : List Item)
    → HasCode blocks
    → IsGrown (blocks b) items
    → Grows blocks (update blocks b items)
Grows-update blocks b items code (new, calls) c = elim (Bool-cases (c == b)) [
  | inl at ↦
      let same : c ≡ b = ground (arith, at) in
      (
        rw (at) new,
        λ k e. (let here = calls k (ap (λ d. invokes k (blocks d)) (sym same) ∙ e) in rw (at) here),
      )
  | inr away ↦ (rw (away) (code c), λ k e. rw (away) e)
]

pub instrument_exits-Grows :
    (exits bb_set : List ℕ) (blocks : Blocks)
    → HasCode blocks
    → (next : Blocks) × (instrument_exits exits bb_set blocks ≡ ok next) × Grows blocks next
unfolding instrument_exits
instrument_exits-Grows [] bb_set blocks h = (blocks, refl, λ b. (h b, λ k e. e))
instrument_exits-Grows (b ∷ exits) bb_set blocks h = elim (Bool-cases (elem ℕ_discrete b bb_set)) [
  | inl done ↦
      let (next, run, grows) = instrument_exits-Grows exits bb_set blocks h in
      (next, rw (instrument_exits, done) run, grows)
  | inr todo ↦
      let (items, changed, grown) = exit_calls-IsGrown (blocks b) (h b) in
      let step = Grows-update blocks b items h grown in
      let (next, run, grows) =
        instrument_exits-Grows exits (b ∷ bb_set) (update blocks b items) (λ c. (step c).0) in
      (
        next,
        rw (instrument_exits, todo) (step_ok (exit_calls (blocks b)) items _ _ changed run),
        λ c. ((grows c).0, λ k e. (grows c).1 k ((step c).1 k e)),
      )
]
