-- ===== src/Lamp/Values/Exact.antt =====
-- What the slots of a ValueProfile count.
use llvm_loop_fission.Base.{
  ℕ, suc, ◌+◌, ◌<◌, ◌^◌, ◌%◌, ◌≡◌, refl, ap, ◌∙◌, Bool, true, false, not, ◌&&◌, ◌||◌, List, [], ◌∷◌,
  none, some, arith, length, inl, inr, ◌⊎◌, if◌then◌else◌, ◌==◌, Bool-cases, ℕ_discrete,
}
use llvm_loop_fission.Lamp.Values.{
  ValueCount, ValueProfile, new_profile, push_slot, count_value, take_free, increment, run,
}

-- How often a value occurs in what was seen.
abbrev pub occurrences : ℕ → List ℕ → ℕ
occurrences v [] = 0
occurrences v (w ∷ ws) = (if w == v then 1 else 0) + occurrences v ws

-- What the slots of a value sum up to.
abbrev pub count_of : ℕ → List ValueCount → ℕ
count_of v [] = 0
count_of v (s ∷ rest) = (if s.value == v then s.count else 0) + count_of v rest

abbrev pub has_slot : ℕ → List ValueCount → Bool
has_slot v [] = false
has_slot v (s ∷ rest) = s.value == v || has_slot v rest

abbrev pub is_full : List ValueCount → Bool
is_full [] = true
is_full (s ∷ rest) = not (s.count == 0) && is_full rest

wrap_lem : (n : ℕ) → n < 2 ^ 64 → n % 2 ^ 64 ≡ n
wrap_lem n h = omega arith

count_value-none :
    (v : ℕ) (slots : List ValueCount) → has_slot v slots ≡ false → count_value v slots ≡ none
unfolding count_value
count_value-none v [] h = refl
count_value-none v (s ∷ rest) h = ground (arith, count_value-none v rest, h)

-- The first loop, for a value that has a slot.
record Counted (v : ℕ) (slots new : List ValueCount) : Type 0 where
  counts : (w : ℕ) → count_of w new ≡ count_of w slots + (if w == v then 1 else 0)
  full : is_full slots ≡ true → is_full new ≡ true
  slots_kept : (w : ℕ) → has_slot w new ≡ has_slot w slots

count_value_lem :
    (v : ℕ) (slots : List ValueCount)
    → has_slot v slots ≡ true
    → suc (count_of v slots) < 2 ^ 64
    → (new : List ValueCount) × (count_value v slots ≡ some new) × Counted v slots new
unfolding count_value
count_value_lem v [] h b = absurd (ground (arith, h))
count_value_lem v (s ∷ rest) h b = elim (Bool-cases (s.value == v)) [
  | inl at ↦
      let counted : suc s.count % 2 ^ 64 ≡ suc s.count =
        wrap_lem (suc s.count) (ground (arith, b, at)) in
      (
        (record s { count = suc s.count % 2 ^ 64 }) ∷ rest,
        ground (arith, at),
        record {
          counts = λ w. ground (arith, at, counted);
          full = λ f. ground (arith, f, counted);
          slots_kept = λ w. refl;
        },
      )
  | inr other ↦
      let (new, run, c) =
        count_value_lem v rest (ground (arith, h, other)) (ground (arith, b, other)) in
      (
        s ∷ new,
        ground (arith, other, ap (push_slot s) run),
        record {
          counts = λ w. ground (arith, c.counts w);
          full = λ f. ground (arith, f, c.full);
          slots_kept = λ w. ground (arith, c.slots_kept w);
        },
      )
]

-- The second loop, for a value that has no slot.
take_free-counts :
    (v w : ℕ) (slots : List ValueCount)
    → is_full slots ≡ false
    → count_of w (take_free v slots) ≡ count_of w slots + (if w == v then 1 else 0)
unfolding take_free
take_free-counts v w [] f = cc
take_free-counts v w (s ∷ rest) f = ground (arith, take_free-counts v w rest, f)

take_free_full :
    (v : ℕ) (slots : List ValueCount) → is_full slots ≡ true → take_free v slots ≡ slots
unfolding take_free
take_free_full v [] f = refl
take_free_full v (s ∷ rest) f = ground (arith, take_free_full v rest, f)

no_slot_no_count :
    (v : ℕ) (slots : List ValueCount) → has_slot v slots ≡ false → count_of v slots ≡ 0
no_slot_no_count v [] h = refl
no_slot_no_count v (s ∷ rest) h = ground (arith, no_slot_no_count v rest, h)

-- What holds of the slots after the values of `n` have been seen, `n v` times each.
abbrev pub IsExact : List ValueCount → (ℕ → ℕ) → ℕ → Type 0
IsExact slots n v = (count_of v slots ≡ n v) ⊎ ((is_full slots ≡ true) × (has_slot v slots ≡ false))

abbrev pub seen : (ℕ → ℕ) → ℕ → ℕ → ℕ
seen n v w = n w + (if w == v then 1 else 0)

increment_lem :
    (p : ValueProfile) (n : ℕ → ℕ) (v : ℕ)
    → ((w : ℕ) → IsExact p.values n w)
    → suc (n v) < 2 ^ 64
    → (w : ℕ) → IsExact (increment p v).values (seen n v) w
unfolding increment
increment_lem p n v inv b w = elim (Bool-cases (has_slot v p.values)) [
  | inl has ↦
      let (new, run, c) = count_value_lem v p.values has (ground (arith, inv v, has, b)) in
      rw run (elim (inv w) [
        | inl e ↦ inl (c.counts w ∙ ap (λ k. k + (if w == v then 1 else 0)) e)
        | inr (f, none_w) ↦ inr (c.full f, c.slots_kept w ∙ none_w)
      ])
  | inr not_there ↦
      rw (count_value-none v p.values not_there) (elim (Bool-cases (is_full p.values)) [
        | inl f ↦ rw (take_free_full v p.values f) (elim (ℕ_discrete w v) [
          | yes at ↦ inr (f, ap (λ z. has_slot z p.values) at ∙ not_there)
          | no other ↦ ground (arith, inv w, other)
        ])
        | inr free ↦ inl (take_free-counts v w p.values free ∙ ground (arith, inv w, free))
      ])
]

run_lem :
    (vs : List ℕ) (p : ValueProfile) (n : ℕ → ℕ)
    → ((w : ℕ) → IsExact p.values n w)
    → ((w : ℕ) → n w + length vs < 2 ^ 64)
    → (w : ℕ) → IsExact (run p vs).values (λ x. n x + occurrences x vs) w
unfolding run
run_lem [] p n inv b w = ground (arith, inv w)
run_lem (v ∷ vs) p n inv b w =
    let ih =
      run_lem vs (increment p v) (seen n v) (increment_lem p n v inv (ground (arith, b v)))
        (λ x. ground (arith, b x)) w in
    ground (arith, ih)

new-IsExact : (w : ℕ) → IsExact new_profile.values (λ _. 0) w
new-IsExact w = inl (ground arith)

-- Of fewer than 2^64 values: after ValueProfile::increment of each of them, the slots of any value
-- sum up to how often it has occurred, unless no slot holds it; in that case all slots are taken.
pub run-IsExact :
    (vs : List ℕ) (w : ℕ)
    → length vs < 2 ^ 64
    → IsExact (run new_profile vs).values (λ x. occurrences x vs) w
run-IsExact vs w b =
    let seen_all = run_lem vs new_profile (λ _. 0) new-IsExact (λ x. ground (arith, b)) w in
    ground (arith, seen_all)
