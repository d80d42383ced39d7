-- ===== src/Lamp/Hierarchy/Distance.antt =====
-- What LoopHierarchy::calculateDistance counts.
use llvm_loop_fission.Base.{
  ℕ, zero, suc, ◌≤◌, ◌≡◌, refl, ap, ◌∙◌, List, [], ◌∷◌, if◌then◌else◌, leb, ltb, take, arith,
  Bool-cases, inl, inr,
}
use llvm_loop_fission.Lamp.Hierarchy.{
  Buffers, LoopInfo, reset, iteration, distance_from, calculate_distance,
}

-- What a circular_buffer of a capacity does: it keeps the newest items.
pub record IsRing (capacity : ℕ) (b : Buffers) : Type 0 where
  pub cleared : (r : b.Buffer) → b.newest_first (b.clear r) ≡ []
  pub pushed :
      (r : b.Buffer) (t : ℕ)
      → b.newest_first (b.push_back r t) ≡ take capacity (t ∷ b.newest_first r)

-- How many of the time stamps are later than a time.
abbrev pub later : ℕ → List ℕ → ℕ
later time [] = 0
later time (t ∷ ts) = if ltb time t then suc (later time ts) else later time ts

-- No time stamp is earlier than the one behind it.
abbrev pub IsNewestFirst : List ℕ → Type 0
IsNewestFirst [] = Unit
IsNewestFirst (t ∷ []) = Unit
IsNewestFirst (t ∷ u ∷ ts) = (u ≤ t) × IsNewestFirst (u ∷ ts)

abbrev pub least : ℕ → ℕ → ℕ
least a b = if leb a b then a else b

take-cons-take : (n : ℕ) (t : ℕ) (ts : List ℕ) → take n (t ∷ take n ts) ≡ take n (t ∷ ts)
take-cons-take zero t ts = refl
take-cons-take (suc n) t ts = ap (◌∷◌ t) (go n ts)
  where
    go : (n : ℕ) (ts : List ℕ) → take n (take (suc n) ts) ≡ take n ts
    go zero ts = refl
    go (suc n) [] = refl
    go (suc n) (u ∷ ts) = ap (◌∷◌ u) (go n ts)

none_later :
    (time t : ℕ) (ts : List ℕ) → IsNewestFirst (t ∷ ts) → t ≤ time → later time (t ∷ ts) ≡ 0
none_later time t [] h k = ground (arith, k)
none_later time t (u ∷ ts) h k = ground (arith, none_later time u ts h.1 (omega (arith, h.0, k)), k)

IsNewestFirst-tail : (t : ℕ) (ts : List ℕ) → IsNewestFirst (t ∷ ts) → IsNewestFirst ts
IsNewestFirst-tail t [] h = tt
IsNewestFirst-tail t (u ∷ ts) h = h.1

distance_from-take :
    (capacity time : ℕ) (ts : List ℕ)
    → IsNewestFirst ts
    → distance_from time (take capacity ts) ≡ least capacity (later time ts)
unfolding distance_from
distance_from-take zero time ts h = ground arith
distance_from-take (suc n) time [] h = ground arith
distance_from-take (suc n) time (t ∷ ts) h = elim (Bool-cases (leb t time)) [
  | inl reached ↦ ground (arith, none_later time t ts h, reached)
  | inr before ↦ ground (arith, distance_from-take n time ts (IsNewestFirst-tail t ts h), before)
]

module _ (b : Buffers) (T : Type 0) where
  -- A loop that was entered and then iterated, at the given times, the last one first.
  abbrev pub iterated : ℕ → ℕ → List ℕ → LoopInfo b T → LoopInfo b T
  iterated loop_id start [] info = reset b T loop_id start info
  iterated loop_id start (t ∷ ts) info = iteration b T t (iterated loop_id start ts info)

  stamps :
      (capacity loop_id start : ℕ) (ts : List ℕ) (info : LoopInfo b T)
      → IsRing capacity b
      → b.newest_first (iterated loop_id start ts info).iteration_time_stamps ≡ take capacity ts
  stamps zero loop_id start [] info ring = ring.cleared info.iteration_time_stamps
  stamps (suc n) loop_id start [] info ring = ring.cleared info.iteration_time_stamps
  stamps capacity loop_id start (t ∷ ts) info ring =
      ring.pushed (iterated loop_id start ts info).iteration_time_stamps t
      ∙ (ap (λ seen. take capacity (t ∷ seen)) (stamps capacity loop_id start ts info ring)
          ∙ take-cons-take capacity t ts)

  -- For a circular buffer that keeps the newest time stamps, and a loop whose iterations have come
  -- in order since it was entered: LoopHierarchy::calculateDistance is the number of its iterations
  -- later than the store, or the buffer's capacity where there are more.
  pub calculate_distance-later :
      (capacity loop_id start time : ℕ) (ts : List ℕ) (info : LoopInfo b T)
      → IsRing capacity b
      → IsNewestFirst ts
      → calculate_distance b T (iterated loop_id start ts info) time
        ≡ least capacity (later time ts)
  unfolding calculate_distance
  calculate_distance-later capacity loop_id start time ts info ring order =
      ap (distance_from time) (stamps capacity loop_id start ts info ring)
      ∙ distance_from-take capacity time ts order
