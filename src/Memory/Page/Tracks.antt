-- ===== src/Memory/Page/Tracks.antt =====
-- The track bytes of a page as one bit for each offset.
use llvm_loop_fission.Base.{
  ℕ, zero, suc, ◌+◌, ◌/◌, ◌%◌, ◌≤◌, ◌≡◌, refl, ap, sym, ◌∙◌, Bool, true, false, ◌&&◌, ◌||◌, not,
  arith, ◌==◌, ==_iff, Bool-cases, inl, inr, ok, ◌>>=◌,
}
use llvm_loop_fission.Memory.Bits.{bit}
use llvm_loop_fission.Memory.Bits.Masks.{
  shifted_mask, offset_mask_lem, in_range, bit_set, bit_clear, all_set, masked_eq,
}
use llvm_loop_fission.Memory.Page.{is_offset_set, set_tracks, clear_tracks}

abbrev pub tracked : (ℕ → ℕ) → ℕ → Bool
tracked tracks offset = bit (tracks (offset / 8)) (offset % 8)

-- Some bytes that share one track byte.
abbrev pub Fits : ℕ → ℕ → Type 0
Fits offset length = length + offset % 8 ≤ 8

or_false : (a b : Bool) → b ≡ false → (a || b) ≡ a
or_false a b h = ground (arith, h)

and_true : (a b : Bool) → b ≡ false → (a && not b) ≡ a
and_true a b h = ground (arith, h)

-- A byte that a change concerns, and the places in it.
other_byte :
    (offset length place : ℕ)
    → Fits offset length
    → (place / 8 == offset / 8) ≡ false
    → in_range length offset place ≡ false
other_byte offset length place fits apart = ground (arith, fits, apart)

same_byte :
    (offset length place : ℕ)
    → (place / 8 == offset / 8) ≡ true
    → in_range length (offset % 8) (place % 8) ≡ in_range length offset place
same_byte offset length place at = ground (arith, at)

pub tracked-set_tracks :
    (tracks : ℕ → ℕ) (offset length place : ℕ)
    → Fits offset length
    → tracked (set_tracks tracks offset (shifted_mask length (offset % 8))) place
      ≡ (tracked tracks place || in_range length offset place)
unfolding set_tracks
tracked-set_tracks tracks offset length place fits = elim (Bool-cases (place / 8 == offset / 8)) [
  | inl at ↦
      let byte = (==_iff (place / 8) (offset / 8)).0 at in
      rw (at, set_tracks)
        (bit_set (tracks (offset / 8)) length (offset % 8) (place % 8) fits (omega arith)
          ∙ (ap (λ z. bit (tracks z) (place % 8) || in_range length (offset % 8) (place % 8))
                (sym byte)
              ∙ ap (λ r. tracked tracks place || r) (same_byte offset length place at)))
  | inr apart ↦
      rw (apart, set_tracks)
        (sym (or_false (tracked tracks place) _ (other_byte offset length place fits apart)))
]

pub tracked-clear_tracks :
    (tracks : ℕ → ℕ) (offset length place : ℕ)
    → Fits offset length
    → tracked (clear_tracks tracks offset (shifted_mask length (offset % 8))) place
      ≡ (tracked tracks place && not (in_range length offset place))
unfolding clear_tracks
tracked-clear_tracks tracks offset length place fits = elim (Bool-cases (place / 8 == offset / 8)) [
  | inl at ↦
      let byte = (==_iff (place / 8) (offset / 8)).0 at in
      rw (at, clear_tracks)
        (bit_clear (tracks (offset / 8)) length (offset % 8) (place % 8) fits (omega arith)
          ∙ (ap (λ z. bit (tracks z) (place % 8) && not (in_range length (offset % 8) (place % 8)))
                (sym byte)
              ∙ ap (λ r. tracked tracks place && not r) (same_byte offset length place at)))
  | inr apart ↦
      rw (apart, clear_tracks)
        (sym (and_true (tracked tracks place) _ (other_byte offset length place fits apart)))
]

-- Whether the bits of `length` offsets are all set.
abbrev pub all_tracked : (ℕ → ℕ) → ℕ → ℕ → Bool
all_tracked tracks zero offset = true
all_tracked tracks (suc length) offset =
    tracked tracks offset && all_tracked tracks length (suc offset)

all_set-all_tracked :
    (tracks : ℕ → ℕ) (length offset : ℕ)
    → Fits offset length
    → all_set (tracks (offset / 8)) length (offset % 8) ≡ all_tracked tracks length offset
all_set-all_tracked tracks zero offset fits = refl
all_set-all_tracked tracks (suc zero) offset fits = refl
all_set-all_tracked tracks (suc (suc length)) offset fits =
    let byte : offset / 8 ≡ suc offset / 8 = omega (arith, fits) in
    let place : suc (offset % 8) ≡ suc offset % 8 = omega (arith, fits) in
    ap (λ b. tracked tracks offset && b)
      (ap (λ z. all_set (tracks z) (suc length) (suc (offset % 8))) byte
        ∙ (ap (all_set (tracks (suc offset / 8)) (suc length)) place
            ∙ all_set-all_tracked tracks (suc length) (suc offset) (omega (arith, fits))))

-- For bytes that share one track byte: the test for them does not abort, and tells whether the bits
-- of all of them are set.
pub is_offset_set_lem :
    (tracks : ℕ → ℕ) (offset length : ℕ)
    → Fits offset length
    → is_offset_set tracks offset length ≡ ok (all_tracked tracks length offset)
unfolding is_offset_set
is_offset_set_lem tracks offset length fits =
    rw (is_offset_set, offset_mask_lem length (offset % 8) fits, ◌>>=◌)
      (ap ok (
        masked_eq (tracks (offset / 8)) length (offset % 8) fits
        ∙ all_set-all_tracked tracks length offset fits))

pub one-Fits : (offset : ℕ) → Fits offset 1
one-Fits offset = omega arith

pub is_offset_set_one :
    (tracks : ℕ → ℕ) (offset : ℕ) → is_offset_set tracks offset 1 ≡ ok (tracked tracks offset)
is_offset_set_one tracks offset =
    is_offset_set_lem tracks offset 1 (one-Fits offset)
    ∙ ap ok (and_true (tracked tracks offset) false refl)
