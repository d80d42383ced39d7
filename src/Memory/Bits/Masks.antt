-- ===== src/Memory/Bits/Masks.antt =====
-- MemoryPage::mask and MemoryPage::offsetMask, and the tests and changes of a byte by such a mask.
use Prim.Native.Nat.{bit_and, bit_or}
use llvm_loop_fission.Base.{
  ℕ, zero, suc, ◌+◌, ◌-◌, ◌*◌, ◌%◌, ◌^◌, ◌<◌, ◌≤◌, ◌≡◌, refl, ap, sym, ◌∙◌, Bool, true, false, ◌&&◌,
  ◌||◌, not, arith, ◌==◌, ==_iff, leb, ltb, if◌then◌else◌, Bool-eq_of_iff, ℕ_discrete, ◌↔◌, Result,
  ok, aborted,
}
use llvm_loop_fission.Memory.Bits.{bit, bit-bit_or, bit-bit_and, bit_ext, bit_and-lt}

abbrev pub mask : ℕ → ℕ
mask length = (2 ^ length - 1) % 256

-- The mask itself; offsetMask aborts first where it does not fit into a byte.
abbrev pub shifted_mask : ℕ → ℕ → ℕ
shifted_mask length offset = mask length * 2 ^ offset % 256

pub offset_mask : ℕ → ℕ → Result ℕ
offset_mask length offset =
    if ltb 8 (length + offset) then aborted else ok (shifted_mask length offset)

pub offset_mask_lem :
    (length offset : ℕ)
    → length + offset ≤ 8
    → offset_mask length offset ≡ ok (shifted_mask length offset)
unfolding offset_mask
offset_mask_lem length offset fits = ground arith

-- Every number below a bound passes a test.
abbrev all_below : ℕ → (ℕ → Bool) → Bool
all_below zero p = true
all_below (suc n) p = p n && all_below n p

all_below_sound : (n : ℕ) (p : ℕ → Bool) (i : ℕ) → all_below n p ≡ true → i < n → p i ≡ true
all_below_sound zero p i h lt = absurd (omega arith)
all_below_sound (suc n) p i h lt = ground (arith, all_below_sound n p i)

abbrev same_bit : Bool → Bool → Bool
same_bit true b = b
same_bit false b = not b

same_bit_sound : (a b : Bool) → same_bit a b ≡ true → a ≡ b
same_bit_sound true b h = ground (arith, h)
same_bit_sound false b h = ground (arith, h)

-- Whether a place is one of `length` places from `offset` on.
abbrev pub in_range : ℕ → ℕ → ℕ → Bool
in_range length offset place = leb offset place && ltb place (offset + length)

abbrev mask_is_right : ℕ → ℕ → ℕ → Bool
mask_is_right length offset place =
    ltb 8 (length + offset)
    || same_bit (bit (shifted_mask length offset) place) (in_range length offset place)

abbrev masks_are_right : Bool
masks_are_right =
    all_below 9 (λ length. all_below 9 (λ offset. all_below 8 (mask_is_right length offset)))

or_right : (a b : Bool) → a ≡ false → (a || b) ≡ true → b ≡ true
or_right true b h k = cc h
or_right false b h k = k

and_left : (a b : Bool) → (a && b) ≡ true → a ≡ true
and_left true b h = refl
and_left false b h = h

and_right : (a b : Bool) → (a && b) ≡ true → b ≡ true
and_right true b h = h
and_right false b h = cc h

and_both : (a b : Bool) → a ≡ true → b ≡ true → (a && b) ≡ true
and_both true b h k = k
and_both false b h k = h

absorb : (a b : Bool) → (b ≡ true → a ≡ true) → (a && b) ≡ b
absorb a true h = ground (arith, h refl)
absorb a false h = ground arith

masked_bit :
    (b place length offset : ℕ)
    → (bit b place && in_range length offset place) ≡ in_range length offset place
    → in_range length offset place ≡ true
    → bit b place ≡ true
masked_bit b place length offset e r = and_left _ _ (e ∙ r)

not_larger : (length offset : ℕ) → length + offset ≤ 8 → ltb 8 (length + offset) ≡ false
not_larger length offset h = ground arith

abbrev complement_is_right : ℕ → ℕ → Bool
complement_is_right b place = same_bit (bit (255 - b) place) (not (bit b place))

complement_table : all_below 256 (λ b. all_below 8 (complement_is_right b)) ≡ true
complement_table = refl

abbrev row : ℕ → Bool
row length = all_below 9 (λ offset. all_below 8 (mask_is_right length offset))

masks_table : masks_are_right ≡ true
masks_table = refl

pub bit-shifted_mask :
    (length offset place : ℕ)
    → length + offset ≤ 8
    → place < 8
    → bit (shifted_mask length offset) place ≡ in_range length offset place
bit-shifted_mask length offset place fits lt =
    let rows = all_below_sound 9 row length masks_table (omega (arith, fits)) in
    let places =
      all_below_sound 9 (λ o. all_below 8 (mask_is_right length o)) offset rows
        (omega (arith, fits)) in
    let right = all_below_sound 8 (mask_is_right length offset) place places lt in
    same_bit_sound _ _ (or_right _ _ (not_larger length offset fits) right)

-- The changes and tests of a track byte.
pub bit_set :
    (b length offset place : ℕ)
    → length + offset ≤ 8
    → place < 8
    → bit (bit_or b (shifted_mask length offset)) place
      ≡ (bit b place || in_range length offset place)
bit_set b length offset place fits lt =
    bit-bit_or b (shifted_mask length offset) place
    ∙ ap (λ m. bit b place || m) (bit-shifted_mask length offset place fits lt)

-- `~` on a byte.
abbrev pub complement : ℕ → ℕ
complement b = 255 - b

bit-complement : (b place : ℕ) → b < 256 → place < 8 → bit (complement b) place ≡ not (bit b place)
bit-complement b place h lt =
    let places =
      all_below_sound 256 (λ b. all_below 8 (complement_is_right b)) b complement_table h in
    let right = all_below_sound 8 (complement_is_right b) place places lt in
    same_bit_sound _ _ right

shifted_mask-lt : (length offset : ℕ) → shifted_mask length offset < 256
shifted_mask-lt length offset = omega arith

pub bit_clear :
    (b length offset place : ℕ)
    → length + offset ≤ 8
    → place < 8
    → bit (bit_and b (complement (shifted_mask length offset))) place
      ≡ (bit b place && not (in_range length offset place))
bit_clear b length offset place fits lt =
    bit-bit_and b (complement (shifted_mask length offset)) place
    ∙ ap (λ m. bit b place && m)
        (bit-complement (shifted_mask length offset) place (shifted_mask-lt length offset) lt
          ∙ ap not (bit-shifted_mask length offset place fits lt))

-- Whether all of `length` places from `offset` on are set.
abbrev pub all_set : ℕ → ℕ → ℕ → Bool
all_set b zero offset = true
all_set b (suc length) offset = bit b offset && all_set b length (suc offset)

all_set_iff :
    (b length offset : ℕ)
    → (all_set b length offset ≡ true)
      ↔ ((place : ℕ) → in_range length offset place ≡ true → bit b place ≡ true)
all_set_iff b zero offset = (λ h place r. absurd (ground (arith, r)), λ h. refl)
all_set_iff b (suc length) offset =
    let ih = all_set_iff b length (suc offset) in
    (
      λ h place r. elim (ℕ_discrete place offset) [
        | yes at ↦ ap (bit b) at ∙ and_left _ _ h
        | no other ↦ ih.0 (and_right _ _ h) place (ground (arith, r, other))
      ],
      λ h. and_both _ _ (h offset (ground arith)) (ih.1 (λ place r. h place (ground (arith, r)))),
    )

-- The test `(bits & omask) == omask`.
pub masked_eq :
    (b length offset : ℕ)
    → length + offset ≤ 8
    → (bit_and b (shifted_mask length offset) == shifted_mask length offset)
      ≡ all_set b length offset
masked_eq b length offset fits =
    let m = shifted_mask length offset in
    let both = λ (place : ℕ) (lt : place < 8).
      bit-bit_and b m place
      ∙ ap (λ z. bit b place && z) (bit-shifted_mask length offset place fits lt) in
    Bool-eq_of_iff _ _
      (λ e. (all_set_iff b length offset).1 (λ place r.
        let lt : place < 8 = ground (arith, r, fits) in
        masked_bit b place length offset
          (sym (both place lt)
            ∙ (ap (λ z. bit z place) ((==_iff _ m).0 e)
                ∙ bit-shifted_mask length offset place fits lt))
          r))
      (λ h. (==_iff _ m).1 (
        bit_ext 8 (bit_and b m) m (bit_and-lt 8 b m (shifted_mask-lt length offset))
          (shifted_mask-lt length offset)
          (λ place lt.
            both place lt
            ∙ (absorb _ _ ((all_set_iff b length offset).0 h place)
                ∙ sym (bit-shifted_mask length offset place fits lt)))))
