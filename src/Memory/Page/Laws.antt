-- ===== src/Memory/Page/Laws.antt =====
-- The operations of MemoryPage on what a page holds for each byte.
use llvm_loop_fission.Base.{
  ℕ, zero, suc, ◌≡◌, refl, ap, sym, ◌∙◌, Bool, true, false, none, some, arith, ◌==◌, if◌then◌else◌,
  ok, ◌>>=◌, Bool-cases, inl, inr, ==_iff, ◌%◌, ◌^◌, ◌<◌,
}
use llvm_loop_fission.Memory.Bits.Masks.{in_range}
use llvm_loop_fission.Memory.Page.{
  Page, am_offset, update, get_item, set_item, is_valid, invalidate_one, invalidate_from,
  set_invalid,
}
use llvm_loop_fission.Memory.Page.Tracks.{
  tracked, all_tracked, Fits, one-Fits, is_offset_set_one, is_offset_set_lem,
}
use llvm_loop_fission.Memory.Page.Status.{
  Status, invalid, valid, status_of, status, invalidated, item_of, Within, Changed, check_range_lem,
  set_offset_valid_lem, set_offset_invalid_lem, set_offset_unknown_lem,
}

pub in_range_one : (offset place : ℕ) → in_range 1 offset place ≡ (place == offset)
in_range_one offset place = ground arith

module _ {T : Type 0} where
  item_of_status :
      (v i : Bool) (item : T) → (if v then some item else none) ≡ item_of (status_of v i item)
  item_of_status true i item = refl
  item_of_status false true item = refl
  item_of_status false false item = refl

  -- For an address in the page: getItem does not abort, and gives the item of a valid byte and NULL
  -- for any other.
  pub get_item_lem :
      (p : Page T) (addr : ℕ)
      → Within p addr 1
      → get_item p addr ≡ ok (item_of (status p (am_offset addr)))
  unfolding get_item
  get_item_lem p addr w =
      rw (get_item, check_range_lem p addr 1 w, ◌>>=◌, is_offset_set_one p.valid (am_offset addr))
        (ap ok (
          item_of_status (tracked p.valid (am_offset addr)) (tracked p.invalid (am_offset addr))
            (p.values (am_offset addr))))

  written_status :
      (p : Page T) (offset place : ℕ) (item : T)
      → (if in_range 1 offset place
          then valid (update p.values offset item place)
          else status (record p { values = update p.values offset item }) place)
        ≡ (if place == offset then valid item else status p place)
  written_status p offset place item = elim (Bool-cases (place == offset)) [
    | inl at ↦ rw (in_range_one offset place, at) refl
    | inr other ↦ rw (in_range_one offset place, other) refl
  ]

  -- For an address in the page: setItem does not abort, makes the byte valid with the item, and
  -- leaves every other byte of the page as it is.
  pub set_item_lem :
      (p : Page T) (addr : ℕ) (item : T)
      → Within p addr 1
      → Changed p
          (set_item p addr item)
          (λ place. if place == am_offset addr then valid item else status p place)
  unfolding set_item
  set_item_lem p addr item w =
      let offset = am_offset addr in
      let written : Page T = record p { values = update p.values offset item } in
      let (next, run, same, holds) = set_offset_valid_lem written offset 1 (one-Fits offset) in
      (
        next,
        rw (set_item, check_range_lem p addr 1 w, ◌>>=◌) run,
        same,
        λ place. holds place ∙ written_status p offset place item,
      )

  at_place :
      (coff place : ℕ) (new wanted old : Status T)
      → (place ≡ coff → new ≡ wanted)
      → (if in_range 1 coff place then new else old) ≡ (if place == coff then wanted else old)
  at_place coff place new wanted old h = elim (Bool-cases (place == coff)) [
    | inl at ↦ rw (in_range_one coff place, at) (h ((==_iff place coff).0 at))
    | inr other ↦ rw (in_range_one coff place, other) refl
  ]

  invalid_stays : (i : Bool) (item : T) → invalidated (status_of false i item) ≡ invalid
  invalid_stays true item = refl
  invalid_stays false item = refl

  one_more :
      (rounds coff place : ℕ) (old new : Status T)
      → new ≡ (if place == coff then invalidated old else old)
      → (if in_range rounds (suc coff) place then invalidated new else new)
        ≡ (if in_range (suc rounds) coff place then invalidated old else old)
  one_more rounds coff place old new e = elim (Bool-cases (place == coff)) [
    | inl at ↦
        let here : new ≡ invalidated old = ground (arith, e, at) in
        let out : in_range rounds (suc coff) place ≡ false = ground (arith, at) in
        let into : in_range (suc rounds) coff place ≡ true = ground (arith, at) in
        rw (out, into) here
    | inr other ↦
        let here : new ≡ old = ground (arith, e, other) in
        let same : in_range (suc rounds) coff place ≡ in_range rounds (suc coff) place =
          ground (arith, other) in
        rw (here, same) refl
  ]

  invalidate_one_lem :
      (p : Page T) (coff : ℕ)
      → Changed p
          (invalidate_one p coff)
          (λ place. if place == coff then invalidated (status p place) else status p place)
  unfolding invalidate_one
  invalidate_one_lem p coff = elim (Bool-cases (tracked p.valid coff)) [
    | inl was_valid ↦
        let (next, run, same, holds) = set_offset_unknown_lem p coff 1 (one-Fits coff) in
        (
          next,
          rw (invalidate_one, is_offset_set_one p.valid coff, ◌>>=◌, was_valid) run,
          same,
          λ place.
              holds place
              ∙ at_place coff place _ _ _ (λ e. sym (
                  ap (λ v. invalidated (status_of v (tracked p.invalid place) (p.values place)))
                    (ap (tracked p.valid) e ∙ was_valid))),
        )
    | inr was_not ↦
        let (next, run, same, holds) = set_offset_invalid_lem p coff 1 (one-Fits coff) in
        (
          next,
          rw (invalidate_one, is_offset_set_one p.valid coff, ◌>>=◌, was_not) run,
          same,
          λ place.
              holds place
              ∙ at_place coff place _ _ _ (λ e. sym (
                  ap (λ v. invalidated (status_of v (tracked p.invalid place) (p.values place)))
                    (ap (tracked p.valid) e ∙ was_not)
                  ∙ invalid_stays (tracked p.invalid place) (p.values place))),
        )
  ]

  -- A step that does to the byte at `coff` what is wanted there.
  invalidate_from_lem :
      (rounds coff : ℕ) (p : Page T)
      → Changed p (invalidate_from rounds coff p) (λ place.
        if in_range rounds coff place then invalidated (status p place) else status p place)
  unfolding invalidate_from
  invalidate_from_lem zero coff p = (p, refl, refl, λ place. ground arith)
  invalidate_from_lem (suc rounds) coff p =
      let (first, ran, same1, holds1) = invalidate_one_lem p coff in
      let (next, run, same2, holds2) = invalidate_from_lem rounds (suc coff) first in
      (
        next,
        rw (invalidate_from, ran, ◌>>=◌) run,
        same2 ∙ same1,
        λ place. holds2 place ∙ one_more rounds coff place _ _ (holds1 place),
      )

  -- For less than 256 bytes at an address that lie in the page: set_invalid does not abort, makes
  -- each of the bytes unknown where it was valid and invalid otherwise, and leaves the others as they are.
  pub set_invalid_lem :
      (p : Page T) (addr length : ℕ)
      → Within p addr length
      → length < 2 ^ 8
      → Changed p (set_invalid p addr length) (λ place.
        if in_range length (am_offset addr) place
        then invalidated (status p place)
        else status p place)
  unfolding set_invalid
  set_invalid_lem p addr length w small =
      let (next, run, same, holds) = invalidate_from_lem length (am_offset addr) p in
      let whole : length % 2 ^ 8 ≡ length = omega (arith, small) in
      (next, rw (set_invalid, whole, check_range_lem p addr length w, ◌>>=◌) run, same, holds)

  -- For bytes at an address that lie in the page and share a track byte: is_valid does not abort,
  -- and tells whether all of them are valid.
  pub is_valid_lem :
      (p : Page T) (addr length : ℕ)
      → Within p addr length
      → Fits (am_offset addr) length
      → is_valid p addr length ≡ ok (all_tracked p.valid length (am_offset addr))
  unfolding is_valid
  is_valid_lem p addr length w fits =
      rw (is_valid, check_range_lem p addr length w, ◌>>=◌)
        (is_offset_set_lem p.valid (am_offset addr) length fits)
