-- ===== src/Memory/Values/Round.antt =====
-- What BytePage::write_value writes, BytePage::read_value reads.
use llvm_loop_fission.Base.{
  ℕ, zero, suc, ◌+◌, ◌-◌, ◌*◌, ◌^◌, ◌<◌, ◌≡◌, refl, ap, sym, ◌∙◌, subst, Bool, true, false, ◌&&◌,
  arith, if◌then◌else◌, if_true, if_false, ok, step_ok, Bool-cases, inl, inr,
}
use llvm_loop_fission.Memory.Bits.Masks.{in_range}
use llvm_loop_fission.Memory.Page.{Page, am_offset, is_offset_set}
use llvm_loop_fission.Memory.Page.Tracks.{tracked, all_tracked, Fits}
use llvm_loop_fission.Memory.Page.Status.{
  unknown, invalid, valid, status_of, status, Within, Changed, check_range_lem,
  set_offset_valid_lem,
}
use llvm_loop_fission.Memory.Page.Laws.{is_valid_lem}
use llvm_loop_fission.Memory.Values.{
  host_byte, host_load, host_store, read_page_value, write_page_value,
}
use llvm_loop_fission.Memory.Values.Parts.{host_load-same, host_load-host_byte}

valid-tracked : (v i : Bool) (item w : ℕ) → status_of v i item ≡ valid w → (v ≡ true) × (item ≡ w)
valid-tracked true i item w e =
    (refl, ap (λ st. elim st [ valid x ↦ x | unknown ↦ item | invalid ↦ item ]) e)
valid-tracked false true item w e = absurd (cc e)
valid-tracked false false item w e = absurd (cc e)

-- The bytes of a page are valid, and those of a value.
abbrev HoldsValue : Page ℕ → ℕ → ℕ → (ℕ → ℕ) → Type 0
HoldsValue page size offset f = (i : ℕ) → i < size → status page (offset + i) ≡ valid (f i)

HoldsValue-all_tracked :
    (page : Page ℕ) (size offset : ℕ) (f : ℕ → ℕ)
    → HoldsValue page size offset f
    → all_tracked page.valid size offset ≡ true
HoldsValue-all_tracked page zero offset f h = refl
HoldsValue-all_tracked page (suc size) offset f h =
    let at : offset + 0 ≡ offset = omega arith in
    let first : tracked page.valid offset ≡ true =
      (valid-tracked _ _ _ (f 0)
        (subst (λ n. status page n ≡ valid (f 0)) at (h 0 (omega arith)))).0 in
    let rest : HoldsValue page size (suc offset) (λ i. f (suc i)) = λ i lt.
      let shifted : offset + suc i ≡ suc offset + i = omega arith in
      subst (λ n. status page n ≡ valid (f (suc i))) shifted (h (suc i) (omega (arith, lt))) in
    ap (λ c. c && all_tracked page.valid size (suc offset)) first
    ∙ HoldsValue-all_tracked page size (suc offset) (λ i. f (suc i)) rest

from_zero : (i : ℕ) → i ≡ 0 + i
from_zero i = omega arith

read_page_value_lem :
    (page : Page ℕ) (size addr : ℕ) (f : ℕ → ℕ)
    → Within page addr size
    → Fits (am_offset addr) size
    → HoldsValue page size (am_offset addr) f
    → read_page_value size page addr ≡ ok (host_load size f 0)
unfolding read_page_value
read_page_value_lem page size addr f w fits h =
    step_ok _ tt _ _ (check_range_lem page addr size w) (
      step_ok _ true _ _
        (is_valid_lem page addr size w fits
          ∙ ap ok (HoldsValue-all_tracked page size (am_offset addr) f h))
        (ap ok (
          host_load-same size (am_offset addr) 0 page.values f
            (λ i lt. (valid-tracked _ _ _ (f i) (h i lt)).1 ∙ ap f (from_zero i)))))

written_bytes :
    (page : Page ℕ) (size offset value place : ℕ)
    → (if in_range size offset place
        then valid (host_store size page.values offset value place)
        else status (record page { values = host_store size page.values offset value }) place)
      ≡ (if in_range size offset place
          then valid (host_byte value (place - offset))
          else status page place)
written_bytes page size offset value place = elim (Bool-cases (in_range size offset place)) [
  | inl inside ↦
      if_true _ _ _ inside ∙ (ap valid (if_true _ _ _ inside) ∙ sym (if_true _ _ _ inside))
  | inr outside ↦
      if_false _ _ _ outside
      ∙ (ap (status_of (tracked page.valid place) (tracked page.invalid place))
            (if_false _ _ _ outside)
          ∙ sym (if_false _ _ _ outside))
]

write_page_value_lem :
    (page : Page ℕ) (size addr value : ℕ)
    → Within page addr size
    → Fits (am_offset addr) size
    → is_offset_set page.invalid (am_offset addr) size ≡ ok false
    → Changed page (write_page_value size addr value page) (λ place.
      if in_range size (am_offset addr) place
      then valid (host_byte value (place - am_offset addr))
      else status page place)
unfolding write_page_value
write_page_value_lem page size addr value w fits free =
    let offset = am_offset addr in
    let written : Page ℕ = record page { values = host_store size page.values offset value } in
    let (next, run, same, holds) = set_offset_valid_lem written offset size fits in
    (
      next,
      step_ok _ tt _ _ (check_range_lem page addr size w) (step_ok _ false _ _ free run),
      same,
      λ place. holds place ∙ written_bytes page size offset value place,
    )

-- For bytes of one page that share a track byte and are not all invalid, and a value that fits into
-- them: BytePage::write_value does not abort and changes no other byte, and BytePage::read_value then
-- does not abort and gives back the value.
pub read_page_value-write_page_value :
    (page : Page ℕ) (size addr value : ℕ)
    → Within page addr size
    → Fits (am_offset addr) size
    → is_offset_set page.invalid (am_offset addr) size ≡ ok false
    → value < 2 ^ (8 * size)
    → (next : Page ℕ) × (write_page_value size addr value page ≡ ok next)
      × (read_page_value size next addr ≡ ok value)
      × ((place : ℕ)
          → in_range size (am_offset addr) place ≡ false
          → status next place ≡ status page place)
read_page_value-write_page_value page size addr value w fits free small =
    let offset = am_offset addr in
    let (next, run, same, holds) = write_page_value_lem page size addr value w fits free in
    let still : Within next addr size = record {
      page = w.page ∙ sym same;
      ends = w.ends;
      some_bytes = w.some_bytes;
      bounded = w.bounded;
    } in
    let bytes : HoldsValue next size offset (host_byte value) = λ i lt.
      let back : offset + i - offset ≡ i = omega arith in
      holds (offset + i)
      ∙ (if_true (in_range size offset (offset + i)) _ _ (ground (arith, lt))
          ∙ ap (λ k. valid (host_byte value k)) back) in
    (
      next,
      run,
      read_page_value_lem next size addr (host_byte value) still fits bytes
          ∙ ap ok (host_load-host_byte size value small),
      λ place outside. holds place ∙ if_false _ _ _ outside,
    )
