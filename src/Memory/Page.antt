-- ===== src/Memory/Page.antt =====
-- MemoryPage of tools/utils/MemoryMap.hxx with PAGE_BITS at its default, 12: values with two bits
-- each, valid and invalid. The arrays are functions of the index, since each access checks that its
-- bytes lie in the page. What `new` leaves in `values` is a parameter.
pub mod Tracks
pub mod Status
pub mod Laws
use Prim.Native.Nat.{bit_and, bit_or}
use llvm_loop_fission.Base.{
  ℕ, zero, suc, ◌+◌, ◌-◌, ◌*◌, ◌/◌, ◌%◌, ◌^◌, Bool, not, Option, none, some, Result, ok, aborted,
  ◌>>=◌, if◌then◌else◌, ◌==◌,
}
use llvm_loop_fission.Memory.Validity.{Validity}
use llvm_loop_fission.Memory.Bits.Masks.{mask, offset_mask, complement}

pub record Page (T : Type 0) : Type 0 where
  pub page_addr : ℕ
  pub values : ℕ → T
  pub valid : ℕ → ℕ
  pub invalid : ℕ → ℕ

-- `addr & ADDR_MASK` and `addr & OFFSET_MASK`
abbrev pub am_page_addr : ℕ → ℕ
am_page_addr addr = addr / 4096 * 4096

abbrev pub am_offset : ℕ → ℕ
am_offset addr = addr % 4096

-- An assignment to an array.
abbrev pub update : {A : Type 0} → (ℕ → A) → ℕ → A → ℕ → A
update array i a j = if j == i then a else array j

-- MemoryPage::check_range
abbrev pub check_range : ℕ → ℕ → ℕ → Result (Unit {0})
check_range page_addr addr size =
    if not (am_page_addr addr == page_addr)
    then aborted
    else (if am_page_addr ((addr + size + (2 ^ 64 - 1)) % 2 ^ 64) == page_addr
        then ok tt
        else aborted)

-- MemoryPage::MemoryPage
pub new_page : {T : Type 0} → (ℕ → T) → ℕ → Result (Page T)
new_page memory addr =
    if am_page_addr addr == addr
    then ok (record { page_addr = addr; values = memory; valid = λ _. 0; invalid = λ _. 0 })
    else aborted

-- `(tracks[byte_offset] & omask) == omask`
pub is_offset_set : (ℕ → ℕ) → ℕ → ℕ → Result Bool
is_offset_set tracks offset length = do
  omask ← offset_mask length (offset % 8)
  ok (bit_and (tracks (offset / 8)) omask == omask)

pub set_tracks : (ℕ → ℕ) → ℕ → ℕ → ℕ → ℕ
set_tracks tracks offset m = update tracks (offset / 8) (bit_or (tracks (offset / 8)) m)

pub clear_tracks : (ℕ → ℕ) → ℕ → ℕ → ℕ → ℕ
clear_tracks tracks offset m =
    update tracks (offset / 8) (bit_and (tracks (offset / 8)) (complement m))

pub num_offset_set : (ℕ → ℕ) → ℕ → ℕ → Result Validity
num_offset_set tracks offset length = do
  omask ← offset_mask length (offset % 8)
  let isolated = bit_and (tracks (offset / 8)) omask / 2 ^ (offset % 8)
  ok (
      if isolated == 0
      then Validity.none
      else (if isolated == mask length then Validity.all else Validity.some))

module _ {T : Type 0} where
  pub set_offset_valid : Page T → ℕ → ℕ → Result (Page T)
  set_offset_valid p offset length = do
    valid_mask ← offset_mask length (offset % 8)
    ok (record p {
      valid = set_tracks p.valid offset valid_mask;
      invalid = clear_tracks p.invalid offset valid_mask;
    })

  pub set_offset_invalid : Page T → ℕ → ℕ → Result (Page T)
  set_offset_invalid p offset length = do
    invalid_mask ← offset_mask length (offset % 8)
    ok (record p {
      invalid = set_tracks p.invalid offset invalid_mask;
      valid = clear_tracks p.valid offset invalid_mask;
    })

  pub set_offset_unknown : Page T → ℕ → ℕ → Result (Page T)
  set_offset_unknown p offset length = do
    both_mask ← offset_mask length (offset % 8)
    ok (record p {
      valid = clear_tracks p.valid offset both_mask;
      invalid = clear_tracks p.invalid offset both_mask;
    })

  abbrev pub in_page : Page T → ℕ → Bool
  in_page p addr = am_page_addr addr == p.page_addr

  -- MemoryPage::getItem; `none` is NULL.
  pub get_item : Page T → ℕ → Result (Option T)
  get_item p addr = do
    checked ← check_range p.page_addr addr 1
    is_valid ← is_offset_set p.valid (am_offset addr) 1
    ok (if is_valid then some (p.values (am_offset addr)) else none)

  pub set_item : Page T → ℕ → T → Result (Page T)
  set_item p addr item = do
    checked ← check_range p.page_addr addr 1
    set_offset_valid (record p { values = update p.values (am_offset addr) item }) (am_offset addr)
        1

  -- num_valid, and get_aligned_validity, which checks the range twice.
  pub num_valid : Page T → ℕ → ℕ → Result Validity
  num_valid p addr length = do
    checked ← check_range p.page_addr addr length
    num_offset_set p.valid (am_offset addr) length

  pub is_valid : Page T → ℕ → ℕ → Result Bool
  is_valid p addr length = do
    checked ← check_range p.page_addr addr length
    is_offset_set p.valid (am_offset addr) length

  pub is_invalid : Page T → ℕ → ℕ → Result Bool
  is_invalid p addr length = do
    checked ← check_range p.page_addr addr length
    is_offset_set p.invalid (am_offset addr) length

  pub set_valid : Page T → ℕ → ℕ → Result (Page T)
  set_valid p addr length = do
    checked ← check_range p.page_addr addr length
    set_offset_valid p (am_offset addr) length

  -- The loop of set_invalid: a valid byte becomes unknown, any other invalid.
  pub invalidate_one : Page T → ℕ → Result (Page T)
  invalidate_one p coff = do
    was_valid ← is_offset_set p.valid coff 1
    if was_valid then set_offset_unknown p coff 1 else set_offset_invalid p coff 1

  pub invalidate_from : ℕ → ℕ → Page T → Result (Page T)
  invalidate_from zero coff p = ok p
  invalidate_from (suc rounds) coff p = do
    next ← invalidate_one p coff
    invalidate_from rounds (suc coff) next

  -- The length is a uint8_t.
  pub set_invalid : Page T → ℕ → ℕ → Result (Page T)
  set_invalid p addr length = do
    checked ← check_range p.page_addr addr (length % 2 ^ 8)
    invalidate_from (length % 2 ^ 8) (am_offset addr) p
