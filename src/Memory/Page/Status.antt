-- ===== src/Memory/Page/Status.antt =====
-- What a page holds for each byte, and how the operations of MemoryPage change it.
use llvm_loop_fission.Base.{
  ℕ, zero, suc, ◌+◌, ◌%◌, ◌^◌, ◌≤◌, ◌<◌, ◌≡◌, refl, Bool, true, false, ◌&&◌, ◌||◌, not, Option,
  none, some, arith, if◌then◌else◌, Result, ok, ◌>>=◌,
}
use llvm_loop_fission.Memory.Bits.{bit}
use llvm_loop_fission.Memory.Bits.Masks.{in_range, shifted_mask, offset_mask_lem}
use llvm_loop_fission.Memory.Page.{
  Page, am_page_addr, am_offset, check_range, new_page, set_tracks, clear_tracks, set_offset_valid,
  set_offset_invalid, set_offset_unknown,
}
use llvm_loop_fission.Memory.Page.Tracks.{tracked, Fits, tracked-set_tracks, tracked-clear_tracks}

-- What the two bits of a byte stand for.
pub data Status (T : Type 0) : Type 0 where
  unknown : Status T
  invalid : Status T
  valid : T → Status T

no_bit : (place : ℕ) → bit 0 place ≡ false
no_bit zero = refl
no_bit (suc place) = no_bit place

module _ {T : Type 0} where
  abbrev pub status_of : Bool → Bool → T → Status T
  status_of true is_invalid item = valid item
  status_of false true item = invalid
  status_of false false item = unknown

  abbrev pub status : Page T → ℕ → Status T
  status p offset = status_of (tracked p.valid offset) (tracked p.invalid offset) (p.values offset)

  -- What becomes of a byte that is invalidated.
  abbrev pub invalidated : Status T → Status T
  invalidated (valid item) = unknown
  invalidated unknown = invalid
  invalidated invalid = invalid

  abbrev pub item_of : Status T → Option T
  item_of (valid item) = some item
  item_of unknown = none
  item_of invalid = none

  -- Some bytes at an address that lie in the page.
  pub record Within (p : Page T) (addr length : ℕ) : Type 0 where
    pub page : am_page_addr addr ≡ p.page_addr
    pub ends : am_offset addr + length ≤ 4096
    pub some_bytes : 0 < length
    pub bounded : addr < 2 ^ 64

  pub check_range_lem :
      (p : Page T) (addr length : ℕ)
      → Within p addr length
      → check_range p.page_addr addr length ≡ ok tt
  check_range_lem p addr length w = ground arith

  after_valid :
      (v i r : Bool) (item : T)
      → status_of (v || r) (i && not r) item ≡ (if r then valid item else status_of v i item)
  after_valid true i true item = refl
  after_valid true i false item = refl
  after_valid false true true item = refl
  after_valid false false true item = refl
  after_valid false true false item = refl
  after_valid false false false item = refl

  after_invalid :
      (v i r : Bool) (item : T)
      → status_of (v && not r) (i || r) item ≡ (if r then invalid else status_of v i item)
  after_invalid true true true item = refl
  after_invalid true false true item = refl
  after_invalid true i false item = refl
  after_invalid false true true item = refl
  after_invalid false false true item = refl
  after_invalid false true false item = refl
  after_invalid false false false item = refl

  after_unknown :
      (v i r : Bool) (item : T)
      → status_of (v && not r) (i && not r) item ≡ (if r then unknown else status_of v i item)
  after_unknown true true true item = refl
  after_unknown true false true item = refl
  after_unknown true i false item = refl
  after_unknown false true true item = refl
  after_unknown false false true item = refl
  after_unknown false true false item = refl
  after_unknown false false false item = refl

  -- A page after an operation, with what it holds for each byte.
  abbrev pub Changed : Page T → Result (Page T) → (ℕ → Status T) → Type 0
  Changed p run holds =
      (next : Page T) × (run ≡ ok next)
      × (next.page_addr ≡ p.page_addr)
      × ((place : ℕ) → status next place ≡ holds place)

  pub set_offset_valid_lem :
      (p : Page T) (offset length : ℕ)
      → Fits offset length
      → Changed p
          (set_offset_valid p offset length)
          (λ place. if in_range length offset place then valid (p.values place) else status p place)
  unfolding set_offset_valid
  set_offset_valid_lem p offset length fits = (
    record p {
      valid = set_tracks p.valid offset (shifted_mask length (offset % 8));
      invalid = clear_tracks p.invalid offset (shifted_mask length (offset % 8));
    },
    rw (set_offset_valid, offset_mask_lem length (offset % 8) fits, ◌>>=◌) refl,
    refl,
    λ place.
        rw
          (
            tracked-set_tracks p.valid offset length place fits,
            tracked-clear_tracks p.invalid offset length place fits,
          )
          (after_valid (tracked p.valid place) (tracked p.invalid place)
            (in_range length offset place) (p.values place)),
  )

  pub set_offset_invalid_lem :
      (p : Page T) (offset length : ℕ)
      → Fits offset length
      → Changed p
          (set_offset_invalid p offset length)
          (λ place. if in_range length offset place then invalid else status p place)
  unfolding set_offset_invalid
  set_offset_invalid_lem p offset length fits = (
    record p {
      valid = clear_tracks p.valid offset (shifted_mask length (offset % 8));
      invalid = set_tracks p.invalid offset (shifted_mask length (offset % 8));
    },
    rw (set_offset_invalid, offset_mask_lem length (offset % 8) fits, ◌>>=◌) refl,
    refl,
    λ place.
        rw
          (
            tracked-clear_tracks p.valid offset length place fits,
            tracked-set_tracks p.invalid offset length place fits,
          )
          (after_invalid (tracked p.valid place) (tracked p.invalid place)
            (in_range length offset place) (p.values place)),
  )

  pub set_offset_unknown_lem :
      (p : Page T) (offset length : ℕ)
      → Fits offset length
      → Changed p
          (set_offset_unknown p offset length)
          (λ place. if in_range length offset place then unknown else status p place)
  unfolding set_offset_unknown
  set_offset_unknown_lem p offset length fits = (
    record p {
      valid = clear_tracks p.valid offset (shifted_mask length (offset % 8));
      invalid = clear_tracks p.invalid offset (shifted_mask length (offset % 8));
    },
    rw (set_offset_unknown, offset_mask_lem length (offset % 8) fits, ◌>>=◌) refl,
    refl,
    λ place.
        rw
          (
            tracked-clear_tracks p.valid offset length place fits,
            tracked-clear_tracks p.invalid offset length place fits,
          )
          (after_unknown (tracked p.valid place) (tracked p.invalid place)
            (in_range length offset place) (p.values place)),
  )

  -- A new page knows nothing.
  pub new_page_lem :
      (memory : ℕ → T) (addr : ℕ)
      → (p : Page T) × (new_page memory (am_page_addr addr) ≡ ok p)
        × (p.page_addr ≡ am_page_addr addr)
        × ((offset : ℕ) → status p offset ≡ unknown)
  unfolding new_page
  new_page_lem memory addr = (
    record { page_addr = am_page_addr addr; values = memory; valid = λ _. 0; invalid = λ _. 0 },
    ground arith,
    refl,
    λ offset. rw (no_bit (offset % 8)) refl,
  )
