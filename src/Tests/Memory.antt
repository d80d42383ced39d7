-- ===== src/Tests/Memory.antt =====
-- The theorems on the shadow memory, applied to a page with one stored byte.
use llvm_loop_fission.Base.{ℕ, false, ◌≡◌, refl, List, [], ◌∷◌, arith, ◌==◌, if◌then◌else◌, ok}
use llvm_loop_fission.Memory.Bits.Masks.{in_range}
use llvm_loop_fission.Memory.Page.{Page, am_offset, is_offset_set}
use llvm_loop_fission.Memory.Page.Tracks.{is_offset_set_lem}
use llvm_loop_fission.Memory.Page.Status.{status, valid, invalidated, Within}
use llvm_loop_fission.Memory.Map.{set_item, set_invalid}
use llvm_loop_fission.Memory.Map.Look.{IsPaged, one_page-IsPaged, look, Holds}
use llvm_loop_fission.Memory.Map.Laws.{IsSpan, set_item-look, set_invalid-look}
use llvm_loop_fission.Memory.Values.{
  big, construct_value, deconstruct_value, read_page_value, write_page_value,
}
use llvm_loop_fission.Memory.Values.Parts.{construct_value-deconstruct_value}
use llvm_loop_fission.Memory.Values.Round.{read_page_value-write_page_value}

-- The page at 8192, whose byte 3 is valid.
abbrev page : Page ℕ
page = record {
  page_addr = 8192;
  values = λ i. 7;
  valid = λ i. if i == 0 then 8 else 0;
  invalid = λ i. 0;
}

abbrev pages : List (ℕ × Page ℕ)
pages = (8192, page) ∷ []

pages-IsPaged : IsPaged pages
pages-IsPaged = one_page-IsPaged page

set_item-look_example :
    Holds pages
      (set_item (λ _ _. 0) pages 9001 5)
      (λ a. if a == 9001 then valid 5 else look pages a)
set_item-look_example = set_item-look (λ _ _. 0) pages 9001 5 pages-IsPaged (omega arith)

span : IsSpan 8194 4
span = record { ends = omega arith; some_bytes = omega arith; bounded = omega arith }

set_invalid-look_example :
    Holds pages
      (set_invalid (λ _ _. 0) 4 pages 8194)
      (λ a. if in_range 4 8194 a then invalidated (look pages a) else look pages a)
set_invalid-look_example = set_invalid-look (λ _ _. 0) 4 pages 8194 pages-IsPaged span (omega arith)

bytes_inside : Within page 8192 4
bytes_inside = record {
  page = refl;
  ends = omega arith;
  some_bytes = omega arith;
  bounded = omega arith;
}

-- Four bytes, the highest first.
construct_value-deconstruct_value_example :
    construct_value big 4 (deconstruct_value big 4 305419896 (λ _. 9)) ≡ 305419896
construct_value-deconstruct_value_example =
    construct_value-deconstruct_value big 4 305419896 (λ _. 9) (omega arith) (λ j. omega arith)

nothing_invalid : is_offset_set page.invalid (am_offset 8192) 4 ≡ ok false
nothing_invalid = is_offset_set_lem page.invalid (am_offset 8192) 4 (omega arith)

read_page_value-write_page_value_example :
    (next : Page ℕ) × (write_page_value 4 8192 305419896 page ≡ ok next)
    × (read_page_value 4 next 8192 ≡ ok 305419896)
    × ((place : ℕ)
        → in_range 4 (am_offset 8192) place ≡ false
        → status next place ≡ status page place)
read_page_value-write_page_value_example =
    read_page_value-write_page_value page 4 8192 305419896 bytes_inside (omega arith)
      nothing_invalid (omega arith)
