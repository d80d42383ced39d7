-- ===== src/Memory/Values.antt =====
-- construct_value and deconstruct_value of tools/utils/MemoryMap.hxx, and the values of several bytes
-- in a BytePage. The machine stores the lowest byte of a value first. An array of
-- bytes is a function of the index.
pub mod Parts
pub mod Round
use Prim.Native.Nat.{bit_or}
use llvm_loop_fission.Base.{
  ℕ, zero, suc, ◌+◌, ◌-◌, ◌*◌, ◌/◌, ◌%◌, ◌^◌, Bool, List, Option, none, some, Result, ok, undefined,
  aborted, ◌>>=◌, if◌then◌else◌, ◌==◌,
}
use llvm_loop_fission.Memory.Bits.Masks.{in_range}
use llvm_loop_fission.Memory.Page
use llvm_loop_fission.Memory.Page.{
  Page, am_page_addr, am_offset, update, check_range, is_offset_set, set_offset_valid,
}

pub data Endian : Type 0 where
  little : Endian
  big : Endian

-- The byte of a value at a place of its memory.
abbrev pub host_byte : ℕ → ℕ → ℕ
host_byte value zero = value % 256
host_byte value (suc i) = host_byte (value / 256) i

-- A read and a write through a `T *` into an array of bytes.
abbrev pub host_load : ℕ → (ℕ → ℕ) → ℕ → ℕ
host_load zero bytes offset = 0
host_load (suc size) bytes offset = bytes offset + 256 * host_load size bytes (suc offset)

abbrev pub host_store : ℕ → (ℕ → ℕ) → ℕ → ℕ → ℕ → ℕ
host_store size bytes offset value place =
    if in_range size offset place then host_byte value (place - offset) else bytes place

-- The place in the array of the i-th byte of the value, the lowest byte first.
abbrev pub byte_place : Endian → ℕ → ℕ → ℕ
byte_place little size i = i
byte_place big size i = size - i - 1

pub construct_from : Endian → ℕ → (ℕ → ℕ) → ℕ → ℕ → ℕ → ℕ
construct_from endian size bytes zero i value = value
construct_from endian size bytes (suc rounds) i value =
    construct_from endian size bytes rounds (suc i)
      (bit_or value (bytes (byte_place endian size i) * 2 ^ (8 * i)) % 2 ^ (8 * size))

pub construct_value : Endian → ℕ → (ℕ → ℕ) → ℕ
construct_value endian size bytes = construct_from endian size bytes size 0 0

-- The loop writes the bytes from the first place on; for BIG they come from the end of the value.
pub deconstruct_from : Endian → ℕ → ℕ → ℕ → ℕ → (ℕ → ℕ) → ℕ → ℕ
deconstruct_from endian size value zero i bytes = bytes
deconstruct_from endian size value (suc rounds) i bytes =
    deconstruct_from endian size value rounds (suc i)
      (update bytes i (host_byte value (byte_place endian size i)))

pub deconstruct_value : Endian → ℕ → ℕ → (ℕ → ℕ) → ℕ → ℕ
deconstruct_value endian size value bytes = deconstruct_from endian size value size 0 bytes

-- BytePage::read_value and BytePage::write_value
pub read_page_value : ℕ → Page ℕ → ℕ → Result ℕ
read_page_value size page addr = do
  checked ← check_range page.page_addr addr size
  is_valid ← Page.is_valid page addr size
  if is_valid then ok (host_load size page.values (am_offset addr)) else aborted

pub write_page_value : ℕ → ℕ → ℕ → Page ℕ → Result (Page ℕ)
write_page_value size addr value page = do
  checked ← check_range page.page_addr addr size
  is_invalid ← is_offset_set page.invalid (am_offset addr) size
  if is_invalid
      then aborted
      else set_offset_valid
          (record page { values = host_store size page.values (am_offset addr) value })
          (am_offset addr) size
