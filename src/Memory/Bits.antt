-- ===== src/Memory/Bits.antt =====
-- The bits of a read_track_t (tools/utils/MemoryMap.hxx), an unsigned byte, and of its masks.
mod Digits
pub mod Masks
use Prim.Native.Nat.{bit_and, bit_or}
use native.Mathlib.Nat.{mul_assoc}
use llvm_loop_fission.Base.{
  ℕ, zero, suc, ◌+◌, ◌-◌, ◌*◌, ◌/◌, ◌%◌, ◌^◌, ◌<◌, ◌≤◌, ◌≡◌, refl, ap, sym, ◌∙◌, Bool, true, false,
  ◌&&◌, ◌||◌, not, arith, ◌==◌,
}
use llvm_loop_fission.Memory.Bits.Digits.{bit_or-digits, bit_or-zero, bit_and-digits}

-- The bit at a place, the lowest one at 0.
abbrev pub bit : ℕ → ℕ → Bool
bit b zero = b % 2 == 1
bit b (suc place) = bit (b / 2) place

pub bit-bit_or : (a b place : ℕ) → bit (bit_or a b) place ≡ (bit a place || bit b place)
bit-bit_or a b zero = ground (arith, bit_or-digits a b)
bit-bit_or a b (suc place) =
    let halves : bit_or a b / 2 ≡ bit_or (a / 2) (b / 2) = omega (arith, bit_or-digits a b) in
    rw halves (bit-bit_or (a / 2) (b / 2) place)

pub bit-bit_and : (a b place : ℕ) → bit (bit_and a b) place ≡ (bit a place && bit b place)
bit-bit_and a b zero = ground (arith, bit_and-digits a b)
bit-bit_and a b (suc place) =
    let halves : bit_and a b / 2 ≡ bit_and (a / 2) (b / 2) = omega (arith, bit_and-digits a b) in
    rw halves (bit-bit_and (a / 2) (b / 2) place)

-- Numbers of `n` bits are equal if all their bits are.
pub bit_ext :
    (n a b : ℕ)
    → a < 2 ^ n
    → b < 2 ^ n
    → ((place : ℕ) → place < n → bit a place ≡ bit b place)
    → a ≡ b
bit_ext zero a b ha hb h = omega arith
bit_ext (suc n) a b ha hb h =
    let high =
      bit_ext n (a / 2) (b / 2) (omega arith) (omega arith)
        (λ place lt. h (suc place) (omega (arith, lt))) in
    ground (arith, high, h 0)

pub bit_or-lt : (n a b : ℕ) → a < 2 ^ n → b < 2 ^ n → bit_or a b < 2 ^ n
bit_or-lt zero a b ha hb =
    let a_zero : a ≡ 0 = omega (arith, ha) in
    let b_zero : b ≡ 0 = omega (arith, hb) in rw (a_zero, b_zero) (omega arith)
bit_or-lt (suc n) a b ha hb =
    omega (arith, bit_or-digits a b, bit_or-lt n (a / 2) (b / 2) (omega arith) (omega arith))

bit_and-lt_zero : (fuel a b : ℕ) → a ≤ fuel → b < 1 → bit_and a b < 1
bit_and-lt_zero zero a b h k =
    let a_zero : a ≡ 0 = omega (arith, h) in
    let b_zero : b ≡ 0 = omega (arith, k) in rw (a_zero, b_zero) (omega arith)
bit_and-lt_zero (suc fuel) a b h k =
    omega
      (arith, bit_and-digits a b, bit_and-lt_zero fuel (a / 2) (b / 2) (omega arith) (omega arith))

pub bit_and-lt : (n a b : ℕ) → b < 2 ^ n → bit_and a b < 2 ^ n
bit_and-lt zero a b h = bit_and-lt_zero a a b (omega arith) (omega arith)
bit_and-lt (suc n) a b h =
    omega (arith, bit_and-digits a b, bit_and-lt n (a / 2) (b / 2) (omega arith))

-- Bits that do not meet add up.
pub bit_or-add : (k a b : ℕ) → a < 2 ^ k → bit_or a (b * 2 ^ k) ≡ a + b * 2 ^ k
bit_or-add zero a b h =
    let a_zero : a ≡ 0 = omega (arith, h) in rw a_zero (bit_or-zero (b * 1) ∙ omega arith)
bit_or-add (suc k) a b h =
    let power : 2 ^ suc k ≡ 2 ^ k * 2 = omega arith in
    let twice : b * 2 ^ suc k ≡ b * 2 ^ k * 2 =
      ap (λ n. b * n) power ∙ sym (mul_assoc b (2 ^ k) 2) in
    let half : b * 2 ^ suc k / 2 ≡ b * 2 ^ k = omega (arith, twice) in
    let high : bit_or (a / 2) (b * 2 ^ suc k / 2) ≡ a / 2 + b * 2 ^ k =
      ap (bit_or (a / 2)) half ∙ bit_or-add k (a / 2) b (omega (arith, h)) in
    omega (arith, bit_or-digits a (b * 2 ^ suc k), high, twice)
