-- ===== src/Memory/Bits/Digits.antt =====
-- The native operations on bits, one binary digit at a time.
use Prim.Native.Nat.{min, max, digits, bit_and, bit_or, bit_and-bitwise, bit_or-bitwise}
use llvm_loop_fission.Base.{ℕ, zero, suc, ◌+◌, ◌*◌, ◌/◌, ◌%◌, ◌≤◌, ◌≡◌, refl, ap, arith}

-- More fuel than the first number changes nothing.
enough :
    (rest : ℕ → ℕ) (f : ℕ → ℕ → ℕ) (n m a b : ℕ)
    → a ≤ n
    → a ≤ m
    → digits rest f n a b ≡ digits rest f m a b
enough rest f zero zero a b h k = refl
enough rest f zero (suc m) zero b h k = refl
enough rest f zero (suc m) (suc a) b h k = absurd (omega arith)
enough rest f (suc n) zero zero b h k = refl
enough rest f (suc n) zero (suc a) b h k = absurd (omega arith)
enough rest f (suc n) (suc m) zero b h k = refl
enough rest f (suc n) (suc m) (suc a) b h k =
    ap (λ high. high * 2 + f (suc a % 2) (b % 2))
      (enough rest f n m (suc a / 2) (b / 2) (omega arith) (omega arith))

pub bit_or-digits : (a b : ℕ) → bit_or a b ≡ bit_or (a / 2) (b / 2) * 2 + max (a % 2) (b % 2)
bit_or-digits zero b = omega (arith, bit_or-bitwise 0 b, bit_or-bitwise 0 (b / 2))
bit_or-digits (suc a) b = omega (
  arith,
  bit_or-bitwise (suc a) b,
  bit_or-bitwise (suc a / 2) (b / 2),
  enough (λ b. b) max a (suc a / 2) (suc a / 2) (b / 2) (omega arith) (omega arith),
)

pub bit_and-digits : (a b : ℕ) → bit_and a b ≡ bit_and (a / 2) (b / 2) * 2 + min (a % 2) (b % 2)
bit_and-digits zero b = omega (arith, bit_and-bitwise 0 b, bit_and-bitwise 0 (b / 2))
bit_and-digits (suc a) b = omega (
  arith,
  bit_and-bitwise (suc a) b,
  bit_and-bitwise (suc a / 2) (b / 2),
  enough (λ b. 0) min a (suc a / 2) (suc a / 2) (b / 2) (omega arith) (omega arith),
)

pub bit_or-zero : (b : ℕ) → bit_or 0 b ≡ b
bit_or-zero b = omega (arith, bit_or-bitwise 0 b)
