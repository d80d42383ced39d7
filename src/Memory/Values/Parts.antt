-- ===== src/Memory/Values/Parts.antt =====
-- A value taken apart into bytes and put together again.
use Prim.Native.Nat.{bit_or}
use native.Mathlib.Nat.{mul-le-mul_right, mod-eq_of_lt, lt_of_lt_of_le}
use native.Mathlib.Numerals.{unary_clauses}
use llvm_loop_fission.Base.{
  ℕ, zero, suc, ◌+◌, ◌*◌, ◌/◌, ◌%◌, ◌^◌, ◌≤◌, ◌<◌, ◌≡◌, refl, ap, sym, ◌∙◌, arith, subst, if_true,
  if_false, ==_iff, Bool-cases, inl, inr, if◌then◌else◌, ◌==◌,
}
use llvm_loop_fission.Memory.Bits.{bit_or-add}
use llvm_loop_fission.Memory.Bits.Masks.{in_range}
use llvm_loop_fission.Memory.Page.{update}
use llvm_loop_fission.Memory.Values.{
  Endian, little, big, host_byte, host_load, byte_place, construct_from, construct_value,
  deconstruct_from, deconstruct_value,
}

pow_le : (a b : ℕ) → 2 ^ a ≤ 2 ^ (b + a)
pow_le a zero = let same : a ≡ 0 + a = omega arith in subst (λ n. 2 ^ a ≤ 2 ^ n) same (omega arith)
pow_le a (suc b) =
    let next : suc (b + a) ≡ suc b + a = omega arith in
    subst (λ n. 2 ^ a ≤ 2 ^ n) next (omega (arith, pow_le a b))

pub host_load-same :
    (size o q : ℕ) (g f : ℕ → ℕ)
    → ((i : ℕ) → i < size → g (o + i) ≡ f (q + i))
    → host_load size g o ≡ host_load size f q
host_load-same zero o q g f h = refl
host_load-same (suc size) o q g f h =
    let first : g o ≡ f q = ap g (omega arith) ∙ (h 0 (omega arith) ∙ ap f (omega arith)) in
    let rest =
      host_load-same size (suc o) (suc q) g f
        (λ i lt. ap g (omega arith) ∙ (h (suc i) (omega (arith, lt)) ∙ ap f (omega arith))) in
    omega (arith, first, rest)

shift_byte : (value i : ℕ) → host_byte value (1 + i) ≡ host_byte (value / 256) (0 + i)
shift_byte value i =
    let up : 1 + i ≡ suc i = omega arith in
    let same : i ≡ 0 + i = omega arith in
    ap (host_byte value) up ∙ ap (host_byte (value / 256)) same

power : (n : ℕ) → 2 ^ (n + 8) ≡ 256 * 2 ^ n
power n = simp unary_clauses (omega arith)

pow_byte : (i : ℕ) → 2 ^ (8 * suc i) ≡ 256 * 2 ^ (8 * i)
pow_byte i =
    let next : 8 * i + 8 ≡ 8 * suc i = omega arith in sym (ap (λ n. 2 ^ n) next) ∙ power (8 * i)

-- All the bytes of a value that fits are the value.
pub host_load-host_byte :
    (size value : ℕ) → value < 2 ^ (8 * size) → host_load size (host_byte value) 0 ≡ value
host_load-host_byte zero value h = omega (arith, h)
host_load-host_byte (suc size) value h =
    let rest =
      host_load-same size 1 0 (host_byte value) (host_byte (value / 256))
        (λ i lt. shift_byte value i) in
    let ih = host_load-host_byte size (value / 256) (omega (arith, h, pow_byte size)) in
    omega (arith, rest, ih)

one_byte_more : (value m p : ℕ) → value < p → m < 256 → value + m * p < 256 * p
one_byte_more value m p h k =
    let most : m * p ≤ 255 * p = mul-le-mul_right p (omega arith) in omega (arith, most, h)

byte_sum :
    (value m p q rest : ℕ) → q ≡ 256 * p → value + m * p + q * rest ≡ value + p * (m + 256 * rest)
byte_sum value m p q rest e = rw e (grind arith)

construct_from_lem :
    (endian : Endian) (size rounds i value : ℕ) (bytes : ℕ → ℕ)
    → rounds + i ≡ size
    → value < 2 ^ (8 * i)
    → ((j : ℕ) → bytes j < 256)
    → construct_from endian size bytes rounds i value
      ≡ value + 2 ^ (8 * i) * host_load rounds (λ j. bytes (byte_place endian size j)) i
unfolding construct_from
construct_from_lem endian size zero i value bytes e small b = omega arith
construct_from_lem endian size (suc rounds) i value bytes e small b =
    let m = bytes (byte_place endian size i) in
    let p = 2 ^ (8 * i) in
    let added : bit_or value (m * p) ≡ value + m * p = bit_or-add (8 * i) value m small in
    let next : value + m * p < 2 ^ (8 * suc i) =
      subst (λ n. value + m * p < n) (sym (pow_byte i))
        (one_byte_more value m p small (b (byte_place endian size i))) in
    let fits : 8 * rounds + 8 * suc i ≡ 8 * size = omega (arith, e) in
    let inside : bit_or value (m * p) % 2 ^ (8 * size) ≡ value + m * p =
      ap (λ n. n % 2 ^ (8 * size)) added
      ∙ mod-eq_of_lt (
          lt_of_lt_of_le next
            (subst (λ n. 2 ^ (8 * suc i) ≤ 2 ^ n) fits (pow_le (8 * suc i) (8 * rounds)))) in
    ap (construct_from endian size bytes rounds (suc i)) inside
    ∙ (construct_from_lem endian size rounds (suc i) (value + m * p) bytes (omega (arith, e)) next b
        ∙ byte_sum value m p (2 ^ (8 * suc i)) _ (pow_byte i))

host_byte-lt : (value i : ℕ) → host_byte value i < 256
host_byte-lt value zero = omega arith
host_byte-lt value (suc i) = host_byte-lt (value / 256) i

deconstruct_from_lem :
    (endian : Endian) (size value rounds i : ℕ) (bytes : ℕ → ℕ) (j : ℕ)
    → deconstruct_from endian size value rounds i bytes j
      ≡ (if in_range rounds i j then host_byte value (byte_place endian size j) else bytes j)
unfolding deconstruct_from
deconstruct_from_lem endian size value zero i bytes j =
    sym (if_false (in_range 0 i j) _ _ (ground arith))
deconstruct_from_lem endian size value (suc rounds) i bytes j =
    deconstruct_from_lem endian size value rounds (suc i)
      (update bytes i (host_byte value (byte_place endian size i))) j
    ∙ elim (Bool-cases (j == i)) [
      | inl at ↦
          let same : j ≡ i = (==_iff j i).0 at in
          if_false (in_range rounds (suc i) j) _ _ (ground (arith, same))
          ∙ (if_true (j == i) _ _ at
              ∙ (ap (λ k. host_byte value (byte_place endian size k)) (sym same)
                  ∙ sym (if_true (in_range (suc rounds) i j) _ _ (ground (arith, same)))))
      | inr other ↦
          let rest : in_range (suc rounds) i j ≡ in_range rounds (suc i) j =
            ground (arith, other) in
          ap
            (λ y.
              if in_range rounds (suc i) j then host_byte value (byte_place endian size j) else y)
            (if_false (j == i) _ _ other)
          ∙ ap (λ c. if c then host_byte value (byte_place endian size j) else bytes j) (sym rest)
    ]

byte_place-lt : (endian : Endian) (size i : ℕ) → i < size → byte_place endian size i < size
byte_place-lt little size i lt = lt
byte_place-lt big size i lt = omega (arith, lt)

byte_place-twice :
    (endian : Endian) (size i : ℕ)
    → i < size
    → byte_place endian size (byte_place endian size i) ≡ i
byte_place-twice little size i lt = refl
byte_place-twice big size i lt = omega (arith, lt)

taken_apart :
    (endian : Endian) (size value : ℕ) (bytes : ℕ → ℕ) (i : ℕ)
    → i < size
    → deconstruct_value endian size value bytes (byte_place endian size i) ≡ host_byte value i
unfolding deconstruct_value
taken_apart endian size value bytes i lt =
    let place = byte_place endian size i in
    let inside : place < size = byte_place-lt endian size i lt in
    deconstruct_from_lem endian size value size 0 bytes place
    ∙ (if_true (in_range size 0 place) _ _ (ground (arith, inside))
        ∙ ap (host_byte value) (byte_place-twice endian size i lt))

bytes-lt :
    (endian : Endian) (size value : ℕ) (bytes : ℕ → ℕ)
    → ((j : ℕ) → bytes j < 256)
    → (j : ℕ) → deconstruct_value endian size value bytes j < 256
unfolding deconstruct_value
bytes-lt endian size value bytes b j =
    subst (λ n. n < 256) (sym (deconstruct_from_lem endian size value size 0 bytes j))
      (elim (Bool-cases (in_range size 0 j)) [
        | inl inside ↦
            subst (λ n. n < 256) (sym (if_true _ _ _ inside))
              (host_byte-lt value (byte_place endian size j))
        | inr outside ↦ subst (λ n. n < 256) (sym (if_false _ _ _ outside)) (b j)
      ])

-- For a value that fits into its bytes, in either order: construct_value gives back the value that
-- deconstruct_value took apart, whatever bytes the array held before.
pub construct_value-deconstruct_value :
    (endian : Endian) (size value : ℕ) (bytes : ℕ → ℕ)
    → value < 2 ^ (8 * size)
    → ((j : ℕ) → bytes j < 256)
    → construct_value endian size (deconstruct_value endian size value bytes) ≡ value
unfolding construct_value
construct_value-deconstruct_value endian size value bytes fits b =
    let apart = deconstruct_value endian size value bytes in
    let all : size + 0 ≡ size = omega arith in
    let loaded =
      host_load-same size 0 0 (λ j. apart (byte_place endian size j)) (host_byte value)
        (λ i lt.
          let from_zero : 0 + i ≡ i = omega arith in
          ap (λ k. apart (byte_place endian size k)) from_zero
          ∙ (taken_apart endian size value bytes i lt ∙ ap (host_byte value) (sym from_zero))) in
    construct_from_lem endian size size 0 0 apart all (omega arith)
      (bytes-lt endian size value bytes b)
    ∙ omega (arith, loaded, host_load-host_byte size value fits)
