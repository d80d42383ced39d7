-- ===== src/Bp/Heuristic/Cuts.antt =====
-- The plan number and its places to cut.
use llvm_loop_fission.Base.{
  ℕ, zero, suc, ◌+◌, ◌-◌, ◌*◌, ◌/◌, ◌^◌, ◌≤◌, ◌<◌, ◌≡◌, refl, ap, List, [], ◌∷◌, ◌++◌, arith,
  length, length-append, All,
}
use native.Mathlib.Nat.{two-pow-succ, lt-div-mul-add, div-mul-le_self, div-lt_iff_lt-mul}
use llvm_loop_fission.Bp.Heuristic.{cuts}

-- The number that a list of bits stands for, the bit of place 0 first.
pub value : List ℕ → ℕ
value [] = 0
value (b ∷ bs) = b + 2 * value bs

value-append : (bs : List ℕ) (b : ℕ) → value (bs ++ b ∷ []) ≡ value bs + b * 2 ^ length bs
unfolding value
value-append [] b = omega arith
value-append (c ∷ bs) b =
    omega (arith, value-append bs b, ap (λ (t : ℕ). b * t) (two-pow-succ (length bs)))

pub length-cuts : (places cur : ℕ) → length (cuts places cur) ≡ places
unfolding cuts
length-cuts zero cur = refl
length-cuts (suc p) cur = omega (
  arith,
  length-append (cuts p (cur - (cur / 2 ^ p) * 2 ^ p)) ((cur / 2 ^ p) ∷ []),
  length-cuts p (cur - (cur / 2 ^ p) * 2 ^ p),
)

pow_pos : (p : ℕ) → 0 < 2 ^ p
pow_pos zero = omega arith
pow_pos (suc p) = omega (arith, pow_pos p, two-pow-succ p)

-- What is left of a plan number when its highest bit is split off.
abbrev low : ℕ → ℕ → ℕ
low p cur = cur - (cur / 2 ^ p) * 2 ^ p

low-lt : (p cur : ℕ) → low p cur < 2 ^ p
low-lt p cur = omega (arith, lt-div-mul-add {a = cur} (pow_pos p))

-- Every plan number below 2 to the number of places is what its bits stand for.
pub value-cuts : (places cur : ℕ) → cur < 2 ^ places → value (cuts places cur) ≡ cur
unfolding cuts value
value-cuts zero cur h = omega arith
value-cuts (suc p) cur h = omega (
  arith,
  value-append (cuts p (low p cur)) (cur / 2 ^ p),
  ap (λ (t : ℕ). (cur / 2 ^ p) * 2 ^ t) (length-cuts p (low p cur)),
  value-cuts p (low p cur) (low-lt p cur),
  div-mul-le_self cur (2 ^ p),
)

abbrev pub IsBit : ℕ → Type 0
IsBit b = b ≤ 1

All-append : (bs : List ℕ) (b : ℕ) → All IsBit bs → IsBit b → All IsBit (bs ++ b ∷ [])
All-append [] b h k = (k, tt)
All-append (c ∷ bs) b h k = (h.0, All-append bs b h.1 k)

pub cuts-IsBit : (places cur : ℕ) → cur < 2 ^ places → All IsBit (cuts places cur)
unfolding cuts
cuts-IsBit zero cur h = tt
cuts-IsBit (suc p) cur h =
    All-append (cuts p (low p cur)) (cur / 2 ^ p) (cuts-IsBit p (low p cur) (low-lt p cur)) (
      let below : cur / 2 ^ p < 2 =
        (div-lt_iff_lt-mul (pow_pos p)).1 (omega (arith, two-pow-succ p)) in
      omega arith)
