-- ===== src/Lamp/Stamps.antt =====
-- timestamp_t and form_timestamp of tools/lamp-profiler/lamp_hooks.cxx: what the shadow memory
-- holds for a byte that was stored.
use llvm_loop_fission.Base.{
  ℕ, ◌%◌, ◌^◌, ◌<◌, ◌≡◌, Bool, ◌&&◌, if◌then◌else◌, ltb, ◌==◌, Result, ok, aborted, arith, if_false,
  ap, ◌∙◌,
}

-- The fields have 20 and 44 bits; a number that is stored in one keeps only its low bits.
pub record Timestamp : Type 0 where
  pub instr : ℕ
  pub timestamp : ℕ

-- `operator==` compares the 64 bits.
abbrev pub same_stamp : Timestamp → Timestamp → Bool
same_stamp t1 t2 = t1.instr == t2.instr && t1.timestamp == t2.timestamp

abbrev pub time_stamp_max : ℕ
time_stamp_max = 17592186044415

abbrev pub instr_max : ℕ
instr_max = 1048575

pub form_timestamp : ℕ → ℕ → Result Timestamp
form_timestamp instr timestamp =
    if ltb time_stamp_max timestamp
    then aborted
    else (if ltb instr_max instr
        then aborted
        else ok (record { instr = instr % 2 ^ 20; timestamp = timestamp % 2 ^ 44 }))

-- The fields fit, where form_timestamp gives a stamp.
pub record IsStamp (instr timestamp : ℕ) : Type 0 where
  pub instr_bits : instr < 2 ^ 20
  pub timestamp_bits : timestamp < 2 ^ 44

pub form_timestamp_lem :
    (instr timestamp : ℕ)
    → IsStamp instr timestamp
    → form_timestamp instr timestamp ≡ ok (record { instr = instr; timestamp = timestamp })
unfolding form_timestamp
form_timestamp_lem instr timestamp s =
    let small : instr % 2 ^ 20 ≡ instr = omega (arith, s.instr_bits) in
    let early : timestamp % 2 ^ 44 ≡ timestamp = omega (arith, s.timestamp_bits) in
    if_false (ltb time_stamp_max timestamp) aborted _ (ground (arith, s.timestamp_bits))
    ∙ if_false (ltb instr_max instr) aborted _ (ground (arith, s.instr_bits))
    ∙ ap (λ n. ok (record { instr = n; timestamp = timestamp % 2 ^ 44 })) small
    ∙ ap (λ n. ok (record { instr = instr; timestamp = n })) early
