-- ===== src/Lamp/Values.antt =====
-- ValueCount and ValueProfile of tools/utils/ValueProfile.hxx: the first values that an
-- instruction sees, each with how often.
pub mod Exact
use llvm_loop_fission.Base.{ℕ, List, [], ◌∷◌, Option, none, some, if◌then◌else◌, ◌==◌, replicate}
use llvm_loop_fission.Lamp.{bump64}

pub record ValueCount : Type 0 where
  pub value : ℕ
  pub count : ℕ

pub record ValueProfile : Type 0 where
  pub values : List ValueCount
  pub count : ℕ

abbrev pub max_values : ℕ
max_values = 5

-- The constructor, with its memset.
abbrev pub new_profile : ValueProfile
new_profile = record { values = replicate max_values (record { value = 0; count = 0 }); count = 0 }

abbrev pub push_slot : ValueCount → Option (List ValueCount) → Option (List ValueCount)
push_slot s none = none
push_slot s (some rest) = some (s ∷ rest)

-- The first loop of `increment`: the slots after it returns, or none where it runs through.
pub count_value : ℕ → List ValueCount → Option (List ValueCount)
count_value v [] = none
count_value v (s ∷ rest) =
    if s.value == v
    then some ((record s { count = bump64 s.count }) ∷ rest)
    else push_slot s (count_value v rest)

-- The second loop, which takes the first free slot, if any.
pub take_free : ℕ → List ValueCount → List ValueCount
take_free v [] = []
take_free v (s ∷ rest) =
    if s.count == 0 then (record { value = v; count = 1 }) ∷ rest else s ∷ take_free v rest

abbrev pub either_slots : ℕ → List ValueCount → Option (List ValueCount) → List ValueCount
either_slots v slots none = take_free v slots
either_slots v slots (some counted) = counted

-- ValueProfile::increment
pub increment : ValueProfile → ℕ → ValueProfile
increment p v = record {
  values = either_slots v p.values (count_value v p.values);
  count = bump64 p.count;
}

pub run : ValueProfile → List ℕ → ValueProfile
run p [] = p
run p (v ∷ vs) = run (increment p v) vs
