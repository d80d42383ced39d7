-- ===== src/Lamp/Profile.antt =====
-- Dependence, KeyDistanceProfiler (tools/utils/Profile.hxx) and MemoryProfiler
-- (tools/utils/MemoryProfile.hxx): a count for each load, tracked distance and key.
pub mod Lookup
pub mod Counts
pub mod Printed
use llvm_loop_fission.Base.{
  ℕ, Bool, ◌-◌, List, [], ◌∷◌, Option, none, some, if◌then◌else◌, ltb, leb, get_elem?, set,
  replicate,
}
use llvm_loop_fission.Lamp.{bump64}

pub record Dependence : Type 0 where
  pub store : ℕ
  pub loop_id : ℕ
  pub dist : ℕ
  pub load : ℕ

-- ls_key_t
pub record LsKey : Type 0 where
  pub store : ℕ
  pub loop_id : ℕ

-- `operator<` on ls_key_t. It reads each key through a `uint32_t *`, which sees the first field.
abbrev pub key_less : LsKey → LsKey → Bool
key_less ls1 ls2 = ltb ls1.store ls2.store

-- KeyDistanceProfiler::trackedDistance
abbrev pub tracked_distance : ℕ → ℕ → ℕ
tracked_distance max dist = if leb max dist then max - 1 else dist

-- std::map<ls_key_t, T>, in the order of its keys.
abbrev pub KeyMap : Type 0 → Type 0
KeyMap T = List (LsKey × T)

module _ {T : Type 0} where
  -- `valueMap.find(key)`, and what is then done with the profile: a key that is not less and not
  -- greater than the given one counts as the same; where there is none a new profile is put in.
  pub with_key : T → (T → T) → LsKey → KeyMap T → KeyMap T
  with_key new f key [] = (key, f new) ∷ []
  with_key new f key ((k, t) ∷ rest) =
      if key_less k key
      then (k, t) ∷ with_key new f key rest
      else (if key_less key k then (key, f new) ∷ (k, t) ∷ rest else (k, f t) ∷ rest)

  abbrev pub or_empty : ℕ → List (KeyMap T) → List (KeyMap T)
  or_empty max [] = replicate max []
  or_empty max (m ∷ ms) = m ∷ ms

  -- `distanceMap.at(tracked_distance)`; `none` is the exception of `at`.
  abbrev pub at_distance : T → (T → T) → ℕ → LsKey → List (KeyMap T) → Option (List (KeyMap T))
  at_distance new f d key maps = elim (get_elem? maps d) [
    | none ↦ none
    | some m ↦ some (set maps d (with_key new f key m))
  ]

  abbrev pub put_maps :
      List (List (KeyMap T)) → ℕ → Option (List (KeyMap T)) → Option (List (List (KeyMap T)))
  put_maps info load none = none
  put_maps info load (some maps) = some (set info load maps)

  -- KeyDistanceProfiler::getProfile, with what the caller does to the profile that it refers to.
  pub with_profile :
      ℕ → T → (T → T) → Dependence → List (List (KeyMap T)) → Option (List (List (KeyMap T)))
  with_profile max new f dep info = elim (get_elem? info dep.load) [
    | none ↦ none
    | some maps ↦ put_maps info dep.load (
        at_distance new f (tracked_distance max dep.dist)
          (record { store = dep.store; loop_id = dep.loop_id }) (or_empty max maps))
  ]

-- MemoryProfile
pub record MemoryProfile : Type 0 where
  pub total_count : ℕ
  pub loop_count : ℕ

abbrev pub new_memory_profile : MemoryProfile
new_memory_profile = record { total_count = 0; loop_count = 0 }

abbrev pub increment_profile : MemoryProfile → MemoryProfile
increment_profile p = record p { total_count = bump64 p.total_count }

abbrev pub increment_loop : MemoryProfile → MemoryProfile
increment_loop p = record p { loop_count = bump64 p.loop_count }

-- InstructionMaps of a MemoryProfiler
abbrev pub Instructions : Type 0
Instructions = List (List (List (LsKey × MemoryProfile)))

-- MemoryProfiler::increment
pub increment : ℕ → Dependence → Instructions → Option Instructions
increment max dep info = with_profile max new_memory_profile increment_profile dep info

unfoldable pub increment_all : ℕ → List Dependence → Instructions → Option Instructions
increment_all max [] info = some info
increment_all max (dep ∷ deps) info = elim (increment max dep info) [
  | none ↦ none
  | some next ↦ increment_all max deps next
]
