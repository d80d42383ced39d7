-- ===== src/Lamp/Profile/Printed.antt =====
-- The operator<< of tools/utils/Profile.hxx and tools/utils/MemoryProfile.hxx: the strings between
-- the white space of what is printed. `showing` is the operator<< of a number.
use llvm_loop_fission.Base.{ℕ, suc, List, [], ◌∷◌, ◌++◌}
use llvm_loop_fission.Lamp.Profile.{LsKey, KeyMap, MemoryProfile, Instructions}

abbrev pub begin_strings : List (List ℕ)
begin_strings =
    (66 ∷ 69 ∷ 71 ∷ 73 ∷ 78 ∷ [])
    ∷ (77 ∷ 101 ∷ 109 ∷ 111 ∷ 114 ∷ 121 ∷ [])
    ∷ (80 ∷ 114 ∷ 111 ∷ 102 ∷ 105 ∷ 108 ∷ 101 ∷ [])
    ∷ []

abbrev pub end_strings : List (List ℕ)
end_strings =
    (69 ∷ 78 ∷ 68 ∷ [])
    ∷ (77 ∷ 101 ∷ 109 ∷ 111 ∷ 114 ∷ 121 ∷ [])
    ∷ (80 ∷ 114 ∷ 111 ∷ 102 ∷ 105 ∷ 108 ∷ 101 ∷ [])
    ∷ []

module _ (showing : ℕ → List ℕ) where
  -- One line, in front of the lines that follow.
  abbrev pub print_line : ℕ → ℕ → LsKey → MemoryProfile → List (List ℕ) → List (List ℕ)
  print_line load dist key profile rest =
      (40 ∷ showing load)
      ∷ showing dist
      ∷ showing key.loop_id
      ∷ showing key.store
      ∷ (40 ∷ showing profile.total_count)
      ∷ showing profile.loop_count
      ∷ (41 ∷ [])
      ∷ (41 ∷ [])
      ∷ rest

  abbrev pub print_keys : ℕ → ℕ → KeyMap MemoryProfile → List (List ℕ)
  print_keys load dist [] = []
  print_keys load dist ((key, profile) ∷ keys) =
      print_line load dist key profile (print_keys load dist keys)

  abbrev pub print_distances : ℕ → ℕ → List (KeyMap MemoryProfile) → List (List ℕ)
  print_distances load dist [] = []
  print_distances load dist (keys ∷ maps) =
      print_keys load dist keys ++ print_distances load (suc dist) maps

  abbrev pub print_loads : ℕ → Instructions → List (List ℕ)
  print_loads load [] = []
  print_loads load (maps ∷ info) = print_distances load 0 maps ++ print_loads (suc load) info

  abbrev pub print_profiler : Instructions → List (List ℕ)
  print_profiler info = begin_strings ++ print_loads 0 info ++ end_strings
