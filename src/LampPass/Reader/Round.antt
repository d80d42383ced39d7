-- ===== src/LampPass/Reader/Round.antt =====
-- What LAMPLoadProfile reads from the profile that MemoryProfiler prints.
use mathlib.Core.List.{append-nil}
use llvm_loop_fission.Base.{
  ℕ, suc, ◌+◌, ◌*◌, ◌%◌, ◌^◌, ◌<◌, ◌≡◌, refl, ap, sym, ◌∙◌, List, [], ◌∷◌, ◌++◌, append_assoc,
  Option, arith, length, length-append, All, Result, ok,
}
use llvm_loop_fission.Lamp.Profile.{KeyMap, MemoryProfile, Instructions}
use llvm_loop_fission.Lamp.Profile.Printed.{
  end_strings, print_keys, print_distances, print_loads, print_profiler,
}
use llvm_loop_fission.LampPass.Reader.{
  Dep, Reader, new_reader, has_char, has_end, strip_left, read_strings, read_profile,
}
use llvm_loop_fission.LampPass.Reader.Line.{
  Entry, entries_of_keys, entries_of_distances, entries, IsReadable, IsNumberText, add_entries,
  add_entry, add_entries_lem, dependences_of, read_entry, after,
}

All-first : (xs ys : List Entry) → All IsReadable (xs ++ ys) → All IsReadable xs
All-first [] ys h = tt
All-first (e ∷ xs) ys (here, h) = (here, All-first xs ys h)

All-second : (xs ys : List Entry) → All IsReadable (xs ++ ys) → All IsReadable ys
All-second [] ys h = h
All-second (e ∷ xs) ys (here, h) = All-second xs ys h

module _ (id_to_inst id_to_loop : ℕ → Option ℕ) where
  add_entries-append :
      (xs ys : List Entry) (deps : Option ℕ → List Dep)
      → add_entries id_to_inst id_to_loop (xs ++ ys) deps
        ≡ add_entries id_to_inst id_to_loop ys (add_entries id_to_inst id_to_loop xs deps)
  add_entries-append [] ys deps = refl
  add_entries-append (e ∷ xs) ys deps =
      add_entries-append xs ys (add_entry id_to_inst id_to_loop e deps)

module _ (showing : ℕ → List ℕ) (str_to_int : List ℕ → ℕ) (text : IsNumberText showing str_to_int)
    (id_to_inst id_to_loop : ℕ → Option ℕ) where
  abbrev reading : List (List ℕ) → Reader → Result Reader
  reading = read_strings id_to_inst id_to_loop str_to_int

  -- Reading printed strings takes the given counts in, whatever strings come after them.
  abbrev IsPrint : List (List ℕ) → List Entry → Type 0
  IsPrint printed es =
      (strings : List (List ℕ)) (r : Reader)
      → All IsReadable es
      → r.num_cnt % 6 ≡ 0
      → r.num_cnt + 6 * length es < 2 ^ 32
      → (out : Reader) × (reading (printed ++ strings) r ≡ reading strings out)
        × (out.num_cnt ≡ r.num_cnt + 6 * length es)
        × (out.deps ≡ add_entries id_to_inst id_to_loop es r.deps)

  IsPrint-append :
      (printed more : List (List ℕ)) (xs ys : List Entry)
      → IsPrint printed xs
      → IsPrint more ys
      → IsPrint (printed ++ more) (xs ++ ys)
  IsPrint-append printed more xs ys first second strings r h m b =
      let size = length-append xs ys in
      let (middle, run, count, deps) =
        first (more ++ strings) r (All-first xs ys h) m (omega (arith, size, b)) in
      let (out, run_on, count_on, deps_on) =
        second strings middle (All-second xs ys h) (omega (arith, m, count))
          (omega (arith, size, count, b)) in
      (
        out,
        ap (λ t. reading t r) (append_assoc printed more strings) ∙ run ∙ run_on,
        omega (arith, size, count, count_on),
        deps_on
            ∙ ap (add_entries id_to_inst id_to_loop ys) deps
            ∙ sym (add_entries-append id_to_inst id_to_loop xs ys r.deps),
      )

  print_keys-IsPrint :
      (l d : ℕ) (keys : KeyMap MemoryProfile)
      → IsPrint (print_keys showing l d keys) (entries_of_keys l d keys)
  print_keys-IsPrint l d [] strings r h m b = (r, refl, omega arith, refl)
  print_keys-IsPrint l d ((k, p) ∷ keys) strings r (here, h) m b =
      let e : Entry = record { load = l; dist = d; key = k; profile = p } in
      let (out, run, count, deps) =
        print_keys-IsPrint l d keys strings
          (after showing str_to_int text id_to_inst id_to_loop e r) h (omega (arith, m))
          (omega (arith, b)) in
      (
        out,
        read_entry showing str_to_int text id_to_inst id_to_loop e _ r here m (omega (arith, b))
            ∙ run,
        omega (arith, count),
        deps,
      )

  print_distances-IsPrint :
      (l d : ℕ) (maps : List (KeyMap MemoryProfile))
      → IsPrint (print_distances showing l d maps) (entries_of_distances l d maps)
  print_distances-IsPrint l d [] = λ strings r h m b. (r, refl, omega arith, refl)
  print_distances-IsPrint l d (keys ∷ maps) =
      IsPrint-append _ _ (entries_of_keys l d keys) _ (print_keys-IsPrint l d keys)
        (print_distances-IsPrint l (suc d) maps)

  print_loads-IsPrint :
      (l : ℕ) (info : Instructions) → IsPrint (print_loads showing l info) (entries l info)
  print_loads-IsPrint l [] = λ strings r h m b. (r, refl, omega arith, refl)
  print_loads-IsPrint l (maps ∷ info) =
      IsPrint-append _ _ (entries_of_distances l 0 maps) _ (print_distances-IsPrint l 0 maps)
        (print_loads-IsPrint (suc l) info)

  read_end : (stats : List (List ℕ)) (r : Reader) → reading (end_strings ++ stats) r ≡ ok r
  unfolding read_strings strip_left has_char has_end
  read_end stats r = refl

  -- For a way to write numbers that reads back 32-bit numbers, and a profiler whose counts are all
  -- below 2^32 and fewer than 2^32 / 6: reading what MemoryProfiler prints, with anything after it,
  -- fails no assertion. Each loop then has exactly the counts with its number whose load and store
  -- are known instructions, each as the pair of the load and the store with the total, the last one
  -- printed first; the counts of unknown loops are kept together under the null loop.
  pub read_profile-print_profiler :
      (info : Instructions) (stats : List (List ℕ))
      → All IsReadable (entries 0 info)
      → 6 * length (entries 0 info) < 2 ^ 32
      → (out : Reader) × (read_profile id_to_inst id_to_loop str_to_int
            (print_profiler showing info ++ stats)
          ≡ ok out)
        × ((loop : Option ℕ)
            → out.deps loop ≡ dependences_of id_to_inst id_to_loop (entries 0 info) loop)
  unfolding read_profile
  read_profile-print_profiler info stats h b =
      let (out, run, count, deps) =
        print_loads-IsPrint 0 info (end_strings ++ stats) new_reader h refl (omega (arith, b)) in
      (
        out,
        ap (λ t. reading t new_reader) (append_assoc (print_loads showing 0 info) end_strings stats)
            ∙ run
            ∙ read_end stats out,
        λ loop.
            ap (λ f. f loop) deps
            ∙ add_entries_lem id_to_inst id_to_loop (entries 0 info) (λ _. []) loop
            ∙ append-nil _,
      )
