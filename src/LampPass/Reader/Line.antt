-- ===== src/LampPass/Reader/Line.antt =====
-- What LAMPLoadProfile reads from one line of the profile that MemoryProfiler prints.
use mathlib.Core.Logic.{ite, if_pos, if_neg}
use mathlib.Core.Option
use llvm_loop_fission.Base.{
  ℕ, suc, ◌+◌, ◌%◌, ◌^◌, ◌<◌, ◌≡◌, refl, ap, sym, subst, ◌∙◌, true, false, List, [], ◌∷◌, ◌++◌,
  append_assoc, Option, none, some, arith, Result, ok, if_true, if_false, Bool-cases, inl, inr,
  if◌then◌else◌, step_ok, ℕ_discrete,
}
use llvm_loop_fission.Lamp.Profile.{LsKey, KeyMap, MemoryProfile, Instructions}
use llvm_loop_fission.Lamp.Profile.Printed.{print_line}
use llvm_loop_fission.LampPass.Reader.{
  Dep, Reader, has_char, has_end, strip_left, both_known, same_loop, take_field, read_number,
  read_strings,
}

-- A count of the profiler: its load, its distance, its key and its profile.
pub record Entry : Type 0 where
  pub load : ℕ
  pub dist : ℕ
  pub key : LsKey
  pub profile : MemoryProfile

abbrev pub entries_of_keys : ℕ → ℕ → KeyMap MemoryProfile → List Entry
entries_of_keys l d [] = []
entries_of_keys l d ((k, p) ∷ keys) =
    record { load = l; dist = d; key = k; profile = p } ∷ entries_of_keys l d keys

abbrev pub entries_of_distances : ℕ → ℕ → List (KeyMap MemoryProfile) → List Entry
entries_of_distances l d [] = []
entries_of_distances l d (keys ∷ maps) =
    entries_of_keys l d keys ++ entries_of_distances l (suc d) maps

-- The counts of a profiler, from a first load on.
abbrev pub entries : ℕ → Instructions → List Entry
entries l [] = []
entries l (maps ∷ info) = entries_of_distances l 0 maps ++ entries (suc l) info

-- Its numbers fit into the reader's `unsigned int`.
abbrev pub IsReadable : Entry → Type 0
IsReadable e =
    (e.load < 2 ^ 32)
    × (e.dist < 2 ^ 32)
    × (e.key.loop_id < 2 ^ 32)
    × (e.key.store < 2 ^ 32)
    × (e.profile.total_count < 2 ^ 32)

-- The text of a number has no parenthesis and no "END", and reads back as the number if this fits
-- into 32 bits.
pub record IsNumberText (showing : ℕ → List ℕ) (str_to_int : List ℕ → ℕ) : Type 0 where
  pub left : (n : ℕ) → has_char 40 (showing n) ≡ false
  pub right : (n : ℕ) → has_char 41 (showing n) ≡ false
  pub ending : (n : ℕ) → has_end (showing n) ≡ false
  pub reads : (n : ℕ) → n < 2 ^ 32 → str_to_int (showing n) ≡ n

-- The pairs of instructions that a count stands for: its load, then its store, with its total, if the
-- numbers of both are known; none otherwise.
abbrev pub pairs : Option ℕ → Option ℕ → ℕ → List Dep
pairs none store total = []
pairs (some a) none total = []
pairs (some a) (some b) total = record { first = a; second = b; times = total } ∷ []

module _ (id_to_inst id_to_loop : ℕ → Option ℕ) where
  -- What a loop has: the pairs of the counts of that loop, the last one first.
  abbrev pub dependences_of : List Entry → Option ℕ → List Dep
  dependences_of [] loop = []
  dependences_of (e ∷ es) loop =
      dependences_of es loop
      ++ ite (Option.discrete ℕ_discrete (id_to_loop e.key.loop_id) loop)
          (pairs (id_to_inst e.load) (id_to_inst e.key.store) e.profile.total_count) []

  -- A count that the reader takes in.
  abbrev pub add_entry : Entry → (Option ℕ → List Dep) → Option ℕ → List Dep
  add_entry e deps =
      both_known (id_to_inst e.load) (id_to_inst e.key.store) (id_to_loop e.key.loop_id)
        e.profile.total_count deps

  abbrev pub add_entries : List Entry → (Option ℕ → List Dep) → Option ℕ → List Dep
  add_entries [] deps = deps
  add_entries (e ∷ es) deps = add_entries es (add_entry e deps)

same_loop_refl : (l : Option ℕ) → same_loop l l ≡ true
same_loop_refl none = refl
same_loop_refl (some a) = ground arith

same_loop_sound : (loop l : Option ℕ) → same_loop loop l ≡ true → l ≡ loop
same_loop_sound none none h = refl
same_loop_sound none (some b) h = absurd (ground (arith, h))
same_loop_sound (some a) none h = absurd (ground (arith, h))
same_loop_sound (some a) (some b) h = ap some (ground (arith, h))

same_loop_lem :
    {A : Type 0} (l loop : Option ℕ) (x y : A)
    → (if same_loop loop l then x else y) ≡ ite (Option.discrete ℕ_discrete l loop) x y
same_loop_lem l loop x y = elim (Bool-cases (same_loop loop l)) [
  | inl at ↦ if_true _ x y at ∙ sym (if_pos _ (same_loop_sound loop l at) x y)
  | inr away ↦
      let other = λ (e : l ≡ loop).
        absurd (cc (subst (λ z. same_loop z l ≡ true) e (same_loop_refl l), away)) in
      if_false _ x y away ∙ sym (if_neg _ other x y)
]

ite-append :
    {A : Type 0} {P : Type 0} (d : Dec P) (xs ys : List A) → ite d (xs ++ ys) ys ≡ ite d xs [] ++ ys
ite-append (yes p) xs ys = refl
ite-append (no n) xs ys = refl

ite_same : {A : Type 0} {P : Type 0} (d : Dec P) (a : A) → ite d a a ≡ a
ite_same (yes p) a = refl
ite_same (no n) a = refl

both_known_lem :
    (first second l : Option ℕ) (total : ℕ) (deps : Option ℕ → List Dep) (loop : Option ℕ)
    → both_known first second l total deps loop
      ≡ ite (Option.discrete ℕ_discrete l loop) (pairs first second total) [] ++ deps loop
both_known_lem none second l total deps loop =
    sym (ap (λ d. d ++ deps loop) (ite_same (Option.discrete ℕ_discrete l loop) []))
both_known_lem (some a) none l total deps loop =
    sym (ap (λ d. d ++ deps loop) (ite_same (Option.discrete ℕ_discrete l loop) []))
both_known_lem (some a) (some b) l total deps loop =
    let dep : Dep = record { first = a; second = b; times = total } in
    same_loop_lem l loop (dep ∷ deps loop) (deps loop)
    ∙ ite-append (Option.discrete ℕ_discrete l loop) (dep ∷ []) (deps loop)

module _ (id_to_inst id_to_loop : ℕ → Option ℕ) where
  add_entry_lem :
      (e : Entry) (deps : Option ℕ → List Dep) (loop : Option ℕ)
      → add_entry id_to_inst id_to_loop e deps loop
        ≡ ite
            (Option.discrete ℕ_discrete (id_to_loop e.key.loop_id) loop)
            (pairs (id_to_inst e.load) (id_to_inst e.key.store) e.profile.total_count)
            []
          ++ deps loop
  add_entry_lem e deps loop =
      both_known_lem (id_to_inst e.load) (id_to_inst e.key.store) (id_to_loop e.key.loop_id)
        e.profile.total_count deps loop

  pub add_entries_lem :
      (es : List Entry) (deps : Option ℕ → List Dep) (loop : Option ℕ)
      → add_entries id_to_inst id_to_loop es deps loop
        ≡ dependences_of id_to_inst id_to_loop es loop ++ deps loop
  add_entries_lem [] deps loop = refl
  add_entries_lem (e ∷ es) deps loop =
      add_entries_lem es (add_entry id_to_inst id_to_loop e deps) loop
      ∙ ap (◌++◌ (dependences_of id_to_inst id_to_loop es loop)) (add_entry_lem e deps loop)
      ∙ sym (append_assoc (dependences_of id_to_inst id_to_loop es loop) _ (deps loop))

strip_left_plain : (s : List ℕ) → has_char 40 s ≡ false → strip_left s ≡ ok s
unfolding strip_left
strip_left_plain [] h = refl
strip_left_plain (c ∷ s) h = if_false _ _ _ h

strip_left_left : (s : List ℕ) → strip_left (40 ∷ s) ≡ ok s
unfolding strip_left has_char
strip_left_left s = refl

module _ (showing : ℕ → List ℕ) (str_to_int : List ℕ → ℕ) (text : IsNumberText showing str_to_int)
    (id_to_inst id_to_loop : ℕ → Option ℕ) where
  abbrev pub reading : List (List ℕ) → Reader → Result Reader
  reading = read_strings id_to_inst id_to_loop str_to_int

  abbrev pub number : ℕ → Reader → Reader
  number = read_number id_to_inst id_to_loop

  -- A string with a number, before or after its parenthesis is taken off.
  read_number_string :
      (s : List ℕ) (n : ℕ) (strings : List (List ℕ)) (r : Reader)
      → has_char 41 s ≡ false
      → strip_left s ≡ ok (showing n)
      → reading (s ∷ strings) r ≡ reading strings (number (str_to_int (showing n)) r)
  unfolding read_strings
  read_number_string s n strings r h stripped =
      if_false _ _ _ h
      ∙ step_ok (strip_left s) (showing n) _ _ stripped (if_false _ _ _ (text.ending n))

  read_plain :
      (n : ℕ) (strings : List (List ℕ)) (r : Reader)
      → reading (showing n ∷ strings) r ≡ reading strings (number (str_to_int (showing n)) r)
  read_plain n strings r =
      read_number_string (showing n) n strings r (text.right n)
        (strip_left_plain (showing n) (text.left n))

  read_left :
      (n : ℕ) (strings : List (List ℕ)) (r : Reader)
      → reading ((40 ∷ showing n) ∷ strings) r ≡ reading strings (number (str_to_int (showing n)) r)
  unfolding has_char
  read_left n strings r =
      read_number_string (40 ∷ showing n) n strings r (text.right n) (strip_left_left (showing n))

  pub read_right :
      (strings : List (List ℕ)) (r : Reader) → reading ((41 ∷ []) ∷ strings) r ≡ reading strings r
  unfolding read_strings has_char
  read_right strings r = refl

  -- The field that the next number goes to.
  abbrev field_of : ℕ → ℕ → Reader → Reader
  field_of f v r = take_field id_to_inst id_to_loop f v (record r { num_cnt = r.num_cnt + 1 })

  number_at :
      (f v : ℕ) (r : Reader)
      → r.num_cnt + 1 < 2 ^ 32
      → (r.num_cnt + 1) % 6 ≡ f
      → number v r ≡ field_of f v r
  unfolding read_number
  number_at f v r b h =
      let next : (r.num_cnt + 1) % 2 ^ 32 ≡ r.num_cnt + 1 = omega (arith, b) in
      ap (λ c. take_field id_to_inst id_to_loop (c % 6) v (record r { num_cnt = c })) next
      ∙ ap (λ g. field_of g v r) h

  plain_at :
      (f n : ℕ) (strings : List (List ℕ)) (r : Reader)
      → n < 2 ^ 32
      → r.num_cnt + 1 < 2 ^ 32
      → (r.num_cnt + 1) % 6 ≡ f
      → reading (showing n ∷ strings) r ≡ reading strings (field_of f n r)
  plain_at f n strings r fits b h =
      read_plain n strings r
      ∙ ap (reading strings) (number_at f _ r b h ∙ ap (λ v. field_of f v r) (text.reads n fits))

  left_at :
      (f n : ℕ) (strings : List (List ℕ)) (r : Reader)
      → n < 2 ^ 32
      → r.num_cnt + 1 < 2 ^ 32
      → (r.num_cnt + 1) % 6 ≡ f
      → reading ((40 ∷ showing n) ∷ strings) r ≡ reading strings (field_of f n r)
  left_at f n strings r fits b h =
      read_left n strings r
      ∙ ap (reading strings) (number_at f _ r b h ∙ ap (λ v. field_of f v r) (text.reads n fits))

  abbrev pub after : Entry → Reader → Reader
  after e r = record {
    num_cnt = r.num_cnt + 6;
    i1_id = e.load;
    cross_iter = e.dist;
    loop_id = e.key.loop_id;
    i2_id = e.key.store;
    deps = add_entry id_to_inst id_to_loop e r.deps;
  }

  pub read_entry :
      (e : Entry) (strings : List (List ℕ)) (r : Reader)
      → IsReadable e
      → r.num_cnt % 6 ≡ 0
      → r.num_cnt + 6 < 2 ^ 32
      → reading (print_line showing e.load e.dist e.key e.profile strings) r
        ≡ reading strings (after e r)
  read_entry e strings r (load, dist, loop_id, store, total) m b =
      left_at 1 e.load _ r load (omega (arith, b)) (omega (arith, m))
      ∙ plain_at 2 e.dist _ _ dist (omega (arith, b)) (omega (arith, m))
      ∙ plain_at 3 e.key.loop_id _ _ loop_id (omega (arith, b)) (omega (arith, m))
      ∙ plain_at 4 e.key.store _ _ store (omega (arith, b)) (omega (arith, m))
      ∙ left_at 5 e.profile.total_count _ _ total (omega (arith, b)) (omega (arith, m))
      ∙ read_plain e.profile.loop_count _ _
      ∙ ap (reading _) (number_at 0 _ _ (omega (arith, b)) (omega (arith, m)))
      ∙ read_right _ _
      ∙ read_right _ _
      ∙ ap (λ c. reading strings (record (after e r) { num_cnt = c })) (omega arith)
