-- ===== src/Lamp/Profile/Lookup.antt =====
-- What is found in a KeyDistanceProfiler after an access.
use llvm_loop_fission.Base.{
  ℕ, zero, suc, ◌<◌, ◌≡◌, refl, ap, sym, ◌∙◌, true, false, ◌&&◌, List, [], ◌∷◌, Option, none, some,
  arith, length, get_elem?, set, replicate, inl, inr, ◌⊎◌, if◌then◌else◌, ◌==◌, ltb, ℕ_discrete,
  All, subst, length-set,
}
use llvm_loop_fission.Lamp.Profile.{
  Dependence, LsKey, tracked_distance, KeyMap, with_key, or_empty, at_distance, put_maps,
  with_profile,
}

pub get_elem?-set :
    {A : Type 0} (xs : List A) (i j : ℕ) (a : A)
    → i < length xs
    → get_elem? (set xs i a) j ≡ (if j == i then some a else get_elem? xs j)
get_elem?-set [] i j a h = absurd (omega arith)
get_elem?-set (x ∷ xs) zero zero a h = refl
get_elem?-set (x ∷ xs) zero (suc j) a h = ground arith
get_elem?-set (x ∷ xs) (suc i) zero a h = ground arith
get_elem?-set (x ∷ xs) (suc i) (suc j) a h = ground (arith, get_elem?-set xs i j a (omega arith))

pub get_elem?-lt :
    {A : Type 0} (xs : List A) (i : ℕ) → i < length xs → (a : A) × (get_elem? xs i ≡ some a)
get_elem?-lt [] i h = absurd (omega arith)
get_elem?-lt (x ∷ xs) zero h = (x, refl)
get_elem?-lt (x ∷ xs) (suc i) h = get_elem?-lt xs i (omega arith)

pub length-replicate : {A : Type 0} (n : ℕ) (a : A) → length (replicate n a) ≡ n
length-replicate zero a = refl
length-replicate (suc n) a = ap suc (length-replicate n a)

module _ {T : Type 0} where
  -- What `find` gives for a store.
  abbrev pub find_key : ℕ → List (LsKey × T) → Option T
  find_key s [] = none
  find_key s ((k, t) ∷ rest) =
      if ltb k.store s then find_key s rest else (if ltb s k.store then none else some t)

  abbrev pub changed : T → (T → T) → Option T → T
  changed new f none = f new
  changed new f (some t) = f t

  find_key-with_key :
      (new : T) (f : T → T) (key : LsKey) (s : ℕ) (m : List (LsKey × T))
      → find_key s (with_key new f key m)
        ≡ (if s == key.store then some (changed new f (find_key key.store m)) else find_key s m)
  unfolding with_key
  find_key-with_key new f key s [] = ground arith
  find_key-with_key new f key s ((k, t) ∷ rest) = ground (arith, find_key-with_key new f key s rest)

  abbrev pub key_in : Option (KeyMap T) → ℕ → Option T
  key_in none s = none
  key_in (some m) s = find_key s m

  abbrev pub maps_in : Option (List (KeyMap T)) → ℕ → ℕ → Option T
  maps_in none d s = none
  maps_in (some maps) d s = key_in (get_elem? maps d) s

  -- The profile of a load, a tracked distance and a store.
  abbrev pub found : List (List (KeyMap T)) → ℕ → ℕ → ℕ → Option T
  found info load d s = maps_in (get_elem? info load) d s

  -- Each instruction has no maps yet, or one for each tracked distance.
  abbrev pub IsShape : ℕ → List (KeyMap T) → Type 0
  IsShape max maps = (maps ≡ []) ⊎ (length maps ≡ max)

  length-or_empty :
      (max : ℕ) (maps : List (KeyMap T)) → IsShape max maps → length (or_empty max maps) ≡ max
  length-or_empty max [] h = length-replicate max []
  length-or_empty max (m ∷ ms) h = elim h [ inl e ↦ cc | inr e ↦ e ]

  key_in-replicate : (n d s : ℕ) → key_in (get_elem? (replicate n []) d) s ≡ none
  key_in-replicate zero d s = refl
  key_in-replicate (suc n) zero s = refl
  key_in-replicate (suc n) (suc d) s = key_in-replicate n d s

  key_in-or_empty :
      (max d s : ℕ) (maps : List (KeyMap T))
      → key_in (get_elem? (or_empty max maps) d) s ≡ key_in (get_elem? maps d) s
  key_in-or_empty max d s [] = key_in-replicate max d s
  key_in-or_empty max d s (m ∷ ms) = refl

  All-get :
      (max load : ℕ) (info : List (List (KeyMap T))) (maps : List (KeyMap T))
      → All (IsShape max) info
      → get_elem? info load ≡ some maps
      → IsShape max maps
  All-get max load [] maps h e = cc e
  All-get max zero (x ∷ info) maps h e = subst (IsShape max) (ground (arith, e)) h.0
  All-get max (suc load) (x ∷ info) maps h e = All-get max load info maps h.1 e

  All-set :
      (max load : ℕ) (info : List (List (KeyMap T))) (maps : List (KeyMap T))
      → All (IsShape max) info
      → IsShape max maps
      → All (IsShape max) (set info load maps)
  All-set max load [] maps h k = tt
  All-set max zero (x ∷ info) maps h k = (k, h.1)
  All-set max (suc load) (x ∷ info) maps h k = (h.0, All-set max load info maps h.1 k)

  -- What one access leaves behind.
  pub record Accessed (max : ℕ) (new : T) (f : T → T) (dep : Dependence)
      (info next : List (List (KeyMap T))) : Type 0 where
    pub size : length next ≡ length info
    pub shape : All (IsShape max) next
    pub looks :
        (load d s : ℕ)
        → found next load d s ≡ (
            if load == dep.load && (d == tracked_distance max dep.dist && s == dep.store)
            then some
                (changed new f (found info dep.load (tracked_distance max dep.dist) dep.store))
            else found info load d s)

  module _ (max td : ℕ) (new : T) (f : T → T) (key : LsKey) (info : List (List (KeyMap T)))
      (load0 : ℕ) (maps : List (KeyMap T)) (m : KeyMap T) (bound : load0 < length info)
      (e : get_elem? info load0 ≡ some maps) (below : td < length (or_empty max maps))
      (e2 : get_elem? (or_empty max maps) td ≡ some m) where
    abbrev new_maps : List (KeyMap T)
    new_maps = set (or_empty max maps) td (with_key new f key m)

    at_load : (d s : ℕ) → found info load0 d s ≡ key_in (get_elem? (or_empty max maps) d) s
    at_load d s = ap (λ o. maps_in o d s) e ∙ sym (key_in-or_empty max d s maps)

    at_place : (s : ℕ) → found info load0 td s ≡ find_key s m
    at_place s = at_load td s ∙ ap (λ o. key_in o s) e2

    -- The profile at a place of the load's maps.
    abbrev answer : ℕ → ℕ → Option T
    answer d s =
        if d == td && s == key.store
        then some (changed new f (found info load0 td key.store))
        else found info load0 d s

    new_maps_lem : (d s : ℕ) → key_in (get_elem? new_maps d) s ≡ answer d s
    new_maps_lem d s = elim (ℕ_discrete d td) [
      | yes at ↦
          let here : (d == td) ≡ true = ground (arith, at) in
          rw (get_elem?-set (or_empty max maps) td d (with_key new f key m) below, here)
            (ground (
              arith,
              find_key-with_key new f key s m,
              at_place s,
              ap (changed new f) (at_place key.store),
              ap (λ z. found info load0 z s) at,
            ))
      | no other ↦
          let away : (d == td) ≡ false = ground (arith, other) in
          rw (get_elem?-set (or_empty max maps) td d (with_key new f key m) below, away)
            (sym (at_load d s))
    ]

    looks_lem :
        (load d s : ℕ)
        → found (set info load0 new_maps) load d s ≡ (
            if load == load0 && (d == td && s == key.store)
            then some (changed new f (found info load0 td key.store))
            else found info load d s)
    looks_lem load d s = elim (ℕ_discrete load load0) [
      | yes at ↦
          let here : (load == load0) ≡ true = ground (arith, at) in
          rw (get_elem?-set info load0 load new_maps bound, here)
            (new_maps_lem d s ∙ ground (arith, ap (λ z. found info z d s) at))
      | no other ↦
          let away : (load == load0) ≡ false = ground (arith, other) in
          rw (get_elem?-set info load0 load new_maps bound, away) refl
    ]

  at_distance_lem :
      (new : T) (f : T → T) (d : ℕ) (key : LsKey) (maps : List (KeyMap T)) (m : KeyMap T)
      → get_elem? maps d ≡ some m
      → at_distance new f d key maps ≡ some (set maps d (with_key new f key m))
  at_distance_lem new f d key maps m e = rw (at_distance, e) refl

  accessed :
      (max : ℕ) (new : T) (f : T → T) (dep : Dependence) (info : List (List (KeyMap T)))
      (maps : List (KeyMap T)) (m : KeyMap T)
      → All (IsShape max) info
      → dep.load < length info
      → get_elem? info dep.load ≡ some maps
      → length (or_empty max maps) ≡ max
      → tracked_distance max dep.dist < length (or_empty max maps)
      → get_elem? (or_empty max maps) (tracked_distance max dep.dist) ≡ some m
      → (next : List (List (KeyMap T))) × (with_profile max new f dep info ≡ some next)
        × Accessed max new f dep info next
  unfolding with_profile
  accessed max new f dep info maps m shape bound e fits below e2 =
      let td = tracked_distance max dep.dist in
      let key : LsKey = record { store = dep.store; loop_id = dep.loop_id } in
      let after = set (or_empty max maps) td (with_key new f key m) in
      (
        set info dep.load after,
        rw (with_profile, e)
            (ap (put_maps info dep.load) (at_distance_lem new f td key (or_empty max maps) m e2)),
        record {
          size = length-set info dep.load after;
          shape =
              All-set max dep.load info after shape
                (inr (length-set (or_empty max maps) td (with_key new f key m) ∙ fits));
          looks = looks_lem max td new f key info dep.load maps m bound e below e2;
        },
      )

  pub with_profile-Accessed :
      (max : ℕ) (new : T) (f : T → T) (dep : Dependence) (info : List (List (KeyMap T)))
      → 0 < max
      → All (IsShape max) info
      → dep.load < length info
      → (next : List (List (KeyMap T))) × (with_profile max new f dep info ≡ some next)
        × Accessed max new f dep info next
  with_profile-Accessed max new f dep info pos shape bound =
      let td = tracked_distance max dep.dist in
      let (maps, e) = get_elem?-lt info dep.load bound in
      let fits = length-or_empty max maps (All-get max dep.load info maps shape e) in
      let below : td < length (or_empty max maps) = ground (arith, fits, pos) in
      let (m, e2) = get_elem?-lt (or_empty max maps) td below in
      accessed max new f dep info maps m shape bound e fits below e2
