-- ===== src/Lamp/Hooks/Loads.antt =====
-- What the hooks for loads report, while iterations are not measured.
use llvm_loop_fission.Base.{
  ℕ, zero, suc, ◌+◌, ◌^◌, ◌≤◌, ◌<◌, ◌≡◌, refl, ap, sym, ◌∙◌, true, false, not, List, [], ◌∷◌,
  Option, none, some, arith, if◌then◌else◌, Result, ok, ◌>>=◌, Bool-cases, inl, inr, get_elem?,
  subst, length, if_true, if_false, step_ok,
}
use llvm_loop_fission.Memory.Page.{Page, am_page_addr}
use llvm_loop_fission.Memory.Page.Status.{Status, item_of}
use llvm_loop_fission.Memory.Bits.Masks.{in_range}
use llvm_loop_fission.Memory.Map.{find_page, get_node}
use llvm_loop_fission.Memory.Map.Look.{IsPaged, look}
use llvm_loop_fission.Memory.Map.Laws.{IsSpan, get_item_at}
use llvm_loop_fission.Lamp.{bump64}
use llvm_loop_fission.Lamp.Stamps.{Timestamp, same_stamp}
use llvm_loop_fission.Lamp.Hierarchy.{Buffers}
use llvm_loop_fission.Lamp.Profile.{Instructions, increment_all}
use llvm_loop_fission.Lamp.Hooks.{
  State, Seen, profile_item, profile_byte, profile_bytes, profile_store, memory_profile, use_page,
  aligned_load, load,
}
use llvm_loop_fission.Lamp.Hooks.Running.{
  IsRunning, with_pages, looked, cached_page_lem, page_at_lem, use_page_lem,
}
use llvm_loop_fission.Lamp.Hooks.Counted.{
  dependences, counted_after, count_stamps, count_stamps-cons, profile_store-cases,
}

-- The stamps of the valid ones among some bytes, in order.
abbrev pub stamps : ℕ → (ℕ → Status Timestamp) → ℕ → List Timestamp
stamps zero holds addr = []
stamps (suc size) holds addr = elim (item_of (holds addr)) [
  | none ↦ stamps size holds (suc addr)
  | some v ↦ v ∷ stamps size holds (suc addr)
]

-- The list without an item that equals the one before it.
abbrev pub changes : Option Timestamp → List Timestamp → List Timestamp
changes last [] = []
changes none (v ∷ vs) = v ∷ changes (some v) vs
changes (some last) (v ∷ vs) =
    if same_stamp v last then changes (some last) vs else v ∷ changes (some v) vs

stamps-bump64 :
    (size : ℕ) (holds : ℕ → Status Timestamp) (addr : ℕ)
    → addr + suc size ≤ 2 ^ 64
    → stamps size holds (bump64 addr) ≡ stamps size holds (suc addr)
stamps-bump64 zero holds addr fits = refl
stamps-bump64 (suc size) holds addr fits =
    let small : bump64 addr ≡ suc addr = omega (arith, fits) in ap (stamps (suc size) holds) small

module _ (b : Buffers) where
  -- A state in which the loads of an instruction look at one page.
  record IsLooking (load key : ℕ) (s : State b) : Type 0 where
    paged : IsPaged s.memory_stamp
    pointer : get_elem? s.page_cache load ≡ some (some key)
    page : Page Timestamp
    there : find_page key s.memory_stamp ≡ some page
    off : s.measure_iterations ≡ false

  abbrev seen_with : Option Timestamp → State b → Seen b
  seen_with last s = record { last_store = last; state = s }

  profile_byte_lem :
      (load key addr : ℕ) (last : Option Timestamp) (s : State b)
      → IsLooking load key s
      → am_page_addr addr ≡ key
      → addr < 2 ^ 64
      → profile_byte b load addr (seen_with last s)
        ≡ profile_item b load (seen_with last s) (item_of (looked b s addr))
  unfolding profile_byte
  profile_byte_lem load key addr last s i at bounded =
      let here : get_node s.memory_stamp addr ≡ some i.page =
        ap (λ k. find_page k s.memory_stamp) at ∙ i.there in
      step_ok _ key _ _ (cached_page_lem b s load key i.pointer) (
        step_ok _ i.page _ _ (page_at_lem b s key i.page i.there)
          (step_ok _ _ _ _ (get_item_at s.memory_stamp i.page addr i.paged here bounded) refl))

  abbrev pub state_of : Result (Seen b) → Result (State b)
  state_of run = run >>= λ seen. ok seen.state

  -- What is left to do gives the counts of what is left to see.
  abbrev Continues : ℕ → State b → List Timestamp → (Seen b → Result (Seen b)) → Type 0
  Continues load s rest next =
      (last : Option Timestamp) (profiles : Instructions)
      → state_of (next (seen_with last (record s { profiler = profiles })))
        ≡ count_stamps b (record s { profiler = profiles }) load (changes last rest)

  new_store :
      (load : ℕ) (v : Timestamp) (s : State b) (rest : List Timestamp)
      (next : Seen b → Result (Seen b))
      → s.measure_iterations ≡ false
      → Continues load s rest next
      → state_of ((profile_store b load v s >>= λ t. ok (seen_with (some v) t)) >>= next)
        ≡ count_stamps b s load (v ∷ changes (some v) rest)
  new_store load v s rest next off ih =
      let counted = count_stamps-cons b s load v (changes (some v) rest) off in
      let deps = dependences b s.hierarchy load (changes (some v) rest) in
      elim (profile_store-cases b load v s off) [
        | inl e ↦
            ap (λ run. state_of ((run >>= λ t. ok (seen_with (some v) t)) >>= next)) e
            ∙ (sym (ap (λ run. run >>= λ t. counted_after b t deps) e) ∙ counted)
        | inr (profiles, e) ↦
            ap (λ run. state_of ((run >>= λ t. ok (seen_with (some v) t)) >>= next)) e
            ∙ (ih (some v) profiles
                ∙ (sym (ap (λ run. run >>= λ t. counted_after b t deps) e) ∙ counted))
      ]

  item_step :
      (load : ℕ) (last : Option Timestamp) (s : State b) (item : Option Timestamp)
      (rest : List Timestamp) (next : Seen b → Result (Seen b))
      → s.measure_iterations ≡ false
      → Continues load s rest next
      → state_of (profile_item b load (seen_with last s) item >>= next)
        ≡ count_stamps b s load (changes last (elim item [ none ↦ rest | some v ↦ v ∷ rest ]))
  item_step load last s none rest next off ih = ih last s.profiler
  item_step load none s (some v) rest next off ih = new_store load v s rest next off ih
  item_step load (some last) s (some v) rest next off ih = elim (Bool-cases (same_stamp v last)) [
    | inl same ↦ rw same (ih (some last) s.profiler)
    | inr differs ↦ rw differs (new_store load v s rest next off ih)
  ]

  profile_bytes_lem :
      (rounds load key addr : ℕ) (last : Option Timestamp) (s : State b)
      → IsLooking load key s
      → ((a : ℕ) → in_range rounds addr a ≡ true → am_page_addr a ≡ key)
      → addr + rounds ≤ 2 ^ 64
      → state_of (profile_bytes b rounds load addr (seen_with last s))
        ≡ count_stamps b s load (changes last (stamps rounds (looked b s) addr))
  unfolding profile_bytes increment_all
  profile_bytes_lem zero load key addr last s i at fits = refl
  profile_bytes_lem (suc rounds) load key addr last s i at fits =
      let here =
        profile_byte_lem load key addr last s i (at addr (ground arith)) (omega (arith, fits)) in
      let next = profile_bytes b rounds load (bump64 addr) in
      ap (λ run. state_of (run >>= next)) here
      ∙ item_step load last s (item_of (looked b s addr)) (stamps rounds (looked b s) (suc addr))
          next i.off
          (λ last2 profiles.
            profile_bytes_lem rounds load key (bump64 addr) last2 (record s { profiler = profiles })
              (record {
                paged = i.paged;
                pointer = i.pointer;
                page = i.page;
                there = i.there;
                off = i.off;
              })
              (λ a h. at a (ground (arith, h, fits))) (omega (arith, fits))
            ∙ ap (λ vs. count_stamps b (record s { profiler = profiles }) load (changes last2 vs))
                (stamps-bump64 rounds (looked b s) addr fits))

  -- A running state with a place for the instruction in the page cache, where loads are profiled and
  -- iterations are not measured.
  pub record IsLoading (load : ℕ) (s : State b) : Type 0 where
    pub running : IsRunning b s
    pub has_place : load < length s.page_cache
    pub flow : s.profile_flow ≡ true
    pub off : s.measure_iterations ≡ false

  -- A load: the page cache and the pages may change, what each address holds does not, and the
  -- profiler counts the dependences on the stores of some stamps.
  abbrev pub Counts : ℕ → List Timestamp → State b → Result (State b) → Type 0
  Counts load seen s run =
      (pages : List (ℕ × Page Timestamp)) × (cache : List (Option ℕ)) × (run
        ≡ count_stamps b (with_pages b s pages cache) load seen)
      × IsLoading load (with_pages b s pages cache)
      × (length cache ≡ length s.page_cache)
      × ((a : ℕ) → look pages a ≡ looked b s a)

  module _ (fresh : ℕ → ℕ → Timestamp) where
    aligned_load_run :
        (size load addr : ℕ) (s cached : State b)
        → s.initialized ≡ true
        → use_page b fresh load addr s ≡ ok cached
        → cached.profile_flow ≡ true
        → aligned_load b fresh size load addr s ≡ memory_profile b size load addr cached
    unfolding aligned_load
    aligned_load_run size load addr s cached started used flow =
        if_false (not s.initialized) (ok s) _ (ap not started)
        ∙ step_ok (use_page b fresh load addr s) cached _ _ used
            (if_true cached.profile_flow _ (ok cached) flow)

    stamps-same :
        (size : ℕ) (f g : ℕ → Status Timestamp) (addr : ℕ)
        → ((a : ℕ) → f a ≡ g a)
        → stamps size f addr ≡ stamps size g addr
    stamps-same size f g addr same = λ i. stamps size (λ a. same a i) addr

    pub aligned_load-Counts :
        (size load addr : ℕ) (s : State b)
        → IsSpan addr size
        → IsLoading load s
        → Counts load
            (changes none (stamps size (looked b s) addr))
            s
            (aligned_load b fresh size load addr s)
    unfolding memory_profile
    aligned_load-Counts size load addr s span i =
        let (pages, cache, used, r, c, size_kept, same) =
          use_page_lem b fresh s load addr i.running i.has_place in
        let cached = with_pages b s pages cache in
        (
          pages,
          cache,
          aligned_load_run size load addr s cached i.running.started used i.flow
              ∙ (profile_bytes_lem size load (am_page_addr addr) addr none cached
                    (record {
                      paged = r.paged;
                      pointer = c.pointer;
                      page = c.page;
                      there = c.there;
                      off = i.off;
                    })
                    (λ a h. ground (arith, h, span.ends)) (omega (arith, span.ends, span.bounded))
                  ∙ ap (λ vs. count_stamps b cached load (changes none vs))
                      (stamps-same size (looked b cached) (looked b s) addr same)),
          record {
            running = r;
            has_place = subst (λ n. load < n) (sym size_kept) i.has_place;
            flow = i.flow;
            off = i.off;
          },
          size_kept,
          same,
        )
