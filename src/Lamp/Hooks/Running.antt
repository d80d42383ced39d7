-- ===== src/Lamp/Hooks/Running.antt =====
-- The state between two hooks, and how the cached pages are used.
use llvm_loop_fission.Base.{
  ℕ, zero, suc, ◌+◌, ◌^◌, ◌≤◌, ◌<◌, ◌≡◌, refl, ap, sym, ◌∙◌, true, false, List, Option, some, arith,
  ◌==◌, ==_iff, if◌then◌else◌, Result, ok, ◌>>=◌, Bool-cases, inl, inr, get_elem?, set, subst,
  ok-inj, step_inv, length, length-set,
}
use llvm_loop_fission.Memory.Page.{Page, am_page_addr, in_page}
use llvm_loop_fission.Memory.Page.Status.{Status}
use llvm_loop_fission.Memory.Bits.Masks.{in_range}
use llvm_loop_fission.Memory.Map.{find_page, get_node}
use llvm_loop_fission.Memory.Map.Look.{IsPaged, Keeps, look, get_or_create_node_lem}
use llvm_loop_fission.Lamp.{bump64}
use llvm_loop_fission.Lamp.Stamps.{Timestamp}
use llvm_loop_fission.Lamp.Hierarchy.{Buffers}
use llvm_loop_fission.Lamp.Profile.Lookup.{get_elem?-set}
use llvm_loop_fission.Lamp.Hooks.{State, cached_page, page_at, use_page, each_byte}

byte_and_rest :
    {A : Type 0} (g : A → A) (rounds addr a : ℕ) (old new : A)
    → addr + suc rounds ≤ 2 ^ 64
    → new ≡ (if a == addr then g old else old)
    → (if in_range rounds (bump64 addr) a then g new else new)
      ≡ (if in_range (suc rounds) addr a then g old else old)
byte_and_rest g rounds addr a old new fits e = elim (Bool-cases (a == addr)) [
  | inl at ↦
      let here : new ≡ g old = e ∙ rw at refl in
      let out : in_range rounds (bump64 addr) a ≡ false = ground (arith, at, fits) in
      let into : in_range (suc rounds) addr a ≡ true = ground (arith, at) in rw (out, into) here
  | inr other ↦
      let here : new ≡ old = e ∙ rw other refl in
      let same : in_range (suc rounds) addr a ≡ in_range rounds (bump64 addr) a =
        ground (arith, other, fits) in
      rw (here, same) refl
]

module _ (b : Buffers) where
  abbrev pub with_pages : State b → List (ℕ × Page Timestamp) → List (Option ℕ) → State b
  with_pages s pages cache = record s { memory_stamp = pages; page_cache = cache }

  -- The cached page of an instruction: a pointer to a page that is there.
  abbrev pub Points : List (ℕ × Page Timestamp) → List (Option ℕ) → ℕ → ℕ → Type 0
  Points pages cache i key =
      (get_elem? cache i ≡ some (some key)) × (p : Page Timestamp) × (find_page key pages ≡ some p)

  -- After LAMP_init: the pages are filed right, and each item of the page cache points to a page.
  pub record IsRunning (s : State b) : Type 0 where
    pub started : s.initialized ≡ true
    pub paged : IsPaged s.memory_stamp
    pub cached :
        (i : ℕ) → i < length s.page_cache → (key : ℕ) × Points s.memory_stamp s.page_cache i key

  abbrev pub looked : State b → ℕ → Status Timestamp
  looked s a = look s.memory_stamp a

  -- A hook that changes the shadow memory and the page cache alone, keeps an invariant and the size
  -- of the page cache, and what each address holds after it.
  abbrev pub Steps :
      (State b → Type 0) → State b → Result (State b) → (ℕ → Status Timestamp) → Type 0
  Steps Inv s run holds =
      (pages : List (ℕ × Page Timestamp)) × (cache : List (Option ℕ)) × (run
        ≡ ok (with_pages s pages cache))
      × Inv (with_pages s pages cache)
      × (length cache ≡ length s.page_cache)
      × ((a : ℕ) → look pages a ≡ holds a)

  pub cached_page_lem :
      (s : State b) (i key : ℕ)
      → get_elem? s.page_cache i ≡ some (some key)
      → cached_page b s i ≡ ok key
  unfolding cached_page
  cached_page_lem s i key e = rw (cached_page, e) refl

  pub page_at_lem :
      (s : State b) (key : ℕ) (p : Page Timestamp)
      → find_page key s.memory_stamp ≡ some p
      → page_at b s key ≡ ok p
  unfolding page_at
  page_at_lem s key p e = rw (page_at, e) refl

  -- A loop over the bytes of a region does to each of them what its body does to one.
  pub each_byte_lem :
      (Inv : State b → Type 0) (P : ℕ → Type 0) (f : ℕ → State b → Result (State b))
      (g : Status Timestamp → Status Timestamp)
      → ((addr : ℕ) (s : State b)
          → P addr
          → addr < 2 ^ 64
          → Inv s
          → Steps Inv s (f addr s) (λ a. if a == addr then g (looked s a) else looked s a))
      → (rounds addr : ℕ) (s : State b) → addr + rounds ≤ 2 ^ 64
      → ((a : ℕ) → in_range rounds addr a ≡ true → P a)
      → Inv s
      → Steps Inv s
          (each_byte b f rounds addr s)
          (λ a. if in_range rounds addr a then g (looked s a) else looked s a)
  unfolding each_byte
  each_byte_lem Inv P f g step zero addr s fits places inv =
      (s.memory_stamp, s.page_cache, refl, inv, refl, λ a. ground arith)
  each_byte_lem Inv P f g step (suc rounds) addr s fits places inv =
      let (pages1, cache1, run1, inv1, size1, holds1) =
        step addr s (places addr (ground arith)) (omega arith) inv in
      let (pages2, cache2, run2, inv2, size2, holds2) =
        each_byte_lem Inv P f g step rounds (bump64 addr) (with_pages s pages1 cache1)
          (omega (arith, fits)) (λ a h. places a (ground (arith, h, fits))) inv1 in
      (
        pages2,
        cache2,
        rw (each_byte, run1, ◌>>=◌) run2,
        inv2,
        size2 ∙ size1,
        λ a. holds2 a ∙ byte_and_rest g rounds addr a (looked s a) (look pages1 a) fits (holds1 a),
      )

  -- The cached page of an instruction is the one of an address.
  pub record IsCached (s : State b) (instr addr : ℕ) : Type 0 where
    pub page : Page Timestamp
    pub pointer : get_elem? s.page_cache instr ≡ some (some (am_page_addr addr))
    pub there : get_node s.memory_stamp addr ≡ some page

  Points-set :
      (pages next : List (ℕ × Page Timestamp)) (cache : List (Option ℕ)) (instr addr : ℕ)
      (p : Page Timestamp)
      → instr < length cache
      → Keeps pages next
      → get_node next addr ≡ some p
      → ((i : ℕ) → i < length cache → (key : ℕ) × Points pages cache i key)
      → (i : ℕ) → i < length (set cache instr (some (am_page_addr addr)))
      → (key : ℕ) × Points next (set cache instr (some (am_page_addr addr))) i key
  Points-set pages next cache instr addr p lt keeps e cached i inside =
      let looks = get_elem?-set cache instr i (some (am_page_addr addr)) lt in
      elim (Bool-cases (i == instr)) [
        | inl at ↦ (am_page_addr addr, (looks ∙ rw at refl, p, e))
        | inr other ↦
            let before =
              subst (λ n. i < n) (length-set cache instr (some (am_page_addr addr))) inside in
            let (key, (pointer, q, found)) = cached i before in
            let (still, there) = keeps key q found in
            (key, (looks ∙ rw other pointer, still, there))
      ]

  module _ (fresh : ℕ → ℕ → Timestamp) where
    -- The page of the address becomes the cached page of the instruction, and no byte changes.
    pub use_page_lem :
        (s : State b) (instr addr : ℕ)
        → IsRunning s
        → instr < length s.page_cache
        → (pages : List (ℕ × Page Timestamp)) × (cache : List (Option ℕ)) × (use_page b fresh instr
              addr s
            ≡ ok (with_pages s pages cache))
          × IsRunning (with_pages s pages cache)
          × IsCached (with_pages s pages cache) instr addr
          × (length cache ≡ length s.page_cache)
          × ((a : ℕ) → look pages a ≡ looked s a)
    unfolding use_page
    use_page_lem s instr addr r lt =
        let (key, (pointer, page, found)) = r.cached instr lt in
        elim (Bool-cases (in_page page addr)) [
          | inl inside ↦
              let same : key ≡ am_page_addr addr =
                sym (r.paged.filed key page found) ∙ sym ((==_iff _ _).0 inside) in
              (
                s.memory_stamp,
                s.page_cache,
                rw
                    (
                      use_page,
                      cached_page_lem s instr key pointer,
                      ◌>>=◌,
                      page_at_lem s key page found,
                      inside,
                    )
                    refl,
                r,
                record {
                  page = page;
                  pointer = pointer ∙ ap (λ k. some (some k)) same;
                  there = ap (λ k. find_page k s.memory_stamp) (sym same) ∙ found;
                },
                refl,
                λ a. refl,
              )
          | inr outside ↦
              let (pages, p, made, v2, keeps, e, at, holds) =
                get_or_create_node_lem fresh s.memory_stamp addr r.paged in
              let cache = set s.page_cache instr (some (am_page_addr addr)) in
              (
                pages,
                cache,
                rw
                    (
                      use_page,
                      cached_page_lem s instr key pointer,
                      ◌>>=◌,
                      page_at_lem s key page found,
                      outside,
                      made,
                    )
                    refl,
                record {
                  started = r.started;
                  paged = v2;
                  cached =
                      Points-set s.memory_stamp pages s.page_cache instr addr p lt keeps e r.cached;
                },
                record {
                  page = p;
                  pointer =
                      get_elem?-set s.page_cache instr instr (some (am_page_addr addr)) lt
                      ∙ ground arith;
                  there = e;
                },
                length-set s.page_cache instr (some (am_page_addr addr)),
                holds,
              )
        ]

  pub Keeps-IsRunning :
      (s : State b) (pages : List (ℕ × Page Timestamp))
      → IsRunning s
      → IsPaged pages
      → Keeps s.memory_stamp pages
      → IsRunning (with_pages s pages s.page_cache)
  Keeps-IsRunning s pages r v keeps = record {
    started = r.started;
    paged = v;
    cached = λ i inside.
        let (key, (pointer, p, found)) = r.cached i inside in
        let (q, there) = keeps key p found in (key, (pointer, q, there));
  }

  -- A loop over the bytes of a region keeps what its body keeps, where it gives a result.
  pub each_byte-keeps :
      (Inv : State b → Type 0) (f : ℕ → State b → Result (State b))
      → ((addr : ℕ) (s t : State b) → addr < 2 ^ 64 → Inv s → f addr s ≡ ok t → Inv t)
      → (rounds addr : ℕ) (s t : State b) → addr < 2 ^ 64
      → Inv s
      → each_byte b f rounds addr s ≡ ok t
      → Inv t
  unfolding each_byte
  each_byte-keeps Inv f keeps zero addr s t lt inv e = subst Inv (ok-inj s t e) inv
  each_byte-keeps Inv f keeps (suc rounds) addr s t lt inv e =
      let (mid, run, rest) = step_inv (f addr s) (each_byte b f rounds (bump64 addr)) t e in
      each_byte-keeps Inv f keeps rounds (bump64 addr) mid t (omega arith)
        (keeps addr s mid lt inv run) rest
