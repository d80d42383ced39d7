-- ===== src/Memory/Map/Look.antt =====
-- What the shadow memory holds for an address, and the pages behind it.
use llvm_loop_fission.Base.{
  ℕ, ◌≡◌, refl, ap, sym, ◌∙◌, Bool, true, false, List, [], ◌∷◌, Option, none, some, Option-cases,
  arith, ◌==◌, if◌then◌else◌, Result, ok, ◌>>=◌, Bool-cases, inl, inr, ==_iff, if_true, if_false,
}
use llvm_loop_fission.Memory.Page.{Page, am_page_addr, am_offset}
use llvm_loop_fission.Memory.Page.Status.{Status, unknown, status, Changed, new_page_lem}
use llvm_loop_fission.Memory.Map.{find_page, put_page, get_node, change_page, get_or_create_node}

module _ {T : Type 0} where
  pub find_page-put_page :
      (j key : ℕ) (page : Page T) (pages : List (ℕ × Page T))
      → find_page j (put_page key page pages) ≡ (if j == key then some page else find_page j pages)
  unfolding find_page put_page
  find_page-put_page j key page [] = ground arith
  find_page-put_page j key page ((k, p) ∷ pages) =
      ground (arith, find_page-put_page j key page pages)

  -- Each page is filed under its address, which is the address of a page.
  pub record IsPaged (pages : List (ℕ × Page T)) : Type 0 where
    pub filed : (key : ℕ) (p : Page T) → find_page key pages ≡ some p → p.page_addr ≡ key

  abbrev pub look_in : Option (Page T) → ℕ → Status T
  look_in none offset = unknown
  look_in (some p) offset = status p offset

  -- What the shadow memory holds for an address.
  abbrev pub look : List (ℕ × Page T) → ℕ → Status T
  look pages addr = look_in (get_node pages addr) (am_offset addr)

  -- Every page that was there still is.
  abbrev pub Keeps : List (ℕ × Page T) → List (ℕ × Page T) → Type 0
  Keeps pages next =
      (key : ℕ) (p : Page T)
      → find_page key pages ≡ some p
      → (q : Page T) × (find_page key next ≡ some q)

  -- After an operation on the pages: they are filed right, none is gone, and what each address holds.
  abbrev pub Holds : List (ℕ × Page T) → Result (List (ℕ × Page T)) → (ℕ → Status T) → Type 0
  Holds pages run holds =
      (next : List (ℕ × Page T)) × (run ≡ ok next)
      × IsPaged next
      × Keeps pages next
      × ((a : ℕ) → look next a ≡ holds a)

  put_page-Keeps :
      (key : ℕ) (page : Page T) (pages : List (ℕ × Page T)) → Keeps pages (put_page key page pages)
  put_page-Keeps key page pages j p found = elim (Bool-cases (j == key)) [
    | inl at ↦ (page, find_page-put_page j key page pages ∙ rw at refl)
    | inr other ↦ (p, find_page-put_page j key page pages ∙ rw other found)
  ]

  pub Keeps-trans :
      (pages mid next : List (ℕ × Page T)) → Keeps pages mid → Keeps mid next → Keeps pages next
  Keeps-trans pages mid next first second key p found =
      let (q, still) = first key p found in second key q still

  put_page-IsPaged :
      (key : ℕ) (page : Page T) (pages : List (ℕ × Page T))
      → IsPaged pages
      → page.page_addr ≡ key
      → IsPaged (put_page key page pages)
  put_page-IsPaged key page pages v e = record {
    filed = λ j p found. elim (Bool-cases (j == key)) [
      | inl at ↦ ground (arith, find_page-put_page j key page pages, found, at, e)
      | inr other ↦ v.filed j p (ground (arith, find_page-put_page j key page pages, found, other))
    ];
  }

  abbrev addr_of : ℕ → Option (Page T) → ℕ
  addr_of key none = key
  addr_of key (some p) = p.page_addr

  -- Memory with one page, and with none.
  pub no_page-IsPaged : IsPaged []
  unfolding find_page
  no_page-IsPaged = record { filed = λ key p e. absurd (cc e) }

  pub one_page-IsPaged : (page : Page T) → IsPaged ((page.page_addr, page) ∷ [])
  unfolding find_page
  one_page-IsPaged page = record {
    filed = λ key p e. elim (Bool-cases (page.page_addr == key)) [
      | inl at ↦ ap (addr_of key) (sym e ∙ if_true _ _ _ at) ∙ (==_iff page.page_addr key).0 at
      | inr other ↦ absurd (cc (sym e ∙ if_false _ _ _ other))
    ];
  }

  pub find_page-one :
      (page : Page T) → find_page page.page_addr ((page.page_addr, page) ∷ []) ≡ some page
  unfolding find_page
  find_page-one page = ground arith

  pub find_page-only :
      (key j : ℕ) (page p : Page T) → find_page j ((key, page) ∷ []) ≡ some p → page ≡ p
  unfolding find_page
  find_page-only key j page p e = elim (Bool-cases (key == j)) [
    | inl at ↦ ap (λ o. elim o [ none ↦ page | some q ↦ q ]) (sym (if_true _ _ _ at) ∙ e)
    | inr other ↦ absurd (cc (sym e ∙ if_false _ _ _ other))
  ]

  look_in_if :
      (b : Bool) (page : Page T) (o : Option (Page T)) (offset : ℕ)
      → look_in (if b then some page else o) offset
        ≡ (if b then status page offset else look_in o offset)
  look_in_if true page o offset = refl
  look_in_if false page o offset = refl

  still_unknown :
      (key a : ℕ) (p : Page T) (pages : List (ℕ × Page T))
      → find_page key pages ≡ none
      → ((offset : ℕ) → status p offset ≡ unknown)
      → (if am_page_addr a == key then status p (am_offset a) else look pages a) ≡ look pages a
  still_unknown key a p pages e empty = elim (Bool-cases (am_page_addr a == key)) [
    | inl at ↦
        let same : am_page_addr a ≡ key = (==_iff (am_page_addr a) key).0 at in
        rw at (
          empty (am_offset a)
          ∙ sym (ap (λ o. look_in o (am_offset a)) (ap (λ k. find_page k pages) same ∙ e)))
    | inr other ↦ rw other refl
  ]

  look-put_page :
      (key a : ℕ) (page : Page T) (pages : List (ℕ × Page T))
      → look (put_page key page pages) a
        ≡ (if am_page_addr a == key then status page (am_offset a) else look pages a)
  look-put_page key a page pages =
      ap (λ o. look_in o (am_offset a)) (find_page-put_page (am_page_addr a) key page pages)
      ∙ look_in_if (am_page_addr a == key) page (get_node pages a) (am_offset a)

  pub get_or_create_node_lem :
      (fresh : ℕ → ℕ → T) (pages : List (ℕ × Page T)) (addr : ℕ)
      → IsPaged pages
      → (next : List (ℕ × Page T)) × (p : Page T) × (get_or_create_node fresh pages addr ≡ ok next)
        × IsPaged next
        × Keeps pages next
        × (get_node next addr ≡ some p)
        × (p.page_addr ≡ am_page_addr addr)
        × ((a : ℕ) → look next a ≡ look pages a)
  unfolding get_or_create_node
  get_or_create_node_lem fresh pages addr v = elim (Option-cases (get_node pages addr)) [
    | inr (p, e) ↦ (
      pages,
      p,
      rw (get_or_create_node, e) refl,
      v,
      λ k q found. (q, found),
      e,
      v.filed (am_page_addr addr) p e,
      λ a. refl,
    )
    | inl e ↦
        let key = am_page_addr addr in
        let (p, made, at, empty) = new_page_lem (fresh key) addr in
        (
          put_page key p pages,
          p,
          rw (get_or_create_node, e, made, ◌>>=◌) refl,
          put_page-IsPaged key p pages v at,
          put_page-Keeps key p pages,
          find_page-put_page key key p pages ∙ ground arith,
          at,
          λ a. look-put_page key a p pages ∙ still_unknown key a p pages e empty,
        )
  ]

  pub change_page_lem :
      (key : ℕ) (f : Page T → Result (Page T)) (pages : List (ℕ × Page T)) (p : Page T)
      (holds : ℕ → Status T)
      → IsPaged pages
      → find_page key pages ≡ some p
      → Changed p (f p) holds
      → Holds pages
          (change_page key f pages)
          (λ a. if am_page_addr a == key then holds (am_offset a) else look pages a)
  unfolding change_page
  change_page_lem key f pages p holds v e (next, run, same, now) = (
    put_page key next pages,
    rw (change_page, e, run, ◌>>=◌) refl,
    put_page-IsPaged key next pages v (same ∙ v.filed key p e),
    put_page-Keeps key next pages,
    λ a.
        look-put_page key a next pages
        ∙ ap (λ s. if am_page_addr a == key then s else look pages a) (now (am_offset a)),
  )
