-- ===== src/Memory/Map/Laws.antt =====
-- The operations of MemoryMap and MemoryNodeMap on what the shadow memory holds.
use llvm_loop_fission.Base.{
  ℕ, ◌+◌, ◌^◌, ◌≤◌, ◌<◌, ◌≡◌, refl, ap, sym, ◌∙◌, Bool, true, false, ◌&&◌, List, none, some,
  Option-cases, arith, ◌==◌, ==_iff, if◌then◌else◌, ok, ◌>>=◌, inl, inr,
}
use llvm_loop_fission.Memory.Bits.Masks.{in_range}
use llvm_loop_fission.Memory.Page
use llvm_loop_fission.Memory.Page.{Page, am_page_addr, am_offset}
use llvm_loop_fission.Memory.Page.Status.{Status, valid, status, invalidated, item_of, Within}
use llvm_loop_fission.Memory.Page.Laws.{get_item_lem, set_item_lem, set_invalid_lem}
use llvm_loop_fission.Memory.Map.{find_page, get_node, change_page, set_item, get_item, set_invalid}
use llvm_loop_fission.Memory.Map.Look.{
  IsPaged, Keeps-trans, look, look_in, Holds, get_or_create_node_lem, change_page_lem,
}

-- Some bytes at an address that lie in one page.
pub record IsSpan (addr size : ℕ) : Type 0 where
  pub ends : am_offset addr + size ≤ 4096
  pub some_bytes : 0 < size
  pub bounded : addr < 2 ^ 64

pub one-IsSpan : (addr : ℕ) → addr < 2 ^ 64 → IsSpan addr 1
one-IsSpan addr h = record { ends = omega arith; some_bytes = omega arith; bounded = h }

-- An address is one of the bytes if its page and its offset say so.
same_place :
    (addr size a : ℕ)
    → IsSpan addr size
    → (am_page_addr a == am_page_addr addr && in_range size (am_offset addr) (am_offset a))
      ≡ in_range size addr a
same_place addr size a s = ground arith

same_address :
    (a addr : ℕ)
    → (am_page_addr a == am_page_addr addr && am_offset a == am_offset addr) ≡ (a == addr)
same_address a addr = ground arith

if_both :
    {A : Type 0} (b c : Bool) (x y z : A)
    → (b ≡ true → y ≡ z)
    → (if b then (if c then x else y) else z) ≡ (if b && c then x else z)
if_both true true x y z h = refl
if_both true false x y z h = h refl
if_both false c x y z h = refl

module _ {T : Type 0} where
  within :
      (p : Page T) (addr size : ℕ)
      → IsSpan addr size
      → p.page_addr ≡ am_page_addr addr
      → Within p addr size
  within p addr size s e = record {
    page = sym e;
    ends = s.ends;
    some_bytes = s.some_bytes;
    bounded = s.bounded;
  }

  at_page :
      (addr a : ℕ) (p : Page T) (pages : List (ℕ × Page T))
      → get_node pages addr ≡ some p
      → (am_page_addr a == am_page_addr addr) ≡ true
      → status p (am_offset a) ≡ look pages a
  at_page addr a p pages e at =
      let same : am_page_addr a ≡ am_page_addr addr = (==_iff _ _).0 at in
      sym (ap (λ o. look_in o (am_offset a)) (ap (λ k. find_page k pages) same ∙ e))

  invalidated_both :
      (b c : Bool) (here now : Status T)
      → (b ≡ true → here ≡ now)
      → (if b then (if c then invalidated here else here) else now)
        ≡ (if b && c then invalidated now else now)
  invalidated_both true c here now h = rw (h refl) refl
  invalidated_both false c here now h = refl

  -- getItem on the page of the address.
  pub get_item_at :
      (pages : List (ℕ × Page T)) (p : Page T) (addr : ℕ)
      → IsPaged pages
      → get_node pages addr ≡ some p
      → addr < 2 ^ 64
      → Page.get_item p addr ≡ ok (item_of (look pages addr))
  get_item_at pages p addr v e bounded =
      get_item_lem p addr
        (within p addr 1 (one-IsSpan addr bounded) (v.filed (am_page_addr addr) p e))
      ∙ ap (λ o. ok (item_of (look_in o (am_offset addr)))) (sym e)

  -- For a shadow memory whose pages are filed right and an address of 64 bits: getItem does not abort,
  -- and gives the item of a valid byte and NULL for any other.
  pub get_item-look :
      (pages : List (ℕ × Page T)) (addr : ℕ)
      → IsPaged pages
      → addr < 2 ^ 64
      → get_item pages addr ≡ ok (item_of (look pages addr))
  unfolding get_item
  get_item-look pages addr v bounded = elim (Option-cases (get_node pages addr)) [
    | inl e ↦ rw (get_item, e) refl
    | inr (p, e) ↦
        ap (λ o. elim o [ none ↦ ok none | some node ↦ Page.get_item node addr ]) e
        ∙ get_item_at pages p addr v e bounded
  ]

  -- setItem on the page of the address.
  pub set_item_at :
      (pages : List (ℕ × Page T)) (p : Page T) (addr : ℕ) (item : T)
      → IsPaged pages
      → get_node pages addr ≡ some p
      → addr < 2 ^ 64
      → Holds pages
          (change_page (am_page_addr addr) (λ node. Page.set_item node addr item) pages)
          (λ a. if a == addr then valid item else look pages a)
  set_item_at pages p addr item v e bounded =
      let at = v.filed (am_page_addr addr) p e in
      let changed = set_item_lem p addr item (within p addr 1 (one-IsSpan addr bounded) at) in
      let (next, run, v2, keeps, holds) =
        change_page_lem (am_page_addr addr) (λ node. Page.set_item node addr item) pages p _ v e
          changed in
      (
        next,
        run,
        v2,
        keeps,
        λ a.
            holds a
            ∙ (if_both _ (am_offset a == am_offset addr) (valid item) _ _ (at_page addr a p pages e)
                ∙ ap (λ b. if b then valid item else look pages a) (same_address a addr)),
      )

  module _ (fresh : ℕ → ℕ → T) where
    -- For a shadow memory whose pages are filed right and an address of 64 bits: setItem does not
    -- abort, makes that byte valid with the item, leaves what every other address holds, keeps every
    -- page, and keeps the pages filed right.
    pub set_item-look :
        (pages : List (ℕ × Page T)) (addr : ℕ) (item : T)
        → IsPaged pages
        → addr < 2 ^ 64
        → Holds pages
            (set_item fresh pages addr item)
            (λ a. if a == addr then valid item else look pages a)
    unfolding set_item
    set_item-look pages addr item v bounded =
        let (created, p, made, v2, kept, e, at, same) = get_or_create_node_lem fresh pages addr v in
        let (next, run, v3, keeps, holds) = set_item_at created p addr item v2 e bounded in
        (
          next,
          rw (set_item, made, ◌>>=◌) run,
          v3,
          Keeps-trans pages created next kept keeps,
          λ a. holds a ∙ ap (λ s. if a == addr then valid item else s) (same a),
        )

    -- For a shadow memory whose pages are filed right and less than 256 bytes that lie in one page:
    -- set_invalid does not abort, makes each of these bytes unknown where it was valid and invalid otherwise, leaves
    -- what every other address holds, keeps every page, and keeps the pages filed right.
    pub set_invalid-look :
        (size : ℕ) (pages : List (ℕ × Page T)) (addr : ℕ)
        → IsPaged pages
        → IsSpan addr size
        → size < 2 ^ 8
        → Holds pages
            (set_invalid fresh size pages addr)
            (λ a. if in_range size addr a then invalidated (look pages a) else look pages a)
    unfolding set_invalid
    set_invalid-look size pages addr v span small =
        let (created, p, made, v2, kept, e, at, same) = get_or_create_node_lem fresh pages addr v in
        let changed = set_invalid_lem p addr size (within p addr size span at) small in
        let (next, run, v3, keeps, holds) =
          change_page_lem (am_page_addr addr) (λ node. Page.set_invalid node addr size) created p _
            v2 e changed in
        (
          next,
          rw (set_invalid, made, ◌>>=◌) run,
          v3,
          Keeps-trans pages created next kept keeps,
          λ a.
              holds a
              ∙ (invalidated_both _ _ _ _ (at_page addr a p created e)
                  ∙ (ap (λ b. if b then invalidated (look created a) else look created a)
                        (same_place addr size a span)
                      ∙ ap (λ s. if in_range size addr a then invalidated s else s) (same a))),
        )
