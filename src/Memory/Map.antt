-- ===== src/Memory/Map.antt =====
-- MemoryMap and MemoryNodeMap of tools/utils/MemoryMap.hxx: pages by their addresses. A pointer to a
-- page is its address, since the map owns the pages and no page leaves it; `fresh` is what `new`
-- leaves in the values of a page. CHECK_ADDR_RANGE is not defined.
pub mod Look
pub mod Laws
use llvm_loop_fission.Base.{
  ℕ, Bool, true, false, List, [], ◌∷◌, Option, none, some, Result, ok, undefined, ◌>>=◌,
  if◌then◌else◌, ◌==◌, ◌%◌, ◌^◌,
}
use llvm_loop_fission.Memory.Validity.{Validity}
use llvm_loop_fission.Memory.Page
use llvm_loop_fission.Memory.Page.{Page, am_page_addr, new_page}

module _ {T : Type 0} where
  pub find_page : ℕ → List (ℕ × Page T) → Option (Page T)
  find_page key [] = none
  find_page key ((k, p) ∷ pages) = if k == key then some p else find_page key pages

  -- `this->pageMap[paddr] = page`, and a change of a page in place.
  pub put_page : ℕ → Page T → List (ℕ × Page T) → List (ℕ × Page T)
  put_page key page [] = (key, page) ∷ []
  put_page key page ((k, p) ∷ pages) =
      if k == key then (key, page) ∷ pages else (k, p) ∷ put_page key page pages

  -- MemoryMap::getNode
  abbrev pub get_node : List (ℕ × Page T) → ℕ → Option (Page T)
  get_node pages addr = find_page (am_page_addr addr) pages

  -- A call of an operation through the pointer to a page.
  pub change_page : ℕ → (Page T → Result (Page T)) → List (ℕ × Page T) → Result (List (ℕ × Page T))
  change_page key f pages = elim (find_page key pages) [
    | none ↦ undefined
    | some p ↦ do next ← f p; ok (put_page key next pages)
  ]

  module _ (fresh : ℕ → ℕ → T) where
    -- MemoryMap::get_or_create_node; the pointer that it returns is `am_page_addr addr`.
    pub get_or_create_node : List (ℕ × Page T) → ℕ → Result (List (ℕ × Page T))
    get_or_create_node pages addr = elim (get_node pages addr) [
      | some item ↦ ok pages
      | none ↦ do
        item ← new_page (fresh (am_page_addr addr)) (am_page_addr addr)
        ok (put_page (am_page_addr addr) item pages)
    ]

    pub set_item : List (ℕ × Page T) → ℕ → T → Result (List (ℕ × Page T))
    set_item pages addr item = do
      created ← get_or_create_node pages addr
      change_page (am_page_addr addr) (λ node. Page.set_item node addr item) created

    -- The template arguments are sizes; they are passed on as uint8_t.
    pub set_invalid : ℕ → List (ℕ × Page T) → ℕ → Result (List (ℕ × Page T))
    set_invalid size pages addr = do
      created ← get_or_create_node pages addr
      change_page (am_page_addr addr) (λ node. Page.set_invalid node addr size) created

    pub set_valid : ℕ → List (ℕ × Page T) → ℕ → Result (List (ℕ × Page T))
    set_valid size pages addr = do
      created ← get_or_create_node pages addr
      change_page (am_page_addr addr) (λ node. Page.set_valid node addr (size % 2 ^ 8)) created

  pub get_item : List (ℕ × Page T) → ℕ → Result (Option T)
  get_item pages addr = elim (get_node pages addr) [
    | none ↦ ok none
    | some node ↦ Page.get_item node addr
  ]

  pub is_valid : ℕ → List (ℕ × Page T) → ℕ → Result Bool
  is_valid size pages addr = elim (get_node pages addr) [
    | none ↦ ok false
    | some node ↦ Page.is_valid node addr (size % 2 ^ 8)
  ]

  pub get_aligned_validity : ℕ → List (ℕ × Page T) → ℕ → Result Validity
  get_aligned_validity size pages addr = elim (get_node pages addr) [
    | none ↦ ok Validity.none
    | some node ↦ Page.num_valid node addr (size % 2 ^ 8)
  ]
