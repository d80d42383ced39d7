-- ===== src/Split/Create/Flow.antt =====
-- The control flow that CreateOneLoop leaves.
use llvm_loop_fission.Base.{
  ℕ, ◌≡◌, refl, ap, ◌∙◌, false, List, [], ◌∷◌, map, Option, none, some, arith, All, Distinct, elem,
  ℕ_discrete,
}
use llvm_loop_fission.Split.Cfg.Views.{Term, map_some, change}
use llvm_loop_fission.Split.Create.Copies.{View, IsCopied}
use llvm_loop_fission.Split.Create.Connect.{IsBranch, set_first, remap_all}
use llvm_loop_fission.Split.Create.Links.{change-at, change-other, remap_all-other, IsLinked}

pub IsCopied-outside :
    (v w : View) (bs ns : List ℕ) (c : ℕ) (s : Term)
    → v c ≡ some s
    → IsCopied v w bs ns
    → elem ℕ_discrete c ns ≡ false
IsCopied-outside v w [] [] c s h copied = refl
IsCopied-outside v w [] (n ∷ ns) c s h copied = absurd copied
IsCopied-outside v w (b ∷ bs) [] c s h copied = absurd copied
IsCopied-outside v w (b ∷ bs) (n ∷ ns) c s h (new, e, copied) = ground (
  arith,
  IsCopied-outside v w bs ns c s h copied,
  λ (same : c ≡ n). ap v same,
  new,
  h,
  ℕ_discrete c n,
)

pub IsBranch-keep : (v w : View) (b : ℕ) → w b ≡ v b → IsBranch v b → IsBranch w b
IsBranch-keep v w b e (s, rest, h) = (s, rest, e ∙ h)

pub IsCopied-IsBranch :
    (v w : View) (bs ns : List ℕ) → All (IsBranch v) bs → IsCopied v w bs ns → All (IsBranch w) ns
IsCopied-IsBranch v w [] [] h copied = tt
IsCopied-IsBranch v w [] (n ∷ ns) h copied = absurd copied
IsCopied-IsBranch v w (b ∷ bs) [] h copied = absurd copied
IsCopied-IsBranch v w (b ∷ bs) (n ∷ ns) ((s, rest, here), h) (new, e, copied) =
    ((s, rest, e ∙ here), IsCopied-IsBranch v w bs ns h copied)

pub remap_all-in :
    (r : ℕ → ℕ) (ns : List ℕ) (v : View)
    → Distinct ℕ_discrete ns
    → All (λ n. remap_all r ns v n ≡ map_some (map r) (v n)) ns
remap_all-in r [] v d = tt
remap_all-in r (n ∷ ns) v (outside, d) = (
  remap_all-other r ns (change n (map r) v) n outside ∙ change-at n (map r) v,
  All-other ns outside (remap_all-in r ns (change n (map r) v) d),
)
  where
    All-other :
        (ms : List ℕ)
        → elem ℕ_discrete n ms ≡ false
        → All
            (λ m. remap_all r ns (change n (map r) v) m ≡ map_some (map r) (change n (map r) v m))
            ms
        → All (λ m. remap_all r ns (change n (map r) v) m ≡ map_some (map r) (v m)) ms
    All-other [] o h = tt
    All-other (m ∷ ms) o (here, h) = (
      here
          ∙ ap (map_some (map r))
              (change-other n m (map r) v (λ e. ground (arith, o, e, ℕ_discrete n m))),
      All-other ms (ground (arith, o)) h,
    )

-- The block after a block: the next one, and the first one after the last.
abbrev pub next_of : ℕ → List ℕ → ℕ
next_of first [] = first
next_of first (m ∷ ns) = m

-- The new blocks: of each, the successors of the old block renamed, the first one the next new block.
abbrev pub IsLoopCopy : (ℕ → ℕ) → ℕ → View → View → List ℕ → List ℕ → Type 0
IsLoopCopy r first v w [] [] = Unit
IsLoopCopy r first v w [] (n ∷ ns) = ⊥
IsLoopCopy r first v w (b ∷ bs) [] = ⊥
IsLoopCopy r first v w (b ∷ bs) (n ∷ ns) =
    (v n ≡ none)
    × (w n ≡ map_some (λ s. set_first (next_of first ns) (map r s)) (v b))
    × IsLoopCopy r first v w bs ns

map_some_twice :
    (t u : List ℕ → List ℕ) (o : Option Term)
    → map_some t (map_some u o) ≡ map_some (λ s. t (u s)) o
map_some_twice t u none = refl
map_some_twice t u (some s) = refl

pub IsLinked-IsLoopCopy :
    (r : ℕ → ℕ) (first : ℕ) (v w u x : View) (b : ℕ) (bs : List ℕ) (n : ℕ) (ns : List ℕ)
    → IsCopied v w (b ∷ bs) (n ∷ ns)
    → All (λ m. u m ≡ map_some (map r) (w m)) (n ∷ ns)
    → IsLinked first u x n ns
    → IsLoopCopy r first v x (b ∷ bs) (n ∷ ns)
IsLinked-IsLoopCopy r first v w u x b [] n [] (new, e, copied) (here, h) linked = (
  new,
  linked
      ∙ ap (map_some (set_first first)) (here ∙ ap (map_some (map r)) e)
      ∙ map_some_twice (set_first first) (map r) (v b),
  tt,
)
IsLinked-IsLoopCopy r first v w u x b [] n (m ∷ ns) (new, e, copied) h linked = absurd copied
IsLinked-IsLoopCopy r first v w u x b (c ∷ bs) n [] (new, e, copied) h linked = absurd copied
IsLinked-IsLoopCopy r first v w u x b (c ∷ bs) n (m ∷ ns) (new, e, copied) (here, h) (now, linked) =
    (
      new,
      now
          ∙ ap (map_some (set_first m)) (here ∙ ap (map_some (map r)) e)
          ∙ map_some_twice (set_first m) (map r) (v b),
      IsLinked-IsLoopCopy r first v w u x c bs m ns copied h linked,
    )
