-- ===== src/Split/Create/Straight.antt =====
-- CreateOneLoop on a loop whose blocks follow one another by their first successors.
use llvm_loop_fission.Base.{
  ℕ, ◌≡◌, ◌≢◌, refl, ap, sym, ◌∙◌, true, false, List, [], ◌∷◌, map, Option, none, some, ok, arith,
  All, Distinct, elem, ℕ_discrete,
}
use llvm_loop_fission.Dg.{put}
use llvm_loop_fission.Split.Cfg.{Func, mapped, replace}
use llvm_loop_fission.Split.Cfg.Views.{Term, view, map_some}
use llvm_loop_fission.Split.Create.{Llvm, create_one_loop}
use llvm_loop_fission.Split.Create.Copies.{IsCloning, View, IsThere, put_all}
use llvm_loop_fission.Split.Create.Connect.{IsBranch}
use llvm_loop_fission.Split.Create.Flow.{next_of, IsLoopCopy}
use llvm_loop_fission.Split.Create.Loop.{create_one_loop_lem}

-- Each block ends with a branch whose first successor is the next block, the last one's the header.
abbrev pub IsStraight : ℕ → View → List ℕ → Type 0
IsStraight first v [] = Unit
IsStraight first v (b ∷ bs) =
    ((rest : List ℕ) × (v b ≡ some (true, next_of first bs ∷ rest))) × IsStraight first v bs

pub IsStraight-IsBranch :
    (first : ℕ) (v : View) (bs : List ℕ) → IsStraight first v bs → All (IsBranch v) bs
IsStraight-IsBranch first v [] h = tt
IsStraight-IsBranch first v (b ∷ bs) ((rest, here), h) =
    ((next_of first bs, rest, here), IsStraight-IsBranch first v bs h)

-- The new blocks are new, and each has the successors of its old block, renamed.
abbrev pub IsRenamed : (ℕ → ℕ) → View → View → List ℕ → List ℕ → Type 0
IsRenamed r v w [] [] = Unit
IsRenamed r v w [] (n ∷ ns) = ⊥
IsRenamed r v w (b ∷ bs) [] = ⊥
IsRenamed r v w (b ∷ bs) (n ∷ ns) =
    (v n ≡ none) × (r b ≡ n) × (w n ≡ map_some (map r) (v b)) × IsRenamed r v w bs ns

pub put_all-other :
    (m : ℕ → Option ℕ) (bs ns : List ℕ) (c : ℕ)
    → elem ℕ_discrete c bs ≡ false
    → put_all m bs ns c ≡ m c
put_all-other m [] ns c h = refl
put_all-other m (b ∷ bs) [] c h = refl
put_all-other m (b ∷ bs) (n ∷ ns) c h =
    put_all-other (put m b n) bs ns c (ground (arith, h)) ∙ ground (arith, h, ℕ_discrete c b)

pub mapped_found : (m : ℕ → Option ℕ) (b n : ℕ) → m b ≡ some n → mapped m b ≡ n
mapped_found m b n h = rw (mapped, h) refl

pub mapped_missing : (m : ℕ → Option ℕ) (b : ℕ) → m b ≡ none → mapped m b ≡ b
mapped_missing m b h = rw (mapped, h) refl

pub put_all-head :
    (m : ℕ → Option ℕ) (b n : ℕ) (bs ns : List ℕ)
    → elem ℕ_discrete b bs ≡ false
    → mapped (put_all m (b ∷ bs) (n ∷ ns)) b ≡ n
put_all-head m b n bs ns h =
    let found : put_all m (b ∷ bs) (n ∷ ns) b ≡ some n =
      put_all-other (put m b n) bs ns b h ∙ ground arith in
    mapped_found (put_all m (b ∷ bs) (n ∷ ns)) b n found

-- Where the copy goes on is the renamed place where the loop goes on.
IsLoopCopy-IsRenamed :
    (m : ℕ → Option ℕ) (first n : ℕ) (v w : View) (bs ns : List ℕ)
    → Distinct ℕ_discrete bs
    → IsStraight first v bs
    → mapped (put_all m bs ns) first ≡ n
    → IsLoopCopy (mapped (put_all m bs ns)) n v w bs ns
    → IsRenamed (mapped (put_all m bs ns)) v w bs ns
IsLoopCopy-IsRenamed m first n v w [] [] d straight start copy = tt
IsLoopCopy-IsRenamed m first n v w [] (k ∷ ns) d straight start copy = absurd copy
IsLoopCopy-IsRenamed m first n v w (b ∷ bs) [] d straight start copy = absurd copy
IsLoopCopy-IsRenamed m first n v w (b ∷ []) (k ∷ []) d ((rest, here), _) start (new, e, copy) = (
  new,
  put_all-head m b k [] [] refl,
  e
      ∙ rw (here)
          (ap (λ s. some (true, s ∷ map (mapped (put_all m (b ∷ []) (k ∷ []))) rest)) (sym start)),
  tt,
)
IsLoopCopy-IsRenamed m first n v w (b ∷ []) (k ∷ l ∷ ns) d straight start (new, e, copy) =
    absurd copy
IsLoopCopy-IsRenamed m first n v w (b ∷ c ∷ bs) (k ∷ []) d straight start (new, e, copy) =
    absurd copy
IsLoopCopy-IsRenamed m first n v w (b ∷ c ∷ bs) (k ∷ l ∷ ns) (out, d) ((rest, here), straight) start
      (new, e, copy) =
    let r = mapped (put_all m (b ∷ c ∷ bs) (k ∷ l ∷ ns)) in
    let next : r c ≡ l = put_all-head (put m b k) c l bs ns d.0 in
    (
      new,
      put_all-head m b k (c ∷ bs) (l ∷ ns) out,
      e ∙ rw (here) (ap (λ s. some (true, s ∷ map r rest)) (sym next)),
      IsLoopCopy-IsRenamed (put m b k) first n v w (c ∷ bs) (l ∷ ns) d straight start copy,
    )

-- For a CloneBasicBlock that gives a new block with the same instructions, and a loop of different
-- blocks that follow one another by their first successors, with one exit block: CreateOneLoop
-- returns; the header goes to the first new block where it went to the exit block, and every other
-- block that was there keeps its successors; and there is a renaming that sends the blocks of the
-- loop to the new ones, in their order, and every other block to itself, such that each new block
-- was not there before and has the successors of its old block, renamed.
pub create_one_loop-IsRenamed :
    (llvm : Llvm)
    → IsCloning llvm
    → (header : ℕ) (body : List ℕ) (exit : ℕ) (f : Func) (inst_map : ℕ → Option ℕ)
    → (llvm.exit_block f (header ∷ body) ≡ some exit)
    → IsThere (view f) exit
    → Distinct ℕ_discrete (header ∷ body)
    → IsStraight header (view f) (header ∷ body)
    → (f' : Func) × (n : ℕ) × (ns : List ℕ) × (new_map : ℕ → Option ℕ) × (r : ℕ → ℕ)
      × (create_one_loop llvm (header ∷ body) f inst_map ≡ ok (f', n ∷ ns, new_map))
      × (view f' header ≡ map_some (replace exit n) (view f header))
      × ((c : ℕ) (s : Term) → c ≢ header → view f c ≡ some s → view f' c ≡ some s)
      × ((c : ℕ) → elem ℕ_discrete c (header ∷ body) ≡ false → r c ≡ c)
      × IsRenamed r (view f) (view f') (header ∷ body) (n ∷ ns)
create_one_loop-IsRenamed llvm cloning header body exit f inst_map leaves there d straight =
    let (f', n, ns, new_map, run, split) =
      create_one_loop_lem llvm cloning header body exit f inst_map
        (leaves, IsStraight-IsBranch header (view f) (header ∷ body) straight, there) in
    let m = put_all (λ _. none) (header ∷ body) (n ∷ ns) in
    (
      f',
      n,
      ns,
      new_map,
      mapped m,
      run,
      split.at_header,
      split.keeps,
      λ c o. mapped_missing m c (put_all-other (λ _. none) (header ∷ body) (n ∷ ns) c o),
      IsLoopCopy-IsRenamed (λ _. none) header n (view f) (view f') (header ∷ body) (n ∷ ns) d
          straight (put_all-head (λ _. none) header n body ns d.0) split.copy,
    )
