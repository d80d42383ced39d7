-- ===== src/Split/Create/Loop.antt =====
-- CreateOneLoop as a whole: the copy of a loop between the loop and its exit.
use llvm_loop_fission.Base.{
  ℕ, ◌≡◌, ◌≢◌, ap, sym, subst, ◌∙◌, true, false, List, [], ◌∷◌, Option, none, some, ok, arith, All,
  Distinct, elem, ℕ_discrete, step_ok,
}
use llvm_loop_fission.Split.Cfg.{Func, mapped, replace}
use llvm_loop_fission.Split.Cfg.Views.{Term, view, map_some, change}
use llvm_loop_fission.Split.Create.{Llvm, Copy, copy_blocks, connect, create_one_loop, last_of}
use llvm_loop_fission.Split.Create.Copies.{
  IsCloning, View, IsThere, IsCopied, put_all, Copied, copy_blocks_lem,
}
use llvm_loop_fission.Split.Create.Connect.{IsBranch, set_first, remap_all, link_all}
use llvm_loop_fission.Split.Create.Links.{
  change-at, change-other, remap_all-other, link_all-other, last_of-other, link_all-IsLinked,
}
use llvm_loop_fission.Split.Create.Ready.{IsReady, All-IsThere, connected, connect_lem}
use llvm_loop_fission.Split.Create.Flow.{
  IsCopied-outside, IsCopied-IsBranch, remap_all-in, IsLoopCopy, IsLinked-IsLoopCopy,
}

-- A loop whose blocks all end with a branch and go, in the end, to one exit block.
abbrev pub IsLoop : Llvm → Func → ℕ → List ℕ → ℕ → Type 0
IsLoop llvm f header body exit =
    (llvm.exit_block f (header ∷ body) ≡ some exit)
    × All (IsBranch (view f)) (header ∷ body)
    × IsThere (view f) exit

-- What the copy leaves: the loop's header goes to the copy where it left the loop, every other block
-- there was has its successors, and the new blocks have those of the loop, renamed.
pub record IsSplit (v w : View) (header exit : ℕ) (body : List ℕ) (n : ℕ) (ns : List ℕ)
    : Type 0 where
  pub at_header : w header ≡ map_some (replace exit n) (v header)
  pub keeps : (c : ℕ) (s : Term) → c ≢ header → v c ≡ some s → w c ≡ some s
  pub copy :
      IsLoopCopy
        (mapped (put_all (λ _. none) (header ∷ body) (n ∷ ns)))
        n
        v
        w
        (header ∷ body)
        (n ∷ ns)

module _ (v w : View) (header exit : ℕ) (body : List ℕ) (n : ℕ) (ns : List ℕ) (r : ℕ → ℕ)
    (keeps : (c : ℕ) (s : Term) → v c ≡ some s → w c ≡ some s)
    (copies : IsCopied v w (header ∷ body) (n ∷ ns)) (apart : Distinct ℕ_discrete (n ∷ ns)) where
  -- The successors before the header's exit is moved.
  abbrev linked : View
  linked = link_all n ns (change (last_of n ns) (set_first n) (remap_all r (n ∷ ns) w))

  before_header : (c : ℕ) (s : Term) → v c ≡ some s → linked c ≡ some s
  before_header c s h =
      let outside = IsCopied-outside v w (header ∷ body) (n ∷ ns) c s h copies in
      link_all-other n ns _ c outside
      ∙ change-other (last_of n ns) c (set_first n) (remap_all r (n ∷ ns) w)
          (last_of-other c n ns outside)
      ∙ remap_all-other r (n ∷ ns) w c outside
      ∙ keeps c s h

  connected-keeps :
      (c : ℕ) (s : Term) → c ≢ header → v c ≡ some s → connected header exit n ns r w c ≡ some s
  connected-keeps c s other h =
      change-other header c (replace exit n) linked other ∙ before_header c s h

  connected-header :
      (s : Term)
      → v header ≡ some s
      → connected header exit n ns r w header ≡ map_some (replace exit n) (v header)
  connected-header s h =
      change-at header (replace exit n) linked
      ∙ ap (map_some (replace exit n)) (before_header header s h ∙ sym h)

  IsLoopCopy-change :
      (x : View) (bs ms : List ℕ)
      → elem ℕ_discrete header ms ≡ false
      → IsLoopCopy r n v x bs ms
      → IsLoopCopy r n v (change header (replace exit n) x) bs ms
  IsLoopCopy-change x [] [] o h = tt
  IsLoopCopy-change x [] (m ∷ ms) o h = absurd h
  IsLoopCopy-change x (b ∷ bs) [] o h = absurd h
  IsLoopCopy-change x (b ∷ bs) (m ∷ ms) o (new, e, h) = (
    new,
    change-other header m (replace exit n) x (λ same. ground (arith, o, same, ℕ_discrete header m))
        ∙ e,
    IsLoopCopy-change x bs ms (ground (arith, o)) h,
  )

  connected-copy :
      (s : Term)
      → v header ≡ some s
      → IsLoopCopy r n v (connected header exit n ns r w) (header ∷ body) (n ∷ ns)
  connected-copy s h =
      IsLoopCopy-change linked (header ∷ body) (n ∷ ns)
        (IsCopied-outside v w (header ∷ body) (n ∷ ns) header s h copies)
        (IsLinked-IsLoopCopy r n v w (remap_all r (n ∷ ns) w) linked header body n ns copies
          (remap_all-in r (n ∷ ns) w apart)
          (link_all-IsLinked n n ns (remap_all r (n ∷ ns) w) apart))

abbrev pub first_copy : Func → (ℕ → Option ℕ) → Copy
first_copy f inst_map = record {
  func = f;
  new_body = [];
  values = λ _. none;
  blocks = λ _. none;
  inst_map = inst_map;
}

-- The copied blocks connected.
pub connect-IsSplit :
    (f : Func) (inst_map : ℕ → Option ℕ) (preheader : Option ℕ) (header : ℕ) (body : List ℕ)
    (exit : ℕ) (out : Copy) (names : List ℕ)
    → All (IsBranch (view f)) (header ∷ body)
    → IsThere (view f) exit
    → Copied (first_copy f inst_map) out (header ∷ body) names
    → (f' : Func) × (n : ℕ) × (ns : List ℕ) × (out.new_body ≡ n ∷ ns)
      × (connect header out.new_body preheader (some exit) out ≡ ok f')
      × IsSplit (view f) (view f') header exit body n ns
connect-IsSplit f inst_map preheader header body exit out [] branches there copied =
    absurd copied.copies
connect-IsSplit f inst_map preheader header body exit out (n ∷ ns) branches (t, there) copied =
    let v = view f in
    let w = view out.func in
    let r = mapped out.blocks in
    let (s, rest, at_header) = branches.0 in
    let ready : IsReady header exit (n ∷ ns) w = (
      (s, rest, copied.keeps header (true, s ∷ rest) at_header),
      (t, copied.keeps exit t there),
      IsCopied-IsBranch v w (header ∷ body) (n ∷ ns) branches copied.copies,
    ) in
    let (f', run, e) = connect_lem header n ns preheader exit out ready in
    let split : IsSplit v (connected header exit n ns r w) header exit body n ns = record {
      at_header =
          connected-header v w header exit body n ns r copied.keeps copied.copies copied.apart
            (true, s ∷ rest) at_header;
      keeps = connected-keeps v w header exit body n ns r copied.keeps copied.copies copied.apart;
      copy =
          subst
            (λ m.
              IsLoopCopy (mapped m) n v (connected header exit n ns r w) (header ∷ body) (n ∷ ns))
            copied.blocks
            (connected-copy v w header exit body n ns r copied.keeps copied.copies copied.apart
              (true, s ∷ rest) at_header);
    } in
    (
      f',
      n,
      ns,
      copied.names,
      ap (λ new_body. connect header new_body preheader (some exit) out) copied.names ∙ run,
      subst (λ x. IsSplit v x header exit body n ns) (sym e) split,
    )

module _ (llvm : Llvm) (cloning : IsCloning llvm) where
  pub create_one_loop_lem :
      (header : ℕ) (body : List ℕ) (exit : ℕ) (f : Func) (inst_map : ℕ → Option ℕ)
      → IsLoop llvm f header body exit
      → (f' : Func) × (n : ℕ) × (ns : List ℕ) × (new_map : ℕ → Option ℕ) × (create_one_loop llvm
            (header ∷ body)
            f
            inst_map
          ≡ ok (f', n ∷ ns, new_map))
        × IsSplit (view f) (view f') header exit body n ns
  unfolding create_one_loop
  create_one_loop_lem header body exit f inst_map (leaves, branches, there) =
      let (out, names, run, copied) =
        copy_blocks_lem llvm cloning (header ∷ body) (first_copy f inst_map)
          (All-IsThere (view f) (header ∷ body) branches) in
      let before = llvm.loop_predecessor f (header ∷ body) in
      let (f', n, ns, new, done, split) =
        connect-IsSplit f inst_map before header body exit out names branches there copied in
      (
        f',
        n,
        ns,
        out.inst_map,
        step_ok (copy_blocks llvm (header ∷ body) (first_copy f inst_map)) out _ _ run (
            step_ok (connect header out.new_body before (llvm.exit_block f (header ∷ body)) out) f'
              _ _ (ap (λ e. connect header out.new_body before e out) leaves ∙ done)
              (ap (λ (l : List ℕ). ok (f', l, out.inst_map)) new)),
        split,
      )
