-- ===== src/Split/Create/Copying.antt =====
-- The loop of runOnFunction that makes the copies.
use llvm_loop_fission.Base.{
  ℕ, zero, suc, ◌≡◌, ◌≢◌, refl, ap, sym, subst, ◌∙◌, true, false, List, [], ◌∷◌, map, Option, none,
  some, ok, arith, All, elem, ℕ_discrete, length, step_ok,
}
use llvm_loop_fission.Split.Cfg.{Func}
use llvm_loop_fission.Split.Cfg.Views.{Term, view, map_some}
use llvm_loop_fission.Split.Create.{Llvm, create_one_loop, create_loops}
use llvm_loop_fission.Split.Create.Copies.{IsCloning, View}
use llvm_loop_fission.Split.Create.Connect.{IsBranch}
use llvm_loop_fission.Split.Create.Straight.{
  IsRenamed, IsStraight-IsBranch, create_one_loop-IsRenamed,
}
use llvm_loop_fission.Split.Create.Exits.{
  exits_of, outside-first, exits_of-keeps, IsRenamed-member, IsRenamed-outside, IsKept,
  exits_of-renamed,
}
use llvm_loop_fission.Split.Create.Chain.{
  IsExiting, IsFissionable, IsFissionable-exits, IsFissionable-next, IsChain,
}

abbrev Keeps : ℕ → View → View → Type 0
Keeps header v w = (c : ℕ) (s : Term) → c ≢ header → v c ≡ some s → w c ≡ some s

-- The new blocks are there, and stay as they are.
IsRenamed-Keeps :
    (r : ℕ → ℕ) (header : ℕ) (v w x : View) (bs ns : List ℕ)
    → Keeps header w x
    → elem ℕ_discrete header ns ≡ false
    → All (IsBranch v) bs
    → IsRenamed r v w bs ns
    → All (λ m. x m ≡ w m) ns
IsRenamed-Keeps r header v w x [] [] k o h renamed = tt
IsRenamed-Keeps r header v w x [] (n ∷ ns) k o h renamed = absurd renamed
IsRenamed-Keeps r header v w x (b ∷ bs) [] k o h renamed = absurd renamed
IsRenamed-Keeps r header v w x (b ∷ bs) (n ∷ ns) k o ((s, rest, here), h) (new, at, e, renamed) =
    let other : n ≢ header = λ same. ground (arith, o, same, ℕ_discrete header n) in
    let now : w n ≡ some (true, r s ∷ map r rest) = e ∙ ap (map_some (map r)) here in
    (
      k n (true, r s ∷ map r rest) other now ∙ sym now,
      IsRenamed-Keeps r header v w x bs ns k (ground (arith, o)) h renamed,
    )

Branch-outside :
    (r : ℕ → ℕ) (v w : View) (members ns : List ℕ) (n : ℕ) (bs : List ℕ)
    → v n ≡ none
    → All (IsBranch v) bs
    → elem ℕ_discrete n bs ≡ false
Branch-outside r v w members ns n [] new h = refl
Branch-outside r v w members ns n (b ∷ bs) new ((s, rest, here), h) = ground (
  arith,
  Branch-outside r v w members ns n bs new h,
  λ (same : n ≡ b). ap v same,
  new,
  here,
  ℕ_discrete n b,
)

module _ (llvm : Llvm) (cloning : IsCloning llvm) (exiting : IsExiting llvm) where
  -- One more copy.
  create_one_loop-IsFissionable :
      (header : ℕ) (body : List ℕ) (exit : ℕ) (f : Func)
      → IsFissionable (view f) header body exit
      → (f' : Func) × (n : ℕ) × (ns : List ℕ) × (inst_map : ℕ → Option ℕ) × (create_one_loop llvm
            (header ∷ body)
            f
            (λ _. none)
          ≡ ok (f', n ∷ ns, inst_map))
        × IsFissionable (view f') header body n
        × (exits_of (view f') (n ∷ ns) (n ∷ ns) ≡ exit ∷ [])
        × Keeps header (view f) (view f')
        × ((x : View) → Keeps header (view f') x → All (λ m. x m ≡ view f' m) (n ∷ ns))
  create_one_loop-IsFissionable header body exit f h =
      let v = view f in
      let exits = IsFissionable-exits v header body exit h in
      let (f', n, ns, inst_map, r, run, at_header, keeps, fixes, renamed) =
        create_one_loop-IsRenamed llvm cloning header body exit f (λ _. none)
          (exiting f (header ∷ body) exit exits) h.there h.apart h.straight in
      let w = view f' in
      let branches = IsStraight-IsBranch header v (header ∷ body) h.straight in
      let (s, rest, here) = branches.0 in
      let (t, there) = h.there in
      let out = outside-first (header ∷ body) _ exit [] h.leaves in
      let kept : IsKept r (n ∷ ns) exit =
        (fixes exit out, IsRenamed-outside r v w (header ∷ body) (n ∷ ns) exit t there renamed) in
      let new =
        Branch-outside r v w (header ∷ body) (n ∷ ns) n (header ∷ body) renamed.0 branches in
      let first : w n ≡ some (true, r s ∷ map r rest) = renamed.2 ∙ ap (map_some (map r)) here in
      (
        f',
        n,
        ns,
        inst_map,
        run,
        IsFissionable-next v w header body exit n keeps h at_header new
            ((true, r s ∷ map r rest), first),
        exits_of-renamed r v w (header ∷ body) (n ∷ ns) (header ∷ body) (n ∷ ns)
              (λ c. IsRenamed-member r v w (header ∷ body) (n ∷ ns) c renamed) renamed
              (subst (All (IsKept r (n ∷ ns))) (sym exits) (kept, tt))
            ∙ exits,
        keeps,
        λ x k.
            IsRenamed-Keeps r header v w x (header ∷ body) (n ∷ ns) k
              (IsRenamed-outside r v w (header ∷ body) (n ∷ ns) header (true, s ∷ rest) here
                renamed)
              branches renamed,
      )

  create_loops_from :
      (k : ℕ) (header : ℕ) (body : List ℕ) (exit : ℕ) (f : Func)
      → IsFissionable (view f) header body exit
      → (f' : Func) × (loops : List (List ℕ × (ℕ → Option ℕ))) × (create_loops llvm k
            (header ∷ body)
            f
          ≡ ok (f', loops))
        × (length loops ≡ k)
        × IsChain (view f') (header ∷ body) exit loops
        × Keeps header (view f) (view f')
  unfolding create_loops
  create_loops_from zero header body exit f h =
      (f, [], refl, refl, IsFissionable-exits (view f) header body exit h, λ c s o e. e)
  create_loops_from (suc k) header body exit f h =
      let (f1, n, ns, inst_map, run, ready, leaves, keeps, stays) =
        create_one_loop-IsFissionable header body exit f h in
      let (f', loops, done, count, chain, keeps_on) = create_loops_from k header body n f1 ready in
      (
        f',
        (n ∷ ns, inst_map) ∷ loops,
        step_ok _ (f1, n ∷ ns, inst_map) _ _ run (step_ok _ (f', loops) _ _ done refl),
        ap suc count,
        (
          exits_of-keeps (view f1) (view f') (n ∷ ns) (n ∷ ns) (stays (view f') keeps_on) ∙ leaves,
          chain,
        ),
        λ c s o e. keeps_on c s o (keeps c s o e),
      )

  -- For a CloneBasicBlock that gives a new block with the same instructions, a getExitBlock that
  -- finds the exit block of a loop with one edge out of it, and a loop of different blocks that follow
  -- one another by their first successors and of which only the header has an edge out, one edge: the
  -- copies of runOnFunction return as many loops as asked for; the first copy leaves to the exit that
  -- the loop had, each other copy to the header of the copy before it, and the loop itself to the
  -- header of the last copy, each by one edge; and every block but the header keeps its successors.
  pub create_loops_lem :
      (k : ℕ) (header : ℕ) (body : List ℕ) (exit : ℕ) (f : Func)
      → IsFissionable (view f) header body exit
      → (f' : Func) × (loops : List (List ℕ × (ℕ → Option ℕ))) × (create_loops llvm k
            (header ∷ body)
            f
          ≡ ok (f', loops))
        × (length loops ≡ k)
        × IsChain (view f') (header ∷ body) exit loops
        × ((c : ℕ) (s : Term) → c ≢ header → view f c ≡ some s → view f' c ≡ some s)
  create_loops_lem = create_loops_from
