-- ===== src/Split/Create/Chain.antt =====
-- The copies that runOnFunction makes of a loop, one after the other.
use llvm_loop_fission.Base.{
  ℕ, ◌≡◌, ◌≢◌, ap, sym, ◌∙◌, true, false, List, [], ◌∷◌, ◌++◌, Option, some, if◌then◌else◌, ◌==◌,
  arith, All, Distinct, elem, ℕ_discrete,
}
use llvm_loop_fission.Split.Cfg.{Func, replace}
use llvm_loop_fission.Split.Cfg.Views.{Term, view, map_some}
use llvm_loop_fission.Split.Create.{Llvm}
use llvm_loop_fission.Split.Create.Copies.{View, IsThere}
use llvm_loop_fission.Split.Create.Flow.{next_of}
use llvm_loop_fission.Split.Create.Straight.{IsStraight}
use llvm_loop_fission.Split.Create.Exits.{
  outside, targets, exits_of, outside-first, outside-replace, exits_of-keeps,
}

-- getExitBlock: the exit block, where one edge leaves the loop.
abbrev pub IsExiting : Llvm → Type 0
IsExiting llvm =
    (f : Func) (body : List ℕ) (e : ℕ)
    → exits_of (view f) body body ≡ e ∷ []
    → llvm.exit_block f body ≡ some e

-- A loop of different blocks that follow one another by their first successors, and of which only the
-- header has an edge out of the loop, one edge to a block that is there.
pub record IsFissionable (v : View) (header : ℕ) (body : List ℕ) (exit : ℕ) : Type 0 where
  pub apart : Distinct ℕ_discrete (header ∷ body)
  pub straight : IsStraight header v (header ∷ body)
  pub there : IsThere v exit
  pub leaves : outside (header ∷ body) (targets (v header)) ≡ exit ∷ []
  pub stays : exits_of v (header ∷ body) body ≡ []

pub IsFissionable-exits :
    (v : View) (header : ℕ) (body : List ℕ) (exit : ℕ)
    → IsFissionable v header body exit
    → exits_of v (header ∷ body) (header ∷ body) ≡ exit ∷ []
IsFissionable-exits v header body exit h =
    ap (λ l. l ++ exits_of v (header ∷ body) body) h.leaves ∙ ap (λ l. exit ∷ l) h.stays

module _ (v w : View) (header : ℕ) (body : List ℕ) (exit n : ℕ)
    (keeps : (c : ℕ) (s : Term) → c ≢ header → v c ≡ some s → w c ≡ some s) where
  -- The blocks after the header keep their successors.
  body_keeps :
      (first : ℕ) (bs : List ℕ)
      → elem ℕ_discrete header bs ≡ false
      → IsStraight first v bs
      → IsStraight first w bs × All (λ b. w b ≡ v b) bs
  body_keeps first [] o h = (tt, tt)
  body_keeps first (b ∷ bs) o ((rest, here), h) =
      let other : b ≢ header = λ e. ground (arith, o, e, ℕ_discrete header b) in
      let kept = keeps b (true, next_of first bs ∷ rest) other here in
      let (straight, same) = body_keeps first bs (ground (arith, o)) h in
      (((rest, kept), straight), (kept ∙ sym here, same))

  next_of-member : (bs : List ℕ) → elem ℕ_discrete (next_of header bs) (header ∷ bs) ≡ true
  next_of-member [] = ground (arith, ℕ_discrete header header)
  next_of-member (b ∷ bs) = ground (arith, ℕ_discrete b header, ℕ_discrete b b)

  -- The loop goes on to the new exit.
  pub IsFissionable-next :
      IsFissionable v header body exit
      → w header ≡ map_some (replace exit n) (v header)
      → elem ℕ_discrete n (header ∷ body) ≡ false
      → IsThere w n
      → IsFissionable w header body n
  IsFissionable-next h at_header new there =
      let ((rest, here), straight) = h.straight in
      let (straight', same) = body_keeps header body h.apart.0 straight in
      let out = outside-first (header ∷ body) (targets (v header)) exit [] h.leaves in
      let next = next_of header body in
      let inside : (next == exit) ≡ false = ground (
        arith,
        next_of-member body,
        out,
        λ (e : next ≡ exit). ap (λ x. elem ℕ_discrete x (header ∷ body)) e,
      ) in
      let now : w header ≡ some (true, next ∷ replace exit n rest) =
        at_header
        ∙ ap (map_some (replace exit n)) here
        ∙ ap (λ b. some (true, (if b then n else next) ∷ replace exit n rest)) inside in
      record {
        apart = h.apart;
        straight = ((replace exit n rest, now), straight');
        there = there;
        leaves =
            ap (λ o. outside (header ∷ body) (targets o))
              (at_header ∙ ap (map_some (replace exit n)) here)
            ∙ outside-replace (header ∷ body) (next ∷ rest) exit n out new
            ∙ ap (replace exit n)
                (ap (λ o. outside (header ∷ body) (targets o)) (sym here) ∙ h.leaves)
            ∙ ground arith;
        stays = exits_of-keeps v w (header ∷ body) body same ∙ h.stays;
      }

-- The blocks of the loops that were copied, the latest first, leave to one another: the first copy
-- to the exit, each other to the copy before it, and the loop itself to the last copy.
abbrev pub IsChain : View → List ℕ → ℕ → List (List ℕ × (ℕ → Option ℕ)) → Type 0
IsChain v body exit [] = exits_of v body body ≡ exit ∷ []
IsChain v body exit (([], inst_map) ∷ loops) = ⊥
IsChain v body exit ((n ∷ ns, inst_map) ∷ loops) =
    (exits_of v (n ∷ ns) (n ∷ ns) ≡ exit ∷ []) × IsChain v body n loops
