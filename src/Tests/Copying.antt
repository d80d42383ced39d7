-- ===== src/Tests/Copying.antt =====
-- A loop of two blocks between a preheader and an exit, and the theorems on CreateOneLoop applied to
-- it, with a CloneBasicBlock and a getExitBlock that do what LLVM documents.
use llvm_loop_fission.Base.{
  ℕ, suc, ◌+◌, ◌≤◌, ◌≡◌, ◌≢◌, refl, ap, false, List, [], ◌∷◌, map, Option, none, some,
  if◌then◌else◌, ok, arith, length, elem, ℕ_discrete,
}
use llvm_loop_fission.Bp.Maps.{mem}
use llvm_loop_fission.Split.Cfg.{Inst, phi, br, other, inst_id, Func, block_of, replace}
use llvm_loop_fission.Split.Cfg.Views.{Term, view, map_some, unnumbered}
use llvm_loop_fission.Split.Create.{Llvm, create_one_loop, create_loops}
use llvm_loop_fission.Split.Create.Copies.{IsCloning, IsThere}
use llvm_loop_fission.Split.Create.Straight.{
  IsStraight-IsBranch, IsStraight, IsRenamed, create_one_loop-IsRenamed,
}
use llvm_loop_fission.Split.Create.Exits.{exits_of}
use llvm_loop_fission.Split.Create.Incoming.{IsJoined, create_one_loop-IsJoined}
use llvm_loop_fission.Split.Create.Chain.{IsExiting, IsFissionable, IsChain}
use llvm_loop_fission.Split.Create.Copying.{create_loops_lem}

abbrev free_address : Func → ℕ
free_address [] = 1
free_address ((b, insts) ∷ f) = suc (b + free_address f)

abbrev renumber : ℕ → Inst → Inst
renumber n (phi id incoming) = phi (id + n) incoming
renumber n (br id condition next) = br (id + n) condition next
renumber n (other id values blocks) = other (id + n) values blocks

abbrev single : List ℕ → Option ℕ
single [] = none
single (e ∷ []) = some e
single (e ∷ d ∷ es) = none

abbrev llvm : Llvm
llvm = record {
  clone_block = λ f insts. record {
    id = free_address f;
    insts = map (renumber (100 + free_address f)) insts;
    vmap = λ v. if mem v (map inst_id insts) then some (v + (100 + free_address f)) else none;
  };
  exit_block = λ f body. single (exits_of (view f) body body);
  loop_predecessor = λ f body. some 1;
}

free_address-fresh : (f : Func) (n : ℕ) → free_address f ≤ n → block_of n f ≡ none
unfolding block_of
free_address-fresh [] n h = refl
free_address-fresh ((b, insts) ∷ f) n h =
    ground (arith, h, free_address-fresh f n (omega (arith, h)))

renumber-unnumbered :
    (n : ℕ) (insts : List Inst) → map unnumbered (map (renumber n) insts) ≡ map unnumbered insts
renumber-unnumbered n [] = refl
renumber-unnumbered n (phi id incoming ∷ insts) =
    ap (◌∷◌ (phi 0 incoming)) (renumber-unnumbered n insts)
renumber-unnumbered n (br id condition next ∷ insts) =
    ap (◌∷◌ (br 0 condition next)) (renumber-unnumbered n insts)
renumber-unnumbered n (other id values blocks ∷ insts) =
    ap (◌∷◌ (other 0 values blocks)) (renumber-unnumbered n insts)

llvm-IsCloning : IsCloning llvm
llvm-IsCloning = record {
  fresh = λ f insts. free_address-fresh f (free_address f) (omega arith);
  same = λ f insts. renumber-unnumbered (100 + free_address f) insts;
}

llvm-IsExiting : IsExiting llvm
llvm-IsExiting f body e h = ap single h

abbrev function : Func
function =
    (1, br 10 [] (2 ∷ []) ∷ [])
    ∷ (
      2,
      phi 20 ((5, 1) ∷ (31, 3) ∷ []) ∷ other 21 (20 ∷ []) [] ∷ br 22 (21 ∷ []) (3 ∷ 4 ∷ []) ∷ [],
    )
    ∷ (3, other 31 (20 ∷ []) [] ∷ br 32 [] (2 ∷ []) ∷ [])
    ∷ (4, phi 40 ((20, 2) ∷ []) ∷ other 41 (40 ∷ []) [] ∷ [])
    ∷ []

function-IsStraight : IsStraight 2 (view function) (2 ∷ 3 ∷ [])
unfolding view block_of
function-IsStraight = ((4 ∷ [], refl), (([], refl), tt))

function-IsThere : IsThere (view function) 4
unfolding view block_of
function-IsThere = ((false, []), refl)

function-IsFissionable : IsFissionable (view function) 2 (3 ∷ []) 4
unfolding view block_of ℕ_discrete
function-IsFissionable = record {
  apart = (refl, (refl, tt));
  straight = ((4 ∷ [], refl), (([], refl), tt));
  there = ((false, []), refl);
  leaves = refl;
  stays = refl;
}

function-exit : llvm.exit_block function (2 ∷ 3 ∷ []) ≡ some 4
unfolding view block_of ℕ_discrete
function-exit = refl

create_one_loop-IsRenamed_example :
    (f' : Func) × (n : ℕ) × (ns : List ℕ) × (new_map : ℕ → Option ℕ) × (r : ℕ → ℕ)
    × (create_one_loop llvm (2 ∷ 3 ∷ []) function (λ _. none) ≡ ok (f', n ∷ ns, new_map))
    × (view f' 2 ≡ map_some (replace 4 n) (view function 2))
    × ((c : ℕ) (s : Term) → c ≢ 2 → view function c ≡ some s → view f' c ≡ some s)
    × ((c : ℕ) → elem ℕ_discrete c (2 ∷ 3 ∷ []) ≡ false → r c ≡ c)
    × IsRenamed r (view function) (view f') (2 ∷ 3 ∷ []) (n ∷ ns)
unfolding ℕ_discrete
create_one_loop-IsRenamed_example =
    create_one_loop-IsRenamed llvm llvm-IsCloning 2 (3 ∷ []) 4 function (λ _. none) function-exit
      function-IsThere (refl, (refl, tt)) function-IsStraight

create_loops_lem_example :
    (f' : Func) × (loops : List (List ℕ × (ℕ → Option ℕ))) × (create_loops llvm 2
        (2 ∷ 3 ∷ [])
        function
      ≡ ok (f', loops))
    × (length loops ≡ 2)
    × IsChain (view f') (2 ∷ 3 ∷ []) 4 loops
    × ((c : ℕ) (s : Term) → c ≢ 2 → view function c ≡ some s → view f' c ≡ some s)
create_loops_lem_example =
    create_loops_lem llvm llvm-IsCloning llvm-IsExiting 2 2 (3 ∷ []) 4 function
      function-IsFissionable

create_one_loop-IsJoined_example :
    (f' : Func) × (n : ℕ) × (ns : List ℕ) × (new_map : ℕ → Option ℕ) × (r : ℕ → ℕ)
    × (create_one_loop llvm (2 ∷ 3 ∷ []) function (λ _. none) ≡ ok (f', n ∷ ns, new_map))
    × (r 2 ≡ n)
    × ((c : ℕ) → elem ℕ_discrete c (2 ∷ 3 ∷ []) ≡ false → r c ≡ c)
    × IsJoined r function f' 2 4 (some 1) n
unfolding ℕ_discrete
create_one_loop-IsJoined_example =
    create_one_loop-IsJoined llvm llvm-IsCloning 2 (3 ∷ []) 4 function (λ _. none)
      (
        function-exit,
        IsStraight-IsBranch 2 (view function) (2 ∷ 3 ∷ []) function-IsStraight,
        function-IsThere,
      )
      (refl, (refl, tt))
