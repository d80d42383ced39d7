-- ===== src/Dg.antt =====
-- lib/splitpass/DG.cpp with include/DG.h: the dependence graphs of the innermost loops.
-- DG::buildDG is `build_dg`, DG::runOnFunction is `run_on_function`.
pub mod Laws
pub mod Memory
pub mod Blocks
pub mod Accepted
use llvm_loop_fission.Base.{
  ℕ, Bool, true, false, not, ◌&&◌, List, [], ◌∷◌, ◌++◌, Option, none, some, length, if◌then◌else◌,
  ◌==◌,
}
use llvm_loop_fission.Bp.Maps.{InstMapSet, mem, insert, deps, assign}
use llvm_loop_fission.Loops.{
  Kind, load, store, call, return, switch, invoke, indirect_br, branch, Block, Loop, Loops, loop,
  nil, cons, Direction, Llvm,
}

-- The instructions with which a loop is not distributed, wherever they stand.
abbrev pub is_barrier : Kind → Bool
is_barrier call = true
is_barrier return = true
is_barrier switch = true
is_barrier invoke = true
is_barrier indirect_br = true
is_barrier _ = false

abbrev pub is_branch : Kind → Bool
is_branch branch = true
is_branch _ = false

-- `isa<StoreInst> || isa<LoadInst>`
abbrev pub is_memory : Kind → Bool
is_memory load = true
is_memory store = true
is_memory _ = false

abbrev pub is_nil {ℓ} : {A : Type ℓ} → List A → Bool
is_nil [] = true
is_nil (x ∷ xs) = false

abbrev pub push_all : List ℕ → Option (List ℕ) → Option (List ℕ)
push_all insts none = none
push_all insts (some more) = some (insts ++ more)

pub record Maps : Type 0 where
  pub memda_map : InstMapSet
  pub regda_map : InstMapSet

module _ (llvm : Llvm) where
  open llvm use {kind, users, depends}

  -- The loop over one block: whether buildDG goes on after it. A branch is allowed at its end only.
  pub block_allowed : List ℕ → Bool
  block_allowed [] = true
  block_allowed (inst ∷ rest) =
      if is_barrier (kind inst)
      then false
      else (if is_branch (kind inst) && not (is_nil rest) then false else block_allowed rest)

  -- `bodyInsts`, the instructions outside the header, or none where buildDG returns false.
  pub body_insts : ℕ → List Block → Option (List ℕ)
  body_insts header [] = some []
  body_insts header (bb ∷ blocks) =
      if bb.id == header
      then body_insts header blocks
      else (if block_allowed bb.insts then push_all bb.insts (body_insts header blocks) else none)

  -- What the direction of a dependence from `src` to `dst` does to `memdaSet`.
  pub add_direction : Direction → ℕ → ℕ → InstMapSet → List ℕ → List ℕ
  add_direction d src dst memda_map memda_set =
      if d.lt
      then insert dst memda_set
      else (if d.eq
          then (if mem src (deps memda_map dst) then memda_set else insert dst memda_set)
          else (if d.gt then memda_set else insert dst memda_set))

  pub add_memory : ℕ → ℕ → InstMapSet → List ℕ → List ℕ
  unfolding add_direction
  add_memory src dst memda_map memda_set =
      if is_memory (kind dst) && is_memory (kind src)
      then elim (depends src dst) [
        | none ↦ memda_set
        | some d ↦ add_direction d src dst memda_map memda_set
      ]
      else memda_set

  -- The def-use chain: the users that are instructions of the body.
  pub add_users : List ℕ → List (Option ℕ) → List ℕ → List ℕ
  add_users body [] regda_set = regda_set
  add_users body (none ∷ us) regda_set = add_users body us regda_set
  add_users body (some inst ∷ us) regda_set =
      add_users body us (if mem inst body then insert inst regda_set else regda_set)

  -- The loop over `DstI`, which skips `SrcI` and with it the def-use chain.
  pub sets_from : List ℕ → ℕ → InstMapSet → List ℕ → List ℕ → List ℕ → List ℕ × List ℕ
  sets_from body src memda_map [] memda_set regda_set = (memda_set, regda_set)
  sets_from body src memda_map (dst ∷ rest) memda_set regda_set = elim (dst == src) [
    | true ↦ sets_from body src memda_map rest memda_set regda_set
    | false ↦
        sets_from body src memda_map rest (add_memory src dst memda_map memda_set)
          (add_users body (users src) regda_set)
  ]

  -- The loop over `SrcI`.
  pub maps_from : List ℕ → List ℕ → Maps → Maps
  maps_from body [] maps = maps
  maps_from body (src ∷ rest) maps =
      let sets = sets_from body src maps.memda_map body [] [] in
      maps_from body rest (record {
        memda_map = assign maps.memda_map src sets.0;
        regda_map = assign maps.regda_map src sets.1;
      })

  pub build_maps : List ℕ → Maps
  build_maps body = maps_from body body (record { memda_map = λ _. none; regda_map = λ _. none })

-- The maps from loops that DG keeps; `none` is a loop that has no entry.
pub record Dg : Type 0 where
  pub if_loop_dist : ℕ → Option Bool
  pub dg_of_loops : ℕ → Option InstMapSet
  pub dg_of_loops_mem : ℕ → Option InstMapSet
  pub num_of_nodes : ℕ → Option ℕ

abbrev pub put {ℓ} : {A : Type ℓ} → (ℕ → Option A) → ℕ → A → ℕ → Option A
put m k a j = if j == k then some a else m j

pub build_innermost : Llvm → ℕ → Option (List ℕ) → Dg → Dg × Bool
build_innermost llvm l none dg = (record dg { if_loop_dist = put dg.if_loop_dist l false }, false)
build_innermost llvm l (some body) dg =
    let maps = build_maps llvm body in
    (
      record {
        if_loop_dist = put dg.if_loop_dist l true;
        dg_of_loops = put dg.dg_of_loops l maps.regda_map;
        dg_of_loops_mem = put dg.dg_of_loops_mem l maps.memda_map;
        num_of_nodes = put dg.num_of_nodes l (length body);
      },
      true,
    )

-- DG::buildDG: the subloops of a loop that has any; their results are not looked at.
mutual
  pub build_dg : Llvm → Loop → Dg → Dg × Bool
  build_dg llvm (loop l header blocks nil) dg =
      build_innermost llvm l (body_insts llvm header blocks) dg
  build_dg llvm (loop l header blocks (cons sub subs)) dg =
      (build_each llvm subs (build_dg llvm sub dg).0, true)

  pub build_each : Llvm → Loops → Dg → Dg
  build_each llvm nil dg = dg
  build_each llvm (cons sub subs) dg = build_each llvm subs (build_dg llvm sub dg).0

-- DG::runOnFunction, over the loops of LoopInfo, each with whether it has a parent.
pub run_on_function : Llvm → List (Bool × Loop) → Dg → Dg
run_on_function llvm [] dg = dg
run_on_function llvm ((has_parent, l) ∷ ls) dg =
    run_on_function llvm ls (if has_parent then dg else (build_dg llvm l dg).0)
