-- ===== src/Dg/Accepted.antt =====
-- A loop that DG accepts, handed to BP: the two passes together.
use llvm_loop_fission.Base.{
  ℕ, ◌≡◌, sym, ◌∙◌, true, false, List, arith, ℕ_discrete, Distinct, ◌<◌, ok,
}
use llvm_loop_fission.Bp.Maps.{mem, IsGraph, has-deps}
use llvm_loop_fission.Bp.Heuristic.{Doubles}
use llvm_loop_fission.Bp.Plan.{partition_loop}
use llvm_loop_fission.Bp.Plan.Correct.{IsPartitioning, partition_loop_correct}
use llvm_loop_fission.Loops.{Llvm}
use llvm_loop_fission.Dg.{build_maps}
use llvm_loop_fission.Dg.Laws.{build_maps-keys, build_maps-uses-IsGraph}
use llvm_loop_fission.Dg.Memory.{build_maps-memory}

pub build_maps-memory-IsGraph :
    (llvm : Llvm) (n : ℕ) (body : List ℕ)
    → Distinct ℕ_discrete body
    → ((x : ℕ) → mem x body ≡ true → x < n)
    → IsGraph n (build_maps llvm body).memda_map
build_maps-memory-IsGraph llvm n body apart below =
    let now = (build_maps llvm body).memda_map in
    let key = λ (x : ℕ). (build_maps-keys llvm body x).1 in
    record {
      bounded = λ a e. below a (sym (key a) ∙ e);
      inside = λ a b e.
          key b
          ∙ ground
              (arith, build_maps-memory llvm body a b apart (sym (key a) ∙ has-deps now a b e), e);
    }

-- For a loop whose body instructions are distinct and below n, and without the heuristic: BP
-- always ends on the maps that DG has stored and meets no undefined step. Its partitions together
-- have the body instructions and nothing else, none twice in one partition; a body instruction and
-- what it depends on by registers share a partition; from an instruction to every other of its
-- partition and back there are chains of dependences, by registers in both directions and by memory
-- forwards; and each partition has an instruction that no earlier one has.
pub build_maps-partitioned :
    (llvm : Llvm) (d : Doubles) (header_insts n : ℕ) (body : List ℕ)
    → Distinct ℕ_discrete body
    → ((x : ℕ) → mem x body ≡ true → x < n)
    → (let maps = build_maps llvm body in
        (sccs : List (List ℕ)) × (partition_loop d false header_insts n maps.regda_map
            maps.memda_map
          ≡ ok sccs)
        × IsPartitioning (λ x. mem x body) maps.regda_map maps.memda_map sccs)
build_maps-partitioned llvm d header n body apart below =
    let maps = build_maps llvm body in
    let key = build_maps-keys llvm body in
    let (sccs, run, p) =
      partition_loop_correct d header n maps.regda_map maps.memda_map
        (build_maps-uses-IsGraph llvm n body below)
        (build_maps-memory-IsGraph llvm n body apart below) (λ x. (key x).1 ∙ sym (key x).0) in
    (
      sccs,
      run,
      record {
        distinct = p.distinct;
        covers = λ x. p.covers x ∙ (key x).0;
        dependent = λ x y h. p.dependent x y ((key x).0 ∙ h);
        linked = p.linked;
        new = p.new;
      },
    )
