-- ===== src/Tests.antt =====
-- One loop body run through the passes, and the theorems applied to it.
mod Profiler
mod Memory
mod Hooks
mod Splitting
mod Copying
mod Passes
use mathlib.Core.List.{flatten}
use llvm_loop_fission.Base.{
  ℕ, subst, length, replicate, ◌≤◌, ◌≡◌, refl, Bool, true, false, List, [], ◌∷◌, ◌++◌, Option, none,
  some, arith, drop, ℕ_discrete, Distinct, ◌<◌, ◌+◌, ◌-◌, ◌*◌, ◌/◌, ltb, ◌↔◌, ok, elem, sym, ◌∙◌,
  if◌then◌else◌, ◌==◌, ◌&&◌, ◌||◌, get_elem?,
}
use llvm_loop_fission.Bp.Maps.{InstMapSet, mem, deps, has, IsGraph}
use llvm_loop_fission.Bp.Heuristic.{Doubles, check_partition, best_plan, cuts}
use llvm_loop_fission.Bp.Heuristic.Merge.{check_partition_keeps}
use llvm_loop_fission.Bp.Heuristic.Cuts.{value, value-cuts}
use llvm_loop_fission.Bp.Heuristic.Best.{IsStrictOrder, best_plan_least}
use llvm_loop_fission.Bp.Dual.{
  dual_dg_map, deps-dual_dg_map, dual_dg_map-IsGraph, dual_dg_map-IsSymmetric,
}
use llvm_loop_fission.Bp.Partition.{build_partition, keys}
use llvm_loop_fission.Bp.Partition.Loop.{Partitions, build_partition_lem}
use llvm_loop_fission.Bp.Vectors.{VecMap, mem_vec, vec_discrete}
use llvm_loop_fission.Bp.Edges.{find_edges, find_prdg}
use llvm_loop_fission.Bp.Edges.Find.{find_prdg_unique}
use llvm_loop_fission.Bp.Edges.Laws.{Depends, find_edges_lem}
use llvm_loop_fission.Bp.Search.{dfs_scc, explore, erase_all}
use llvm_loop_fission.Bp.Scc.{components_from, check_members}
use llvm_loop_fission.Bp.Scc.Loop.{Covers, components_from-Covers}
use llvm_loop_fission.Bp.Plan.{partition_loop}
use llvm_loop_fission.Bp.Plan.Linked.{Linked}
use llvm_loop_fission.Bp.Plan.Correct.{IsPartitioning, partition_loop_correct}
use llvm_loop_fission.Loops.{
  Kind, load, store, branch, other, Llvm, Direction, Block, Loop, loop, nil, cons,
}
use llvm_loop_fission.Dg.{build_maps, Dg, body_insts, run_on_function}
use llvm_loop_fission.Output.{LoopSccs, output_all}
use llvm_loop_fission.Output.Total.{HasEntries, IsEntry, output_all-total}
use llvm_loop_fission.SccPass.{find_sccs}
use llvm_loop_fission.SccPass.Outcome.{find_sccs_lem}
use llvm_loop_fission.Dg.Laws.{build_maps-keys, build_maps-uses, build_maps-uses-IsGraph}
use llvm_loop_fission.Dg.Memory.{Answers, build_maps-memory}
use llvm_loop_fission.Dg.Blocks.{body_insts_lem, run_on_function_lem, build_list, innermost_loops}
use llvm_loop_fission.Dg.Accepted.{build_maps-memory-IsGraph, build_maps-partitioned}

-- `0: x = a[i]; 1: y = x + 1; 2: b[i] = y; 3: z = b[i-1]; 4: c[i] = z; 5: br`
abbrev kinds : ℕ → Kind
kinds i =
    if i == 0 || i == 3
    then load
    else (if i == 2 || i == 4 then store else (if i == 5 then branch else other))

abbrev used_by : ℕ → List (Option ℕ)
used_by i =
    if i == 0
    then some 1 ∷ []
    else (if i == 1 then some 2 ∷ none ∷ [] else (if i == 3 then some 4 ∷ [] else []))

abbrev answers : ℕ → ℕ → Option Direction
answers src dst =
    if src == 2 && dst == 3
    then some (record { lt = true; eq = false; gt = false })
    else (if src == 3 && dst == 2
        then some (record { lt = false; eq = false; gt = true })
        else none)

abbrev llvm : Llvm
llvm = record { kind = kinds; users = used_by; depends = answers }

abbrev body : List ℕ
body = 0 ∷ 1 ∷ 2 ∷ 3 ∷ 4 ∷ 5 ∷ []

abbrev doubles : Doubles
doubles = record {
  Double = ℕ;
  of_int = λ n. n;
  add = ◌+◌;
  sub = ◌-◌;
  mul = ◌*◌;
  div = ◌/◌;
  less = ltb;
}

body-Distinct : Distinct ℕ_discrete body
unfolding ℕ_discrete
body-Distinct = (refl, (refl, (refl, (refl, (refl, (refl, tt))))))

body-below : (x : ℕ) → mem x body ≡ true → x < 6
body-below x h = ground (arith, h)

reg-IsGraph : IsGraph 6 (build_maps llvm body).regda_map
reg-IsGraph = build_maps-uses-IsGraph llvm 6 body body-below

mem-IsGraph : IsGraph 6 (build_maps llvm body).memda_map
mem-IsGraph = build_maps-memory-IsGraph llvm 6 body body-Distinct body-below

abbrev reg : InstMapSet
reg = (build_maps llvm body).regda_map

abbrev mem_map : InstMapSet
mem_map = (build_maps llvm body).memda_map

same-keys : (x : ℕ) → has mem_map x ≡ has reg x
same-keys x = (build_maps-keys llvm body x).1 ∙ sym (build_maps-keys llvm body x).0

build_maps-partitioned_example :
    (sccs : List (List ℕ)) × (partition_loop doubles false 2 6 reg mem_map ≡ ok sccs)
    × IsPartitioning (λ x. mem x body) reg mem_map sccs
build_maps-partitioned_example =
    build_maps-partitioned llvm doubles 2 6 body body-Distinct body-below

partition_loop_correct_example :
    (sccs : List (List ℕ)) × (partition_loop doubles false 2 6 reg mem_map ≡ ok sccs)
    × IsPartitioning (has reg) reg mem_map sccs
partition_loop_correct_example =
    partition_loop_correct doubles 2 6 reg mem_map reg-IsGraph mem-IsGraph same-keys

build_maps-memory_example : Answers llvm mem_map body body 2 3
unfolding ℕ_discrete
build_maps-memory_example = build_maps-memory llvm body 2 3 body-Distinct refl

build_maps-uses_example : mem 1 (deps reg 0) ≡ true
unfolding ℕ_discrete
build_maps-uses_example = build_maps-uses llvm body 0 1

abbrev blocks : List Block
blocks = record { id = 9; insts = 7 ∷ 8 ∷ [] } ∷ record { id = 10; insts = body } ∷ []

body_insts_lem_example : body_insts llvm 9 blocks ≡ some body
body_insts_lem_example = body_insts_lem llvm 9 blocks

abbrev nest : List (Bool × Loop)
nest = (false, loop 0 8 [] (cons (loop 1 9 blocks nil) nil)) ∷ []

abbrev no_dg : Dg
no_dg = record {
  if_loop_dist = λ _. none;
  dg_of_loops = λ _. none;
  dg_of_loops_mem = λ _. none;
  num_of_nodes = λ _. none;
}

run_on_function_lem_example :
    run_on_function llvm nest no_dg ≡ build_list llvm (innermost_loops nest) no_dg
run_on_function_lem_example = run_on_function_lem llvm nest no_dg

deps-dual_dg_map_example :
    mem 0 (deps (dual_dg_map 6 reg) 1) ≡ (mem 0 (deps reg 1) || mem 1 (deps reg 0))
deps-dual_dg_map_example = deps-dual_dg_map 6 reg reg-IsGraph 1 0

build_partition_lem_example :
    (parts : List (List ℕ)) × (build_partition 6 (dual_dg_map 6 reg) ≡ ok parts)
    × Partitions 6 (dual_dg_map 6 reg) parts
build_partition_lem_example =
    build_partition_lem 6 (dual_dg_map 6 reg) (dual_dg_map-IsGraph 6 reg reg-IsGraph)
      (dual_dg_map-IsSymmetric 6 reg reg-IsGraph)

abbrev groups : List (List ℕ)
groups = (0 ∷ 1 ∷ 2 ∷ []) ∷ (3 ∷ 4 ∷ []) ∷ (5 ∷ []) ∷ []

groups-cover : (x : ℕ) → has mem_map x ≡ true → mem x (flatten groups) ≡ true
unfolding flatten
groups-cover x h = ground (arith, build_maps-keys llvm body x, h)

find_edges_lem_example :
    (edges : VecMap) × (find_edges 6 groups mem_map ≡ ok edges)
    × ((p q : List ℕ)
        → (mem_vec q (edges p) ≡ true)
          ↔ ((mem_vec p groups ≡ true) × (mem_vec q groups ≡ true) × Depends mem_map p q))
unfolding flatten
find_edges_lem_example = find_edges_lem 6 groups mem_map mem-IsGraph body-Distinct groups-cover

-- The groups 0, 1 and 2, with edges from 1 to 0 and between 1 and 2.
abbrev next : ℕ → List ℕ
next x = if x == 1 then 0 ∷ 2 ∷ [] else (if x == 2 then 1 ∷ [] else [])

abbrev nodes : List ℕ
nodes = 0 ∷ 1 ∷ 2 ∷ []

next-inside :
    (x y : ℕ)
    → elem ℕ_discrete x nodes ≡ true
    → elem ℕ_discrete y (next x) ≡ true
    → elem ℕ_discrete y nodes ≡ true
next-inside x y h k = ground (arith, h, k)

components_from-Covers_example :
    (sccs : List (List ℕ)) × (components_from ℕ_discrete nodes next nodes (λ _. false) (λ _. false)
      ≡ ok sccs)
    × Covers ℕ_discrete nodes next next-inside (λ _. false) nodes sccs
components_from-Covers_example =
    components_from-Covers ℕ_discrete nodes next next-inside nodes (λ _. false) (λ _. false)
      (λ x h. h)

-- The search from 1 still sees 0 unmarked, which does not lead back, so that 1 is returned alone and
-- again with 2.
component_split :
    components_from ℕ_discrete nodes next nodes (λ _. false) (λ _. false)
    ≡ ok ((0 ∷ []) ∷ (1 ∷ []) ∷ (2 ∷ 1 ∷ []) ∷ [])
unfolding components_from ℕ_discrete dfs_scc explore check_members erase_all
component_split = refl

check_partition_keeps_example :
    (new_sec : List (List ℕ)) × (check_partition doubles 2 groups ≡ ok (new_sec ++ drop 1 groups))
    × (flatten (new_sec ++ drop 1 groups) ≡ flatten groups)
check_partition_keeps_example = check_partition_keeps doubles 2 groups (omega arith) (omega arith)

ltb-IsStrictOrder : IsStrictOrder doubles
ltb-IsStrictOrder = record {
  irreflexive = λ a. ground arith;
  transitive = λ a b c h k. ground (arith, h, k);
}

best_plan_least_example :
    (r : ℕ) × (get_elem? (5 ∷ 3 ∷ 4 ∷ []) (best_plan doubles (5 ∷ 3 ∷ 4 ∷ [])) ≡ some r)
    × ((j : ℕ) (t : ℕ) → get_elem? (5 ∷ 3 ∷ 4 ∷ []) j ≡ some t → ltb t r ≡ false)
best_plan_least_example = best_plan_least doubles ltb-IsStrictOrder 5 (3 ∷ 4 ∷ [])

find_sccs_lem_example :
    (count : ℕ) × (find_sccs 6 reg ≡ ok (replicate count [])) × (length (keys 6 reg) ≤ count)
find_sccs_lem_example = find_sccs_lem 6 reg reg-IsGraph

-- Every loop with the maps of the body above.
abbrev body_dg : Dg
body_dg = record {
  if_loop_dist = λ _. some true;
  dg_of_loops = λ _. some reg;
  dg_of_loops_mem = λ _. some mem_map;
  num_of_nodes = λ _. some 6;
}

body_dg-HasEntries : HasEntries 6 body_dg
body_dg-HasEntries l m e =
    let at : reg ≡ m = cc e in
    subst (λ z. IsEntry 6 z mem_map) at
      (record { reg_graph = reg-IsGraph; mem_graph = mem-IsGraph; same_keys = same-keys })

output_all-total_example :
    (after : LoopSccs) × (output_all doubles false 6 body_dg nest (λ _. none) ≡ ok after)
output_all-total_example = output_all-total doubles 6 body_dg body_dg-HasEntries nest (λ _. none)
