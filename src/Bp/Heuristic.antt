-- ===== src/Bp/Heuristic.antt =====
-- BP::check_partition of lib/splitpass/BP.cpp, with include/machine.h: which neighbouring groups
-- to merge again. The C++ `double` is a parameter. `iterationScore` and `multiCoreScore` are filled
-- there and never read by the final score, so they are left out. The groups are counted by `int`:
-- the number of plans, 2 to the number of places to cut, does not fit for 31 places or more.
pub mod Cuts
pub mod Merge
pub mod Best
use llvm_loop_fission.Base.{
  ℕ, zero, suc, ◌+◌, ◌-◌, ◌*◌, ◌/◌, ◌^◌, Bool, true, false, List, [], ◌∷◌, ◌++◌, map, Result, ok,
  undefined, ◌>>=◌, if◌then◌else◌, ltb, leb, ◌==◌, length, take, drop, range_from,
}

-- The operations of `double` that the scores use.
pub record Doubles : Type 1 where
  pub Double : Type 0
  pub of_int : ℕ → Double
  pub add : Double → Double → Double
  pub sub : Double → Double → Double
  pub mul : Double → Double → Double
  pub div : Double → Double → Double
  pub less : Double → Double → Bool

-- `pCut` for the plan `cur`: the bit at each place, from place 0. The highest is split off first.
pub cuts : ℕ → ℕ → List ℕ
cuts zero cur = []
cuts (suc place) cur = cuts place (cur - (cur / 2 ^ place) * 2 ^ place) ++ (cur / 2 ^ place) ∷ []

-- `CurSizeGroup`: the sizes of the merged groups.
pub sizes_from : ℕ → List ℕ → List ℕ → List ℕ
sizes_from cursize [] sizes = cursize ∷ []
sizes_from cursize (cut ∷ pcut) [] = cursize ∷ []
sizes_from cursize (cut ∷ pcut) (size ∷ sizes) =
    if cut == 0
    then sizes_from (cursize + size) pcut sizes
    else cursize ∷ sizes_from size pcut sizes

-- The new partition for the plan `pcut`, from the group `tmp` on.
pub merge : List ℕ → List ℕ → List (List ℕ) → List (List ℕ)
merge tmp [] rest = tmp ∷ []
merge tmp (cut ∷ pcut) [] = tmp ∷ []
merge tmp (cut ∷ pcut) (scc ∷ rest) =
    if cut == 0 then merge (tmp ++ scc) pcut rest else tmp ∷ merge scc pcut rest

pub sum : List ℕ → ℕ
sum [] = 0
sum (x ∷ xs) = x + sum xs

abbrev pub i_cache_size : ℕ
i_cache_size = 16

abbrev pub overflow_penalty : ℕ
overflow_penalty = 20

module _ (d : Doubles) where
  open d use {Double, of_int, add, sub, mul, div, less}

  -- `if (s > best) { best = s; }`, over all scores.
  pub largest : Double → List Double → Double
  largest best [] = best
  largest best (s ∷ ss) = largest (if less best s then s else best) ss

  pub penalty : ℕ → Double
  penalty cursize =
      if leb cursize i_cache_size
      then sub (of_int i_cache_size) (of_int cursize)
      else mul (sub (of_int cursize) (of_int i_cache_size)) (of_int overflow_penalty)

  -- `sumPS += tmpPS`, from the sum so far.
  pub total : Double → List Double → Double
  total acc [] = acc
  total acc (p ∷ ps) = total (add acc p) ps

  -- `IcacheScore` of one plan, whose groups have the sizes `plan`.
  pub icache_score : List ℕ → Double
  icache_score plan =
      let ps = map penalty plan in
      div (add (div (total (of_int 0) ps) (of_int (length plan))) (largest (of_int 0) ps))
        (of_int 2)

  -- `extrainstScore` of one plan.
  pub extra_score : ℕ → ℕ → List ℕ → Double
  extra_score header_insts total_instrs plan =
      div (of_int (length plan * header_insts)) (mul (of_int 100) (of_int total_instrs))

  -- The sizes of the groups of every plan, two instructions added to each.
  pub plan_sizes : ℕ → List ℕ → List (List ℕ)
  plan_sizes size sizes =
      map (λ idx. map (λ s. s + 2) (sizes_from size (cuts (length sizes) idx) sizes))
        (range_from 0 (2 ^ length sizes))

  head_or : Double → List Double → Double
  head_or s [] = s
  head_or s (t ∷ ts) = t

  -- `Scores`; both weights are 1.
  pub scores : ℕ → ℕ → List ℕ → List Double
  unfolding head_or
  scores header_insts size sizes =
      let plans = plan_sizes size sizes in
      let icache = map icache_score plans in
      let max_score = largest (head_or (of_int 0) icache) icache in
      let score = λ (plan : List ℕ).
        add (mul (div (icache_score plan) max_score) (of_int 1))
          (mul (extra_score header_insts (size + sum sizes) plan) (of_int 1)) in
      map score plans

  -- The loop over the plans: the place of the best score so far, and that score.
  pub best_from : ℕ → ℕ → Double → List Double → ℕ
  best_from i min min_score [] = min
  best_from i min min_score (s ∷ ss) =
      best_from (suc i) (if less s min_score then i else min)
        (if less s min_score then s else min_score) ss

  pub best_plan : List Double → ℕ
  best_plan [] = 0
  best_plan (s ∷ ss) = best_from 0 0 s (s ∷ ss)

  -- The groups without the last two, merged.
  pub merged : ℕ → List (List ℕ) → Result (List (List ℕ))
  merged header_insts [] = undefined
  merged header_insts (scc ∷ rest) =
      if ltb 30 (length rest)
      then undefined
      else ok (
          merge scc
            (cuts (length rest) (best_plan (scores header_insts (length scc) (map length rest))))
            rest)

  -- With fewer than three groups the scores are read out of bounds.
  pub check_partition : ℕ → List (List ℕ) → Result (List (List ℕ))
  check_partition header_insts old_scc =
      let scc_no = length old_scc - 2 in
      merged header_insts (take scc_no old_scc) >>= λ new_sec. ok (new_sec ++ drop scc_no old_scc)
