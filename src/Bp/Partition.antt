-- ===== src/Bp/Partition.antt =====
-- BP::build_partition of lib/splitpass/BP.cpp: the groups of instructions that register
-- dependences connect.
pub mod Components
pub mod Loop
use llvm_loop_fission.Base.{
  ℕ, suc, Bool, false, List, [], ◌∷◌, Result, ok, ◌>>=◌, if◌then◌else◌, range_from, ℕ_discrete,
  true,
}
use llvm_loop_fission.Bp.Maps.{Instruction, InstMapSet, deps, has}
use llvm_loop_fission.Bp.Search.{Visited, dfs}

-- The keys of the map, in the order of the iteration.
abbrev pub keys_among : InstMapSet → List ℕ → List ℕ
keys_among m [] = []
keys_among m (k ∷ ks) = if has m k then k ∷ keys_among m ks else keys_among m ks

abbrev pub keys : ℕ → InstMapSet → List ℕ
keys n m = keys_among m (range_from 0 n)

-- The loop over the keys. A recursion of `dfs` goes down at most once for each instruction.
pub partition_from :
    ℕ → InstMapSet → List Instruction → Visited Instruction → Result (List (List Instruction))
partition_from n m [] visited = ok []
partition_from n m (inst ∷ rest) visited = elim (visited inst) [
  | true ↦ partition_from n m rest visited
  | false ↦ do
    r ← dfs ℕ_discrete (suc n) (deps m) inst visited
    parts ← partition_from n m rest r.1
    ok (r.0 ∷ parts)
]

pub build_partition : ℕ → InstMapSet → Result (List (List Instruction))
build_partition n m = partition_from n m (keys n m) (λ _. false)
