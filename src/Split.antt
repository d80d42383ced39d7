-- ===== src/Split.antt =====
-- lib/splitpass/splitpass2.cpp: the loops that it makes, and the map from their instructions to those
-- of the loop.
pub mod Cfg
pub mod Create
pub mod Clones
use llvm_loop_fission.Base.{ℕ, List, [], ◌∷◌, Option, some, if◌then◌else◌, ◌==◌}
use llvm_loop_fission.Loops.{Block}

-- `instMap`, from an instruction of a clone to the one it was copied from: what CreateOneLoop puts
-- in for the instructions of a block, and of all blocks.
pub map_insts : List ℕ → List ℕ → (ℕ → Option ℕ) → ℕ → Option ℕ
map_insts [] old_insts inst_map = inst_map
map_insts (n ∷ new_insts) [] inst_map = inst_map
map_insts (n ∷ new_insts) (o ∷ old_insts) inst_map =
    map_insts new_insts old_insts (λ i. if i == n then some o else inst_map i)

pub map_blocks : List Block → List Block → (ℕ → Option ℕ) → ℕ → Option ℕ
map_blocks [] body inst_map = inst_map
map_blocks (new ∷ new_body) [] inst_map = inst_map
map_blocks (new ∷ new_body) (old ∷ body) inst_map =
    map_blocks new_body body (map_insts new.insts old.insts inst_map)
