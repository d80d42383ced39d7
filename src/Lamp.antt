-- ===== src/Lamp.antt =====
-- The memory profiler of tools/lamp-profiler and tools/utils, which runs in the instrumented program.
pub mod Values
pub mod Profile
pub mod Hierarchy
pub mod Stamps
pub mod Hooks
pub mod Session
use llvm_loop_fission.Base.{ℕ, suc, ◌%◌, ◌^◌}

-- `++` on uint64_t.
abbrev pub bump64 : ℕ → ℕ
bump64 n = suc n % 2 ^ 64
