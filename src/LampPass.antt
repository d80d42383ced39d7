-- ===== src/LampPass.antt =====
-- lib/LAMPProfiling.cpp: the module that the LAMP passes instrument, and the pass LdStCallCounter.
pub mod Instrument
pub mod LoopHooks
pub mod Profiled
pub mod Reader
use llvm_loop_fission.Base.{
  ℕ, ◌+◌, ◌%◌, ◌^◌, Bool, true, false, not, List, [], ◌∷◌, ◌++◌, if◌then◌else◌,
}

-- The types that the passes tell apart; the size of a type is DataLayout's.
pub data Ty : Type 0 where
  float double pointer : Ty
  integer : ℕ → Ty
  other_type : ℕ → Ty

-- The called function of a call: none for an indirect call, a declaration, or one with a body.
pub data Callee : Type 0 where
  indirect declared has_body : Callee

-- A load has its pointer and the loaded type, a store its pointer, its value and the value's type.
pub data InstKind : Type 0 where
  load : ℕ → Ty → InstKind
  store : ℕ → ℕ → Ty → InstKind
  call : Callee → InstKind
  phi alloca terminator other : InstKind

pub record Inst : Type 0 where
  pub id : ℕ
  pub kind : InstKind

pub record Function : Type 0 where
  pub is_main : Bool
  pub is_declaration : Bool
  pub blocks : List (List Inst)

abbrev pub bump32 : ℕ → ℕ
bump32 n = (n + 1) % 2 ^ 32

abbrev pub is_external : Callee → Bool
is_external indirect = true
is_external declared = true
is_external has_body = false

-- LdStCallCounter, whose fields are static.
pub record Counter : Type 0 where
  pub flag : Bool
  pub num_loads : ℕ
  pub num_stores : ℕ
  pub num_calls : ℕ
  pub num_loops : ℕ

abbrev pub new_counter : Counter
new_counter = record { flag = false; num_loads = 0; num_stores = 0; num_calls = 0; num_loops = 0 }

pub count_inst : InstKind → Counter → Counter
count_inst (load p ty) c = record c { num_loads = bump32 c.num_loads }
count_inst (store p v ty) c = record c { num_stores = bump32 c.num_stores }
count_inst (call callee) c =
    if is_external callee then record c { num_calls = bump32 c.num_calls } else c
count_inst _ c = c

pub count_block : List Inst → Counter → Counter
count_block [] c = c
count_block (i ∷ insts) c = count_block insts (count_inst i.kind c)

pub count_function : List (List Inst) → Counter → Counter
count_function [] c = c
count_function (bb ∷ blocks) c = count_function blocks (count_block bb c)

pub count_module : List Function → Counter → Counter
count_module [] c = c
count_module (f ∷ m) c =
    count_module m (if not f.is_declaration then count_function f.blocks c else c)

-- LdStCallCounter::runOnModule
pub run_counter : List Function → Counter → Counter
run_counter m c = if c.flag then c else record (count_module m c) { flag = true }

-- LdStCallCounter::getCountInsts
unfoldable pub get_count_insts : Counter → ℕ
get_count_insts c = (c.num_loads + c.num_stores + c.num_calls) % 2 ^ 32
