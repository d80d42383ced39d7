-- ===== src/Lib.antt =====
-- The loop fission passes of this repository, modelled and proved.
--
-- The program splits innermost loops for LLVM. lib/splitpass/DG.cpp builds two dependence graphs of
-- an innermost loop, by registers and by memory; lib/splitpass/BP.cpp partitions the loop's
-- instructions by them; splitpass2.cpp clones the loop once for each partition. A memory profiler
-- (tools/lamp-profiler, tools/utils) runs in the instrumented program.
--
-- Which file models which part:
--   Base, Base/*    shared names, lists over native numbers, the results of a run
--   Loops           what the passes read of LLVM: loops, blocks, classes of instructions
--   Dg              DG::buildDG and DG::runOnFunction; Dg/Laws (register entries), Dg/Memory (memory
--                   entries), Dg/Blocks (accepted loops, traversal), Dg/Accepted (handed to BP)
--   Bp/Maps         inst_map_set of include/BP.h; Bp/Vectors: inst_vec_vec, inst_map_vec_set
--   Bp/Dual         BP::dual_dg_map
--   Bp/Search       BP::dfs and BP::dfs_scc, one definition over any type of nodes
--   Bp/Partition    BP::build_partition
--   Bp/Edges        BP::find_prdg and BP::find_edges
--   Bp/Scc          the loops of BP::build_scc, with both of its maps of marks
--   Bp/Heuristic    BP::check_partition
--   Bp/Plan         BP::build_scc whole, and the pipeline of BP::OutputBP
--   Output          BP::OutputBP and BP::runOnFunction over the loops; Output/Total
--   Lamp/Values     ValueProfile of tools/utils/ValueProfile.hxx; Lamp/Values/Exact: its counts
--   Lamp/Profile    KeyDistanceProfiler and MemoryProfiler of tools/utils/Profile.hxx and
--                   MemoryProfile.hxx; Lamp/Profile/Lookup, Lamp/Profile/Counts,
--                   Lamp/Profile/Printed (what is printed)
--   Lamp/Hierarchy  LoopHierarchy of tools/utils/LoopHierarchy.hxx; Lamp/Hierarchy/Stack,
--                   Lamp/Hierarchy/Distance, Lamp/Hierarchy/Total, Lamp/Hierarchy/Depth
--   Memory          MemoryPage, MemoryMap and MemoryNodeMap of tools/utils/MemoryMap.hxx: Memory/Page
--                   and Memory/Map, with what they hold for each byte in Memory/Page/Status and
--                   Memory/Map/Look; Memory/Bits (the masks); Memory/Values, the values of
--                   several bytes: Memory/Values/Parts, Memory/Values/Round
--   Lamp/Stamps     timestamp_t and form_timestamp of tools/lamp-profiler/lamp_hooks.cxx
--   Lamp/Hooks      the hooks for loads, stores and allocations of that file; Lamp/Hooks/Running (the
--                   page cache), Lamp/Hooks/Stores, Lamp/Hooks/Regions, Lamp/Hooks/Counted and
--                   Lamp/Hooks/Loads (what a load reports), Lamp/Hooks/Flow (a store and a load)
--   Lamp/Session    LAMP_init and the hooks for loops; Lamp/Session/Start; Lamp/Session/Past (the state
--                   between hooks), Lamp/Session/Kept and Lamp/Session/Steps (the hooks as steps)
--   Split           instMap of SplitPass2::CreateOneLoop (lib/splitpass/splitpass2.cpp); Split/Clones
--   Split/Cfg       the blocks of a function and how splitpass2 changes them; Split/Cfg/Views, what a
--                   change does to the successors
--   Split/Create    SplitPass2::CreateOneLoop and the copies that runOnFunction makes with it;
--                   Split/Create/Copies, Connect, Links, Ready, Flow and Loop (one copy), Straight (a
--                   loop whose blocks follow one another), Exits, Chain and Copying (all copies);
--                   Split/Cfg/Phis and Split/Create/Incoming, what becomes of the phis
--   LampPass        LdStCallCounter of lib/LAMPProfiling.cpp; LampPass/Profiled, what it counts
--   LampPass/Instrument   the pass LAMPProfiler; LampPass/Instrument/Ids, the numbers in its hooks
--   LampPass/LoopHooks    the passes LAMPLoopProfiler and LAMPInit; LampPass/LoopHooks/Calls, Numbers
--   LampPass/Reader       LAMPBuildLoopMap and LAMPLoadProfile of lib/LAMPLoadProfile.cpp;
--                   LampPass/Reader/Ids, Agree and Loops (its numbers and those in the hooks),
--                   LampPass/Reader/Line and Round (the profile of Lamp/Profile/Printed read back)
--   SccPass         the searches of lib/splitpass/splitpass_scc.cpp; SccPass/Outcome
--   Tests           one loop body, and each result applied to it; Tests/Profiler,
--                   Tests/Splitting, Tests/Copying, Tests/Memory, Tests/Hooks, Tests/Passes
--
-- An instruction is a number, its address: std::map and std::set order their keys by it. A map is a
-- function into Option, a set a sorted list. A graph with a bound `n` has its keys below `n`, so that
-- iterating over the map is counting to `n`. The searches recur on fuel, one more than the number of
-- nodes, which is enough, since each call marks a node. An operation that C++ leaves undefined is the
-- result `undefined`: the second erase through a stale iterator in dfs, falling off the end of
-- find_prdg, a shift or index out of range in check_partition. A call of abort(), and an exception
-- that nothing catches, is the result `aborted`. The loops of the profiler count down the bytes that
-- are left, and need no fuel; the loop of LAMP_init over the granularity has fuel for the 32 bits that
-- it doubles, which is enough up to a granularity of 2^31. The profiler's state is that of the
-- globals; an address has 64 bits.
--
-- Parameters: LLVM's instruction classes, use lists and DependenceAnalysis (`Llvm`), the type
-- `double` with its operations (`Doubles`), and the circular buffer of tools/utils/CircularQueue.hxx,
-- another project's (`Buffers`, with `IsRing` for what it documents). What `new` leaves in the values
-- of a page is a parameter too (`fresh`). For splitpass2 LLVM's CloneBasicBlock, getExitBlock and
-- getLoopPredecessor are parameters, with what they document in `IsCloning` and `IsExiting`; for the
-- LAMP passes the sizes of types are, and how C++ writes and reads a number (`IsNumberText`).
--
-- Not modelled: the output of the passes (printDG, dumpBP) and the statistics of LAMP_finish, what
-- splitpass2 erases from a loop and its copies, which LLVM lets it only where no use is left, and its
-- loop over the partitions, the merges and commits of BytePage and the MemoryValueMap of
-- tools/utils/MemoryMap.hxx, which the profiler does not use, the _st variants of the hooks, which pass
-- globals on to them, and the copies of GCC's loop distribution under scc/.
mod Base
mod Tests
pub mod Loops
pub mod Bp
pub mod Dg
pub mod Lamp
pub mod SccPass
pub mod Split
pub mod Output
pub mod Memory
pub mod LampPass
