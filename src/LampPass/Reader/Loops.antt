-- ===== src/LampPass/Reader/Loops.antt =====
-- The numbers of loops that LAMPBuildLoopMap gives, and those in the hooks of LAMPLoopProfiler.
use llvm_loop_fission.Base.{
  ℕ, suc, ◌+◌, ◌%◌, ◌^◌, ◌<◌, ◌≡◌, refl, ap, ◌∙◌, false, List, [], ◌∷◌, map, some, if◌then◌else◌,
  ok, arith, length, Distinct, elem, ℕ_discrete,
}
use llvm_loop_fission.LampPass.{Counter, get_count_insts}
use llvm_loop_fission.LampPass.LoopHooks.{
  Blocks, LoopShape, LoopState, new_loop_state, run_on_loops,
}
use llvm_loop_fission.LampPass.LoopHooks.Calls.{HasCode}
use llvm_loop_fission.LampPass.LoopHooks.Numbers.{IsNumbered, AllSimple, run_on_loops-from}
use llvm_loop_fission.LampPass.Reader.{LoopIds, new_loop_ids, map_loop, map_loops}

abbrev pub header_of : LoopShape → ℕ
header_of lp = lp.header

-- The number before the next loop's, where the next loop is to get n.
abbrev IsBefore : Counter → LoopIds → ℕ → Type 0
IsBefore counter ids n =
    (if ids.id_init_flag then ids.loop_id else (get_count_insts counter + 4294967295) % 2 ^ 32)
    ≡ (n + 4294967295) % 2 ^ 32

-- The maps send the numbers from a first one on and the headers to each other.
abbrev pub IsLoopIds : LoopIds → ℕ → List ℕ → Type 0
IsLoopIds ids n [] = Unit
IsLoopIds ids n (h ∷ headers) =
    ((ids.id_to_loop n ≡ some h) × (ids.loop_to_id h ≡ some n)) × IsLoopIds ids (suc n) headers

module _ (counter : Counter) where
  map_loop_lem :
      (header : ℕ) (ids : LoopIds) (n : ℕ)
      → IsBefore counter ids n
      → n < 2 ^ 32
      → (map_loop counter header ids).loop_id ≡ n
  unfolding map_loop
  map_loop_lem header ids n at h = omega (arith, at, h)

  map_loops-below :
      (headers : List ℕ) (ids : LoopIds) (n k : ℕ)
      → IsBefore counter ids n
      → n + length headers < 2 ^ 32
      → k < n
      → (map_loops counter headers ids).id_to_loop k ≡ ids.id_to_loop k
  unfolding map_loops map_loop
  map_loops-below [] ids n k at h less = refl
  map_loops-below (header ∷ headers) ids n k at h less =
      let number = map_loop_lem header ids n at (omega (arith, h)) in
      map_loops-below headers (map_loop counter header ids) (suc n) k (number ∙ omega (arith, h))
        (omega (arith, h)) (omega (arith, less))
      ∙ ground (arith, number, less)

  map_loops-outside :
      (headers : List ℕ) (ids : LoopIds) (h : ℕ)
      → elem ℕ_discrete h headers ≡ false
      → (map_loops counter headers ids).loop_to_id h ≡ ids.loop_to_id h
  unfolding map_loops map_loop
  map_loops-outside [] ids h o = refl
  map_loops-outside (header ∷ headers) ids h o =
      map_loops-outside headers (map_loop counter header ids) h (ground (arith, o))
      ∙ ground (arith, o, ℕ_discrete h header)

  map_loops-from :
      (headers : List ℕ) (ids : LoopIds) (n : ℕ)
      → Distinct ℕ_discrete headers
      → IsBefore counter ids n
      → n + length headers < 2 ^ 32
      → IsLoopIds (map_loops counter headers ids) n headers
  unfolding map_loops map_loop
  map_loops-from [] ids n d at h = tt
  map_loops-from (header ∷ headers) ids n d at h =
      let number = map_loop_lem header ids n at (omega (arith, h)) in
      let next = map_loop counter header ids in
      let there : IsBefore counter next (suc n) = number ∙ omega (arith, h) in
      (
        (
          map_loops-below headers next (suc n) n there (omega (arith, h)) (omega arith)
              ∙ ground (arith, number),
          map_loops-outside headers next header d.0 ∙ ground (arith, number),
        ),
        map_loops-from headers next (suc n) d.1 there (omega (arith, h)),
      )

length-map : (loops : List LoopShape) → length (map header_of loops) ≡ length loops
length-map [] = refl
length-map (lp ∷ loops) = ap suc (length-map loops)

-- For loops with different headers, each with a preheader and a latch, in a function whose blocks all
-- have an instruction that is no phi, and with fewer than 2^32 loops and counted instructions
-- together: the passes of LAMPLoopProfiler return; they count the loops; the preheader of each loop
-- then calls LAMP_loop_invocation with a number, the number of counted instructions for the first
-- loop and one more for each next loop; and LAMPBuildLoopMap's maps send these numbers and the
-- headers of the loops to each other.
pub run_on_loops-map_loops :
    (loops : List LoopShape) (counter : Counter) (blocks : Blocks)
    → AllSimple loops
    → HasCode blocks
    → Distinct ℕ_discrete (map header_of loops)
    → get_count_insts counter + length loops < 2 ^ 32
    → counter.num_loops ≡ 0
    → (counter' : Counter) × (s : LoopState) × (next : Blocks) × (run_on_loops loops
          (counter, new_loop_state, blocks)
        ≡ ok (counter', s, next))
      × (counter'.num_loops ≡ length loops)
      × IsNumbered next (get_count_insts counter) loops
      × IsLoopIds
          (map_loops counter (map header_of loops) new_loop_ids)
          (get_count_insts counter)
          (map header_of loops)
run_on_loops-map_loops loops counter blocks simple code d few none_yet =
    let (counter', s, next, run, count, numbered, grows) =
      run_on_loops-from loops counter new_loop_state blocks (get_count_insts counter) simple code
        refl few (omega (arith, few)) none_yet in
    let size = length-map loops in
    (
      counter',
      s,
      next,
      run,
      omega (arith, count),
      numbered,
      map_loops-from counter (map header_of loops) new_loop_ids (get_count_insts counter) d refl
          (omega (arith, size, few)),
    )
