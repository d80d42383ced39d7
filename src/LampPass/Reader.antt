-- ===== src/LampPass/Reader.antt =====
-- lib/LAMPLoadProfile.cpp: the numbers of instructions and loops, and the reader of the profile that
-- the runtime prints. `showing` is operator<< of a number and `str_to_int` the operator>> that the
-- source calls by that name; a string is the list of its characters.
pub mod Agree
pub mod Ids
pub mod Line
pub mod Loops
pub mod Round
use llvm_loop_fission.Base.{
  ℕ, ◌+◌, ◌%◌, ◌^◌, Bool, true, false, not, ◌||◌, ◌&&◌, List, [], ◌∷◌, ◌++◌, Option, none, some,
  if◌then◌else◌, ◌==◌, ltb, drop, Result, ok, aborted, ◌>>=◌,
}
use llvm_loop_fission.Dg.{put}
use llvm_loop_fission.LampPass.{
  InstKind, load, store, call, Inst, Function, Counter, bump32, is_external, get_count_insts,
}

-- LAMPLoadProfile::lamp_id, IdToInstMap and InstToIdMap.
pub record InstIds : Type 0 where
  pub lamp_id : ℕ
  pub id_to_inst : ℕ → Option ℕ
  pub inst_to_id : ℕ → Option ℕ

abbrev pub new_ids : InstIds
new_ids = record { lamp_id = 4294967295; id_to_inst = λ _. none; inst_to_id = λ _. none }

abbrev pub add_id : ℕ → InstIds → InstIds
add_id inst ids =
    let next = bump32 ids.lamp_id in
    record {
      lamp_id = next;
      id_to_inst = put ids.id_to_inst next inst;
      inst_to_id = put ids.inst_to_id inst next;
    }

pub map_inst : Inst → InstKind → InstIds → InstIds
map_inst i (load p ty) ids = add_id i.id ids
map_inst i (store p v ty) ids = add_id i.id ids
map_inst i (call callee) ids = if is_external callee then add_id i.id ids else ids
map_inst i _ ids = ids

pub map_block : List Inst → InstIds → InstIds
map_block [] ids = ids
map_block (i ∷ insts) ids = map_block insts (map_inst i i.kind ids)

pub map_function : List (List Inst) → InstIds → InstIds
map_function [] ids = ids
map_function (bb ∷ blocks) ids = map_function blocks (map_block bb ids)

pub map_module : List Function → InstIds → InstIds
map_module [] ids = ids
map_module (f ∷ m) ids =
    map_module m (if not f.is_declaration then map_function f.blocks ids else ids)

-- LAMPBuildLoopMap: loop_id, IdInitFlag, IdToLoopMap and LoopToIdMap, which are also kept globally.
pub record LoopIds : Type 0 where
  pub loop_id : ℕ
  pub id_init_flag : Bool
  pub id_to_loop : ℕ → Option ℕ
  pub loop_to_id : ℕ → Option ℕ

abbrev pub new_loop_ids : LoopIds
new_loop_ids = record {
  loop_id = 0;
  id_init_flag = false;
  id_to_loop = λ _. none;
  loop_to_id = λ _. none;
}

-- LAMPBuildLoopMap::runOnLoop, for the loop with this header.
pub map_loop : Counter → ℕ → LoopIds → LoopIds
map_loop counter header ids =
    let before =
      if ids.id_init_flag then ids.loop_id else (get_count_insts counter + 4294967295) % 2 ^ 32 in
    let next = bump32 before in
    record {
      loop_id = next;
      id_init_flag = true;
      id_to_loop = put ids.id_to_loop next header;
      loop_to_id = put ids.loop_to_id header next;
    }

pub map_loops : Counter → List ℕ → LoopIds → LoopIds
map_loops counter [] ids = ids
map_loops counter (header ∷ headers) ids = map_loops counter headers (map_loop counter header ids)

-- A pair of LoopToDepSetMap with its entry of DepToTimesMap.
pub record Dep : Type 0 where
  pub first : ℕ
  pub second : ℕ
  pub times : ℕ

-- The variables of the reader. The std::set of pointers to new pairs is a list here, the newest first;
-- LoopToDepSetMap has no entry where the list is empty. A loop that the map of loops does not have is
-- the null pointer, `none`.
pub record Reader : Type 0 where
  pub num_cnt : ℕ
  pub i1_id : ℕ
  pub cross_iter : ℕ
  pub loop_id : ℕ
  pub i2_id : ℕ
  pub deps : Option ℕ → List Dep

abbrev pub new_reader : Reader
new_reader = record {
  num_cnt = 0;
  i1_id = 0;
  cross_iter = 0;
  loop_id = 0;
  i2_id = 0;
  deps = λ _. [];
}

abbrev pub same_loop : Option ℕ → Option ℕ → Bool
same_loop none none = true
same_loop none (some b) = false
same_loop (some a) none = false
same_loop (some a) (some b) = a == b

abbrev pub add_dep : Option ℕ → Dep → (Option ℕ → List Dep) → Option ℕ → List Dep
add_dep bb dep deps loop = if same_loop loop bb then dep ∷ deps loop else deps loop

-- A string that holds a character, and one that holds "END".
unfoldable pub has_char : ℕ → List ℕ → Bool
has_char c [] = false
has_char c (d ∷ s) = d == c || has_char c s

abbrev pub starts : List ℕ → List ℕ → Bool
starts [] s = true
starts (c ∷ cs) [] = false
starts (c ∷ cs) (d ∷ s) = d == c && starts cs s

abbrev pub end_word : List ℕ
end_word = 69 ∷ 78 ∷ 68 ∷ []

unfoldable pub has_end : List ℕ → Bool
has_end [] = false
has_end (d ∷ s) = starts end_word (d ∷ s) || has_end s

-- The "(" at the front is erased; elsewhere it fails the assertion.
pub strip_left : List ℕ → Result (List ℕ)
strip_left [] = ok []
strip_left (c ∷ s) = if has_char 40 (c ∷ s) then (if c == 40 then ok s else aborted) else ok (c ∷ s)

abbrev pub both_known :
    Option ℕ → Option ℕ → Option ℕ → ℕ → (Option ℕ → List Dep) → Option ℕ → List Dep
both_known none second bb times deps = deps
both_known (some a) none bb times deps = deps
both_known (some a) (some b) bb times deps =
    add_dep bb (record { first = a; second = b; times = times }) deps

module _ (id_to_inst : ℕ → Option ℕ) (id_to_loop : ℕ → Option ℕ) where
  -- The switch on `num_cnt % 6`.
  abbrev pub take_field : ℕ → ℕ → Reader → Reader
  take_field field num r =
      if field == 1
      then record r { i1_id = num }
      else (if field == 2
          then record r { cross_iter = num }
          else (if field == 3
              then record r { loop_id = num }
              else (if field == 4
                  then record r { i2_id = num }
                  else (if field == 5
                      then record r {
                        deps =
                            both_known (id_to_inst r.i1_id) (id_to_inst r.i2_id)
                              (id_to_loop r.loop_id) num r.deps;
                      }
                      else r))))

  pub read_number : ℕ → Reader → Reader
  read_number num r =
      let next = bump32 r.num_cnt in take_field (next % 6) num (record r { num_cnt = next })

  -- The loop over the strings that `ifs >> s` gives.
  pub read_strings : (List ℕ → ℕ) → List (List ℕ) → Reader → Result Reader
  read_strings str_to_int [] r = ok r
  read_strings str_to_int (s ∷ strings) r =
      if has_char 41 s then read_strings str_to_int strings r else (do
        t ← strip_left s
        if has_end t then ok r else read_strings str_to_int strings (read_number (str_to_int t) r))

  -- The file without its first three strings.
  pub read_profile : (List ℕ → ℕ) → List (List ℕ) → Result Reader
  read_profile str_to_int strings = read_strings str_to_int (drop 3 strings) new_reader

-- The largest number of times of a loop's dependences.
pub max_dep_times : List Dep → ℕ → ℕ
max_dep_times [] max_times = max_times
max_dep_times (dep ∷ deps) max_times =
    max_dep_times deps (if ltb max_times dep.times then dep.times else max_times)

-- LoopToMaxDepTimesMap
abbrev pub loop_to_max : (Option ℕ → List Dep) → Option ℕ → Option ℕ
loop_to_max deps bb = elim (deps bb) [
  | [] ↦ none
  | dep ∷ rest ↦ some (max_dep_times (dep ∷ rest) 0)
]
