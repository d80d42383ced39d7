-- ===== src/Bp/Heuristic/Merge.antt =====
-- The merging of neighbouring groups in BP::check_partition.
use mathlib.Core.List.{flatten}
use llvm_loop_fission.Base.{
  ℕ, zero, suc, ◌≤◌, ◌<◌, ◌≡◌, refl, ap, sym, ◌∙◌, List, [], ◌∷◌, ◌++◌, map, ok, ◌>>=◌, arith,
  length, length-append, append_assoc, take, drop, take-append-drop, Bool-cases, inl, inr, ◌==◌,
  ◌-◌,
}
use llvm_loop_fission.Bp.Heuristic.{
  cuts, sizes_from, merge, Doubles, best_plan, scores, merged, check_partition,
}
use llvm_loop_fission.Bp.Heuristic.Cuts.{length-cuts}

flatten-merge :
    (tmp pcut : List ℕ) (rest : List (List ℕ))
    → length pcut ≡ length rest
    → flatten (merge tmp pcut rest) ≡ tmp ++ flatten rest
unfolding merge flatten
flatten-merge tmp [] [] h = refl
flatten-merge tmp [] (s ∷ rest) h = absurd (omega arith)
flatten-merge tmp (c ∷ pcut) [] h = absurd (omega arith)
flatten-merge tmp (c ∷ pcut) (s ∷ rest) h = elim (Bool-cases (c == 0)) [
  | inl join ↦
      rw (join, merge)
        (flatten-merge (tmp ++ s) pcut rest (omega arith) ∙ append_assoc tmp s (flatten rest))
  | inr cut ↦ rw (cut, merge) (ap (◌++◌ tmp) (flatten-merge s pcut rest (omega arith)))
]

length-merge :
    (tmp pcut : List ℕ) (rest : List (List ℕ))
    → map length (merge tmp pcut rest) ≡ sizes_from (length tmp) pcut (map length rest)
unfolding merge sizes_from
length-merge tmp [] rest = refl
length-merge tmp (c ∷ pcut) [] = refl
length-merge tmp (c ∷ pcut) (s ∷ rest) = elim (Bool-cases (c == 0)) [
  | inl join ↦
      rw (join, merge, sizes_from)
        (length-merge (tmp ++ s) pcut rest
          ∙ ap (λ n. sizes_from n pcut (map length rest)) (length-append tmp s))
  | inr cut ↦ rw (cut, merge, sizes_from) (ap (◌∷◌ (length tmp)) (length-merge s pcut rest))
]

flatten-append : (xs ys : List (List ℕ)) → flatten (xs ++ ys) ≡ flatten xs ++ flatten ys
unfolding flatten
flatten-append [] ys = refl
flatten-append (x ∷ xs) ys =
    ap (◌++◌ x) (flatten-append xs ys) ∙ sym (append_assoc x (flatten xs) (flatten ys))

merged_lem :
    (d : Doubles) (header_insts : ℕ) (old : List (List ℕ))
    → 0 < length old
    → length old ≤ 31
    → (new_sec : List (List ℕ)) × (merged d header_insts old ≡ ok new_sec)
      × (flatten new_sec ≡ flatten old)
unfolding merged flatten
merged_lem d header [] h k = absurd (omega arith)
merged_lem d header (scc ∷ rest) h k =
    let pcut = cuts (length rest) (best_plan d (scores d header (length scc) (map length rest))) in
    (merge scc pcut rest, ground arith, flatten-merge scc pcut rest (length-cuts (length rest) _))

length-take : {A : Type 0} (n : ℕ) (xs : List A) → n ≤ length xs → length (take n xs) ≡ n
length-take zero xs h = refl
length-take (suc n) [] h = absurd (omega arith)
length-take (suc n) (x ∷ xs) h = ap suc (length-take n xs (omega arith))

-- From 3 to 33 groups on BP::check_partition returns, whatever the scores are: every instruction
-- stays, in its order, and the last two groups are passed on as they are.
pub check_partition_keeps :
    (d : Doubles) (header_insts : ℕ) (old_scc : List (List ℕ))
    → 3 ≤ length old_scc
    → length old_scc ≤ 33
    → (new_sec : List (List ℕ)) × (check_partition d header_insts old_scc
        ≡ ok (new_sec ++ drop (length old_scc - 2) old_scc))
      × (flatten (new_sec ++ drop (length old_scc - 2) old_scc) ≡ flatten old_scc)
unfolding check_partition
check_partition_keeps d header old h k =
    let n = length old - 2 in
    let len = length-take n old (omega arith) in
    let (new_sec, run, same) = merged_lem d header (take n old) (omega arith) (omega arith) in
    (
      new_sec,
      rw (run, ◌>>=◌) refl,
      flatten-append new_sec (drop n old)
          ∙ ap (λ l. l ++ flatten (drop n old)) same
          ∙ sym (flatten-append (take n old) (drop n old))
          ∙ ap flatten (take-append-drop n old),
    )
