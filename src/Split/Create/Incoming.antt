-- ===== src/Split/Create/Incoming.antt =====
-- The phis that CreateOneLoop leaves: their incoming blocks are the blocks that now come before.
use llvm_loop_fission.Base.{
  ℕ, ◌≡◌, ◌≢◌, refl, ap, sym, subst, ◌∙◌, true, false, List, [], ◌∷◌, map, Option, none, some, ok,
  arith, Distinct, elem, ℕ_discrete, step_ok, step_inv, ok-inj, Option-cases, inl, inr,
}
use llvm_loop_fission.Split.Cfg.{
  Func, block_of, on_block, mapped, fix_phis, on_terminator, set_successor, replace,
}
use llvm_loop_fission.Split.Cfg.Views.{Term, view, view-none}
use llvm_loop_fission.Split.Cfg.Phis.{
  Phis, phis_in, phis_of, each_block, change_phis, change_phis-at, change_phis-other, on_block-phis,
  remap-ChangesPhis, fixed, fix_phis-ChangesPhis, on_terminator-phis, phis-unnumbered,
}
use llvm_loop_fission.Split.Create.{
  Llvm, Copy, copy_blocks, remap_blocks, last_of, link_blocks, connect, create_one_loop,
}
use llvm_loop_fission.Split.Create.Copies.{IsCloning, put_all, FirstCode, Copied, copy_blocks_lem}
use llvm_loop_fission.Split.Create.Ready.{All-IsThere}
use llvm_loop_fission.Split.Create.Flow.{IsCopied-outside}
use llvm_loop_fission.Split.Create.Loop.{IsLoop, first_copy, connect-IsSplit}
use llvm_loop_fission.Split.Create.Straight.{put_all-other, put_all-head, mapped_missing}

abbrev remap_phis : (ℕ → ℕ) → List ℕ → Phis → Phis
remap_phis r [] v = v
remap_phis r (n ∷ ns) v = remap_phis r ns (change_phis n r v)

remap_phis-other :
    (r : ℕ → ℕ) (ns : List ℕ) (v : Phis) (c : ℕ)
    → elem ℕ_discrete c ns ≡ false
    → remap_phis r ns v c ≡ v c
remap_phis-other r [] v c h = refl
remap_phis-other r (n ∷ ns) v c h =
    remap_phis-other r ns (change_phis n r v) c (ground (arith, h))
    ∙ change_phis-other n c r v (λ e. ground (arith, h, e, ℕ_discrete c n))

remap_blocks-phis :
    (values blocks : ℕ → Option ℕ) (ns : List ℕ) (f f' : Func)
    → remap_blocks values blocks ns f ≡ ok f'
    → phis_of f' ≡ remap_phis (mapped blocks) ns (phis_of f)
unfolding remap_blocks
remap_blocks-phis values blocks [] f f' run = ap phis_of (sym (ok-inj f f' run))
remap_blocks-phis values blocks (n ∷ ns) f f' run =
    let (next, one, rest) = step_inv (on_block n _ f) (remap_blocks values blocks ns) f' run in
    remap_blocks-phis values blocks ns next f' rest
    ∙ ap (remap_phis (mapped blocks) ns)
        (on_block-phis n _ (mapped blocks) f next (remap-ChangesPhis values blocks) one)

link_blocks-phis :
    (n : ℕ) (ns : List ℕ) (f f' : Func) → link_blocks n ns f ≡ ok f' → phis_of f' ≡ phis_of f
unfolding link_blocks
link_blocks-phis n [] f f' run = ap phis_of (sym (ok-inj f f' run))
link_blocks-phis n (m ∷ ns) f f' run =
    let (next, one, rest) = step_inv (on_block n _ f) (link_blocks m ns) f' run in
    link_blocks-phis m ns next f' rest ∙ on_terminator-phis n (set_successor m) f next one

connect-phis :
    (header n : ℕ) (ns : List ℕ) (preheader : Option ℕ) (exit : ℕ) (copy : Copy) (f' : Func)
    → connect header (n ∷ ns) preheader (some exit) copy ≡ ok f'
    → phis_of f'
      ≡ change_phis exit (fixed (some header) n) (
          change_phis n
            (fixed preheader header)
            (remap_phis (mapped copy.blocks) (n ∷ ns) (phis_of copy.func)))
unfolding connect
connect-phis header n ns preheader exit copy f' run =
    let (f1, run1, rest1) =
      step_inv (remap_blocks copy.values copy.blocks (n ∷ ns) copy.func) _ f' run in
    let (f2, run2, rest2) = step_inv (on_block n (fix_phis preheader header) f1) _ f' rest1 in
    let (f3, run3, rest3) = step_inv (on_block exit (fix_phis (some header) n) f2) _ f' rest2 in
    let (f4, run4, rest4) =
      step_inv (on_block (last_of n ns) (on_terminator (set_successor n)) f3) _ f' rest3 in
    let (f5, run5, rest5) = step_inv (link_blocks n ns f4) _ f' rest4 in
    on_terminator-phis header (λ successors. ok (replace exit n successors)) f5 f' rest5
    ∙ link_blocks-phis n ns f4 f5 run5
    ∙ on_terminator-phis (last_of n ns) (set_successor n) f3 f4 run4
    ∙ on_block-phis exit _ (fixed (some header) n) f2 f3 (fix_phis-ChangesPhis (some header) n) run3
    ∙ ap (change_phis exit (fixed (some header) n)) (
        on_block-phis n _ (fixed preheader header) f1 f2 (fix_phis-ChangesPhis preheader header)
          run2
        ∙ ap (change_phis n (fixed preheader header))
            (remap_blocks-phis copy.values copy.blocks (n ∷ ns) copy.func f1 run1))

each_block_twice :
    (t u : ℕ → ℕ) (o : Option (List (List ℕ)))
    → each_block t (each_block u o) ≡ each_block (λ b. t (u b)) o
each_block_twice t u none = refl
each_block_twice t u (some p) = ap some (lists p)
  where
    blocks_twice : (xs : List ℕ) → map t (map u xs) ≡ map (λ b. t (u b)) xs
    blocks_twice [] = refl
    blocks_twice (x ∷ xs) = ap (◌∷◌ (t (u x))) (blocks_twice xs)

    lists : (xs : List (List ℕ)) → map (map t) (map (map u) xs) ≡ map (map (λ b. t (u b))) xs
    lists [] = refl
    lists (x ∷ xs) =
        ap (λ l. l ∷ map (map t) (map (map u) xs)) (blocks_twice x)
        ∙ ap (◌∷◌ (map (λ b. t (u b)) x)) (lists xs)

-- The phis of the first new block are those of the header.
FirstCode-phis :
    (f g : Func) (b n : ℕ) (bs ns : List ℕ)
    → FirstCode f g (b ∷ bs) (n ∷ ns)
    → phis_of g n ≡ phis_of f b
unfolding phis_of
FirstCode-phis f g b n bs ns (xs, ys, old, new, same) =
    ap phis_in new ∙ ap some (phis-unnumbered ys xs same) ∙ sym (ap phis_in old)

-- The blocks that were there keep their phis while others are copied.
Copied-phis :
    (f : Func) (inst_map : ℕ → Option ℕ) (out : Copy) (body ns : List ℕ) (c : ℕ) (s : Term)
    → Copied (first_copy f inst_map) out body ns
    → view f c ≡ some s
    → phis_of out.func c ≡ phis_of f c
unfolding phis_of
Copied-phis f inst_map out body ns c s copied h = elim (Option-cases (block_of c f)) [
  | inl missing ↦ cc (view-none f c missing, h)
  | inr (insts, found) ↦ ap phis_in (copied.holds c insts found) ∙ sym (ap phis_in found)
]

-- The phis of the header's copy, of the exit block and of every other block that was there.
abbrev pub IsJoined : (ℕ → ℕ) → Func → Func → ℕ → ℕ → Option ℕ → ℕ → Type 0
IsJoined r f f' header exit preheader n =
    (phis_of f' n ≡ each_block (λ b. fixed preheader header (r b)) (phis_of f header))
    × (phis_of f' exit ≡ each_block (fixed (some header) n) (phis_of f exit))
    × ((c : ℕ) (s : Term) → c ≢ exit → view f c ≡ some s → phis_of f' c ≡ phis_of f c)

connect-IsJoined :
    (f : Func) (inst_map : ℕ → Option ℕ) (preheader : Option ℕ) (header : ℕ) (body : List ℕ)
    (exit : ℕ) (out : Copy) (n : ℕ) (ns : List ℕ) (f' : Func) (s t : Term)
    → view f header ≡ some s
    → view f exit ≡ some t
    → Copied (first_copy f inst_map) out (header ∷ body) (n ∷ ns)
    → connect header (n ∷ ns) preheader (some exit) out ≡ ok f'
    → IsJoined (mapped out.blocks) f f' header exit preheader n
connect-IsJoined f inst_map preheader header body exit out n ns f' s t at_header at_exit copied
      run =
    let v = view f in
    let w = view out.func in
    let r = mapped out.blocks in
    let q = remap_phis r (n ∷ ns) (phis_of out.func) in
    let p = change_phis n (fixed preheader header) q in
    let all = connect-phis header n ns preheader exit out f' run in
    let old : (c : ℕ) (u : Term) → v c ≡ some u → p c ≡ phis_of f c = λ c u e.
      (let away = IsCopied-outside v w (header ∷ body) (n ∷ ns) c u e copied.copies in
        change_phis-other n c (fixed preheader header) q
          (λ same. ground (arith, away, same, ℕ_discrete c n))
        ∙ remap_phis-other r (n ∷ ns) (phis_of out.func) c away
        ∙ Copied-phis f inst_map out (header ∷ body) (n ∷ ns) c u copied e) in
    let exit_away = IsCopied-outside v w (header ∷ body) (n ∷ ns) exit t at_exit copied.copies in
    (
      ap (λ u. u n) all
          ∙ change_phis-other exit n (fixed (some header) n) p
              (λ same. ground (arith, exit_away, same, ℕ_discrete exit n))
          ∙ change_phis-at n (fixed preheader header) q
          ∙ ap (each_block (fixed preheader header)) (
              remap_phis-other r ns (change_phis n r (phis_of out.func)) n copied.apart.0
              ∙ change_phis-at n r (phis_of out.func)
              ∙ ap (each_block r) (FirstCode-phis f out.func header n body ns copied.first))
          ∙ each_block_twice (fixed preheader header) r (phis_of f header),
      ap (λ u. u exit) all
          ∙ change_phis-at exit (fixed (some header) n) p
          ∙ ap (each_block (fixed (some header) n)) (old exit t at_exit),
      λ c u other e.
          ap (λ x. x c) all ∙ change_phis-other exit c (fixed (some header) n) p other ∙ old c u e,
    )

-- For such a CloneBasicBlock, and a loop of different blocks that all end with a branch that has a
-- successor, with one exit block: CreateOneLoop returns; with a renaming that sends the header to the
-- first new block and leaves the blocks outside the loop, the phis of the first new block have the
-- incoming blocks of the header's phis, renamed, and the header in place of the loop's predecessor;
-- those of the exit block have the first new block in place of the header; and every other block
-- that was there keeps the incoming blocks of its phis.
pub create_one_loop-IsJoined :
    (llvm : Llvm)
    → IsCloning llvm
    → (header : ℕ) (body : List ℕ) (exit : ℕ) (f : Func) (inst_map : ℕ → Option ℕ)
    → IsLoop llvm f header body exit
    → Distinct ℕ_discrete (header ∷ body)
    → (f' : Func) × (n : ℕ) × (ns : List ℕ) × (new_map : ℕ → Option ℕ) × (r : ℕ → ℕ)
      × (create_one_loop llvm (header ∷ body) f inst_map ≡ ok (f', n ∷ ns, new_map))
      × (r header ≡ n)
      × ((c : ℕ) → elem ℕ_discrete c (header ∷ body) ≡ false → r c ≡ c)
      × IsJoined r f f' header exit (llvm.loop_predecessor f (header ∷ body)) n
unfolding create_one_loop
create_one_loop-IsJoined llvm cloning header body exit f inst_map (leaves, branches, there) d =
    let (out, names, run, copied) =
      copy_blocks_lem llvm cloning (header ∷ body) (first_copy f inst_map)
        (All-IsThere (view f) (header ∷ body) branches) in
    let before = llvm.loop_predecessor f (header ∷ body) in
    let (f', n, ns, new, done, split) =
      connect-IsSplit f inst_map before header body exit out names branches there copied in
    let (s, rest, at_header) = branches.0 in
    let named : names ≡ n ∷ ns = sym copied.names ∙ new in
    let copied' = subst (Copied (first_copy f inst_map) out (header ∷ body)) named copied in
    let renaming = ap mapped copied'.blocks in
    (
      f',
      n,
      ns,
      out.inst_map,
      mapped out.blocks,
      step_ok (copy_blocks llvm (header ∷ body) (first_copy f inst_map)) out _ _ run (
          step_ok (connect header out.new_body before (llvm.exit_block f (header ∷ body)) out) f' _
            _ (ap (λ e. connect header out.new_body before e out) leaves ∙ done)
            (ap (λ (l : List ℕ). ok (f', l, out.inst_map)) new)),
      ap (λ u. u header) renaming ∙ put_all-head (λ _. none) header n body ns d.0,
      λ c o.
          ap (λ u. u c) renaming
          ∙ mapped_missing (put_all (λ _. none) (header ∷ body) (n ∷ ns)) c
              (put_all-other (λ _. none) (header ∷ body) (n ∷ ns) c o),
      connect-IsJoined f inst_map before header body exit out n ns f' (true, s ∷ rest) there.0
          at_header there.1 copied'
          (ap (λ l. connect header l before (some exit) out) (sym new) ∙ done),
    )
