-- ===== src/Split/Create/Ready.antt =====
-- The steps of CreateOneLoop that connect the copied blocks, one after the other.
use llvm_loop_fission.Base.{
  ℕ, ◌≡◌, refl, ap, sym, subst, ◌∙◌, true, List, [], ◌∷◌, map, Option, some, Result, ok, All,
  step_ok,
}
use llvm_loop_fission.Split.Cfg.{Func, on_block, mapped, fix_phis, on_terminator, replace}
use llvm_loop_fission.Split.Cfg.Views.{
  view, change, on_block-view, fix_phis-Changes, on_terminator-Changes,
}
use llvm_loop_fission.Split.Create.{Copy, last_of, connect}
use llvm_loop_fission.Split.Create.Copies.{View, IsThere}
use llvm_loop_fission.Split.Create.Connect.{
  IsBranch, set_first, remap_all, link_all, change-same, IsThere-change, KeepsFirst,
  IsBranch-change, All-change, remap_blocks-view, set_first-KeepsFirst, set_successor-view,
  link_blocks-view,
}

-- What the steps need of the header, the exit and the new blocks.
abbrev pub IsReady : ℕ → ℕ → List ℕ → View → Type 0
IsReady header exit ns v = IsBranch v header × IsThere v exit × All (IsBranch v) ns

IsReady-change :
    (header exit b : ℕ) (ns : List ℕ) (t : List ℕ → List ℕ) (v : View)
    → KeepsFirst t
    → IsReady header exit ns v
    → IsReady header exit ns (change b t v)
IsReady-change header exit b ns t v k (at_header, at_exit, new) = (
  IsBranch-change b header t v k at_header,
  IsThere-change b exit t v at_exit,
  All-change IsBranch b t v ns (λ c. IsBranch-change b c t v k) new,
)

IsReady-remap_all :
    (header exit : ℕ) (ns : List ℕ) (r : ℕ → ℕ) (ms : List ℕ) (v : View)
    → IsReady header exit ns v
    → IsReady header exit ns (remap_all r ms v)
IsReady-remap_all header exit ns r [] v h = h
IsReady-remap_all header exit ns r (m ∷ ms) v h =
    IsReady-remap_all header exit ns r ms (change m (map r) v)
      (IsReady-change header exit m ns (map r) v (λ s rest. (r s, map r rest, refl)) h)

IsReady-link_all :
    (header exit : ℕ) (ns : List ℕ) (m : ℕ) (ms : List ℕ) (v : View)
    → IsReady header exit ns v
    → IsReady header exit ns (link_all m ms v)
IsReady-link_all header exit ns m [] v h = h
IsReady-link_all header exit ns m (k ∷ ms) v h =
    IsReady-link_all header exit ns k ms (change m (set_first k) v)
      (IsReady-change header exit m ns (set_first k) v (set_first-KeepsFirst k) h)

pub IsBranch-IsThere : (v : View) (b : ℕ) → IsBranch v b → IsThere v b
IsBranch-IsThere v b (s, rest, h) = ((true, s ∷ rest), h)

pub All-IsThere : (v : View) (ns : List ℕ) → All (IsBranch v) ns → All (IsThere v) ns
All-IsThere v [] h = tt
All-IsThere v (n ∷ ns) (here, h) = (IsBranch-IsThere v n here, All-IsThere v ns h)

last_of-All :
    (v : View) (n : ℕ) (ns : List ℕ) → All (IsBranch v) (n ∷ ns) → IsBranch v (last_of n ns)
last_of-All v n [] (here, h) = here
last_of-All v n (m ∷ ns) (here, h) = last_of-All v m ns h

-- The successors that the steps leave.
abbrev pub connected : ℕ → ℕ → ℕ → List ℕ → (ℕ → ℕ) → View → View
connected header exit n ns r v =
    change header (replace exit n)
      (link_all n ns (change (last_of n ns) (set_first n) (remap_all r (n ∷ ns) v)))

-- A step that changes no successors.
phis-view :
    (b : ℕ) (old : Option ℕ) (new : ℕ) (f : Func)
    → IsThere (view f) b
    → (f' : Func) × (on_block b (fix_phis old new) f ≡ ok f') × (view f' ≡ view f)
phis-view b old new f (s, h) =
    let (f', run, e) =
      on_block-view b (fix_phis old new) (λ t. t) f s h (fix_phis-Changes old new s) in
    (f', run, e ∙ change-same b (view f))

pub connect_lem :
    (header n : ℕ) (ns : List ℕ) (preheader : Option ℕ) (exit : ℕ) (copy : Copy)
    → IsReady header exit (n ∷ ns) (view copy.func)
    → (f' : Func) × (connect header (n ∷ ns) preheader (some exit) copy ≡ ok f')
      × (view f' ≡ connected header exit n ns (mapped copy.blocks) (view copy.func))
unfolding connect
connect_lem header n ns preheader exit copy ready =
    let P = IsReady header exit (n ∷ ns) in
    let r = mapped copy.blocks in
    let v = view copy.func in
    let (f1, run1, e1) =
      remap_blocks-view copy.values copy.blocks (n ∷ ns) copy.func
        (All-IsThere v (n ∷ ns) ready.2) in
    let ready1 = subst P (sym e1) (IsReady-remap_all header exit (n ∷ ns) r (n ∷ ns) v ready) in
    let (f2, run2, e2) =
      phis-view n preheader header f1 (IsBranch-IsThere (view f1) n ready1.2.0) in
    let ready2 = subst P (sym e2) ready1 in
    let (f3, run3, e3) = phis-view exit (some header) n f2 ready2.1 in
    let ready3 = subst P (sym e3) ready2 in
    let (f4, run4, e4) =
      set_successor-view (last_of n ns) n f3 (last_of-All (view f3) n ns ready3.2) in
    let ready4 = subst P (sym e4) (
      IsReady-change header exit (last_of n ns) (n ∷ ns) (set_first n) (view f3)
        (set_first-KeepsFirst n) ready3) in
    let (f5, run5, e5) = link_blocks-view n ns f4 ready4.2 in
    let ready5 = subst P (sym e5) (IsReady-link_all header exit (n ∷ ns) n ns (view f4) ready4) in
    let (s, rest, at_header) = ready5.0 in
    let exits : List ℕ → Result (List ℕ) = λ successors. ok (replace exit n successors) in
    let (f6, run6, e6) =
      on_block-view header (on_terminator exits) (replace exit n) f5 (true, s ∷ rest) at_header
        (on_terminator-Changes exits (replace exit n) (s ∷ rest) refl) in
    (
      f6,
      step_ok _ f1 _ _ run1 (
          step_ok _ f2 _ _ run2
            (step_ok _ f3 _ _ run3 (step_ok _ f4 _ _ run4 (step_ok _ f5 _ _ run5 run6)))),
      e6
          ∙ ap (λ u. change header (replace exit n) u)
              (e5
                ∙ ap (λ u. link_all n ns u)
                    (e4 ∙ ap (λ u. change (last_of n ns) (set_first n) u) (e3 ∙ e2 ∙ e1))),
    )
