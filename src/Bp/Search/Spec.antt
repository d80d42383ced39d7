-- ===== src/Bp/Search/Spec.antt =====
-- What one call of the searches has done when it returns.
use llvm_loop_fission.Base.{◌≡◌, ◌≢◌, Bool, true, false, arith, not, ◌&&◌, List, elem, Distinct}
use llvm_loop_fission.Bp.Search.{Visited}

-- The nodes that a walk along `deps` leads to.
pub data Reach {K : Type 0} (dec : Discrete K) (deps : K → List K) (start : K) : K → Type 0 where
  here : Reach dec deps start start
  step : {u v : K} → Reach dec deps start u → elem dec v (deps u) ≡ true → Reach dec deps start v

-- The walks whose nodes behind the start are not blocked.
pub data Avoid {K : Type 0} (dec : Discrete K) (deps : K → List K) (blocked : K → Bool) (start : K)
    : K → Type 0 where
  here : Avoid dec deps blocked start start
  step :
      {u v : K}
      → Avoid dec deps blocked start u
      → elem dec v (deps u) ≡ true
      → blocked v ≡ false
      → Avoid dec deps blocked start v

module _ {K : Type 0} (dec : Discrete K) (deps : K → List K) where
  pub Avoid-Reach : {blocked : K → Bool} {u v : K} → Avoid dec deps blocked u v → Reach dec deps u v
  Avoid-Reach Avoid.here = Reach.here
  Avoid-Reach (Avoid.step w e f) = Reach.step (Avoid-Reach w) e

  pub Avoid-step_left :
      {blocked : K → Bool} {u v w : K}
      → elem dec v (deps u) ≡ true
      → blocked v ≡ false
      → Avoid dec deps blocked v w
      → Avoid dec deps blocked u w
  Avoid-step_left e f Avoid.here = Avoid.step Avoid.here e f
  Avoid-step_left e f (Avoid.step r g h) = Avoid.step (Avoid-step_left e f r) g h

  pub Avoid-weaken :
      {blocked fewer : K → Bool} {u v : K}
      → ((x : K) → fewer x ≡ true → blocked x ≡ true)
      → Avoid dec deps blocked u v
      → Avoid dec deps fewer u v
  Avoid-weaken h Avoid.here = Avoid.here
  Avoid-weaken {blocked} {fewer} h (Avoid.step {u} {v} w e f) =
      Avoid.step (Avoid-weaken h w) e (ground (arith, h v))

module _ {K : Type 0} (dec : Discrete K) (deps : K → List K) where
  -- A call on a node that was not visited, and is marked for the call: the group holds, once each,
  -- exactly the nodes that were visited meanwhile.
  pub record Fresh (start : K) (before : Visited K) (group : List K) (after : Visited K)
      : Type 0 where
    pub distinct : Distinct dec group
    pub entered : after start ≡ true
    pub grow : (x : K) → before x ≡ true → after x ≡ true
    pub exact : (x : K) → elem dec x group ≡ (after x && not (before x))
    pub closed : (x y : K) → elem dec x group ≡ true → elem dec y (deps x) ≡ true → after y ≡ true
    pub sound : (x : K) → elem dec x group ≡ true → Avoid dec deps before start x

  -- The state of the loop over the successors of `start`.
  pub record Explored (start : K) (before : Visited K) (group : List K) (after : Visited K)
      : Type 0 where
    pub distinct : Distinct dec group
    pub head : elem dec start group ≡ true
    pub grow : (x : K) → before x ≡ true → after x ≡ true
    pub exact : (x : K) → x ≢ start → elem dec x group ≡ (after x && not (before x))
    pub closed :
        (x y : K)
        → x ≢ start
        → elem dec x group ≡ true
        → elem dec y (deps x) ≡ true
        → after y ≡ true
    pub sound : (x : K) → elem dec x group ≡ true → Avoid dec deps before start x
