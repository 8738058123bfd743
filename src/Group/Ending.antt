-- ===== src/Group/Ending.antt =====
-- A group of goroutines comes to its end: main.go and pkg/routing/bootstrap.go.
use spegel.Base.{ℕ, ◌+◌, ◌≡◌, refl, ap, Bool, true, false, List, [], ◌∷◌, ◌++◌, length, arith}
use spegel.Group.{
  Errgroup, Exit, Goroutine, serve, shutdown, draining, router_run, router_close, state_track,
  World, Ends, closed, drained, stopped, left, ended, MayEnd, serve_failed, router_ended,
  track_failed, leave, Due, go, shut, end, Step, signal, due, may_end, start_group, Run, start,
  next,
}

module _ {Server : Type 0} where
  -- The steps that a goroutine takes.
  abbrev pub steps_of : Goroutine Server → ℕ
  steps_of (serve s) = 1
  steps_of (shutdown s) = 2
  steps_of (draining s) = 1
  steps_of router_run = 1
  steps_of router_close = 1
  steps_of state_track = 1

  abbrev pub steps_of_all : List (Goroutine Server) → ℕ
  steps_of_all [] = 0
  steps_of_all (g ∷ gs) = steps_of g + steps_of_all gs

  -- The steps that a group has left: with the signal, and the start of the goroutines that are pending.
  abbrev pub steps_left : {G : Type 0} → World Server G → ℕ
  steps_left w =
      elim w.signalled [ true ↦ 0 | false ↦ 1 ]
      + steps_of_all w.running
      + steps_of_all w.pending
      + length w.pending

  steps_of_all-split :
      (before after : List (Goroutine Server)) (g : Goroutine Server)
      → steps_of_all (before ++ g ∷ after) ≡ steps_of g + steps_of_all (before ++ after)
  steps_of_all-split [] after g = refl
  steps_of_all-split (b ∷ before) after g = omega (arith, steps_of_all-split before after g)

module _ {Server G : Type 0} (same : Server → Server → Bool) (eg : Errgroup G) where
  Ends-steps_of :
      (w : World Server G) (g : Goroutine Server) (x : Exit) → Ends same eg w g x → steps_of g ≡ 1
  Ends-steps_of w _ _ (closed s h) = refl
  Ends-steps_of w _ _ (drained s r) = refl
  Ends-steps_of w _ _ (stopped r h) = refl
  Ends-steps_of w _ _ (left r h) = refl
  Ends-steps_of w _ _ (ended h) = refl

  MayEnd-steps_of : (g : Goroutine Server) (x : Exit) → MayEnd same eg g x → steps_of g ≡ 1
  MayEnd-steps_of _ _ (serve_failed s e) = refl
  MayEnd-steps_of _ _ (router_ended r) = refl
  MayEnd-steps_of _ _ (track_failed e) = refl

  leave-steps_left :
      (w : World Server G) (before after : List (Goroutine Server)) (g : Goroutine Server)
      (x : Exit)
      → w.running ≡ before ++ g ∷ after
      → steps_of g ≡ 1
      → steps_left w ≡ 1 + steps_left (leave same eg w (before ++ after) x)
  leave-steps_left w before after g x split one =
      omega (arith, ap steps_of_all split, steps_of_all-split before after g)

  Due-steps_left : (w v : World Server G) → Due same eg w v → steps_left w ≡ 1 + steps_left v
  Due-steps_left w v (go g gs split) = omega (arith, ap steps_of_all split, ap length split)
  Due-steps_left w v (shut before after s split h) = omega (
    arith,
    ap steps_of_all split,
    steps_of_all-split before after (shutdown s),
    steps_of_all-split before after (draining s),
  )
  Due-steps_left w v (end before after g x split e) =
      leave-steps_left w before after g x split (Ends-steps_of w g x e)

  Step-steps_left : (w v : World Server G) → Step same eg w v → steps_left w ≡ 1 + steps_left v
  Step-steps_left w v (signal h) = rw h (omega arith)
  Step-steps_left w v (due _ d) = Due-steps_left w v d
  Step-steps_left w v (may_end before after g x split e) =
      leave-steps_left w before after g x split (MayEnd-steps_of g x e)

  pub Run-steps_left :
      (goroutines : List (Goroutine Server)) (n : ℕ) (w : World Server G)
      → Run same eg goroutines n w
      → n + steps_left w ≡ steps_left (start_group same eg goroutines)
  Run-steps_left goroutines _ _ start = omega arith
  Run-steps_left goroutines _ _ (next {n} {w} {v} r s) =
      omega (arith, Run-steps_left goroutines n w r, Step-steps_left w v s)
