-- ===== src/Group/Stopping.antt =====
-- The servers that a group of goroutines shuts down: main.go and
-- pkg/routing/bootstrap.go.
use spegel.Base.{ℕ, ◌≡◌, refl, ap, Bool, true, false, ◌||◌, List, [], ◌∷◌, ◌++◌, arith}
use spegel.Group.{
  Errgroup, Exit, Goroutine, serve, shutdown, draining, router_run, router_close, state_track,
  World, is_shut, Ends, closed, drained, stopped, left, ended, MayEnd, serve_failed, router_ended,
  track_failed, leave, go, shut, end, Step, signal, due, may_end, Run, start, next,
}

module _ {Server : Type 0} (same : Server → Server → Bool) where
  abbrev pub stops : Server → Goroutine Server → Bool
  stops s (shutdown t) = same t s
  stops s (serve t) = false
  stops s (draining t) = false
  stops s router_run = false
  stops s router_close = false
  stops s state_track = false

  -- One of the goroutines calls `Shutdown` of the server.
  abbrev pub is_stopped : Server → List (Goroutine Server) → Bool
  is_stopped s [] = false
  is_stopped s (g ∷ gs) = stops s g || is_stopped s gs

  is_stopped-split :
      (s : Server) (before after : List (Goroutine Server)) (g : Goroutine Server)
      → is_stopped s (before ++ g ∷ after) ≡ stops s g || is_stopped s (before ++ after)
  is_stopped-split s [] after g = refl
  is_stopped-split s (b ∷ before) after g = ground (arith, is_stopped-split s before after g)

  -- Of a server that is served, `Shutdown` was called or is still to be called.
  abbrev pub Covered :
      List Server → List (Goroutine Server) → List (Goroutine Server) → Server → Type 0
  Covered closed_servers running pending s =
      (is_shut same s closed_servers || is_stopped s running || is_stopped s pending) ≡ true

module _ {Server G : Type 0} (same : Server → Server → Bool) (eg : Errgroup G)
    (goroutines : List (Goroutine Server)) where
  abbrev pub CoveredIn : World Server G → Server → Type 0
  CoveredIn w = Covered same w.shut w.running w.pending

  leave-Covered :
      (w : World Server G) (before after : List (Goroutine Server)) (g : Goroutine Server)
      (x : Exit)
      → (s : Server) → w.running ≡ before ++ g ∷ after
      → stops same s g ≡ false
      → CoveredIn w s
      → CoveredIn (leave same eg w (before ++ after) x) s
  leave-Covered w before after g x s split other c =
      ground (arith, c, ap (is_stopped same s) split, is_stopped-split same s before after g)

  Ends-stops :
      (w : World Server G) (g : Goroutine Server) (x : Exit) (s : Server)
      → Ends same eg w g x
      → stops same s g ≡ false
  Ends-stops w _ _ s (closed t h) = refl
  Ends-stops w _ _ s (drained t r) = refl
  Ends-stops w _ _ s (stopped r h) = refl
  Ends-stops w _ _ s (left r h) = refl
  Ends-stops w _ _ s (ended h) = refl

  MayEnd-stops :
      (g : Goroutine Server) (x : Exit) (s : Server) → MayEnd same eg g x → stops same s g ≡ false
  MayEnd-stops _ _ s (serve_failed t e) = refl
  MayEnd-stops _ _ s (router_ended r) = refl
  MayEnd-stops _ _ s (track_failed e) = refl

  Step-Covered :
      (w v : World Server G) (s : Server) → Step same eg w v → CoveredIn w s → CoveredIn v s
  Step-Covered w v s (signal h) c = c
  Step-Covered w v s (due _ (go g gs split)) c = ground (arith, c, ap (is_stopped same s) split)
  Step-Covered w v s (due _ (shut before after t split h)) c = ground (
    arith,
    c,
    ap (is_stopped same s) split,
    is_stopped-split same s before after (shutdown t),
    is_stopped-split same s before after (draining t),
  )
  Step-Covered w v s (due _ (end before after g x split e)) c =
      leave-Covered w before after g x s split (Ends-stops w g x s e) c
  Step-Covered w v s (may_end before after g x split e) c =
      leave-Covered w before after g x s split (MayEnd-stops g x s e) c

  pub Run-Covered :
      (s : Server)
      → is_stopped same s goroutines ≡ true
      → (n : ℕ) (w : World Server G) → Run same eg goroutines n w
      → CoveredIn w s
  Run-Covered s h _ _ start = h
  Run-Covered s h _ _ (next {n} {w} {v} r st) = Step-Covered w v s st (Run-Covered s h n w r)
