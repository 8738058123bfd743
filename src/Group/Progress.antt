-- ===== src/Group/Progress.antt =====
-- Once its context is done, a group of goroutines goes on to its end: main.go and
-- pkg/routing/bootstrap.go.
use spegel.Base.{
  ℕ, ◌+◌, ◌≡◌, ◌⊎◌, inl, inr, refl, sym, ◌∙◌, ap, Bool, true, false, Bool-cases, none, List, [],
  ◌∷◌, ◌++◌, All, arith,
}
use spegel.Group.{
  Errgroup, IsErrgroup, Goroutine, serve, shutdown, draining, router_run, router_close, state_track,
  World, IsOver, is_done, is_shut, closed, drained, stopped, left, ended, Due, go, shut, end,
  start_group, Run,
}
use spegel.Group.Exits.{IsClean, first_error, all_clean, is_serve, serves, or_true, no_error}
use spegel.Group.Outcome.{IsSound, Run-IsSound}
use spegel.Group.Ending.{steps_left, Run-steps_left}
use spegel.Group.Stopping.{is_stopped, CoveredIn, Run-Covered}

module _ {Server G : Type 0} (same : Server → Server → Bool) (eg : Errgroup G)
    (goroutines : List (Goroutine Server)) where
  -- Some goroutine is due.
  abbrev Goes : World Server G → Type 0
  Goes w = (v : World Server G) × Due same eg w v

  -- All goroutines are at `ListenAndServe`, or there is one that is not.
  abbrev SomeOther : List (Goroutine Server) → Type 0
  SomeOther gs =
      (before after : List (Goroutine Server)) × (g : Goroutine Server) × (gs ≡ before ++ g ∷ after)
      × (is_serve g ≡ false)

  all_serve-or-SomeOther :
      (gs : List (Goroutine Server)) → ((s : Server) → is_stopped same s gs ≡ false) ⊎ SomeOther gs
  all_serve-or-SomeOther [] = inl (λ s. refl)
  all_serve-or-SomeOther (serve t ∷ gs) = elim (all_serve-or-SomeOther gs) [
    | inl none_stops ↦ inl none_stops
    | inr (before, after, g, split, other) ↦
        inr (serve t ∷ before, after, g, ap (λ r. serve t ∷ r) split, other)
  ]
  all_serve-or-SomeOther (shutdown t ∷ gs) = inr ([], gs, shutdown t, refl, refl)
  all_serve-or-SomeOther (draining t ∷ gs) = inr ([], gs, draining t, refl, refl)
  all_serve-or-SomeOther (router_run ∷ gs) = inr ([], gs, router_run, refl, refl)
  all_serve-or-SomeOther (router_close ∷ gs) = inr ([], gs, router_close, refl, refl)
  all_serve-or-SomeOther (state_track ∷ gs) = inr ([], gs, state_track, refl, refl)

  other-Goes :
      (w : World Server G) (before after : List (Goroutine Server)) (g : Goroutine Server)
      → w.running ≡ before ++ g ∷ after
      → is_serve g ≡ false
      → is_done same eg w ≡ true
      → Goes w
  other-Goes w before after (serve s) split other d = cc
  other-Goes w before after (shutdown s) split other d = (_, shut before after s split d)
  other-Goes w before after (draining s) split other d =
      (_, end before after _ _ split (drained s none))
  other-Goes w before after router_run split other d =
      (_, end before after _ _ split (stopped none d))
  other-Goes w before after router_close split other d =
      (_, end before after _ _ split (left none d))
  other-Goes w before after state_track split other d = (_, end before after _ _ split (ended d))

  -- A server that is served and that no goroutine goes on to stop was shut down.
  serve-Goes :
      (w : World Server G) (running pending : List (Goroutine Server))
      → w.running ≡ running
      → w.pending ≡ pending
      → pending ≡ []
      → ((s : Server) → is_stopped same s running ≡ false)
      → is_done same eg w ≡ true
      → ((s : Server) → CoveredIn same eg goroutines w s)
      → ((running ≡ []) ⊎ Goes w)
  serve-Goes w [] pending er ep none_pending unstopped d c = inl refl
  serve-Goes w (serve s ∷ gs) pending er ep none_pending unstopped d c =
      let is_closed : is_shut same s w.shut ≡ true = ground (
        arith,
        c s,
        ap (is_stopped same s) er,
        ap (is_stopped same s) ep,
        ap (is_stopped same s) none_pending,
        unstopped s,
      ) in
      inr (_, end [] gs _ _ er (closed s is_closed))
  serve-Goes w (shutdown s ∷ gs) pending er ep none_pending unstopped d c =
      inr (other-Goes w [] gs _ er refl d)
  serve-Goes w (draining s ∷ gs) pending er ep none_pending unstopped d c =
      inr (other-Goes w [] gs _ er refl d)
  serve-Goes w (router_run ∷ gs) pending er ep none_pending unstopped d c =
      inr (other-Goes w [] gs _ er refl d)
  serve-Goes w (router_close ∷ gs) pending er ep none_pending unstopped d c =
      inr (other-Goes w [] gs _ er refl d)
  serve-Goes w (state_track ∷ gs) pending er ep none_pending unstopped d c =
      inr (other-Goes w [] gs _ er refl d)

  running-Goes :
      (w : World Server G)
      → w.pending ≡ []
      → is_done same eg w ≡ true
      → ((s : Server) → CoveredIn same eg goroutines w s)
      → IsOver w ⊎ Goes w
  running-Goes w none_pending d c = elim (all_serve-or-SomeOther w.running) [
    | inr (before, after, g, split, other) ↦ inr (other-Goes w before after g split other d)
    | inl unstopped ↦ elim (serve-Goes w w.running w.pending refl refl none_pending unstopped d c) [
      | inl none_running ↦ inl (none_pending, none_running)
      | inr goes ↦ inr goes
    ]
  ]

  List-cases :
      (gs : List (Goroutine Server))
      → (gs ≡ []) ⊎ ((g : Goroutine Server) × (rest : List (Goroutine Server)) × (gs ≡ g ∷ rest))
  List-cases [] = inl refl
  List-cases (g ∷ gs) = inr (g, gs, refl)

  done-Goes :
      (w : World Server G)
      → is_done same eg w ≡ true
      → ((s : Server) → CoveredIn same eg goroutines w s)
      → IsOver w ⊎ Goes w
  done-Goes w d c = elim (List-cases w.pending) [
    | inl none_pending ↦ running-Goes w none_pending d c
    | inr (g, gs, split) ↦ inr (_, go g gs split)
  ]

  -- The parent context is done, or the group cancelled its own.
  failed-is_done :
      (w : World Server G)
      → IsSound same eg goroutines w
      → (w.signalled ≡ true) ⊎ (¬ All IsClean w.exits)
      → is_done same eg w ≡ true
  failed-is_done w i (inl h) = rw h refl
  failed-is_done w i (inr h) = elim (Bool-cases (eg.done w.group)) [
    | inl cancelled ↦ or_true w.signalled cancelled
    | inr open_yet ↦
        absurd (h (all_clean w.exits (no_error (first_error w.exits) (sym i.done ∙ open_yet))))
  ]

  -- If the goroutines call `Shutdown` of every server, and a server is served: a group takes a
  -- bounded number of steps, whatever their order. Once the parent context is done, or one
  -- goroutine failed, no goroutine waits for ever: until all are over, some step is due.
  pub Run-Goes :
      IsErrgroup eg
      → serves goroutines ≡ true
      → ((s : Server) → is_stopped same s goroutines ≡ true)
      → (n : ℕ) (w : World Server G) → Run same eg goroutines n w
      → (w.signalled ≡ true) ⊎ (¬ All IsClean w.exits)
      → (n + steps_left w ≡ steps_left (start_group same eg goroutines)) × (IsOver w ⊎ Goes w)
  Run-Goes documented h stopped_all n w r failed = (
    Run-steps_left same eg goroutines n w r,
    done-Goes w (failed-is_done w (Run-IsSound same eg goroutines documented h n w r) failed)
        (λ s. Run-Covered same eg goroutines s (stopped_all s) n w r),
  )
