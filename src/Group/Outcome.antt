-- ===== src/Group/Outcome.antt =====
-- What a group of goroutines returns: main.go and pkg/routing/bootstrap.go.
use spegel.Base.{
  ℕ, ◌+◌, ◌≡◌, ◌↔◌, refl, sym, ◌∙◌, ap, Bool, true, false, ◌||◌, Option, none, some, List, [], ◌∷◌,
  ◌++◌, All, length, length-append, Error, arith,
}
use spegel.Group.{
  Errgroup, IsErrgroup, or_else, Exit, serve_result, result_of, Goroutine, shutdown, draining,
  World, IsOver, is_done, is_shut, Ends, closed, drained, stopped, left, ended, MayEnd,
  serve_failed, router_ended, track_failed, leave, Due, go, shut, end, Step, signal, due, may_end,
  Run, start, next,
}
use spegel.Group.Exits.{
  IsClean, first_error, is_error, first_error-append, all_clean, first_error-clean, is_serve,
  serves, serves-split, length-split, or_true,
}

last_true : (a b : Bool) {c : Bool} → c ≡ true → (a || b || c) ≡ true
last_true true b h = refl
last_true false true h = refl
last_true false false h = h

signalled :
    (r p a b : Bool) → r ≡ false → p ≡ false → b ≡ false → (r || p || (a || b)) ≡ true → a ≡ true
signalled r p true b hr hp hb h = refl
signalled r p false b hr hp hb h = ground arith

still_serving :
    (a b s p d d' : Bool)
    → a ≡ s || b
    → (s ≡ true → d' ≡ true)
    → (d ≡ true → d' ≡ true)
    → (a || p || d) ≡ true
    → (b || p || d') ≡ true
still_serving a true s p d d' e f g h = refl
still_serving a false s true d d' e f g h = refl
still_serving a false true false d d' e f g h = f refl
still_serving true false false false d d' e f g h = cc
still_serving false false false false d d' e f g h = g h

module _ {Server G : Type 0} (same : Server → Server → Bool) (eg : Errgroup G)
    (goroutines : List (Goroutine Server)) where
  -- What holds of every world of a group in which a server is served.
  pub record IsSound (w : World Server G) : Type 0 where
    pub wait : eg.wait w.group ≡ first_error w.exits
    pub done : eg.done w.group ≡ is_error (first_error w.exits)
    pub serving : (serves w.running || serves w.pending || is_done same eg w) ≡ true
    pub shut : (s : Server) → is_shut same s w.shut ≡ true → is_done same eg w ≡ true
    pub counted : length w.exits + length w.running + length w.pending ≡ length goroutines

  module _ (documented : IsErrgroup eg) where
    done-returned :
        (f : Option Error) (r : Option Error) (g : G)
        → eg.done g ≡ is_error f
        → eg.done (eg.returned r g) ≡ is_error (or_else f r)
    done-returned none none g h = documented.kept g ∙ h
    done-returned (some e) none g h = documented.kept g ∙ h
    done-returned none (some x) g h = documented.cancelled x g
    done-returned (some e) (some x) g h = documented.cancelled x g

    stays-returned :
        (r : Option Error) (g : G) (b : Bool)
        → (b || eg.done g) ≡ true
        → (b || eg.done (eg.returned r g)) ≡ true
    stays-returned none g b h = rw (documented.kept g) h
    stays-returned (some e) g true h = refl
    stays-returned (some e) g false h = documented.cancelled e g

    leave-IsSound :
        (w : World Server G) (before after : List (Goroutine Server)) (g : Goroutine Server)
        (x : Exit)
        → w.running ≡ before ++ g ∷ after
        → ((is_serve g ≡ true) → is_done same eg (leave same eg w (before ++ after) x) ≡ true)
        → IsSound w
        → IsSound (leave same eg w (before ++ after) x)
    leave-IsSound w before after g x split stops i =
        let over = stays-returned (result_of x) w.group w.signalled in
        record {
          wait =
              documented.first (result_of x) w.group
              ∙ (ap (λ f. or_else f (result_of x)) i.wait ∙ sym (first_error-append w.exits x));
          done =
              done-returned (first_error w.exits) (result_of x) w.group i.done
              ∙ ap is_error (sym (first_error-append w.exits x));
          serving =
              still_serving (serves w.running) (serves (before ++ after)) (is_serve g)
                (serves w.pending) _ _ (ap serves split ∙ serves-split before after g) stops over
                i.serving;
          shut = λ s h. over (i.shut s h);
          counted = omega (
            arith,
            i.counted,
            length-append w.exits (x ∷ []),
            ap length split,
            length-split before after g,
          );
        }

    Ends-IsSound :
        (w : World Server G) (before after : List (Goroutine Server)) (g : Goroutine Server)
        (x : Exit)
        → w.running ≡ before ++ g ∷ after
        → Ends same eg w g x
        → IsSound w
        → IsSound (leave same eg w (before ++ after) x)
    unfolding result_of serve_result
    Ends-IsSound w before after g x split (closed s h) i =
        leave-IsSound w before after g x split
          (λ _. stays-returned none w.group w.signalled (i.shut s h)) i
    Ends-IsSound w before after g x split (drained s r) i =
        leave-IsSound w before after g x split (λ h. cc) i
    Ends-IsSound w before after g x split (stopped r h) i =
        leave-IsSound w before after g x split (λ h. cc) i
    Ends-IsSound w before after g x split (left r h) i =
        leave-IsSound w before after g x split (λ h. cc) i
    Ends-IsSound w before after g x split (ended h) i =
        leave-IsSound w before after g x split (λ h. cc) i

    MayEnd-IsSound :
        (w : World Server G) (before after : List (Goroutine Server)) (g : Goroutine Server)
        (x : Exit)
        → w.running ≡ before ++ g ∷ after
        → MayEnd same eg g x
        → IsSound w
        → IsSound (leave same eg w (before ++ after) x)
    unfolding result_of serve_result
    MayEnd-IsSound w before after g x split (serve_failed s e) i =
        leave-IsSound w before after g x split
          (λ _. or_true w.signalled (documented.cancelled e w.group)) i
    MayEnd-IsSound w before after g x split (router_ended r) i =
        leave-IsSound w before after g x split (λ h. cc) i
    MayEnd-IsSound w before after g x split (track_failed e) i =
        leave-IsSound w before after g x split (λ h. cc) i

    Due-IsSound : (w v : World Server G) → Due same eg w v → IsSound w → IsSound v
    Due-IsSound w v (go g gs split) i = record {
      wait = i.wait;
      done = i.done;
      serving = ground (arith, i.serving, ap serves split);
      shut = i.shut;
      counted = omega (arith, i.counted, ap length split);
    }
    Due-IsSound w v (shut before after s split h) i = record {
      wait = i.wait;
      done = i.done;
      serving = last_true (serves (before ++ draining s ∷ after)) (serves w.pending) h;
      shut = λ _ _. h;
      counted = omega (
        arith,
        i.counted,
        ap length split,
        length-split before after (shutdown s),
        length-split before after (draining s),
      );
    }
    Due-IsSound w v (end before after g x split ends) i =
        Ends-IsSound w before after g x split ends i

    Step-IsSound : (w v : World Server G) → Step same eg w v → IsSound w → IsSound v
    Step-IsSound w v (signal h) i = record {
      wait = i.wait;
      done = i.done;
      serving = last_true (serves w.running) (serves w.pending) refl;
      shut = λ _ _. refl;
      counted = i.counted;
    }
    Step-IsSound w v (due _ d) i = Due-IsSound w v d i
    Step-IsSound w v (may_end before after g x split ends) i =
        MayEnd-IsSound w before after g x split ends i

    pub Run-IsSound :
        serves goroutines ≡ true
        → (n : ℕ) (w : World Server G) → Run same eg goroutines n w
        → IsSound w
    Run-IsSound h _ _ start = record {
      wait = documented.fresh_wait;
      done = documented.fresh_context;
      serving = rw h refl;
      shut = λ s h. cc;
      counted = omega arith;
    }
    Run-IsSound h _ _ (next {n} {w} {v} r s) = Step-IsSound w v s (Run-IsSound h n w r)

    -- Once all its goroutines returned, a group in which a server is served returns the first of
    -- their errors; it returns nil exactly if the parent context is done, every server was closed,
    -- and no other call failed. Every goroutine ended once.
    pub Run-IsClean :
        serves goroutines ≡ true
        → (n : ℕ) (w : World Server G) → Run same eg goroutines n w
        → IsOver w
        → (eg.wait w.group ≡ first_error w.exits)
          × ((eg.wait w.group ≡ none) ↔ ((w.signalled ≡ true) × All IsClean w.exits))
          × (length w.exits ≡ length goroutines)
    Run-IsClean h n w r (pending, running) =
        let i = Run-IsSound h n w r in
        (
          i.wait,
          (
            λ e. (
              signalled (serves w.running) (serves w.pending) w.signalled (eg.done w.group)
                  (ap serves running) (ap serves pending) (i.done ∙ ap is_error (sym i.wait ∙ e))
                  i.serving,
              all_clean w.exits (sym i.wait ∙ e),
            ),
            λ c. i.wait ∙ first_error-clean w.exits c.1,
          ),
          omega (arith, i.counted, ap length running, ap length pending),
        )
