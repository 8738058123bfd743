-- ===== src/Group.antt =====
-- The groups of goroutines that serve until their context is done: main.go and
-- pkg/routing/bootstrap.go.
--
-- golang.org/x/sync/errgroup is a parameter. Of a server of net/http it is kept whether `Shutdown` was
-- called. The goroutines may take their steps in any order, and the parent context may be done at any
-- time.
pub mod Exits
pub mod Ending
pub mod Outcome
pub mod Stopping
pub mod Progress
use spegel.Base.{
  ℕ, suc, ◌≡◌, Bool, true, false, ◌||◌, Option, none, some, List, [], ◌∷◌, ◌++◌, Error,
}

-- `errgroup.Group` with the context of `errgroup.WithContext`. `returned` is what becomes of a
-- group when a function that was passed to `Go` returns, `done` says whether the group cancelled
-- the context, and `wait` is what `Wait` returns when all functions have returned.
pub record Errgroup (G : Type 0) : Type 0 where
  pub with_context : G
  pub returned : Option Error → G → G
  pub done : G → Bool
  pub wait : G → Option Error

-- The first of two errors.
abbrev pub or_else : Option Error → Option Error → Option Error
or_else none r = r
or_else (some e) r = some e

-- "The derived Context is canceled the first time a function passed to Go returns a non-nil error", and
-- Wait "returns the first non-nil error (if any) from them".
pub record IsErrgroup {G : Type 0} (eg : Errgroup G) : Type 0 where
  pub fresh_context : eg.done eg.with_context ≡ false
  pub fresh_wait : eg.wait eg.with_context ≡ none
  pub cancelled : (e : Error) (g : G) → eg.done (eg.returned (some e) g) ≡ true
  pub kept : (g : G) → eg.done (eg.returned none g) ≡ eg.done g
  pub first : (r : Option Error) (g : G) → eg.wait (eg.returned r g) ≡ or_else (eg.wait g) r

-- What `ListenAndServe` returns, which is never nil.
pub data ServeError : Type 0 where
  server_closed : ServeError
  serve_error : Error → ServeError

-- How a goroutine comes to its end: by what `ListenAndServe`, or by what its other call returned.
pub data Exit : Type 0 where
  server_exit : ServeError → Exit
  call_exit : Option Error → Exit

-- `if err := srv.ListenAndServe(); err != nil && !errors.Is(err, http.ErrServerClosed)`
unfoldable pub serve_result : ServeError → Option Error
serve_result server_closed = none
serve_result (serve_error e) = some e

-- What the function that was passed to `Go` returns.
unfoldable pub result_of : Exit → Option Error
unfolding serve_result
result_of (server_exit x) = serve_result x
result_of (call_exit r) = r

-- The goroutines by the calls that they are at: `ListenAndServe`, `<-ctx.Done()` before
-- `Shutdown`, `Shutdown`, `router.Run`, `<-ctx.Done()` before `router.Close`, and `state.Track`.
pub data Goroutine (Server : Type 0) : Type 0 where
  serve shutdown draining : Server → Goroutine Server
  router_run router_close state_track : Goroutine Server

-- The servers that `Shutdown` was called for, the goroutines that are not started yet and those
-- that run, and how the others ended.
pub record World (Server G : Type 0) : Type 0 where
  pub group : G
  pub signalled : Bool
  pub shut : List Server
  pub pending : List (Goroutine Server)
  pub running : List (Goroutine Server)
  pub exits : List Exit

abbrev pub IsOver : {Server G : Type 0} → World Server G → Type 0
IsOver w = (w.pending ≡ []) × (w.running ≡ [])

abbrev pub is_shut : {Server : Type 0} → (Server → Server → Bool) → Server → List Server → Bool
is_shut same s [] = false
is_shut same s (t ∷ ts) = same t s || is_shut same s ts

module _ {Server G : Type 0} (same : Server → Server → Bool) (eg : Errgroup G) where
  -- `ctx.Done()` is closed.
  abbrev pub is_done : World Server G → Bool
  is_done w = w.signalled || eg.done w.group

  -- How a goroutine ends that has to: a server that was shut down, `Shutdown` at its timeout at
  -- the latest, the calls that are given the context once it is done, and `Close`.
  pub data Ends (w : World Server G) : Goroutine Server → Exit → Type 0 where
    closed :
        (s : Server) → is_shut same s w.shut ≡ true → Ends w (serve s) (server_exit server_closed)
    drained : (s : Server) (r : Option Error) → Ends w (draining s) (call_exit r)
    stopped : (r : Option Error) → is_done w ≡ true → Ends w router_run (call_exit r)
    left : (r : Option Error) → is_done w ≡ true → Ends w router_close (call_exit r)
    ended : is_done w ≡ true → Ends w state_track (call_exit none)

  -- How a goroutine may end at any time: the router also with no error, when a lease is lost.
  pub data MayEnd : Goroutine Server → Exit → Type 0 where
    serve_failed : (s : Server) (e : Error) → MayEnd (serve s) (server_exit (serve_error e))
    router_ended : (r : Option Error) → MayEnd router_run (call_exit r)
    track_failed : (e : Error) → MayEnd state_track (call_exit (some e))

  -- The function of a goroutine returns.
  abbrev pub leave : World Server G → List (Goroutine Server) → Exit → World Server G
  leave w others x = record w {
    group = eg.returned (result_of x) w.group;
    running = others;
    exits = w.exits ++ x ∷ [];
  }

  -- The steps that are not put off for ever.
  pub data Due (w : World Server G) : World Server G → Type 0 where
    go :
        (g : Goroutine Server) (gs : List (Goroutine Server))
        → w.pending ≡ g ∷ gs
        → Due w (record w { pending = gs; running = g ∷ w.running })
    shut :
        (before after : List (Goroutine Server)) (s : Server)
        → w.running ≡ before ++ shutdown s ∷ after
        → is_done w ≡ true
        → Due w (record w { shut = s ∷ w.shut; running = before ++ draining s ∷ after })
    end :
        (before after : List (Goroutine Server)) (g : Goroutine Server) (x : Exit)
        → w.running ≡ before ++ g ∷ after
        → Ends w g x
        → Due w (leave w (before ++ after) x)

  pub data Step (w : World Server G) : World Server G → Type 0 where
    signal : w.signalled ≡ false → Step w (record w { signalled = true })
    due : (v : World Server G) → Due w v → Step w v
    may_end :
        (before after : List (Goroutine Server)) (g : Goroutine Server) (x : Exit)
        → w.running ≡ before ++ g ∷ after
        → MayEnd g x
        → Step w (leave w (before ++ after) x)

  -- The group, and the goroutines that are going to be started in it.
  abbrev pub start_group : List (Goroutine Server) → World Server G
  start_group goroutines = record {
    group = eg.with_context;
    signalled = false;
    shut = [];
    pending = goroutines;
    running = [];
    exits = [];
  }

  -- The worlds after so many steps.
  pub data Run (goroutines : List (Goroutine Server)) : ℕ → World Server G → Type 0 where
    start : Run goroutines 0 (start_group goroutines)
    next : {n : ℕ} {w v : World Server G} → Run goroutines n w → Step w v → Run goroutines (suc n) v
