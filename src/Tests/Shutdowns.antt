-- ===== src/Tests/Shutdowns.antt =====
-- A run of the program until SIGTERM, and one in which a server fails.
use spegel.Base.{
  ℕ, suc, ◌+◌, ◌≡◌, ◌⊎◌, ◌↔◌, inr, refl, true, false, Option, none, some, [], ◌∷◌, All, length, ok,
  Error, error,
}
use spegel.Group.{
  Errgroup, IsErrgroup, or_else, server_exit, call_exit, server_closed, serve_error, serve_result,
  result_of, serve, shutdown, router_run, router_close, state_track, World, IsOver, closed, drained,
  stopped, left, ended, serve_failed, Due, go, shut, end, signal, due, may_end, Run, start, next,
}
use spegel.Command.{Arguments, Started, registry_command, run}
use spegel.Command.Serving.{Server, metrics_srv, reg_srv, same_server, goroutines, main_code}
use spegel.Command.Serving.Shutdown.{main_code-zero, goroutines-Go}
use spegel.Group.Exits.{IsClean}
use spegel.Group.Ending.{steps_left}
use spegel.Tests.Memory.{memory}
use spegel.Tests.Config.{plain_toml}
use spegel.Tests.Start.{libraries, args}

-- A group that keeps the first error.
abbrev pub errgroup : Errgroup (Option Error)
errgroup = record {
  with_context = none;
  returned = λ r g. or_else g r;
  done = λ g. elim g [ none ↦ false | some e ↦ true ];
  wait = λ g. g;
}

is_cancelled : (e : Error) (g : Option Error) → errgroup.done (errgroup.returned (some e) g) ≡ true
is_cancelled e none = refl
is_cancelled e (some x) = refl

is_kept : (g : Option Error) → errgroup.done (errgroup.returned none g) ≡ errgroup.done g
is_kept none = refl
is_kept (some x) = refl

pub errgroup-IsErrgroup : IsErrgroup errgroup
errgroup-IsErrgroup = record {
  fresh_context = refl;
  fresh_wait = refl;
  cancelled = is_cancelled;
  kept = is_kept;
  first = λ r g. refl;
}

abbrev AWorld : Type 0
AWorld = World Server (Option Error)

abbrev Runs : ℕ → AWorld → Type 0
Runs n w = Run same_server errgroup goroutines n w

-- All goroutines were started.
abbrev all_started : AWorld
all_started = record {
  group = none;
  signalled = false;
  shut = [];
  pending = [];
  running =
      shutdown reg_srv
      ∷ serve reg_srv
      ∷ state_track
      ∷ router_close
      ∷ router_run
      ∷ shutdown metrics_srv
      ∷ serve metrics_srv
      ∷ [];
  exits = [];
}

abbrev and_go : {n : ℕ} {w v : AWorld} → Runs n w → Due same_server errgroup w v → Runs (suc n) v
and_go r d = next r (due _ d)

are_started : Runs 7 all_started
are_started =
    and_go
      (and_go
        (and_go
          (and_go (and_go (and_go (and_go start (go _ _ refl)) (go _ _ refl)) (go _ _ refl))
            (go _ _ refl))
          (go _ _ refl))
        (go _ _ refl))
      (go _ _ refl)

-- SIGTERM was received, and all goroutines returned.
abbrev all_over : AWorld
all_over = record {
  group = none;
  signalled = true;
  shut = metrics_srv ∷ reg_srv ∷ [];
  pending = [];
  running = [];
  exits =
      call_exit none
      ∷ server_exit server_closed
      ∷ call_exit none
      ∷ call_exit none
      ∷ call_exit none
      ∷ call_exit none
      ∷ server_exit server_closed
      ∷ [];
}

are_over : Runs 17 all_over
unfolding result_of serve_result
are_over =
    let signalled = next are_started (signal refl) in
    let registry_shut = and_go signalled (shut [] _ _ refl refl) in
    let registry_drained = and_go registry_shut (end [] _ _ _ refl (drained reg_srv none)) in
    let registry_closed = and_go registry_drained (end [] _ _ _ refl (closed reg_srv refl)) in
    let tracked = and_go registry_closed (end [] _ _ _ refl (ended refl)) in
    let router_closed = and_go tracked (end [] _ _ _ refl (left none refl)) in
    let router_ran = and_go router_closed (end [] _ _ _ refl (stopped none refl)) in
    let metrics_shut = and_go router_ran (shut [] _ _ refl refl) in
    let metrics_drained = and_go metrics_shut (end [] _ _ _ refl (drained metrics_srv none)) in
    and_go metrics_drained (end [] _ _ _ refl (closed metrics_srv refl))

abbrev arguments : Arguments
arguments = record { configuration = none; registry = some args }

main_code-zero_example :
    ((main_code errgroup (run libraries memory plain_toml arguments []) all_over.group ≡ 0) ↔ (
      ((st : Started) × (registry_command libraries args ≡ ok st))
      × (all_over.signalled ≡ true)
      × All IsClean all_over.exits))
    × (length all_over.exits ≡ 7)
main_code-zero_example =
    main_code-zero errgroup errgroup-IsErrgroup libraries memory plain_toml arguments args [] 17
      all_over refl refl are_over (refl, refl)

-- The port of the registry is taken.
abbrev one_failed : AWorld
one_failed = record all_started {
  group = some (error "address already in use");
  running =
      shutdown reg_srv
      ∷ state_track
      ∷ router_close
      ∷ router_run
      ∷ shutdown metrics_srv
      ∷ serve metrics_srv
      ∷ [];
  exits = server_exit (serve_error (error "address already in use")) ∷ [];
}

has_failed : Runs 8 one_failed
unfolding result_of serve_result
has_failed = next are_started (
    may_end (shutdown reg_srv ∷ []) _ _ _ refl
      (serve_failed reg_srv (error "address already in use")))

goroutines-Go_example :
    (8 + steps_left one_failed ≡ 17)
    × (IsOver one_failed ⊎ ((v : AWorld) × Due same_server errgroup one_failed v))
goroutines-Go_example =
    goroutines-Go errgroup errgroup-IsErrgroup 8 one_failed has_failed (inr (λ h. cc (h.0)))
