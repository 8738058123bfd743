-- ===== src/Routing/Bootstrap/Serving.antt =====
-- `Run` of the bootstrappers: pkg/routing/bootstrap.go.
--
-- The lock and the leader election of k8s.io/client-go are parameters: what is modelled is what
-- they are given.
use spegel.Base.{
  ℕ, ◌+◌, ◌*◌, ◌<◌, ◌≡◌, ◌⊎◌, ◌↔◌, refl, Str, Bool, true, none, List, [], ◌∷◌, All, length, Result,
  ok, err, arith,
}
use spegel.Group.{Errgroup, IsErrgroup, Goroutine, serve, shutdown, World, IsOver, Due, Run}
use spegel.Group.Exits.{IsClean, first_error}
use spegel.Group.Ending.{steps_left}
use spegel.Group.Outcome.{Run-IsClean}
use spegel.Group.Stopping.{is_stopped}
use spegel.Group.Progress.{Run-Goes}

-- The server of `HTTPBootstrapper.Run`.
pub data IdServer : Type 0 where
  srv : IdServer

abbrev pub same_id_server : IdServer → IdServer → Bool
same_id_server srv srv = true

-- Its calls of `g.Go`.
abbrev pub id_goroutines : List (Goroutine IdServer)
id_goroutines = serve srv ∷ shutdown srv ∷ []

-- `LeaderElectionConfig`, in seconds.
pub record LeaderElectionConfig (Lock : Type 0) : Type 0 where
  pub lock : Lock
  pub release_on_cancel : Bool
  pub lease_duration : ℕ
  pub renew_deadline : ℕ
  pub retry_period : ℕ

unfoldable pub leader_election_config : {Lock : Type 0} → Lock → LeaderElectionConfig Lock
leader_election_config rl = record {
  lock = rl;
  release_on_cancel = true;
  lease_duration = 10;
  renew_deadline = 5;
  retry_period = 2;
}

-- `KubernetesBootstrapper.Run`, where `new_lock` is `resourcelock.New` of a lock on leases by its
-- namespace, name and identity: what `RunOrDie` is given, if it is called.
unfoldable pub kubernetes_run :
    {Lock : Type 0}
    → (Str → Str → Str → Result Lock)
    → Str
    → Str
    → Str
    → Result (LeaderElectionConfig Lock)
unfolding leader_election_config
kubernetes_run new_lock namespace name id = elim (new_lock namespace name id) [
  | err e ↦ err e
  | ok rl ↦ ok (leader_election_config rl)
]

-- What `NewLeaderElector` checks, whose errors make `RunOrDie` panic: the lease outlives the
-- deadline of its renewal, and this outlives 1.2 times the period of the retries.
abbrev pub IsAccepted : {Lock : Type 0} → LeaderElectionConfig Lock → Type 0
IsAccepted c =
    (c.renew_deadline < c.lease_duration)
    × (12 * c.retry_period < 10 * c.renew_deadline)
    × (0 < c.retry_period)

-- Whatever lock was made, leader election accepts the configuration, and the lock is let go when the
-- context is done.
pub kubernetes_run-IsAccepted :
    {Lock : Type 0} (new_lock : Str → Str → Str → Result Lock) (namespace name id : Str)
    → (c : LeaderElectionConfig Lock) → kubernetes_run new_lock namespace name id ≡ ok c
    → IsAccepted c × (c.release_on_cancel ≡ true) × (new_lock namespace name id ≡ ok c.lock)
unfolding kubernetes_run
kubernetes_run-IsAccepted new_lock namespace name id c h = ground arith

-- If errgroup is as documented, `Run` of the bootstrapper over HTTP returns, once its two
-- goroutines did, nil exactly if the context is done, the server was closed and its shutdown went
-- well.
pub id_goroutines-IsClean :
    {G : Type 0} (eg : Errgroup G)
    → IsErrgroup eg
    → (n : ℕ) (w : World IdServer G) → Run same_id_server eg id_goroutines n w
    → IsOver w
    → (eg.wait w.group ≡ first_error w.exits)
      × ((eg.wait w.group ≡ none) ↔ ((w.signalled ≡ true) × All IsClean w.exits))
      × (length w.exits ≡ 2)
id_goroutines-IsClean eg documented n w r over =
    Run-IsClean same_id_server eg id_goroutines documented refl n w r over

id_goroutines-is_stopped : (s : IdServer) → is_stopped same_id_server s id_goroutines ≡ true
id_goroutines-is_stopped srv = refl

-- It takes at most six steps, and ends once the context is done or one of the two failed.
pub id_goroutines-Go :
    {G : Type 0} (eg : Errgroup G)
    → IsErrgroup eg
    → (n : ℕ) (w : World IdServer G) → Run same_id_server eg id_goroutines n w
    → (w.signalled ≡ true) ⊎ (¬ All IsClean w.exits)
    → (n + steps_left w ≡ 6) × (IsOver w ⊎ ((v : World IdServer G) × Due same_id_server eg w v))
id_goroutines-Go eg documented n w r failed =
    Run-Goes same_id_server eg id_goroutines documented refl id_goroutines-is_stopped n w r failed
