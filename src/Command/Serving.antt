-- ===== src/Command/Serving.antt =====
-- The goroutines of `registryCommand` of main.go, and how the program ends.
pub mod Shutdown
use spegel.Base.{
  ℕ, ◌≡◌, Bool, true, false, Option, none, some, List, [], ◌∷◌, ◌++◌, Error, Result, ok, err,
}
use spegel.Oci.MirrorConfig.{Exit, finished, failed, panicked}
use spegel.Group.{Errgroup, Goroutine, serve, shutdown, router_run, router_close, state_track}
use spegel.Command.{Started, Ending, configured, served, refused}

pub data Server : Type 0 where
  metrics_srv reg_srv : Server

-- Whether two servers are one.
abbrev pub same_server : Server → Server → Bool
same_server metrics_srv metrics_srv = true
same_server reg_srv reg_srv = true
same_server metrics_srv reg_srv = false
same_server reg_srv metrics_srv = false

abbrev pub metrics_goroutines : List (Goroutine Server)
metrics_goroutines = serve metrics_srv ∷ shutdown metrics_srv ∷ []

abbrev pub router_goroutines : List (Goroutine Server)
router_goroutines = router_run ∷ router_close ∷ []

abbrev pub track_goroutines : List (Goroutine Server)
track_goroutines = state_track ∷ []

abbrev pub registry_goroutines : List (Goroutine Server)
registry_goroutines = serve reg_srv ∷ shutdown reg_srv ∷ []

-- The calls of `g.Go`, in order.
abbrev pub goroutines : List (Goroutine Server)
goroutines = metrics_goroutines ++ (router_goroutines ++ (track_goroutines ++ registry_goroutines))

-- What `registryCommand` returns: the error of the start, or what the group's `Wait` returns.
unfoldable pub registry_result : {G : Type 0} → Errgroup G → Result Started → G → Option Error
registry_result eg (err e) g = some e
registry_result eg (ok st) g = eg.wait g

-- `os.Exit(1)` in `main`, if `run` returned an error.
unfoldable pub exit_code : Option Error → ℕ
exit_code none = 0
exit_code (some e) = 1

-- The code that the process ends with; a panic ends it with 2.
unfoldable pub main_code : {S G : Type 0} → Errgroup G → Ending S → G → ℕ
unfolding exit_code registry_result
main_code eg (configured (finished s)) g = exit_code none
main_code eg (configured (failed e s)) g = exit_code (some e)
main_code eg (configured (panicked s)) g = 2
main_code eg (served res) g = exit_code (registry_result eg res g)
main_code eg (refused e) g = exit_code (some e)
