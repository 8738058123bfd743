-- ===== src/Command/Serving/Shutdown.antt =====
-- How the program of main.go comes to its end.
use spegel.Base.{
  ℕ, ◌+◌, ◌≡◌, true, length, ◌⊎◌, ◌↔◌, refl, Option, none, some, All, Result, ok, err, Error, arith,
}
use spegel.Oci.MirrorConfig.Files.{FileSystem, Toml}
use spegel.Group.{Errgroup, IsErrgroup, World, IsOver, Due, Run}
use spegel.Group.Exits.{IsClean, serves}
use spegel.Group.Ending.{steps_left}
use spegel.Group.Outcome.{Run-IsClean}
use spegel.Group.Stopping.{is_stopped}
use spegel.Group.Progress.{Run-Goes}
use spegel.Command.{RegistryCmd, Arguments, Libraries, Started, registry_command, run}
use spegel.Command.Serving.{
  Server, metrics_srv, reg_srv, same_server, goroutines, registry_result, exit_code, main_code,
}

exit_code-zero : (r : Option Error) → (exit_code r ≡ 0) ↔ (r ≡ none)
unfolding exit_code
exit_code-zero none = (λ h. refl, λ h. refl)
exit_code-zero (some e) = (λ h. absurd (omega arith), λ h. cc)

goroutines-serves : serves goroutines ≡ true
goroutines-serves = refl

goroutines-is_stopped : (s : Server) → is_stopped same_server s goroutines ≡ true
goroutines-is_stopped metrics_srv = refl
goroutines-is_stopped reg_srv = refl

registry_result-none :
    {G : Type 0} (eg : Errgroup G) (res : Result Started) (g : G)
    → (registry_result eg res g ≡ none) ↔ (((st : Started) × (res ≡ ok st)) × (eg.wait g ≡ none))
unfolding registry_result
registry_result-none eg (err e) g = (λ h. cc, λ h. cc)
registry_result-none eg (ok st) g = (λ h. ((st, refl), h), λ h. h.1)

-- If errgroup is as documented: the code of a process that was called with the subcommand for the
-- registry, once all its goroutines returned, is 0 exactly if the start went well, SIGTERM was
-- received, both servers were closed, and no other call failed. All seven goroutines were started
-- and ended, each once.
pub main_code-zero :
    {G : Type 0} (eg : Errgroup G)
    → IsErrgroup eg
    → (lib : Libraries) (fs : FileSystem) (toml : Toml) (args : Arguments) (cmd : RegistryCmd)
    → (s : fs.State) (n : ℕ) (w : World Server G) → args.configuration ≡ none
    → args.registry ≡ some cmd
    → Run same_server eg goroutines n w
    → IsOver w
    → ((main_code eg (run lib fs toml args s) w.group ≡ 0) ↔ (
        ((st : Started) × (registry_command lib cmd ≡ ok st))
        × (w.signalled ≡ true)
        × All IsClean w.exits))
      × (length w.exits ≡ 7)
unfolding main_code run
main_code-zero eg documented lib fs toml args cmd s n w none_asked asked r over =
    let (first, clean, counted) =
      Run-IsClean same_server eg goroutines documented goroutines-serves n w r over in
    let ends = registry_result-none eg (registry_command lib cmd) w.group in
    let code = exit_code-zero (registry_result eg (registry_command lib cmd) w.group) in
    rw (none_asked, asked)
      (
        (
          λ h.
              let (started, waited) = ends.0 (code.0 h) in
              let (stopping, cleanly) = clean.0 waited in (started, stopping, cleanly),
          λ h. code.1 (ends.1 (h.0, clean.1 (h.1, h.2))),
        ),
        counted,
      )

-- If errgroup is as documented: the goroutines of the registry take at most seventeen steps in
-- all, with the signal, whatever their order. Once SIGTERM was received, or one of them failed,
-- none waits for ever: until all are over, some step is due.
pub goroutines-Go :
    {G : Type 0} (eg : Errgroup G)
    → IsErrgroup eg
    → (n : ℕ) (w : World Server G) → Run same_server eg goroutines n w
    → (w.signalled ≡ true) ⊎ (¬ All IsClean w.exits)
    → (n + steps_left w ≡ 17) × (IsOver w ⊎ ((v : World Server G) × Due same_server eg w v))
goroutines-Go eg documented n w r failed =
    Run-Goes same_server eg goroutines documented goroutines-serves goroutines-is_stopped n w r
      failed
