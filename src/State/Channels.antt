-- ===== src/State/Channels.antt =====
-- `Track` of pkg/state/state.go with the goroutines that it receives from: those that
-- merge its ticks (internal/channel/channel.go), that of `Subscribe` (pkg/oci/containerd.go), and those
-- that merge the errors of `Subscribe` with containerd's own.
pub mod Errors
pub mod Received
pub mod Inputs
pub mod Returned
use mathlib.Core.List.{append-nil, append_assoc}
use spegel.Base.{
  ℕ, ◌≡◌, refl, sym, ap, ◌∙◌, Bool, true, false, Option, none, some, List, [], ◌∷◌, ◌++◌, length,
  length-append, Result, ok, err, Error, arith,
}
use spegel.Channel
use spegel.Channel.{Merge, merge, Output, output, Move}
use spegel.Oci.Image.{ImageEvent}
use spegel.Oci.Client.{Client}
use spegel.Oci.Containerd.Backend.{Services, Event}
use spegel.Oci.Containerd.Delivering
use spegel.Oci.Containerd.Delivering.{Delivering, start_delivering}
use spegel.Routing.Router.{Router}
use spegel.State.{
  World, Outcome, Input, running, returned, done, tick, image_event, image_error, track_step, track,
}

-- The merge of the ticks, the goroutine of `Subscribe`, that which passes its errors on, with the error
-- that it has to send and whether it ended, that which passes containerd's errors on, and whether the
-- merged channel of errors is closed; what `Track` received so far, each with what the store answered
-- then, and where it stands.
pub record TrackLoop (S : Type 0) : Type 0 where
  pub ticks : Merge ℕ
  pub delivering : Delivering
  pub relayed : Option Error
  pub relay_over : Bool
  pub theirs : Output Error
  pub errors_over : Bool
  pub inputs : List (Client × Input)
  pub state : Outcome × World S

-- `Track` up to its loop, with the times of the ticks, the envelopes and the errors that
-- containerd sends, by the error of `Subscribe`: the immediate tick is there at once.
unfoldable pub start_track :
    {S : Type 0}
    → Option Error
    → ℕ
    → List ℕ
    → List (Option (Result Event))
    → List Error
    → World S
    → TrackLoop S
start_track subscribed now ticker envelopes failures w = record {
  ticks = merge ((now ∷ []) ∷ ticker ∷ []);
  delivering = start_delivering envelopes;
  relayed = none;
  relay_over = false;
  theirs = output failures;
  errors_over = false;
  inputs = [];
  state = elim subscribed [ none ↦ (running, w) | some e ↦ (returned (some e), w) ];
}

module _ {S : Type 0} (router : Router S) (latest : Bool) (s : Services) where
  -- The `select` of `Track` received this.
  abbrev pub take_input : TrackLoop S → Client → Input → TrackLoop S
  take_input t client input = record t {
    inputs = t.inputs ++ (client, input) ∷ [];
    state = track_step router latest client input t.state.1;
  }

  -- Neither channel of the ticks is waited for when it is closed: that of the ticker never is.
  pub data Step (t : TrackLoop S) : TrackLoop S → Type 0 where
    merges :
        (m : Merge ℕ)
        → Channel.Step t.ticks m
        → m.out ≡ t.ticks.out
        → m.closed ≡ false
        → Step t (record t { ticks = m })
    ticks :
        (m : Merge ℕ) (now : ℕ) (client : Client)
        → t.state.0 ≡ running
        → Channel.Step t.ticks m
        → m.out ≡ t.ticks.out ++ now ∷ []
        → Step t (record (take_input t client tick) { ticks = m })
    delivers :
        (d : Delivering)
        → Delivering.Step s t.delivering d
        → d.events ≡ t.delivering.events
        → d.errors ≡ t.delivering.errors
        → Step t (record t { delivering = d })
    events :
        (d : Delivering) (event : ImageEvent) (client : Client)
        → t.state.0 ≡ running
        → Delivering.Step s t.delivering d
        → d.events ≡ t.delivering.events ++ event ∷ []
        → d.errors ≡ t.delivering.errors
        → Step t (record (take_input t client (image_event (some event))) { delivering = d })
    relays :
        (d : Delivering) (e : Error)
        → t.relayed ≡ none
        → t.relay_over ≡ false
        → Delivering.Step s t.delivering d
        → d.events ≡ t.delivering.events
        → d.errors ≡ t.delivering.errors ++ e ∷ []
        → Step t (record t { delivering = d; relayed = some e })
    errors :
        (e : Error) (client : Client)
        → t.state.0 ≡ running
        → t.relayed ≡ some e
        → Step t (record (take_input t client (image_error (some e))) { relayed = none })
    relay_ends :
        t.delivering.closed ≡ true → t.relayed ≡ none → Step t (record t { relay_over = true })
    their_moves : (o : Output Error) → Move t.theirs [] o → Step t (record t { theirs = o })
    their_errors :
        (o : Output Error) (e : Error) (client : Client)
        → t.state.0 ≡ running
        → Move t.theirs (e ∷ []) o
        → Step t (record (take_input t client (image_error (some e))) { theirs = o })
    errors_end :
        t.relay_over ≡ true → t.theirs.finished ≡ true → Step t (record t { errors_over = true })
    events_closed :
        (client : Client)
        → t.state.0 ≡ running
        → t.delivering.closed ≡ true
        → Step t (take_input t client (image_event none))
    errors_closed :
        (client : Client)
        → t.state.0 ≡ running
        → t.errors_over ≡ true
        → Step t (take_input t client (image_error none))
    stops : (client : Client) → t.state.0 ≡ running → Step t (take_input t client done)

  pub data Reach (t : TrackLoop S) : TrackLoop S → Type 0 where
    start : Reach t t
    next : {u v : TrackLoop S} → Reach t u → Step u v → Reach t v
