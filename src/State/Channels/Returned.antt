-- ===== src/State/Channels/Returned.antt =====
-- When `Track` of pkg/state/state.go returns an error.
use spegel.Base.{
  ℕ, ◌≡◌, ◌∙◌, refl, subst, Bool, true, false, Option, none, some, List, length, Result, Error,
}
use spegel.Oci.Containerd.Backend.{Services, Event}
use spegel.Oci.Containerd.{subscribe}
use spegel.Oci.Containerd.Events.{AllDeliver}
use spegel.Oci.Containerd.Delivering
use spegel.Oci.Containerd.Delivering.{Delivering, events_of, errors_of, Reach-AllDeliver}
use spegel.Routing.Router.{Router}
use spegel.State.{World, returned, track_step, track}
use spegel.State.Channels.{
  TrackLoop, start_track, Step, merges, ticks, delivers, events, relays, errors, relay_ends,
  their_moves, their_errors, errors_end, events_closed, errors_closed, stops, Reach, start, next,
}
use spegel.State.Channels.Received.{Reach-IsReceived}
use spegel.State.Channels.Errors.{Errors}
use spegel.State.Channels.Inputs.{collect, tick_in, event_in, error_in}

-- A goroutine that closed its channels takes no step.
closed_over : {s : Services} {a b : Delivering} → Delivering.Step s a b → a.closed ≡ true → ⊥
closed_over (Delivering.take e es evs errs) h = cc
closed_over (Delivering.send_event event es evs errs) h = cc
closed_over (Delivering.send_error e es evs errs) h = cc
closed_over (Delivering.close evs errs) h = cc

module _ {S : Type 0} (router : Router S) (latest : Bool) (s : Services) where
  -- What is over before what.
  record Ends (t : TrackLoop S) : Type 0 where
    relay : t.relay_over ≡ true → t.delivering.closed ≡ true
    merged : t.errors_over ≡ true → t.relay_over ≡ true
    failed : (e : Error) → t.state.0 ≡ returned (some e) → t.delivering.closed ≡ true

  Step-Ends : (t u : TrackLoop S) → Step router latest s t u → Ends t → Ends u
  unfolding track_step
  Step-Ends t u (merges m step same is_open) i = record {
    relay = i.relay;
    merged = i.merged;
    failed = i.failed;
  }
  Step-Ends t u (ticks m at client h step grown) i = record {
    relay = i.relay;
    merged = i.merged;
    failed = λ e r. cc;
  }
  Step-Ends t u (delivers d step same_events same_errors) i = record {
    relay = λ over. absurd (closed_over step (i.relay over));
    merged = i.merged;
    failed = λ e r. absurd (closed_over step (i.failed e r));
  }
  Step-Ends t u (events d event client h step grown same_errors) i = record {
    relay = λ over. absurd (closed_over step (i.relay over));
    merged = i.merged;
    failed = λ e r. cc;
  }
  Step-Ends t u (relays d e none_held still step same_events grown) i = record {
    relay = λ over. absurd (closed_over step (i.relay over));
    merged = i.merged;
    failed = λ e r. absurd (closed_over step (i.failed e r));
  }
  Step-Ends t u (errors e client h is_held) i = record {
    relay = i.relay;
    merged = i.merged;
    failed = λ _ r. cc;
  }
  Step-Ends t u (relay_ends is_closed none_held) i = record {
    relay = λ over. is_closed;
    merged = λ over. refl;
    failed = i.failed;
  }
  Step-Ends t u (their_moves o m) i = record {
    relay = i.relay;
    merged = i.merged;
    failed = i.failed;
  }
  Step-Ends t u (their_errors o e client h m) i = record {
    relay = i.relay;
    merged = i.merged;
    failed = λ _ r. cc;
  }
  Step-Ends t u (errors_end over finished) i = record {
    relay = i.relay;
    merged = λ _. over;
    failed = i.failed;
  }
  Step-Ends t u (events_closed client h is_closed) i = record {
    relay = i.relay;
    merged = i.merged;
    failed = λ e r. is_closed;
  }
  Step-Ends t u (errors_closed client h is_over) i = record {
    relay = i.relay;
    merged = i.merged;
    failed = λ e r. i.relay (i.merged is_over);
  }
  Step-Ends t u (stops client h) i = record {
    relay = i.relay;
    merged = i.merged;
    failed = λ e r. cc;
  }

  Reach-Ends :
      (now : ℕ) (ticker : List ℕ) (envelopes : List (Option (Result Event))) (failures : List Error)
      (w : World S)
      → (t : TrackLoop S)
      → Reach router latest s (start_track none now ticker envelopes failures w) t
      → Ends t
  unfolding start_track
  Reach-Ends now ticker envelopes failures w _ start = record {
    relay = λ h. cc;
    merged = λ h. cc;
    failed = λ e r. cc;
  }
  Reach-Ends now ticker envelopes failures w _ (next {u} {v} r step) =
      Step-Ends u v step (Reach-Ends now ticker envelopes failures w u r)

  -- Whatever the order of the steps of Track and of the goroutines that it receives from: when
  -- Track returns an error, after Subscribe returned none, it received all the events of
  -- Subscribe, in their order, and all its errors but one at most, which the goroutine that merges
  -- them still holds; these in their order, among errors of containerd, which are the first of
  -- containerd's. It received all the ticks that were sent, of which more may come; and what it
  -- did is what its loop does with these inputs. The image of an event is complete, and of a new
  -- or changed image it is containerd's by name and digest, of a deleted one it has the envelope's
  -- name.
  pub Reach-AllReceived :
      (now : ℕ) (ticker : List ℕ) (envelopes : List (Option (Result Event))) (failures : List Error)
      (w : World S)
      → (t : TrackLoop S) (e : Error)
      → Reach router latest s (start_track none now ticker envelopes failures w) t
      → t.state.0 ≡ returned (some e)
      → (t.state ≡ track router latest t.inputs w)
        × (collect event_in t.inputs ≡ events_of (subscribe s envelopes))
        × Errors t.relayed t.theirs
            (errors_of (subscribe s envelopes))
            failures
            (collect error_in t.inputs)
        × (length (collect tick_in t.inputs) ≡ length t.ticks.out)
        × (t.ticks.closed ≡ false)
        × AllDeliver s envelopes (subscribe s envelopes)
  Reach-AllReceived now ticker envelopes failures w t e r failed =
      let i = Reach-IsReceived router latest s now ticker envelopes failures w t r in
      let is_closed = (Reach-Ends now ticker envelopes failures w t r).failed e failed in
      let (all_events, all_errors, all_deliver) =
        Reach-AllDeliver s envelopes t.delivering i.delivered is_closed in
      (
        i.tracked,
        i.all_events ∙ all_events,
        subst (λ es. Errors t.relayed t.theirs es failures (collect error_in t.inputs)) all_errors
            i.all_errors,
        i.all_ticks,
        i.open_ticks,
        all_deliver,
      )
