-- ===== src/State/Channels/Received.antt =====
-- What `Track` of pkg/state/state.go receives from its goroutines.
use spegel.State.Channels.Errors.{Errors, Errors-relayed, Errors-sent, Errors-moved}
use spegel.State.Channels.Inputs.{
  collect, tick_in, event_in, error_in, collect-snoc, sends-open, track-append,
}
use mathlib.Core.List.{append-nil}
use spegel.Base.{
  ℕ, ◌≡◌, refl, sym, ap, subst, Error, ◌∙◌, Bool, false, Option, none, some, List, [], ◌∷◌, ◌++◌,
  length, length-append, Result, arith,
}
use spegel.Channel
use spegel.Channel.{Merge, merge, Output, output, Move}
use spegel.Channel.Merging.{nothing}
use spegel.Oci.Client.{Client}
use spegel.Oci.Containerd.Backend.{Services, Event}
use spegel.Oci.Containerd.Delivering
use spegel.Oci.Containerd.Delivering.{Delivering, start_delivering}
use spegel.Routing.Router.{Router}
use spegel.State.{
  World, Outcome, Input, running, done, tick, image_event, image_error, track_step, track,
}
use spegel.State.Channels.{
  TrackLoop, start_track, take_input, Step, merges, ticks, delivers, events, relays, errors,
  relay_ends, their_moves, their_errors, errors_end, events_closed, errors_closed, stops, Reach,
  start, next,
}

module _ {S : Type 0} (router : Router S) (latest : Bool) (s : Services) (now : ℕ) (ticker : List ℕ)
    (envelopes : List (Option (Result Event))) (failures : List Error) (w : World S) where
  -- What `Track` did is what its loop does with the inputs, and these are what its goroutines sent.
  pub record IsReceived (t : TrackLoop S) : Type 0 where
    pub tracked : t.state ≡ track router latest t.inputs w
    pub all_ticks : length (collect tick_in t.inputs) ≡ length t.ticks.out
    pub all_events : collect event_in t.inputs ≡ t.delivering.events
    pub all_errors :
        Errors t.relayed t.theirs t.delivering.errors failures (collect error_in t.inputs)
    pub open_ticks : t.ticks.closed ≡ false
    pub merged : Channel.Reach ((now ∷ []) ∷ ticker ∷ []) t.ticks
    pub delivered : Delivering.Reach s envelopes t.delivering

  module _ (t : TrackLoop S) (i : IsReceived t) where
    tracks_on :
        (client : Client) (input : Input)
        → t.state.0 ≡ running
        → track_step router latest client input t.state.1
          ≡ track router latest (t.inputs ++ (client, input) ∷ []) w
    tracks_on client input h =
        ap (λ (r : Outcome × World S). track_step router latest client input r.1) i.tracked
        ∙ sym (
            track-append router latest t.inputs client input w
              (sym (ap (λ (r : Outcome × World S). r.0) i.tracked) ∙ h))

    -- An input that is no tick adds none.
    same_ticks :
        (client : Client) (input : Input)
        → tick_in input ≡ []
        → length (collect tick_in (t.inputs ++ (client, input) ∷ [])) ≡ length t.ticks.out
    same_ticks client input h =
        ap length (
          collect-snoc tick_in t.inputs client input
          ∙ (ap (λ r. collect tick_in t.inputs ++ r) h ∙ append-nil (collect tick_in t.inputs)))
        ∙ i.all_ticks

    adds :
        {A : Type 0} (f : Input → List A) (client : Client) (input : Input) {before after : List A}
        → collect f t.inputs ≡ before
        → after ≡ before ++ f input
        → collect f (t.inputs ++ (client, input) ∷ []) ≡ after
    adds f client input e step =
        collect-snoc f t.inputs client input ∙ (ap (λ r. r ++ f input) e ∙ sym step)

    -- An input that is no error adds none.
    same_errors :
        (client : Client) (input : Input)
        → error_in input ≡ []
        → Errors t.relayed t.theirs t.delivering.errors failures
            (collect error_in (t.inputs ++ (client, input) ∷ []))
    same_errors client input h =
        subst (Errors t.relayed t.theirs t.delivering.errors failures)
          (sym (
            adds error_in client input refl (
              sym (append-nil (collect error_in t.inputs))
              ∙ ap (λ r. collect error_in t.inputs ++ r) (sym h))))
          i.all_errors

    take_input-IsReceived :
        (client : Client) (input : Input)
        → t.state.0 ≡ running
        → tick_in input ≡ []
        → event_in input ≡ []
        → error_in input ≡ []
        → IsReceived (take_input router latest s t client input)
    take_input-IsReceived client input h no_tick no_event no_error = record {
      tracked = tracks_on client input h;
      all_ticks = same_ticks client input no_tick;
      all_events = adds event_in client input i.all_events (
          sym (append-nil t.delivering.events) ∙ ap (λ r. t.delivering.events ++ r) (sym no_event));
      all_errors = same_errors client input no_error;
      open_ticks = i.open_ticks;
      merged = i.merged;
      delivered = i.delivered;
    }

  Step-IsReceived : (t u : TrackLoop S) → Step router latest s t u → IsReceived t → IsReceived u
  Step-IsReceived t u (merges m step same is_open) i = record {
    tracked = i.tracked;
    all_ticks = i.all_ticks ∙ ap length (sym same);
    all_events = i.all_events;
    all_errors = i.all_errors;
    open_ticks = is_open;
    merged = Channel.next i.merged step;
    delivered = i.delivered;
  }
  Step-IsReceived t u (ticks m at client h step grown) i = record {
    tracked = tracks_on t i client tick h;
    all_ticks =
        ap length (collect-snoc tick_in t.inputs client tick)
        ∙ omega (
          arith,
          i.all_ticks,
          ap length grown,
          length-append t.ticks.out (at ∷ []),
          length-append (collect tick_in t.inputs) (tt ∷ []),
        );
    all_events = adds t i event_in client tick i.all_events (sym (append-nil t.delivering.events));
    all_errors = same_errors t i client tick refl;
    open_ticks = sends-open at step grown;
    merged = Channel.next i.merged step;
    delivered = i.delivered;
  }
  Step-IsReceived t u (delivers d step same_events same) i = record {
    tracked = i.tracked;
    all_ticks = i.all_ticks;
    all_events = i.all_events ∙ sym same_events;
    all_errors =
        subst (λ r. Errors t.relayed t.theirs r failures (collect error_in t.inputs)) (sym same)
          i.all_errors;
    open_ticks = i.open_ticks;
    merged = i.merged;
    delivered = Delivering.next i.delivered step;
  }
  Step-IsReceived t u (events d event client h step grown same) i =
      let input = image_event (some event) in
      record {
        tracked = tracks_on t i client input h;
        all_ticks = same_ticks t i client input refl;
        all_events = adds t i event_in client input i.all_events grown;
        all_errors =
            subst
              (λ r.
                Errors t.relayed t.theirs r failures
                  (collect error_in (t.inputs ++ (client, input) ∷ [])))
              (sym same) (same_errors t i client input refl);
        open_ticks = i.open_ticks;
        merged = i.merged;
        delivered = Delivering.next i.delivered step;
      }
  Step-IsReceived t u (relays d e none_held still step same_events grown) i = record {
    tracked = i.tracked;
    all_ticks = i.all_ticks;
    all_events = i.all_events ∙ sym same_events;
    all_errors =
        subst (λ r. Errors (some e) t.theirs r failures (collect error_in t.inputs)) (sym grown)
          (Errors-relayed e (
            subst (λ r. Errors r t.theirs t.delivering.errors failures (collect error_in t.inputs))
              none_held i.all_errors));
    open_ticks = i.open_ticks;
    merged = i.merged;
    delivered = Delivering.next i.delivered step;
  }
  Step-IsReceived t u (errors e client h is_held) i =
      let input = image_error (some e) in
      record {
        tracked = tracks_on t i client input h;
        all_ticks = same_ticks t i client input refl;
        all_events =
            adds t i event_in client input i.all_events (sym (append-nil t.delivering.events));
        all_errors =
            subst (Errors none t.theirs t.delivering.errors failures)
              (sym (collect-snoc error_in t.inputs client input))
              (Errors-sent e (
                subst
                  (λ r. Errors r t.theirs t.delivering.errors failures (collect error_in t.inputs))
                  is_held i.all_errors));
        open_ticks = i.open_ticks;
        merged = i.merged;
        delivered = i.delivered;
      }
  Step-IsReceived t u (relay_ends is_closed none_held) i = record {
    tracked = i.tracked;
    all_ticks = i.all_ticks;
    all_events = i.all_events;
    all_errors = i.all_errors;
    open_ticks = i.open_ticks;
    merged = i.merged;
    delivered = i.delivered;
  }
  Step-IsReceived t u (their_moves o m) i = record {
    tracked = i.tracked;
    all_ticks = i.all_ticks;
    all_events = i.all_events;
    all_errors =
        subst (Errors t.relayed o t.delivering.errors failures)
          (append-nil (collect error_in t.inputs)) (Errors-moved m i.all_errors);
    open_ticks = i.open_ticks;
    merged = i.merged;
    delivered = i.delivered;
  }
  Step-IsReceived t u (their_errors o e client h m) i =
      let input = image_error (some e) in
      record {
        tracked = tracks_on t i client input h;
        all_ticks = same_ticks t i client input refl;
        all_events =
            adds t i event_in client input i.all_events (sym (append-nil t.delivering.events));
        all_errors =
            subst (Errors t.relayed o t.delivering.errors failures)
              (sym (collect-snoc error_in t.inputs client input)) (Errors-moved m i.all_errors);
        open_ticks = i.open_ticks;
        merged = i.merged;
        delivered = i.delivered;
      }
  Step-IsReceived t u (errors_end over finished) i = record {
    tracked = i.tracked;
    all_ticks = i.all_ticks;
    all_events = i.all_events;
    all_errors = i.all_errors;
    open_ticks = i.open_ticks;
    merged = i.merged;
    delivered = i.delivered;
  }
  Step-IsReceived t u (events_closed client h is_closed) i =
      take_input-IsReceived t i client (image_event none) h refl refl refl
  Step-IsReceived t u (errors_closed client h is_closed) i =
      take_input-IsReceived t i client (image_error none) h refl refl refl
  Step-IsReceived t u (stops client h) i = take_input-IsReceived t i client done h refl refl refl

  -- Whatever the order of the steps of `Track` and the goroutines that it receives from: where
  -- tracking stands is what its loop does with the inputs that it received. Among these, the ticks
  -- are as many as the merge of the immediate tick and the ticker sent, and the merge is not
  -- closed; the events and the errors are those that Subscribe's goroutine delivered, and
  -- containerd's, each in their order.
  pub Reach-IsReceived :
      (t : TrackLoop S)
      → Reach router latest s (start_track none now ticker envelopes failures w) t
      → IsReceived t
  unfolding start_track track
  Reach-IsReceived _ start = record {
    tracked = refl;
    all_ticks = refl;
    all_events = refl;
    all_errors = record {
      own = [];
      theirs = [];
      both = nothing ([] ∷ [] ∷ []);
      own_whole = refl;
      their_whole = refl;
    };
    open_ticks = refl;
    merged = Channel.start;
    delivered = Delivering.start;
  }
  Reach-IsReceived _ (next {u} {v} r step) = Step-IsReceived u v step (Reach-IsReceived u r)
