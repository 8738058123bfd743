-- ===== src/Oci/Containerd/Delivering.antt =====
-- How the goroutine of `Subscribe` of pkg/oci/containerd.go delivers events and errors on its two
-- channels. That of errors is received from by the goroutine that merges it with containerd's errors
-- (State/Channels).
use mathlib.Core.List.{append-nil, append_assoc}
use spegel.Base.{
  ◌≡◌, ◌∙◌, refl, sym, ap, Bool, true, false, Option, none, some, List, [], ◌∷◌, ◌++◌, Result, ok,
  err, Error,
}
use spegel.Oci.Image.{ImageEvent}
use spegel.Oci.Containerd.{receive, subscribe}
use spegel.Oci.Containerd.Backend.{Services, Event}
use spegel.Oci.Containerd.Events.{AllDeliver, subscribe-AllDeliver}

-- The envelopes that are still to come, what the goroutine has to send, what was received from the
-- channel of images and from that of errors, and whether both are closed.
pub record Delivering : Type 0 where
  pub envelopes : List (Option (Result Event))
  pub hand : Option (Result ImageEvent)
  pub events : List ImageEvent
  pub errors : List Error
  pub closed : Bool

-- `go func()` in `Subscribe`
abbrev pub start_delivering : List (Option (Result Event)) → Delivering
start_delivering envelopes = record {
  envelopes = envelopes;
  hand = none;
  events = [];
  errors = [];
  closed = false;
}

-- The channels have no buffer: what is sent is received in the same step.
pub data Step (s : Services) : Delivering → Delivering → Type 0 where
  take :
      (e : Option (Result Event)) (es : List (Option (Result Event))) (events : List ImageEvent)
      (errors : List Error)
      → Step s
          (record {
            envelopes = e ∷ es;
            hand = none;
            events = events;
            errors = errors;
            closed = false;
          })
          (record {
            envelopes = es;
            hand = some (receive s e);
            events = events;
            errors = errors;
            closed = false;
          })
  send_event :
      (event : ImageEvent) (es : List (Option (Result Event))) (events : List ImageEvent)
      (errors : List Error)
      → Step s
          (record {
            envelopes = es;
            hand = some (ok event);
            events = events;
            errors = errors;
            closed = false;
          })
          (record {
            envelopes = es;
            hand = none;
            events = events ++ event ∷ [];
            errors = errors;
            closed = false;
          })
  send_error :
      (e : Error) (es : List (Option (Result Event))) (events : List ImageEvent)
      (errors : List Error)
      → Step s
          (record {
            envelopes = es;
            hand = some (err e);
            events = events;
            errors = errors;
            closed = false;
          })
          (record {
            envelopes = es;
            hand = none;
            events = events;
            errors = errors ++ e ∷ [];
            closed = false;
          })
  close :
      (events : List ImageEvent) (errors : List Error)
      → Step s
          (record { envelopes = []; hand = none; events = events; errors = errors; closed = false })
          (record { envelopes = []; hand = none; events = events; errors = errors; closed = true })

pub data Reach (s : Services) (envelopes : List (Option (Result Event))) : Delivering → Type 0 where
  start : Reach s envelopes (start_delivering envelopes)
  next : {d e : Delivering} → Reach s envelopes d → Step s d e → Reach s envelopes e

abbrev pub events_of : List (Result ImageEvent) → List ImageEvent
events_of [] = []
events_of (ok e ∷ rs) = e ∷ events_of rs
events_of (err e ∷ rs) = events_of rs

abbrev pub errors_of : List (Result ImageEvent) → List Error
errors_of [] = []
errors_of (ok e ∷ rs) = errors_of rs
errors_of (err e ∷ rs) = e ∷ errors_of rs

-- What the goroutine still sends.
abbrev coming : Services → Delivering → List (Result ImageEvent)
coming s d = elim d.hand [ none ↦ subscribe s d.envelopes | some r ↦ r ∷ subscribe s d.envelopes ]

record InOrder (s : Services) (envelopes : List (Option (Result Event))) (d : Delivering)
    : Type 0 where
  events : d.events ++ events_of (coming s d) ≡ events_of (subscribe s envelopes)
  errors : d.errors ++ errors_of (coming s d) ≡ errors_of (subscribe s envelopes)
  closing : d.closed ≡ true → coming s d ≡ []

module _ (s : Services) (envelopes : List (Option (Result Event))) where
  InOrder-Step : (d e : Delivering) → Step s d e → InOrder s envelopes d → InOrder s envelopes e
  unfolding subscribe
  InOrder-Step _ _ (take x es events errors) i = record {
    events = i.events;
    errors = i.errors;
    closing = λ h. cc;
  }
  InOrder-Step _ _ (send_event event es events errors) i = record {
    events = append_assoc events (event ∷ []) _ ∙ i.events;
    errors = i.errors;
    closing = λ h. cc;
  }
  InOrder-Step _ _ (send_error e es events errors) i = record {
    events = i.events;
    errors = append_assoc errors (e ∷ []) _ ∙ i.errors;
    closing = λ h. cc;
  }
  InOrder-Step _ _ (close events errors) i = record {
    events = i.events;
    errors = i.errors;
    closing = λ h. refl;
  }

  Reach-InOrder : (d : Delivering) → Reach s envelopes d → InOrder s envelopes d
  Reach-InOrder _ start = record { events = refl; errors = refl; closing = λ h. cc }
  Reach-InOrder _ (next {d} {e} r step) = InOrder-Step d e step (Reach-InOrder d r)

  -- The goroutine of Subscribe sends one error or one event for each envelope, in order, whenever
  -- they are received: once its channels are closed, the events that were received are all the
  -- events, and the errors all the errors. The image of an event is complete, and of a new or
  -- changed image it is containerd's by name and digest, of a deleted one it has the envelope's
  -- name.
  pub Reach-AllDeliver :
      (d : Delivering)
      → Reach s envelopes d
      → d.closed ≡ true
      → (d.events ≡ events_of (subscribe s envelopes))
        × (d.errors ≡ errors_of (subscribe s envelopes))
        × AllDeliver s envelopes (subscribe s envelopes)
  Reach-AllDeliver d r ended =
      let i = Reach-InOrder d r in
      let none_left = i.closing ended in
      (
        sym (append-nil d.events) ∙ ap (λ rs. d.events ++ events_of rs) (sym none_left) ∙ i.events,
        sym (append-nil d.errors) ∙ ap (λ rs. d.errors ++ errors_of rs) (sym none_left) ∙ i.errors,
        subscribe-AllDeliver s envelopes,
      )
