-- ===== src/State/Channels/Inputs.antt =====
-- What a list of inputs of `Track` of pkg/state/state.go holds, and its loop over one more.
use mathlib.Core.List.{append-nil, append_assoc}
use spegel.Base.{
  ℕ, ◌≡◌, refl, sym, ap, ◌∙◌, Bool, false, none, some, List, [], ◌∷◌, ◌++◌, length, length-append,
  Error, arith,
}
use spegel.Channel
use spegel.Channel.{Merge, merge}
use spegel.Oci.Image.{ImageEvent}
use spegel.Oci.Client.{Client}
use spegel.Routing.Router.{Router}
use spegel.State.{
  World, Outcome, Input, running, returned, done, tick, image_event, image_error, track_step, track,
}

abbrev pub collect : {A : Type 0} → (Input → List A) → List (Client × Input) → List A
collect f [] = []
collect f ((client, input) ∷ inputs) = f input ++ collect f inputs

abbrev pub tick_in : Input → List (Unit {0})
tick_in tick = tt ∷ []
tick_in done = []
tick_in (image_event e) = []
tick_in (image_error e) = []

abbrev pub event_in : Input → List ImageEvent
event_in (image_event (some e)) = e ∷ []
event_in (image_event none) = []
event_in tick = []
event_in done = []
event_in (image_error e) = []

abbrev pub error_in : Input → List Error
error_in (image_error (some e)) = e ∷ []
error_in (image_error none) = []
error_in tick = []
error_in done = []
error_in (image_event e) = []

collect-append :
    {A : Type 0} (f : Input → List A) (xs ys : List (Client × Input))
    → collect f (xs ++ ys) ≡ collect f xs ++ collect f ys
collect-append f [] ys = refl
collect-append f ((c, input) ∷ xs) ys =
    ap (λ r. f input ++ r) (collect-append f xs ys)
    ∙ sym (append_assoc (f input) (collect f xs) (collect f ys))

-- What one more input adds.
pub collect-snoc :
    {A : Type 0} (f : Input → List A) (inputs : List (Client × Input)) (client : Client)
    (input : Input)
    → collect f (inputs ++ (client, input) ∷ []) ≡ collect f inputs ++ f input
collect-snoc f inputs client input =
    collect-append f inputs ((client, input) ∷ [])
    ∙ ap (λ r. collect f inputs ++ r) (append-nil (f input))

-- The step of a merge that sends something is none that closes it.
pub sends-open :
    {a b : Merge ℕ} (x : ℕ) → Channel.Step a b → b.out ≡ a.out ++ x ∷ [] → b.closed ≡ false
sends-open x (Channel.move before after o p sent out m) h = refl
sends-open x (Channel.close os out f) h =
    absurd (omega (arith, ap length h, length-append out (x ∷ [])))

module _ {S : Type 0} (router : Router S) (latest : Bool) where
  step_alone :
      (r : Outcome × World S)
      → (elim r.0 [ running ↦ (running, r.1) | returned e ↦ (returned e, r.1) ]) ≡ r
  step_alone (running, w) = refl
  step_alone (returned e, w) = refl

  -- Tracking that still runs goes on with what it receives next.
  pub track-append :
      (inputs : List (Client × Input)) (client : Client) (input : Input) (w : World S)
      → (track router latest inputs w).0 ≡ running
      → track router latest (inputs ++ (client, input) ∷ []) w
        ≡ track_step router latest client input (track router latest inputs w).1
  unfolding track track_step
  track-append [] client input w h = step_alone (track_step router latest client input w)
  track-append ((c, done) ∷ later) client input w h = cc
  track-append ((c, image_event none) ∷ later) client input w h = cc
  track-append ((c, image_error none) ∷ later) client input w h = cc
  track-append ((c, tick) ∷ later) client input w h = track-append later client input _ h
  track-append ((c, image_event (some e)) ∷ later) client input w h =
      track-append later client input _ h
  track-append ((c, image_error (some e)) ∷ later) client input w h =
      track-append later client input w h
