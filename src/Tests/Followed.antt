-- ===== src/Tests/Followed.antt =====
-- A run of `Track` with its goroutines until the channels of `Subscribe` are closed.
use spegel.Base.{
  ◌≡◌, refl, str_eq, contains, cut, cut_last, all, true, false, Option, none, some, List, [], ◌∷◌,
  length, Result, ok, Error, error,
}
use spegel.Url
use spegel.Url.Escape.{unescape}
use spegel.Channel
use spegel.Channel.{output}
use spegel.Oci.Image
use spegel.Oci.Containerd.{subscribe, receive, get_event_image, image_of_event}
use spegel.Oci.Containerd.Backend.{Event, image_create}
use spegel.Oci.Containerd.Events.{AllDeliver}
use spegel.Oci.Containerd.Delivering
use spegel.Oci.Containerd.Delivering.{events_of, errors_of}
use spegel.Routing.Memory.{MemoryRouter, memory_router}
use spegel.State.{
  World, returned, tick, image_event, image_error, all_images, update_image, track, track_step,
}
use spegel.State.Channels.{
  TrackLoop, start_track, Reach, start, next, merges, ticks, delivers, events, relays, errors,
  their_moves, events_closed,
}
use spegel.State.Channels.Inputs.{collect, tick_in, event_in, error_in}
use spegel.State.Channels.Errors.{Errors}
use spegel.State.Channels.Returned.{Reach-AllReceived}
use spegel.Tests.Data
use spegel.Tests.Data.{alpine, store}
use spegel.Tests.Delivered.{created}
use spegel.Tests.Walk.{listing}

abbrev envelopes : List (Option (Result Event))
envelopes = none ∷ some (ok (image_create alpine.name)) ∷ none ∷ []

-- The error of an envelope without an event.
abbrev no_event : Error
no_event = error "any cannot be nil"

-- An error of containerd, which Track does not receive any more.
abbrev lost : Error
lost = error "context canceled"

abbrev tracked : World MemoryRouter
tracked =
    (update_image memory_router true store created false
      (all_images memory_router true store Data.start).1).1

-- After the immediate tick, an error, the event of a new image, and the end of the events, while
-- another error is held.
abbrev followed : TrackLoop MemoryRouter
followed = record {
  ticks = record { outputs = output [] ∷ output (9 ∷ []) ∷ []; out = 5 ∷ []; closed = false };
  delivering = record {
    envelopes = [];
    hand = none;
    events = created ∷ [];
    errors = no_event ∷ no_event ∷ [];
    closed = true;
  };
  relayed = some no_event;
  relay_over = false;
  theirs = record { pending = []; hand = some lost; finished = false };
  errors_over = false;
  inputs =
      (store, tick)
      ∷ (store, image_error (some no_event))
      ∷ (store, image_event (some created))
      ∷ (store, image_event none)
      ∷ [];
  state = (returned (some (error "image event channel closed")), tracked);
}

is_followed :
    Reach memory_router true listing
      (start_track none 5 (9 ∷ []) envelopes (lost ∷ []) Data.start)
      followed
unfolding start_track track_step receive get_event_image image_of_event Image.parse contains
    Url.parse cut str_eq cut_last all unescape Image.of_url Image.new_image
is_followed =
    let taken =
      next start (merges _ (Channel.move [] _ _ _ [] [] (Channel.receive 5 [])) refl refl) in
    let ticked =
      next taken
        (ticks _ 5 store refl (Channel.move [] _ _ _ (5 ∷ []) [] (Channel.send 5 [])) refl) in
    let empty = next ticked (delivers _ (Delivering.take _ _ [] []) refl refl) in
    let held =
      next empty (relays _ no_event refl refl (Delivering.send_error no_event _ [] []) refl refl) in
    let heard = next held (errors no_event store refl refl) in
    let received = next heard (delivers _ (Delivering.take _ _ [] (no_event ∷ [])) refl refl) in
    let told = next received (
      events _ created store refl (Delivering.send_event created _ [] (no_event ∷ [])) refl refl) in
    let last =
      next told (delivers _ (Delivering.take _ [] (created ∷ []) (no_event ∷ [])) refl refl) in
    let late = next last (
      relays _ no_event refl refl (Delivering.send_error no_event [] (created ∷ []) (no_event ∷ []))
        refl refl) in
    let ended =
      next late
        (delivers _ (Delivering.close (created ∷ []) (no_event ∷ no_event ∷ [])) refl refl) in
    let taken_lost = next ended (their_moves _ (Channel.receive lost [])) in
    next taken_lost (events_closed store refl refl)

Reach-AllReceived_example :
    (followed.state ≡ track memory_router true followed.inputs Data.start)
    × (collect event_in followed.inputs ≡ events_of (subscribe listing envelopes))
    × Errors
        (some no_event)
        (followed.theirs)
        (errors_of (subscribe listing envelopes))
        (lost ∷ [])
        (collect error_in followed.inputs)
    × (length (collect tick_in followed.inputs) ≡ length followed.ticks.out)
    × (followed.ticks.closed ≡ false)
    × AllDeliver listing envelopes (subscribe listing envelopes)
Reach-AllReceived_example =
    Reach-AllReceived memory_router true listing 5 (9 ∷ []) envelopes (lost ∷ []) Data.start
      followed (error "image event channel closed") is_followed refl
