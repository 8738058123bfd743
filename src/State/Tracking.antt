-- ===== src/State/Tracking.antt =====
-- The loop of `Track` of pkg/state/state.go: when it ends, and what it keeps at a router whose
-- records do not expire.
use spegel.Base.{
  ℕ, ◌≡◌, refl, Str, Bool, false, Result-cases, none, some, inl, inr, List, [], ◌∷◌, Result, ok,
  err, error,
}
use spegel.Oci.Image.{Image, ImageEvent, EventType, create, update, delete}
use spegel.Oci.Client.{Client}
use spegel.Routing.Router.{Router}
use spegel.Routing.Contract.{Keeps}
use spegel.Base.{Option, Error}
use spegel.State.{
  World, Sync, Outcome, Input, running, returned, done, tick, image_event, image_error, finish,
  provide, update_by, update_image, synced, sync_image, sync_all, all_listed, all_images,
  start_sync, track_step, track, identifiers, has_target,
}

-- What each input alone says about going on.
abbrev pub verdict : Input → Outcome
verdict done = returned none
verdict tick = running
verdict (image_event none) = returned (some (error "image event channel closed"))
verdict (image_event (some _)) = running
verdict (image_error none) = returned (some (error "image error channel closed"))
verdict (image_error (some _)) = running

abbrev pub first_verdict : List (Client × Input) → Outcome
first_verdict [] = running
first_verdict ((_, input) ∷ later) = elim (verdict input) [
  | running ↦ first_verdict later
  | returned e ↦ returned e
]

-- Whatever the store and the router answer, tracking goes on until its context is done or one of
-- its two channels is closed, and returns what the first such input says.
pub track-first_verdict :
    {S : Type 0} (router : Router S) (latest : Bool) (inputs : List (Client × Input)) (w : World S)
    → (track router latest inputs w).0 ≡ first_verdict inputs
unfolding track track_step
track-first_verdict router latest [] w = refl
track-first_verdict router latest ((c, done) ∷ later) w = refl
track-first_verdict router latest ((c, image_event none) ∷ later) w = refl
track-first_verdict router latest ((c, image_error none) ∷ later) w = refl
track-first_verdict router latest ((c, tick) ∷ later) w = track-first_verdict router latest later _
track-first_verdict router latest ((c, image_event (some e)) ∷ later) w =
    track-first_verdict router latest later _
track-first_verdict router latest ((c, image_error (some e)) ∷ later) w =
    track-first_verdict router latest later w

module _ {S : Type 0} (router : Router S) (Holds : S → Str → Type 0)
    (keeps : Keeps router.advertise Holds) (latest : Bool) (key : Str) where
  abbrev HeldIn : World S → Type 0
  HeldIn w = Holds w.router key

  finish-Held :
      (event : ImageEvent) (keys : List Str) (w : World S) (r : Option Error × S)
      → Holds r.1 key
      → HeldIn (finish router latest event keys w r).1
  unfolding finish
  finish-Held event keys w (some e, s) h = h
  finish-Held event keys w (none, s) h = h

  provide-Held :
      (client : Client) (event : ImageEvent) (skip : Bool) (w : World S)
      → HeldIn w
      → HeldIn (provide router latest client event skip w).1
  unfolding provide
  provide-Held client event skip w h = elim (Result-cases (identifiers client event.image skip)) [
    | inl (e, failed) ↦ rw (failed, provide) h
    | inr (dgsts, found) ↦
        rw (found, provide) (finish-Held event _ w _ (keeps.kept _ w.router key h))
  ]

  update_by-Held :
      (kind : EventType) (client : Client) (event : ImageEvent) (skip : Bool)
      → (w : World S) → HeldIn w
      → HeldIn (update_by router latest kind client event skip w).1
  unfolding update_by
  update_by-Held create client event skip w h = provide-Held client event skip w h
  update_by-Held update client event skip w h = provide-Held client event skip w h
  update_by-Held delete client event skip w h = h

  update_image-Held :
      (client : Client) (event : ImageEvent) (skip : Bool) (w : World S)
      → HeldIn w
      → HeldIn (update_image router latest client event skip w).1
  unfolding update_image
  update_image-Held client event skip w h = update_by-Held event.event_type client event skip w h

  synced-Held :
      (i : Image) (st : Sync S) (res : Result ℕ × World S)
      → HeldIn res.1
      → HeldIn (synced router latest i st res).world
  unfolding synced
  synced-Held i st (ok n, w) h = h
  synced-Held i st (err e, w) h = h

  sync_all-Held :
      (client : Client) (is : List Image) (st : Sync S)
      → HeldIn st.world
      → HeldIn (sync_all router latest client is st).world
  unfolding sync_all sync_image
  sync_all-Held client [] st h = h
  sync_all-Held client (i ∷ is) st h = sync_all-Held client is _ (
      synced-Held i st _ (
        update_image-Held client (record { image = i; event_type = update })
          (has_target i.digest st.targets) st.world h))

  all_listed-Held :
      (client : Client) (res : Result (List Image)) (w : World S)
      → HeldIn w
      → HeldIn (all_listed router latest client res w).1
  unfolding all_listed
  all_listed-Held client (err e) w h = h
  all_listed-Held client (ok imgs) w h = sync_all-Held client imgs (start_sync w) h

  -- No event, and no failure, takes from a router that keeps what is advertised what it holds.
  pub track-Held :
      (inputs : List (Client × Input)) (w : World S)
      → Holds w.router key
      → Holds (track router latest inputs w).1.router key
  unfolding track track_step all_images
  track-Held [] w h = h
  track-Held ((c, done) ∷ later) w h = h
  track-Held ((c, image_event none) ∷ later) w h = h
  track-Held ((c, image_error none) ∷ later) w h = h
  track-Held ((c, tick) ∷ later) w h = track-Held later _ (all_listed-Held c c.list_images w h)
  track-Held ((c, image_event (some e)) ∷ later) w h =
      track-Held later _ (update_image-Held c e false w h)
  track-Held ((c, image_error (some e)) ∷ later) w h = track-Held later w h
