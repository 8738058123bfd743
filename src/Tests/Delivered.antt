-- ===== src/Tests/Delivered.antt =====
-- The theorem on what `Subscribe` delivers at three envelopes.
use spegel.Base.{◌≡◌, refl, str_eq, Option, none, some, List, [], ◌∷◌, Result, ok, Error, error}
use spegel.Oci.Image.{Image}
use spegel.Base.{contains, cut, cut_last, all}
use spegel.Url
use spegel.Url.Escape.{unescape}
use spegel.Oci.Image
use spegel.Oci.Containerd.Backend.{Event, image_create, image_delete}
use spegel.Oci.Containerd.Delivering.{
  Delivering, Reach, start, next, take, send_event, send_error, close,
}
use spegel.Oci.Image.{ImageEvent, create, delete}
use spegel.Base.{true, false, subst, ◌++◌}
use spegel.Oci.Containerd.{receive, get_event_image, image_of_event}
use spegel.Tests.Data.{alpine}
use spegel.Tests.Walk.{listing}

abbrev envelopes : List (Option (Result Event))
envelopes = none ∷ some (ok (image_create alpine.name)) ∷ some (ok (image_delete alpine.name)) ∷ []

abbrev pub created : ImageEvent
created = record { image = alpine; event_type = create }

abbrev deleted : ImageEvent
deleted = record { image = alpine; event_type = delete }

created-receive : receive listing (some (ok (image_create alpine.name))) ≡ ok created
unfolding receive get_event_image image_of_event Image.parse contains Url.parse cut str_eq cut_last
    all unescape Image.of_url Image.new_image
created-receive = refl

deleted-receive : receive listing (some (ok (image_delete alpine.name))) ≡ ok deleted
unfolding receive get_event_image image_of_event Image.parse contains Url.parse cut str_eq cut_last
    all unescape Image.of_url Image.new_image
deleted-receive = refl

-- The error of the first envelope, and the events of the others.
abbrev delivered : Delivering
delivered = record {
  envelopes = [];
  hand = none;
  events = created ∷ deleted ∷ [];
  errors = error "any cannot be nil" ∷ [];
  closed = true;
}

-- A step that receives an envelope, and one that sends its event.
sent :
    (e : Option (Result Event)) (es before : List (Option (Result Event))) (event : ImageEvent)
    (events : List ImageEvent) (errors : List Error)
    → receive listing e ≡ ok event
    → Reach listing before (record {
      envelopes = e ∷ es;
      hand = none;
      events = events;
      errors = errors;
      closed = false;
    })
    → Reach listing before (record {
      envelopes = es;
      hand = none;
      events = events ++ event ∷ [];
      errors = errors;
      closed = false;
    })
sent e es before event events errors received r =
    next
      (subst
        (λ x. Reach listing before (record {
          envelopes = es;
          hand = some x;
          events = events;
          errors = errors;
          closed = false;
        }))
        received (next r (take e es events errors)))
      (send_event event es events errors)

all_delivered : Reach listing envelopes delivered
unfolding receive get_event_image
all_delivered =
    let failing = next (next start (take none _ [] [])) (send_error _ _ [] []) in
    let one = sent _ _ envelopes created [] _ created-receive failing in
    next (sent _ [] envelopes deleted _ _ deleted-receive one) (close _ _)
