-- ===== src/State.antt =====
-- The tracking of the image store: pkg/state/state.go.
pub mod Gauges
pub mod Providing
pub mod Resolving
pub mod Tracking
pub mod Channels
pub mod Parts
pub mod Mocked
use spegel.Base.{
  ℕ, Str, str_eq, is_empty, Bool, true, false, not, ◌&&◌, ◌||◌, Option, none, some, List, [], ◌∷◌,
  ◌++◌, length, Result, ok, err, Error, error, wrapf, join, if◌then◌else◌,
}
use spegel.Base.Int.{pos, negsuc}
use spegel.Metrics
use spegel.Metrics.{Metrics}
use spegel.Oci.Image.{
  Image, ImageEvent, EventType, create, update, delete, is_latest_tag, image_string, tag_name,
}
use spegel.Oci.Client.{Client}
use spegel.Routing.Router.{Router}

-- What the functions of this package change.
pub record World (S : Type 0) : Type 0 where
  pub router : S
  pub metrics : Metrics

-- The tag reference that the keys of `update` begin with.
unfoldable pub tag_keys : Bool → Image → List Str
tag_keys resolve_latest_tag i =
    if not (not resolve_latest_tag && is_latest_tag i)
    then elim (tag_name i) [ none ↦ [] | some tag_ref ↦ tag_ref ∷ [] ]
    else []

-- The gauge of tags or of digests, by the image's tag.
unfoldable pub count_reference : Image → Metrics → Metrics
count_reference i m =
    if is_empty i.tag
    then record m {
      advertised_image_digests = Metrics.add i.registry (pos 1) m.advertised_image_digests;
    }
    else record m { advertised_image_tags = Metrics.add i.registry (pos 1) m.advertised_image_tags }

unfoldable pub count_image : Image → Metrics → Metrics
count_image i m = record m {
  advertised_images = Metrics.add i.registry (pos 1) m.advertised_images;
}

-- What `update` does to the gauges when it ends well.
unfoldable pub count_event : EventType → Image → Metrics → Metrics
unfolding count_reference count_image
count_event create i m = count_reference i (count_image i m)
count_event update i m = m
count_event delete i m = record m {
  advertised_images = Metrics.add i.registry (negsuc 0) m.advertised_images;
}

-- What `all` does to the gauges for an image whose update ended well.
unfoldable pub count_synced : Image → ℕ → Metrics → Metrics
unfolding count_reference count_image
count_synced i key_total m = count_reference i (
    count_image i
      (record m { advertised_keys = Metrics.add i.registry (pos key_total) m.advertised_keys }))

-- The digest keys of `update`.
abbrev identifiers : Client → Image → Bool → Result (List Str)
identifiers client i true = ok []
identifiers client i false = client.all_identifiers i

-- `_, ok := targets[d]`
unfoldable pub has_target : Str → List Str → Bool
has_target d [] = false
has_target d (t ∷ ts) = str_eq t d || has_target d ts

-- The variables of the loop of `all`.
pub record Sync (S : Type 0) : Type 0 where
  pub targets : List Str
  pub errs : List Error
  pub world : World S

-- The gauges are reset before the loop.
unfoldable pub start_sync : {S : Type 0} → World S → Sync S
start_sync w = record { targets = []; errs = []; world = record w { metrics = Metrics.no_metrics } }

pub data Outcome : Type 0 where
  running : Outcome
  returned : Option Error → Outcome

-- What the `select` of `Track` may receive. `none` stands for a closed channel.
pub data Input : Type 0 where
  done tick : Input
  image_event : Option ImageEvent → Input
  image_error : Option Error → Input

module _ {S : Type 0} (router : Router S) (resolve_latest_tag : Bool) where
  -- The end of `update`, by what `Advertise` returned.
  unfoldable pub finish : ImageEvent → List Str → World S → Option Error × S → Result ℕ × World S
  finish event keys w (some e, s) = (
    err (wrapf "could not advertise image %s: %w" (image_string event.image ∷ []) e),
    record w { router = s },
  )
  finish event keys w (none, s) = (
    ok (length keys),
    record { router = s; metrics = count_event event.event_type event.image w.metrics },
  )

  -- `update` behind the early return for deleted images.
  unfoldable pub provide : Client → ImageEvent → Bool → World S → Result ℕ × World S
  provide client event skip_digests w = elim (identifiers client event.image skip_digests) [
    | err e ↦
        (err (wrapf "could not get digests for image %s: %w" (image_string event.image ∷ []) e), w)
    | ok dgsts ↦
        let keys = tag_keys resolve_latest_tag event.image ++ dgsts in
        finish event keys w (router.advertise keys w.router)
  ]

  -- The tests of `update` on the type of the event.
  unfoldable pub update_by : EventType → Client → ImageEvent → Bool → World S → Result ℕ × World S
  update_by delete client event skip_digests w =
      (ok 0, record w { metrics = count_event delete event.image w.metrics })
  update_by create client event skip_digests w = provide client event skip_digests w
  update_by update client event skip_digests w = provide client event skip_digests w

  -- `update`
  unfoldable pub update_image : Client → ImageEvent → Bool → World S → Result ℕ × World S
  unfolding update_by
  update_image client event skip_digests w = update_by event.event_type client event skip_digests w

  unfoldable pub synced : Image → Sync S → Result ℕ × World S → Sync S
  synced i st (err e, w) = record st { errs = st.errs ++ e ∷ []; world = w }
  synced i st (ok key_total, w) = record st {
    targets = i.digest ∷ st.targets;
    world = record w { metrics = count_synced i key_total w.metrics };
  }

  -- One round of the loop of `all`.
  unfoldable pub sync_image : Client → Image → Sync S → Sync S
  sync_image client i st = synced i st (
      update_image client (record { image = i; event_type = update })
        (has_target i.digest st.targets) st.world)

  unfoldable pub sync_all : Client → List Image → Sync S → Sync S
  sync_all client [] st = st
  sync_all client (i ∷ is) st = sync_all client is (sync_image client i st)

  -- `all` behind `ListImages`.
  unfoldable pub all_listed : Client → Result (List Image) → World S → Option Error × World S
  unfolding start_sync
  all_listed client (err e) w = (some e, w)
  all_listed client (ok imgs) w =
      let st = sync_all client imgs (start_sync w) in (join st.errs, st.world)

  -- `all`
  unfoldable pub all_images : Client → World S → Option Error × World S
  unfolding all_listed
  all_images client w = all_listed client client.list_images w

  -- One round of the loop of `Track`; an error of `all` or `update` is logged and no more.
  unfoldable pub track_step : Client → Input → World S → Outcome × World S
  track_step client done w = (returned none, w)
  track_step client tick w = (running, (all_images client w).1)
  track_step client (image_event none) w = (returned (some (error "image event channel closed")), w)
  track_step client (image_event (some event)) w = (running, (update_image client event false w).1)
  track_step client (image_error none) w = (returned (some (error "image error channel closed")), w)
  track_step client (image_error (some e)) w = (running, w)

  -- The loop of `Track`, over what it receives and what the store answers then.
  unfoldable pub track : List (Client × Input) → World S → Outcome × World S
  track [] w = (running, w)
  track ((client, input) ∷ later) w =
      let (outcome, w') = track_step client input w in
      let rest = track later w' in elim outcome [ running ↦ rest | returned e ↦ (returned e, w') ]
