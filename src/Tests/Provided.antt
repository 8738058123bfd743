-- ===== src/Tests/Provided.antt =====
-- The theorems on what a router holds, at a hash table that records what is provided.

use mathlib.Core.List.{Memᴰ}
use spegel.Base.{◌≡◌, refl, Str, All, true, none, List, [], ◌∷◌, ok, join, str_eq}
use spegel.Routing.Router.{Router}
use spegel.Routing.Contract.{Keeps}
use spegel.Routing.P2p.Network.{Table}
use spegel.Routing.P2p.{advertise}
use spegel.Routing.P2p.Advertising.{IsProviding, ProvidesKey, advertise-Keeps}
use spegel.State.{
  tag_keys, World, all_images, sync_all, sync_image, synced, update_image, provide, finish,
  has_target,
}
use spegel.State.Providing.{Provided}
use spegel.State.Resolving.{all_images-Provided}
use spegel.Oci.Image.{tag_name}
use spegel.Metrics
use spegel.Tests.Data.{alpine, untagged, store}
use spegel.Tests.Tracking.{same_content}

abbrev recording : Table (List Str)
recording = record {
  sum = λ key. ok key;
  find_providers = λ c count s. [];
  provide = λ c announce s. (none, c ∷ s);
  size = λ s. 1;
  bootstrap = λ s. (none, s);
}

abbrev Recorded : List Str → Str → Type 0
Recorded s c = Memᴰ c s

recording-IsProviding : IsProviding recording Recorded
recording-IsProviding = record {
  provides = λ c announce s h. Memᴰ.head refl;
  stays = λ c x announce s h. Memᴰ.tail h;
}

advertise-Keeps_example : Keeps (advertise recording) (ProvidesKey recording Recorded)
advertise-Keeps_example = advertise-Keeps recording Recorded recording-IsProviding

-- The tracking with such a router.
abbrev over_table : Router (List Str)
over_table = record {
  ready = λ s. ok true;
  resolve = λ s key allow_self count. ok [];
  advertise = advertise recording;
}

abbrev begun : World (List Str)
begun = record { router = []; metrics = Metrics.no_metrics }

over_table_clean : (all_images over_table true store begun).0 ≡ none
unfolding all_images join sync_all sync_image synced update_image provide has_target finish
    advertise str_eq tag_keys tag_name
over_table_clean = refl

provided_over_table :
    All
      (Provided true store
        (ProvidesKey recording Recorded (all_images over_table true store begun).1.router))
      (alpine ∷ untagged ∷ [])
provided_over_table =
    all_images-Provided over_table (ProvidesKey recording Recorded)
      (advertise-Keeps recording Recorded recording-IsProviding) true store (alpine ∷ untagged ∷ [])
      begun same_content refl over_table_clean
