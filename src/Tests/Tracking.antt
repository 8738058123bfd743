-- ===== src/Tests/Tracking.antt =====
-- The theorems on the tracking and on the router in memory at concrete inputs.
use mathlib.Core.List.{mem-cons_self}
use spegel.Base.{◌≡◌, refl, ap, ascii, str_eq, join, true, false, All, none, [], ◌∷◌, ok}
use spegel.Base.Maps.{lookup}
use spegel.Routing.Memory.{MemoryRouter, memory_router, resolve, advertise}
use spegel.Routing.Memory.Lookups.{Held, memory_router-Keeps}
use spegel.State.{
  World, all_images, sync_all, sync_image, synced, update_image, provide, finish, has_target,
}
use spegel.State.Gauges.{Counted, all_images-gauges}
use spegel.State.Providing.{Provided}
use spegel.State.Resolving.{SameContent, all_images-Provided}
use spegel.Tests.Data.{alpine, untagged, store, node, nobody, start}

pub same_content : SameContent store (alpine ∷ untagged ∷ [])
same_content i j mi mj e = ap (λ d. ok (d ∷ ascii "sha256:cd" ∷ [])) e

pub all_clean : (all_images memory_router true store start).0 ≡ none
unfolding all_images join sync_all sync_image synced update_image provide has_target finish
    advertise str_eq
all_clean = refl

all_images-Provided_example :
    All
      (Provided true store (Held (all_images memory_router true store start).1.router))
      (alpine ∷ untagged ∷ [])
all_images-Provided_example =
    all_images-Provided memory_router Held memory_router-Keeps true store (alpine ∷ untagged ∷ [])
      start same_content refl all_clean

all_images-gauges_example :
    Counted
      (ascii "docker.io:443")
      (alpine ∷ untagged ∷ [])
      (all_images memory_router true store start).1.metrics
all_images-gauges_example =
    all_images-gauges memory_router true store (alpine ∷ untagged ∷ []) start
      (ascii "docker.io:443") refl all_clean

abbrev holding : World MemoryRouter
holding = record start {
  router = record nobody { resolver = (ascii "sha256:ab", node 1 ∷ []) ∷ [] };
}

found_now : Held holding.router (ascii "sha256:ab")
unfolding lookup str_eq
found_now = mem-cons_self

nobody_yet : resolve nobody (ascii "a") false 3 ≡ ok []
unfolding resolve lookup
nobody_yet = refl
