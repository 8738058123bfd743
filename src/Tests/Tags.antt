-- ===== src/Tests/Tags.antt =====
-- The theorem on the tag of one node's image that is pulled on another, at concrete inputs.
use mathlib.Core.List.{Memᴰ}
use spegel.Base.{◌≡◌, refl, ascii, str_eq, true, false, not, ◌&&◌, none, some, [], ◌∷◌, ok, cut}
use spegel.Base.Clean.{clean}
use spegel.Routing.Memory.{MemoryRouter, memory_router, resolve}
use spegel.Mux.Response.{new_response}
use spegel.State.{all_images}
use spegel.Registry.Distribution.{has_latest_tag}
use spegel.Registry.Handlers.{handle, is_external_request}
use spegel.Registry.Handlers.Exchange.{Environment}
use spegel.Cluster.{Node, Network, forward_to}
use spegel.Cluster.Passing.{IsPulledFrom}
use spegel.Tests.Data.{start, registry, environment, request}
use spegel.Oci.Image.{tag_name}
use spegel.Cluster.Tagged.{IsTagged, AsksTag, tag_reference, all_images-IsPulledFrom}
use spegel.Base.{List}
use spegel.Routing.Router.{AddrPort}
use spegel.Routing.Memory.Lookups.{Held, memory_router-Keeps}
use spegel.Cluster.Finding.{Runs, IsMirrored, LooksUp-Finds}
use spegel.Tests.Tracking.{same_content, all_clean}
use spegel.Tests.Data.{store, alpine, untagged}
use spegel.Tests.Paths.{name_is, tag_is}

abbrev tagged : MemoryRouter
tagged = (all_images memory_router true store start).1.router

-- The node whose images are tracked.
abbrev keeper : Node
keeper = record { registry = registry; environment = environment }

abbrev pair : Network
pair p = some keeper

abbrev asking_tag : Environment
asking_tag = record environment {
  resolve = λ key allow_self count. resolve tagged key allow_self count;
  proxy = forward_to pair;
  patience = none;
}

alpine-IsTagged : IsTagged true alpine (ascii "docker.io:443/library/alpine:3.18")
unfolding tag_name
alpine-IsTagged = record {
  keyed = refl;
  advertised = refl;
  some_registry = λ e. cc;
  named = name_is;
  tagged = tag_is;
}

tag_deep : str_eq (clean request.path) (ascii "/v2") ≡ false
unfolding clean str_eq
tag_deep = refl

request-AsksTag : AsksTag request alpine
request-AsksTag = record { method = refl; path = refl; namespace = refl; deep = tag_deep }

tag_kept :
    (not registry.resolve_latest_tag
      && has_latest_tag (tag_reference alpine (ascii "docker.io:443/library/alpine:3.18")))
    ≡ false
unfolding has_latest_tag cut str_eq
tag_kept = refl

keeper-Runs : Runs pair tagged.self store
keeper-Runs = record { node = keeper; there = refl; stores = refl }

tag-IsMirrored :
    IsMirrored registry asking_tag request
      (tag_reference alpine (ascii "docker.io:443/library/alpine:3.18"))
tag-IsMirrored = record { fresh = λ e. cc; stays = refl; kept = tag_kept }

all_images-IsPulledFrom_example :
    (peers : List AddrPort) × (asking_tag.resolve
        (ascii "docker.io:443/library/alpine:3.18")
        (is_external_request registry request)
        registry.resolve_retries
      ≡ ok peers)
    × IsPulledFrom pair peers asking_tag
        (tag_reference alpine (ascii "docker.io:443/library/alpine:3.18"))
        (is_external_request registry request)
        (handle registry asking_tag request new_response)
all_images-IsPulledFrom_example =
    all_images-IsPulledFrom memory_router Held memory_router-Keeps store true
      (alpine ∷ untagged ∷ []) start alpine (ascii "docker.io:443/library/alpine:3.18") pair
      tagged.self registry asking_tag request (ascii "sha256:ab") (ascii "{}") same_content refl
      all_clean (Memᴰ.head refl) alpine-IsTagged keeper-Runs refl (ascii "application/json", refl)
      (LooksUp-Finds tagged asking_tag registry.resolve_retries (λ key a k. refl)) (λ r s p. refl)
      request-AsksTag tag-IsMirrored
