-- ===== src/Tests/Nodes.antt =====
-- The theorems on several nodes at concrete inputs.
use mathlib.Core.List.{Memᴰ}
use mathlib.Core.Option.{some-injective}
use spegel.Base.{
  ℕ, zero, suc, ◌≡◌, ◌≢◌, refl, sym, ap, Str, ascii, str_eq, length, true, false, not, ◌&&◌, Option,
  none, some, subst, [], ◌∷◌, ok, ok_injective, cut,
}
use spegel.Base.Clean.{clean}
use spegel.Routing.Memory.{MemoryRouter, memory_router, resolve}
use spegel.Mux.Response.{new_response}
use spegel.Oci.Containerd.{get_manifest}
use spegel.Oci.Containerd.Identifiers.{itself}
use spegel.Oci.Containerd.Setup.{containerd_client}
use spegel.State.{all_images}
use spegel.Registry.Distribution.{Reference, manifest, has_latest_tag}
use spegel.Registry.Distribution.Paths.{manifest_path, parse-manifest_digest}
use spegel.Registry.Handlers.{handle, is_external_request}
use spegel.Registry.Handlers.Exchange.{Request, Environment}
use spegel.Cluster.{Node, Network, forward_to}
use spegel.Cluster.Serving.{IsPull}
use spegel.Cluster.Passing.{Agrees, IsPulled, IsPulledFrom}
use spegel.Cluster.Pulling.{handle-IsPulledFrom}
use spegel.Cluster.Serving.{by_digest}
use spegel.Cluster.Tracked.{all_images-IsPulled}
use spegel.Tests.Data.{start, registry, environment, request, node, broken}
use spegel.Base.{inr}
use spegel.Routing.Memory.Lookups.{Held, memory_router-Keeps}
use spegel.Cluster.Finding.{Runs, IsMirrored, LooksUp-Finds}
use spegel.Tests.Paths.{name_is, sha256-IsDigest}
use spegel.Tests.Walk.{named_image}
use spegel.Tests.Store.{whole, containerd, files, whole-IsStore, whole_clean}

abbrev pub digest_reference : Reference
digest_reference = record {
  kind = manifest;
  name = [];
  dgst = ascii "sha256:ab";
  original_registry = ascii "docker.io:443";
}

abbrev pub digest_request : Request
digest_request = record request {
  path = manifest_path (ascii "library/alpine") (ascii "sha256:ab");
}

deep_path :
    str_eq (clean (manifest_path (ascii "library/alpine") (ascii "sha256:ab"))) (ascii "/v2")
    ≡ false
unfolding clean str_eq
deep_path = refl

pub pull : IsPull digest_request digest_reference
pull = record {
  method = refl;
  rest = ascii "library/alpine/manifests/sha256:ab";
  path = refl;
  deep = deep_path;
  parsed =
      parse-manifest_digest (ascii "docker.io:443") (ascii "library/alpine") (ascii "sha256")
        (ascii "ab") name_is sha256-IsDigest;
  known = inr refl;
}

pub not_forwarded : digest_request.mirrored ≢ ascii "true"
not_forwarded e = cc

pub not_latest : (not registry.resolve_latest_tag && has_latest_tag digest_reference) ≡ false
unfolding has_latest_tag cut str_eq
not_latest = refl

-- Node 1 cannot be reached, node 2 has nothing, and all others have a store.
abbrev node_at : ℕ → Option Node
node_at (suc zero) = none
node_at (suc (suc zero)) =
    some (record { registry = registry; environment = record environment { client = broken } })
node_at _ =
    some (record { registry = registry; environment = record environment { takes = length } })

abbrev several : Network
several p = node_at p.port

abbrev joined : Environment
joined = record environment { proxy = forward_to several; patience = none }

-- What a node has of the digest, and how it sends it.
abbrev Whole : Str → Node → Type 0
Whole b n =
    (c : Str) (media_type : Str)
    → n.environment.client.get_manifest (ascii "sha256:ab") ≡ ok (c, media_type)
    → (c ≡ b) × (n.environment.takes b ≡ length b)

handle-IsPulledFrom_example :
    IsPulledFrom several
      (node 1 ∷ node 2 ∷ node 3 ∷ node 4 ∷ [])
      joined
      digest_reference
      (is_external_request registry digest_request)
      (handle registry joined digest_request new_response)
handle-IsPulledFrom_example =
    handle-IsPulledFrom several joined digest_request digest_reference pull (λ r s p. refl) registry
      not_forwarded refl not_latest (node 1 ∷ node 2 ∷ node 3 ∷ node 4 ∷ []) refl (node 4)
      (record { registry = registry; environment = record environment { takes = length } })
      (ascii "sha256:ab") (ascii "{}") (∣ Memᴰ.tail (Memᴰ.tail (Memᴰ.tail (Memᴰ.head refl))) ∣₁)
      refl (by_digest refl, (ascii "application/json", refl))

abbrev tracked : MemoryRouter
tracked =
    (all_images memory_router true (containerd_client files (ok whole) containerd) start).1.router

-- The node whose store of containerd is tracked.
abbrev pub holder : Node
holder = record {
  registry = registry;
  environment = record environment {
    client = containerd_client files (ok whole) containerd;
    takes = length;
  };
}

abbrev pub alone : Network
alone p = some holder

abbrev asking : Environment
asking = record environment {
  resolve = λ key allow_self count. resolve tracked key allow_self count;
  proxy = forward_to alone;
  patience = none;
}

pub whole_manifest :
    (containerd_client files (ok whole) containerd).get_manifest (ascii "sha256:ab")
    ≡ ok (ascii "sha256:ab", ascii "index")
unfolding get_manifest containerd_client
whole_manifest = refl

holder-Whole : Whole (ascii "sha256:ab") holder
unfolding get_manifest containerd_client
holder-Whole c t h = (sym (ap (λ r. r.0) (ok_injective h)), refl)

pub alone-Agrees : Agrees alone manifest (ascii "sha256:ab") (ascii "sha256:ab")
alone-Agrees p n c there (t, h) =
    subst (Whole (ascii "sha256:ab")) (some-injective _ _ there) holder-Whole c t h

holder-Runs : Runs alone tracked.self (containerd_client files (ok whole) containerd)
holder-Runs = record { node = holder; there = refl; stores = refl }

digest-IsMirrored : IsMirrored registry asking digest_request digest_reference
digest-IsMirrored = record { fresh = not_forwarded; stays = refl; kept = not_latest }

all_images-IsPulled_example :
    IsPulled asking digest_reference
      (ascii "sha256:ab")
      (ascii "sha256:ab")
      (is_external_request registry digest_request)
      (handle registry asking digest_request new_response)
all_images-IsPulled_example =
    all_images-IsPulled memory_router Held memory_router-Keeps whole containerd files
      (named_image ∷ []) true start named_image alone tracked.self registry asking digest_request
      digest_reference (ascii "sha256:ab") whole-IsStore whole_clean (Memᴰ.head refl) itself
      holder-Runs (ascii "index", whole_manifest)
      (LooksUp-Finds tracked asking registry.resolve_retries (λ key a k. refl)) (λ r s p. refl)
      alone-Agrees pull refl digest-IsMirrored
