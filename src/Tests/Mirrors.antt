-- ===== src/Tests/Mirrors.antt =====
-- The theorems on the handlers and on their responses at concrete inputs.
use spegel.Base.{◌≡◌, refl, ascii, str_eq, true, take, false, not, ◌&&◌, List, [], ◌∷◌, ok, cut}
use spegel.Base.Clean.{clean}
use spegel.Routing.Router.{AddrPort}
use spegel.Mux.Response.{new_response, is_interim, status, final_status}
use spegel.Registry.Distribution.{Reference, manifest, has_latest_tag}
use spegel.Registry.Distribution.Paths.{manifest_path}
use spegel.Registry.Handlers.{handle_mirror, is_external_request, handle}
use spegel.Registry.Handlers.Exchange.{Request, Environment, interim, replied}
use spegel.Registry.Handlers.Fresh.{Settled}
use spegel.Registry.Handlers.Mirroring.{until_served, some_serving, within, handle_mirror-hit}
use spegel.Registry.Handlers.Interim.{handle_mirror-interim}
use spegel.Registry.Handlers.Serving.{
  with_others, ServesManifest, handle-Local, handle-ServesManifest, manifest_request,
}
use spegel.Registry.Handlers.Routes.{handle-Settled}
use spegel.Tests.Data.{environment-AreFinal, node, registry, environment, request, reply_of}
use spegel.Tests.Paths.{name_is, sha256-IsDigest}

abbrev tag_reference : Reference
tag_reference = record {
  kind = manifest;
  name = ascii "docker.io:443/library/alpine:3.18";
  dgst = [];
  original_registry = ascii "docker.io:443";
}

abbrev peers : List AddrPort
peers = node 1 ∷ node 2 ∷ node 3 ∷ node 4 ∷ []

not_latest : (not registry.resolve_latest_tag && has_latest_tag tag_reference) ≡ false
unfolding has_latest_tag cut str_eq
not_latest = refl

handle_mirror-hit_example :
    ((handle_mirror registry environment request tag_reference new_response).tried
      ≡ until_served environment request (within environment.patience peers))
    × ((handle_mirror registry environment request tag_reference new_response).counted
        ≡ record {
          registry = ascii "docker.io:443";
          hit = some_serving environment request (within environment.patience peers);
          external = is_external_request registry request;
        }
          ∷ [])
handle_mirror-hit_example =
    handle_mirror-hit registry environment request tag_reference environment-AreFinal peers
      not_latest refl

-- A mirror that sends 103 Early Hints before its reply.
abbrev hinting : Environment
hinting = record environment { proxy = λ req scheme p. interim 103 (replied 200 [] (ascii "{}")) }

is_hint : is_interim 103 ≡ true
unfolding is_interim
is_hint = refl

handle_mirror-interim_example :
    let a = handle_mirror registry hinting request tag_reference new_response in
    (a.counted
      ≡ record {
        registry = ascii "docker.io:443";
        hit = false;
        external = is_external_request registry request;
      }
        ∷ [])
    × (status a.response ≡ 103)
    × (final_status a.response.inner ≡ 200)
    × (a.response.inner.body ≡ take 2 (ascii "{}"))
handle_mirror-interim_example =
    handle_mirror-interim registry hinting request tag_reference (node 1)
      (node 2 ∷ node 3 ∷ node 4 ∷ []) 103 [] (ascii "{}") is_hint not_latest refl refl refl

handle-Settled_example : Settled (handle registry environment request new_response).response
handle-Settled_example = handle-Settled registry environment request environment-AreFinal

abbrev forwarded : Request
forwarded = record request { mirrored = ascii "true" }

handle-Local_example :
    (handle registry environment forwarded new_response
      ≡ handle registry
          (with_others (λ key allow_self count. ok []) (λ req scheme p. reply_of 1) environment)
          forwarded
          new_response)
    × ((handle registry environment forwarded new_response).tried ≡ [])
    × ((handle registry environment forwarded new_response).counted ≡ [])
handle-Local_example =
    handle-Local (λ key allow_self count. ok []) (λ req scheme p. reply_of 1) registry environment
      forwarded refl new_response

deep_path :
    str_eq (clean (manifest_path (ascii "library/alpine") (ascii "sha256:ab"))) (ascii "/v2")
    ≡ false
unfolding clean str_eq
deep_path = refl

handle-ServesManifest_example :
    ServesManifest
      (ascii "sha256:ab")
      (ascii "application/json")
      (ascii "{}")
      2
      (handle registry environment
        (manifest_request registry environment request
          (ascii "library/alpine")
          (ascii "sha256")
          (ascii "ab"))
        new_response).response
handle-ServesManifest_example =
    handle-ServesManifest registry environment request (ascii "library/alpine") (ascii "sha256")
      (ascii "ab") (ascii "{}") (ascii "application/json") name_is sha256-IsDigest deep_path refl
