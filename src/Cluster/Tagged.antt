-- ===== src/Cluster/Tagged.antt =====
-- From the tags of one node's images to another node's client: pkg/state/state.go on the one and
-- pkg/registry/registry.go on both, with a router of pkg/routing between them.
use mathlib.Core.List.{Memᴰ}
use spegel.Base.{
  ◌≡◌, ◌≢◌, refl, sym, subst, inr, Str, ascii, str_eq, Bool, true, false, not, ◌&&◌, All, All-at,
  none, some, List, [], ◌∷◌, ◌++◌, ok,
}
use spegel.Base.Clean.{clean}
use spegel.Oci.Image.{Image, tag_name, is_latest_tag}
use spegel.Oci.Client.{Client}
use spegel.State.{World, all_images, tag_keys}
use spegel.State.Providing.{Provided}
use spegel.State.Resolving.{SameContent, all_images-Provided}
use spegel.Mux.Response.{new_response}
use spegel.Registry.Distribution.{Reference, manifest, is_tag}
use spegel.Registry.Distribution.Searching.{is_name}
use spegel.Registry.Distribution.Paths.{manifest_path, parse-tag_name}
use spegel.Registry.Handlers.{handle, mirror_key, is_external_request}
use spegel.Registry.Handlers.Exchange.{Registry, Request, Environment}
use spegel.Cluster.{Network}
use spegel.Cluster.Serving.{IsPull, HasBytes, Content, by_tag}
use spegel.Cluster.Passing.{Joins, IsPulledFrom}
use spegel.Cluster.Pulling.{handle-IsPulledFrom}
use spegel.Routing.Router.{AddrPort, Router}
use spegel.Routing.Contract.{Keeps}
use spegel.Cluster.Finding.{Finds, Runs, IsMirrored}

-- An image whose tag is advertised, and can be asked for.
pub record IsTagged (latest : Bool) (i : Image) (key : Str) : Type 0 where
  pub keyed : tag_name i ≡ some key
  pub advertised : (not latest && is_latest_tag i) ≡ false
  pub some_registry : i.registry ≢ []
  pub named : is_name i.repository ≡ true
  pub tagged : is_tag i.tag ≡ true

-- A request for the tag of an image.
pub record AsksTag (req : Request) (i : Image) : Type 0 where
  pub method : req.method ≡ ascii "GET"
  pub path : req.path ≡ manifest_path i.repository i.tag
  pub namespace : req.namespace ≡ i.registry
  pub deep : str_eq (clean req.path) (ascii "/v2") ≡ false

-- The reference that such a request is for.
abbrev pub tag_reference : Image → Str → Reference
tag_reference i key = record {
  kind = manifest;
  name = key;
  dgst = [];
  original_registry = i.registry;
}

AsksTag-IsPull :
    (latest : Bool) (req : Request) (i : Image) (key : Str)
    → IsTagged latest i key
    → AsksTag req i
    → IsPull req (tag_reference i key)
AsksTag-IsPull latest req i key t asks = record {
  method = asks.method;
  rest = i.repository ++ (ascii "/manifests/" ++ i.tag);
  path = asks.path;
  deep = asks.deep;
  parsed =
      rw (asks.namespace, asks.path)
        (parse-tag_name i key t.keyed t.some_registry t.named t.tagged);
  known = inr refl;
}

tag_keys-key :
    (latest : Bool) (i : Image) (key : Str) → IsTagged latest i key → tag_keys latest i ≡ key ∷ []
unfolding tag_keys
tag_keys-key latest i key t = rw (t.advertised, t.keyed) refl

Held-key :
    (latest : Bool) (client : Client) (Holds : Str → Type 0) (i : Image) (key : Str)
    → IsTagged latest i key
    → Provided latest client Holds i
    → Holds key
Held-key latest client Holds i key t provided =
    (subst (All Holds) (tag_keys-key latest i key t) provided.0).0

-- The tag of one node's image can be pulled on another node. The one tracks its store, where listed
-- images of one digest have the same content, and its update ended with no error; its router keeps
-- what is advertised, and of what it holds the other finds the first among its peers; the other
-- forwards to the nodes of the network. A GET request there for the manifest of an image by its
-- tag, whose registry is not empty, whose repository and tag are well-formed, which the first node
-- advertises and has a manifest for, and whose cleaned path is not /v2, which is not held back for
-- its latest tag, whose client stays, and which no mirror forwarded, gets what one of the peers of
-- that tag has for it, with its digest and with status 200, as far as the connections take it, and
-- is counted once, as a hit of the image's registry.
pub all_images-IsPulledFrom :
    {S : Type 0} (router : Router S) (Holds : S → Str → Type 0)
    → Keeps router.advertise Holds
    → (client : Client) (latest : Bool) (imgs : List Image) (w : World S) (i : Image) (key : Str)
    → (net : Network) (self : AddrPort) (reg : Registry) (env : Environment) (req : Request)
    → (dgst b : Str) → SameContent client imgs
    → client.list_images ≡ ok imgs
    → (all_images router latest client w).0 ≡ none
    → Memᴰ i imgs
    → IsTagged latest i key
    → Runs net self client
    → client.resolve key ≡ ok dgst
    → HasBytes manifest dgst client b
    → Finds (Holds (all_images router latest client w).1.router) self reg.resolve_retries env
    → Joins net env
    → AsksTag req i
    → IsMirrored reg env req (tag_reference i key)
    → (peers : List AddrPort) × (env.resolve key (is_external_request reg req) reg.resolve_retries
        ≡ ok peers)
      × IsPulledFrom net peers env
          (tag_reference i key)
          (is_external_request reg req)
          (handle reg env req new_response)
unfolding mirror_key
all_images-IsPulledFrom router Holds keeps client latest imgs w i key net self reg env req dgst b
      same_content listing clean listed t runs resolved has finds joins asks mirrored =
    let held = Held-key latest client (Holds (all_images router latest client w).1.router) i key t (
      All-at _ i imgs
        (all_images-Provided router Holds keeps latest client imgs w same_content listing clean)
        listed) in
    let (peers, found, among) = finds key (is_external_request reg req) held in
    (
      peers,
      found,
      handle-IsPulledFrom net env req (tag_reference i key) (AsksTag-IsPull latest req i key t asks)
          joins reg mirrored.fresh mirrored.stays mirrored.kept peers found self runs.node dgst b
          among runs.there
          (subst (λ cl. Content manifest (tag_reference i key) cl dgst b) (sym runs.stores)
            (by_tag refl resolved, has)),
    )
