-- ===== src/Cluster/Tracked.antt =====
-- From one node's image store to another node's client: pkg/state/state.go on the one and
-- pkg/registry/registry.go on both, with a router of pkg/routing between them.
use mathlib.Core.List.{Memᴰ}
use spegel.Base.{◌≡◌, ◌∙◌, refl, sym, ap, subst, Str, is_empty, Bool, false, All-at, none, List, ok}
use spegel.Oci.Containerd.Backend.{Services, StoredImage}
use spegel.Oci.Containerd.Identifiers.{Part}
use spegel.Oci.Containerd.Setup.{Containerd, Files, containerd_client}
use spegel.Routing.Router.{AddrPort, Router}
use spegel.Routing.Contract.{Keeps}
use spegel.State.{World, all_images}
use spegel.State.Parts.{IsStore, all_images-Part}
use spegel.Mux.Response.{new_response}
use spegel.Registry.Distribution.{Reference}
use spegel.Registry.Handlers.{handle, mirror_key, is_external_request}
use spegel.Registry.Handlers.Exchange.{Registry, Request, Environment}
use spegel.Cluster.{Network}
use spegel.Cluster.Serving.{IsPull, HasBytes}
use spegel.Cluster.Finding.{Finds, Runs, IsMirrored}
use spegel.Cluster.Passing.{Joins, Agrees, IsPulled}
use spegel.Cluster.Pulling.{handle-IsPulled}

mirror_key-dgst : (ref : Reference) → is_empty ref.dgst ≡ false → mirror_key ref ≡ ref.dgst
unfolding mirror_key
mirror_key-dgst ref h = rw h refl

-- What a node's store has reaches the client of another node. The one tracks a store of containerd,
-- as it is documented, and its update ended with no error; its router keeps what is advertised, and
-- of what it holds the other finds the first among its peers; the other forwards to the nodes of
-- the network. A GET request there for a part of one of the images that containerd lists, by its
-- digest, whose cleaned path is not /v2, which is not held back for its latest tag and whose client
-- stays, and which no mirror forwarded, gets the bytes that the first node's store has, with status
-- 200, as far as its connection takes them, if every node that has bytes of the digest has these
-- and sends them whole.
pub all_images-IsPulled :
    {S : Type 0} (router : Router S) (Holds : S → Str → Type 0)
    → Keeps router.advertise Holds
    → (s : Services) (c : Containerd) (files : Files) (stored : List StoredImage) (latest : Bool)
    → (w : World S) (k : StoredImage) (net : Network) (self : AddrPort)
    → (reg : Registry) (env : Environment) (req : Request) (ref : Reference) (b : Str)
    → IsStore s c.list_filter stored
    → (all_images router latest (containerd_client files (ok s) c) w).0 ≡ none
    → Memᴰ k stored
    → Part s k.target ref.dgst
    → Runs net self (containerd_client files (ok s) c)
    → HasBytes ref.kind ref.dgst (containerd_client files (ok s) c) b
    → Finds
        (Holds (all_images router latest (containerd_client files (ok s) c) w).1.router)
        self
        reg.resolve_retries
        env
    → Joins net env
    → Agrees net ref.kind ref.dgst b
    → IsPull req ref
    → is_empty ref.dgst ≡ false
    → IsMirrored reg env req ref
    → IsPulled env ref ref.dgst b (is_external_request reg req) (handle reg env req new_response)
all_images-IsPulled router Holds keeps s c files stored latest w k net self reg env req ref b store
      clean listed part runs has finds joins agrees pull some_digest mirrored =
    let held =
      All-at _ k stored (all_images-Part router Holds keeps s c files stored latest w store clean)
        listed ref.dgst part in
    let (peers, found, among) = finds ref.dgst (is_external_request reg req) held in
    handle-IsPulled net env req ref pull joins reg mirrored.fresh mirrored.stays mirrored.kept peers
      (ap (λ key. env.resolve key (is_external_request reg req) reg.resolve_retries)
          (mirror_key-dgst ref some_digest)
        ∙ found)
      b agrees some_digest self runs.node among runs.there
      (subst (λ cl. HasBytes ref.kind ref.dgst cl b) (sym runs.stores) has)
