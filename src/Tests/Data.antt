-- ===== src/Tests/Data.antt =====
-- Images, a store, peers and requests for the tests.
use spegel.Base.{none, ℕ, zero, suc, ascii, true, false, some, [], ◌∷◌, ok, err, error}
use spegel.Oci.Image.{Image}
use spegel.Oci.Client.{Client}
use spegel.Routing.Router.{AddrPort}
use spegel.Routing.Memory.{MemoryRouter}
use spegel.Metrics
use spegel.State.{World}
use spegel.Registry.Handlers.Mirroring.{IsFinal, AreFinal}
use spegel.Registry.Handlers.Exchange.{Registry, Request, Environment, Reply, replied, unreachable}

abbrev pub alpine : Image
alpine = record {
  name = ascii "docker.io:443/library/alpine:3.18@sha256:ab";
  registry = ascii "docker.io:443";
  repository = ascii "library/alpine";
  tag = ascii "3.18";
  digest = ascii "sha256:ab";
}

abbrev pub untagged : Image
untagged = record alpine { tag = [] }

-- A store with two images of one digest, of which the one has a tag.
abbrev pub store : Client
store = record {
  list_images = ok (alpine ∷ untagged ∷ []);
  all_identifiers = λ i. ok (i.digest ∷ ascii "sha256:cd" ∷ []);
  resolve = λ name. ok (ascii "sha256:ab");
  size = λ dgst. ok 3;
  get_manifest = λ dgst. ok (ascii "{}", ascii "application/json");
  get_blob = λ dgst. ok (ascii "abc");
}

-- A store that fails at everything.
abbrev pub broken : Client
broken = record {
  list_images = err (error "gone");
  all_identifiers = λ i. err (error "gone");
  resolve = λ name. err (error "gone");
  size = λ dgst. err (error "gone");
  get_manifest = λ dgst. err (error "gone");
  get_blob = λ dgst. err (error "gone");
}

abbrev pub node : ℕ → AddrPort
node port = record { ip = ascii "10.0.0.1"; port = port }

abbrev pub nobody : MemoryRouter
nobody = record { resolver = []; self = node 1 }

abbrev pub start : World MemoryRouter
start = record { router = nobody; metrics = Metrics.no_metrics }

-- Node 1 cannot be reached, node 2 replies with 500, and all others reply with 200.
abbrev pub reply_of : ℕ → Reply
reply_of (suc zero) = unreachable (error "connection refused")
reply_of (suc (suc zero)) = replied 500 [] (ascii "broken")
reply_of _ = replied 200 ((ascii "Content-Type", ascii "application/json") ∷ []) (ascii "{}")

abbrev pub registry : Registry
registry = record {
  throttler = none;
  local_addr = ascii "10.0.0.1:30020";
  resolve_retries = 3;
  resolve_timeout = 20000000;
  resolve_latest_tag = false;
}

-- The router finds four peers, and the client goes away after three.
abbrev pub environment : Environment
environment = record {
  client = store;
  ready = ok true;
  resolve = λ key allow_self count. ok (node 1 ∷ node 2 ∷ node 3 ∷ node 4 ∷ []);
  proxy = λ req scheme p. reply_of p.port;
  takes = λ b. 2;
  patience = some 3;
  cancellation = error "context canceled";
}

reply_of-IsFinal : (n : ℕ) → IsFinal (reply_of n)
reply_of-IsFinal zero = tt
reply_of-IsFinal (suc zero) = tt
reply_of-IsFinal (suc (suc zero)) = tt
reply_of-IsFinal (suc (suc (suc n))) = tt

pub environment-AreFinal : AreFinal environment
environment-AreFinal req scheme p = reply_of-IsFinal p.port

abbrev pub request : Request
request = record {
  method = ascii "GET";
  path = ascii "/v2/library/alpine/manifests/3.18";
  namespace = ascii "docker.io:443";
  mirrored = [];
  host = ascii "10.0.0.1:30020";
  tls = false;
  forwarded_for = [];
  remote_addr = ascii "10.0.0.9:51000";
}
