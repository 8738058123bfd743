-- ===== src/Cluster/Passing.antt =====
-- What a client gets of a reply that its node passes on, and which peer the reply is from:
-- pkg/registry/registry.go on several nodes.
use mathlib.Core.Logic.{∥∥₁_elim}
use mathlib.Core.Bool.{Bool-set}
use mathlib.Core.List.Memᴰ
use mathlib.Core.List.{Mem, Memᴰ}
use spegel.Base.{
  ◌≡◌, refl, sym, ap, inl, inr, Str, ascii, length, take, Bool, Bool-cases, true, false, All, some,
  List, [], ◌∷◌, ◌++◌, arith, ◌==◌,
}
use spegel.Base.Maps.{lookup}
use spegel.Routing.Router.{AddrPort}
use spegel.Mux.Response.{Response, final_status, is_interim, status, write, write_header}
use spegel.Registry.Distribution.{Reference, ReferenceKind}
use spegel.Registry.Handlers.{count_mirror, or_abort, is_external_request}
use spegel.Registry.Handlers.Exchange.{Registry, Request, Environment, Answer}
use spegel.Registry.Handlers.Fresh.{Fresh, proxied-status}
use spegel.Registry.Handlers.Mirroring.{serving, some_serving}
use spegel.Cluster.{Node, Network, forward_to}
use spegel.Cluster.Serving.{Content, HasBytes}

-- The requests of the node go to the others.
abbrev pub Joins : Network → Environment → Type 0
Joins net env =
    (req : Request) (scheme : Str) (p : AddrPort)
    → env.proxy req scheme p ≡ forward_to net req scheme p

-- Who has bytes of the digest has these, and sends them whole.
abbrev pub Agrees : Network → ReferenceKind → Str → Str → Type 0
Agrees net kind dgst b =
    (p : AddrPort) (n : Node) (c : Str)
    → net p ≡ some n
    → HasBytes kind dgst n.environment.client c
    → (c ≡ b) × (n.environment.takes b ≡ length b)

-- One who asked gets the bytes, as far as its connection takes them, with their digest, and the request
-- is counted as a hit.
pub record IsPulled (env : Environment) (ref : Reference) (dgst b : Str) (external : Bool)
    (a : Answer) : Type 0 where
  pub seen_status : final_status a.response.inner ≡ 200
  pub body : a.response.inner.body ≡ take (env.takes b) b
  pub digest : lookup (ascii "Docker-Content-Digest") a.response.inner.headers ≡ some dgst
  pub counted :
      a.counted ≡ record { registry = ref.original_registry; hit = true; external = external } ∷ []

-- The bytes that a node sends.
abbrev pub sent_by : Node → Str → Str
sent_by n b = take (n.environment.takes b) b

-- One who asked gets what one of the peers has for the reference, as far as its connection lets it.
pub record IsPulledFrom (net : Network) (peers : List AddrPort) (env : Environment)
    (ref : Reference) (external : Bool) (a : Answer) : Type 0 where
  pub peer : AddrPort
  pub node : Node
  pub dgst : Str
  pub bytes : Str
  pub among : Mem peer peers
  pub there : net peer ≡ some node
  pub content : Content ref.kind ref node.environment.client dgst bytes
  pub pulled : IsPulled env ref dgst (sent_by node bytes) external a

pub take-all : (b : Str) → take (length b) b ≡ b
take-all [] = refl
take-all (c ∷ b) = ap (λ s. c ∷ s) (take-all b)

-- A reply that is passed on is answered with.
pub proxied-IsPulled :
    (reg : Registry) (env : Environment) (req : Request) (ref : Reference) (dgst b : Str)
    (r : Response) (tried : List AddrPort)
    → Fresh r
    → lookup (ascii "Docker-Content-Digest") r.inner.headers ≡ some dgst
    → IsPulled env ref dgst b (is_external_request reg req) (
        count_mirror reg req ref
          (or_abort env b (write b (env.takes b) (write_header 200 r)), tried))
unfolding count_mirror status write write_header is_interim
proxied-IsPulled reg env req ref dgst b r tried f described = record {
  seen_status = rw f.unsent refl;
  body = rw f.empty refl;
  digest = described;
  counted =
      ap
        (λ code.
          record {
            registry = ref.original_registry;
            hit = code == 200;
            external = is_external_request reg req;
          }
          ∷ [])
        (proxied-status b (env.takes b) r f);
}

-- The first that serves.
pub first_serving :
    (env : Environment) (req : Request) (ps : List AddrPort)
    → some_serving env req ps ≡ true
    → (before after : List AddrPort) × (p : AddrPort) × (ps ≡ before ++ p ∷ after)
      × All (λ q. serving env req q ≡ false) before
      × (serving env req p ≡ true)
first_serving env req [] h = cc
first_serving env req (p ∷ ps) h = elim (Bool-cases (serving env req p)) [
  | inl yes_serves ↦ ([], ps, p, refl, tt, yes_serves)
  | inr no_serves ↦
      let (before, after, q, split, failing, found) =
        first_serving env req ps (rw no_serves at h) in
      (p ∷ before, after, q, ap (λ r. p ∷ r) split, (no_serves, failing), found)
]

some_serving-Memᴰ :
    (env : Environment) (req : Request) (p : AddrPort) (ps : List AddrPort)
    → Memᴰ p ps
    → serving env req p ≡ true
    → some_serving env req ps ≡ true
some_serving-Memᴰ env req p [] m h = absurd (Memᴰ.not-nil m)
some_serving-Memᴰ env req p (q ∷ qs) m h = elim (Memᴰ.cases_cons m) [
  | inl e ↦ rw (sym e, h) refl
  | inr later ↦ rw (some_serving-Memᴰ env req p qs later h) (ground arith)
]

pub some_serving-Mem :
    (env : Environment) (req : Request) (p : AddrPort) (ps : List AddrPort)
    → Mem p ps
    → serving env req p ≡ true
    → some_serving env req ps ≡ true
some_serving-Mem env req p ps m h =
    ∥∥₁_elim m (Bool-set _ _) (λ d. some_serving-Memᴰ env req p ps d h)
