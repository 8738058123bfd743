-- ===== src/Cluster/Finding.antt =====
-- How a node of a cluster finds another one: the routers of pkg/routing between the tracking of the one
-- and the handlers of the other.
use mathlib.Core.List.{Mem}
use spegel.Base.{ℕ, ◌≡◌, ◌≢◌, ◌∙◌, Str, ascii, Bool, false, not, ◌&&◌, none, some, List, ok}
use spegel.Base.Maps.{lookup}
use spegel.Oci.Client.{Client}
use spegel.Routing.Router.{AddrPort}
use spegel.Routing.Memory.{MemoryRouter, resolve}
use spegel.Routing.Memory.Lookups.{Held, or_nil, resolve-eq}
use spegel.Registry.Distribution.{Reference, has_latest_tag}
use spegel.Registry.Handlers.Exchange.{Registry, Request, Environment}
use spegel.Cluster.{Node, Network}

-- Of what the router of a node holds, another node that asks for so many peers finds that node
-- among them.
abbrev pub Finds : (Str → Type 0) → AddrPort → ℕ → Environment → Type 0
Finds Holds self count env =
    (key : Str) (allow_self : Bool)
    → Holds key
    → (peers : List AddrPort) × (env.resolve key allow_self count ≡ ok peers) × Mem self peers

-- The node looks up its peers at this router.
abbrev pub LooksUp : MemoryRouter → Environment → Type 0
LooksUp m env =
    (key : Str) (allow_self : Bool) (count : ℕ)
    → env.resolve key allow_self count ≡ resolve m key allow_self count

-- Two nodes that share a router in memory.
pub LooksUp-Finds :
    (m : MemoryRouter) (env : Environment) (count : ℕ)
    → LooksUp m env
    → Finds (Held m) m.self count env
LooksUp-Finds m env count looks key allow_self held = (
  or_nil (lookup key m.resolver),
  looks key allow_self count ∙ resolve-eq m key allow_self count,
  held,
)

-- A node with this store is at the address.
pub record Runs (net : Network) (self : AddrPort) (client : Client) : Type 0 where
  pub node : Node
  pub there : net self ≡ some node
  pub stores : node.environment.client ≡ client

-- The request is one that mirrors are looked for: no mirror forwarded it, its client stays, and it
-- is not held back for its latest tag.
pub record IsMirrored (reg : Registry) (env : Environment) (req : Request) (ref : Reference)
    : Type 0 where
  pub fresh : req.mirrored ≢ ascii "true"
  pub stays : env.patience ≡ none
  pub kept : (not reg.resolve_latest_tag && has_latest_tag ref) ≡ false
