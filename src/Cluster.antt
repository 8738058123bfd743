-- ===== src/Cluster.antt =====
-- Several nodes that mirror for each other: the handlers of pkg/registry/registry.go on each of them,
-- joined by the requests that one forwards to another.
pub mod Serving
pub mod Answering
pub mod Passing
pub mod Pulling
pub mod Finding
pub mod Tracked
pub mod Tagged
use spegel.Base.{Str, Option, none, some, error}
use spegel.Routing.Router.{AddrPort}
use spegel.Mux.Response.{Response, new_response, final_status}
use spegel.Registry.Handlers.{handle}
use spegel.Registry.Handlers.Exchange.{
  Registry, Request, Environment, Reply, unreachable, replied, Answer,
}

-- A node's registry, and what is around it.
pub record Node : Type 0 where
  pub registry : Registry
  pub environment : Environment

-- The nodes by the addresses that the router yields for them.
abbrev pub Network : Type 0
Network = AddrPort → Option Node

-- What the one who asked sees of a response.
abbrev pub reply_of : Response → Reply
reply_of r = replied (final_status r.inner) r.inner.headers r.inner.body

abbrev pub answer_of : Option Node → Request → Reply
answer_of none req = unreachable (error "connection refused")
answer_of (some n) req = reply_of (handle n.registry n.environment req new_response).response

-- A request that is forwarded to a peer, which handles it as it is.
abbrev pub forward_to : Network → Request → Str → AddrPort → Reply
forward_to net req scheme p = answer_of (net p) req
