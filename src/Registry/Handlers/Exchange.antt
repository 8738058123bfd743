-- ===== src/Registry/Handlers/Exchange.antt =====
-- What the handlers of pkg/registry/registry.go read, and what comes of a request.
use spegel.Base.{ℕ, Str, Bool, Option, List, [], Result, Error}
use spegel.Base.Int.{ℤ}
use spegel.Base.Maps.{Map}
use spegel.Oci.Client.{Client}
use spegel.Routing.Router.{AddrPort}
use spegel.Mux.Response.{Response}

-- The fields of `Registry` that the handlers read. `throttler` is the speed of the throttler, if
-- there is one, and `resolve_timeout` how many nanoseconds the router has; what it answers in this
-- time is part of the environment.
pub record Registry : Type 0 where
  pub throttler : Option ℤ
  pub local_addr : Str
  pub resolve_retries : ℕ
  pub resolve_timeout : ℕ
  pub resolve_latest_tag : Bool

-- What the handlers read of a request. `namespace` is the query's `ns`, `mirrored` the header
-- `X-Spegel-Mirrored`, and `forwarded_for` the header `X-Forwarded-For`.
pub record Request : Type 0 where
  pub method : Str
  pub path : Str
  pub namespace : Str
  pub mirrored : Str
  pub host : Str
  pub tls : Bool
  pub forwarded_for : Str
  pub remote_addr : Str

-- What comes of proxying a request to a mirror, after as many interim headers (with a status below
-- 200) as it sends first.
pub data Reply : Type 0 where
  unreachable : Error → Reply
  replied : ℕ → Map Str → Str → Reply
  interim : ℕ → Reply → Reply

-- What is around the registry: the image store, the router's answers, the mirrors, and the client,
-- whose connection takes so many bytes of a body and which may go away after so many mirrors.
pub record Environment : Type 0 where
  pub client : Client
  pub ready : Result Bool
  pub resolve : Str → Bool → ℕ → Result (List AddrPort)
  pub proxy : Request → Str → AddrPort → Reply
  pub takes : Str → ℕ
  pub patience : Option ℕ
  pub cancellation : Error

-- A count of `metrics.MirrorRequestsTotal`, by its labels.
pub record MirrorCount : Type 0 where
  pub registry : Str
  pub hit : Bool
  pub external : Bool

-- An answer: the response, the name of the handler, the mirrors that were tried, in order, and what
-- was counted.
pub record Answer : Type 0 where
  pub response : Response
  pub handler : Str
  pub tried : List AddrPort
  pub counted : List MirrorCount

abbrev pub answer : Str → Response → Answer
answer name r = record { response = r; handler = name; tried = []; counted = [] }
