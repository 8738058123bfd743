-- ===== src/Registry/Requests.antt =====
-- What is counted and logged of a request: `handle` of pkg/registry/registry.go with its deferred
-- function.
pub mod Recorded
pub mod Inflight
pub mod Clients
use spegel.Base.{
  ℕ, Str, ascii, str_eq, has_prefix, is_empty, cut, length, Bool, true, false, ◌&&◌, Option, none,
  some, List, [], ◌∷◌, ◌++◌, map, err, ok, Error, not, leb, ltb, if◌then◌else◌,
}
use spegel.Base.Int.{pos, negsuc}
use spegel.Base.Decimal.{format}
use spegel.Base.HostPort.{split_host_port}
use spegel.Metrics.{add}
use spegel.Metrics.Http.{Sample, MirrorRequest, HttpMetrics}
use spegel.Mux.Response.{Response, new_response, status}
use spegel.Registry.Handlers.{handle}
use spegel.Registry.Handlers.Exchange.{Registry, Request, Environment, MirrorCount, Answer}

-- `getClientIP`. A list of addresses has its first one taken, and any other text is taken as it is.
unfoldable pub get_client_ip : Request → Str
get_client_ip req =
    if not (is_empty req.forwarded_for)
    then (cut b',' req.forwarded_for).0
    else elim (split_host_port req.remote_addr) [ err e ↦ [] | ok parts ↦ parts.0 ]

-- The label `handler` of the metrics.
unfoldable pub path_label : Request → Str
path_label req = if has_prefix req.path (ascii "/v2") then ascii "/v2/*" else req.path

pub data Level : Type 0 where
  info : Level
  failure : Option Error → Level

-- A line of the log.
pub record Line : Type 0 where
  pub level : Level
  pub path : Str
  pub status : ℕ
  pub method : Str
  pub latency : ℕ
  pub ip : Str
  pub handler : Str

pub record Observed : Type 0 where
  pub metrics : HttpMetrics
  pub log : List Line

-- `metrics.HttpRequestsInflight.WithLabelValues(path).Add(1)`
unfoldable pub begin : Request → Observed → Observed
begin req o = record o {
  metrics = record o.metrics {
    requests_inflight = add (path_label req) (pos 1) o.metrics.requests_inflight;
  };
}

-- The labels of the deferred count of `handleMirror`.
abbrev pub mirror_request : MirrorCount → MirrorRequest
mirror_request c = record {
  registry = c.registry;
  cache = if c.hit then ascii "hit" else ascii "miss";
  source = if c.external then ascii "external" else ascii "internal";
}

abbrev pub sample : Request → Response → ℕ → Sample
sample req r value = record {
  handler = path_label req;
  method = req.method;
  code = format (status r);
  value = value;
}

unfoldable pub level_of : Response → Level
level_of r = if leb 200 (status r) && ltb (status r) 300 then info else failure r.error

abbrev pub log_line : Request → ℕ → Answer → Line
log_line req latency a = record {
  level = level_of a.response;
  path = req.path;
  status = status a.response;
  method = req.method;
  latency = latency;
  ip = get_client_ip req;
  handler = a.handler;
}

-- The deferred function of `handle`, `latency` nanoseconds after the start.
unfoldable pub finish_request : Request → ℕ → Answer → Observed → Observed
finish_request req latency a o = record o {
  metrics = record o.metrics {
    requests_inflight = add (path_label req) (negsuc 0) o.metrics.requests_inflight;
    request_durations = o.metrics.request_durations ++ sample req a.response latency ∷ [];
    response_sizes = o.metrics.response_sizes ++ sample req a.response a.response.size ∷ [];
  };
  log = if str_eq req.path (ascii "/healthz") then o.log else o.log ++ log_line req latency a ∷ [];
}

-- The count of `handleMirror`, if it was reached.
unfoldable pub counted : Answer → Observed → Observed
counted a o = record o {
  metrics = record o.metrics {
    mirror_requests = o.metrics.mirror_requests ++ map mirror_request a.counted;
  };
}

-- `handle`, with what it leaves in the metrics and the log.
unfoldable pub observe : Registry → Environment → Request → ℕ → Observed → Response × Observed
unfolding begin finish_request counted
observe reg env req latency o =
    let a = handle reg env req new_response in
    (a.response, finish_request req latency a (counted a (begin req o)))
