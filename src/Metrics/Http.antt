-- ===== src/Metrics/Http.antt =====
-- The metrics of HTTP requests: pkg/metrics/metrics.go.
use spegel.Base.{ℕ, Str, List, []}
use spegel.Metrics.{Gauge, reset}

-- An observation of a histogram, by the labels `handler`, `method` and `code`.
pub record Sample : Type 0 where
  pub handler : Str
  pub method : Str
  pub code : Str
  pub value : ℕ

-- A count of `MirrorRequestsTotal`, by its labels.
pub record MirrorRequest : Type 0 where
  pub registry : Str
  pub cache : Str
  pub source : Str

-- `HttpRequestsInflight`, `HttpRequestDurHistogram` in nanoseconds, `HttpResponseSizeHistogram` and
-- `MirrorRequestsTotal`.
pub record HttpMetrics : Type 0 where
  pub requests_inflight : Gauge
  pub request_durations : List Sample
  pub response_sizes : List Sample
  pub mirror_requests : List MirrorRequest

abbrev pub no_http_metrics : HttpMetrics
no_http_metrics = record {
  requests_inflight = reset;
  request_durations = [];
  response_sizes = [];
  mirror_requests = [];
}
