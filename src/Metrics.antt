-- ===== src/Metrics.antt =====
-- The gauges of advertised content: pkg/metrics/metrics.go.
pub mod Http
use spegel.Base.{Str, str_eq, if◌then◌else◌}
use spegel.Base.Int.{ℤ, pos, ◌+ℤ◌}

-- A `prometheus.GaugeVec` with the one label `registry`. Its values are whole numbers, since the
-- program adds and subtracts nothing else.
abbrev pub Gauge : Type 0
Gauge = Str → ℤ

-- `Reset`
abbrev pub reset : Gauge
reset registry = pos 0

-- `WithLabelValues(registry).Add(n)`; `Sub(n)` is `Add(-n)`.
unfoldable pub add : Str → ℤ → Gauge → Gauge
add registry n g label = if str_eq registry label then g label +ℤ n else g label

pub record Metrics : Type 0 where
  pub advertised_keys : Gauge
  pub advertised_images : Gauge
  pub advertised_image_tags : Gauge
  pub advertised_image_digests : Gauge

abbrev pub no_metrics : Metrics
no_metrics = record {
  advertised_keys = reset;
  advertised_images = reset;
  advertised_image_tags = reset;
  advertised_image_digests = reset;
}
