-- ===== src/Registry/Requests/Inflight.antt =====
-- Requests that are handled at the same time: the gauge of requests in flight of
-- pkg/registry/registry.go.
use spegel.Base.{
  ℕ, suc, ◌+◌, ◌≡◌, refl, sym, ◌∙◌, ap, Str, str_eq, length, length-append, Bool, true, false,
  Bool-cases, inl, inr, List, [], ◌∷◌, ◌++◌, if◌then◌else◌, arith, tally, tally-append,
}
use spegel.Base.Int.{ℤ, pos, negsuc, pos_part, neg_part, ◌+ℤ◌, int_laws}
use spegel.Metrics.{Gauge, add}
use spegel.Metrics.Http.{Sample, no_http_metrics}
use spegel.Registry.Handlers.Exchange.{Request, Answer}
use spegel.Registry.Requests.{Observed, begin, counted, finish_request, path_label}

-- The requests whose handlers run, how many arrived, and what was observed so far.
pub record Busy : Type 0 where
  pub running : List Request
  pub arrived : ℕ
  pub observed : Observed

abbrev pub idle : Busy
idle = record {
  running = [];
  arrived = 0;
  observed = record { metrics = no_http_metrics; log = [] };
}

-- A request arrives, the mirrors of one are counted, or one is answered, whichever it is and whatever
-- the answer.
pub data Step : Busy → Busy → Type 0 where
  arrives :
      (req : Request) (running : List Request) (n : ℕ) (o : Observed)
      → Step
          (record { running = running; arrived = n; observed = o })
          (record { running = req ∷ running; arrived = suc n; observed = begin req o })
  mirrored :
      (a : Answer) (running : List Request) (n : ℕ) (o : Observed)
      → Step
          (record { running = running; arrived = n; observed = o })
          (record { running = running; arrived = n; observed = counted a o })
  answered :
      (before after : List Request) (req : Request) (latency : ℕ) (a : Answer) (n : ℕ)
      (o : Observed)
      → Step
          (record { running = before ++ req ∷ after; arrived = n; observed = o })
          (record {
            running = before ++ after;
            arrived = n;
            observed = finish_request req latency a o;
          })

pub data Reach : Busy → Type 0 where
  at_first : Reach idle
  further : {s t : Busy} → Reach s → Step s t → Reach t

abbrev pub labelled : Str → Request → Bool
labelled label req = str_eq (path_label req) label

-- The gauge is the number of the requests that are being handled, and each request is observed once.
pub record IsCounted (s : Busy) : Type 0 where
  pub inflight :
      (label : Str)
      → s.observed.metrics.requests_inflight label ≡ pos (tally (labelled label) s.running)
  pub durations : s.arrived ≡ length s.running + length s.observed.metrics.request_durations
  pub sizes : s.arrived ≡ length s.running + length s.observed.metrics.response_sizes

add-here :
    (label l : Str) (n : ℤ) (g : Gauge)
    → add label n g l ≡ g l +ℤ (if str_eq label l then n else pos 0)
unfolding add
add-here label l n g = elim (Bool-cases (str_eq label l)) [
  | inl same ↦ rw same refl
  | inr other ↦ rw other (omega int_laws)
]

one_more :
    (b : Bool) (z : ℤ) (k : ℕ)
    → z ≡ pos k
    → z +ℤ (if b then pos 1 else pos 0) ≡ pos ((if b then 1 else 0) + k)
one_more true z k h = omega (int_laws, ap pos_part h, ap neg_part h)
one_more false z k h = omega (int_laws, ap pos_part h, ap neg_part h)

one_less :
    (b : Bool) (z : ℤ) (j k : ℕ)
    → z ≡ pos (j + ((if b then 1 else 0) + k))
    → z +ℤ (if b then negsuc 0 else pos 0) ≡ pos (j + k)
one_less true z j k h = omega (int_laws, ap pos_part h, ap neg_part h)
one_less false z j k h = omega (int_laws, ap pos_part h, ap neg_part h)

-- One request less runs, and one sample more was taken.
moved :
    (before after : List Request) (req : Request) (samples : List Sample) (x : Sample) (n : ℕ)
    → n ≡ length (before ++ req ∷ after) + length samples
    → n ≡ length (before ++ after) + length (samples ++ x ∷ [])
moved before after req samples x n h = omega (
  arith,
  length-append before (req ∷ after),
  length-append before after,
  length-append samples (x ∷ []),
)

IsCounted-Step : (s t : Busy) → Step s t → IsCounted s → IsCounted t
unfolding begin finish_request counted
IsCounted-Step _ _ (arrives req running n o) c = record {
  inflight = λ label.
      add-here (path_label req) label (pos 1) o.metrics.requests_inflight
      ∙ one_more (labelled label req) (o.metrics.requests_inflight label)
          (tally (labelled label) running) (c.inflight label);
  durations = omega (arith, c.durations);
  sizes = omega (arith, c.sizes);
}
IsCounted-Step _ _ (mirrored a running n o) c = record {
  inflight = c.inflight;
  durations = c.durations;
  sizes = c.sizes;
}
IsCounted-Step _ _ (answered before after req latency a n o) c = record {
  inflight = λ label.
      add-here (path_label req) label (negsuc 0) o.metrics.requests_inflight
      ∙ one_less (labelled label req) (o.metrics.requests_inflight label)
          (tally (labelled label) before) (tally (labelled label) after)
          (c.inflight label ∙ ap pos (tally-append (labelled label) before (req ∷ after)))
      ∙ ap pos (sym (tally-append (labelled label) before after));
  durations = moved before after req _ _ n c.durations;
  sizes = moved before after req _ _ n c.sizes;
}

-- However many requests are handled at the same time, and in whatever order they are answered: at each
-- label the gauge of requests in flight is the number of requests with that label that are being
-- handled, and every request that arrived and is not being handled any more was observed once by its
-- duration and once by its size.
pub Reach-IsCounted : (s : Busy) → Reach s → IsCounted s
Reach-IsCounted _ at_first = record { inflight = λ label. refl; durations = refl; sizes = refl }
Reach-IsCounted _ (further {s} {t} r step) = IsCounted-Step s t step (Reach-IsCounted s r)
