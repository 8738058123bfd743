-- ===== src/Registry/Requests/Recorded.antt =====
-- What a request leaves in the metrics and the log: pkg/registry/registry.go.
use spegel.Base.{
  ℕ, ◌≡◌, ◌≢◌, refl, inl, inr, ap, ◌∙◌, Str, ascii, str_eq, str_eq_iff, length, [], ◌∷◌, ◌++◌, map,
  if◌then◌else◌, Bool-cases, arith, ◌==◌,
}
use spegel.Base.Join.{str_eq_of_ne}
use spegel.Base.Int.{ℤ, pos, negsuc, ◌+ℤ◌, int_laws}
use spegel.Base.Decimal.{format}
use spegel.Metrics.{add, Gauge}
use spegel.Metrics.Http.{Sample}
use spegel.Mux.Response.{Response, new_response, final_status}
use spegel.Registry.Handlers.{handle}
use spegel.Registry.Handlers.Exchange.{Registry, Request, Environment, Answer}
use spegel.Registry.Handlers.Fresh.{Settled}
use spegel.Registry.Handlers.Mirroring.{AreFinal}
use spegel.Registry.Handlers.Routes.{handle-Settled}
use spegel.Registry.Requests.{
  info, failure, Line, Observed, observe, path_label, get_client_ip, sample, log_line, level_of,
  mirror_request,
}

-- The labels of a request to which the client sees this response.
abbrev pub sample_of : Request → Response → ℕ → Sample
sample_of req r value = record {
  handler = path_label req;
  method = req.method;
  code = format (final_status r.inner);
  value = value;
}

-- The line of a request to which the client sees this response.
abbrev pub line_of : Request → ℕ → Str → Response → Line
line_of req latency handler r = record {
  level = if final_status r.inner == 200 then info else failure r.error;
  path = req.path;
  status = final_status r.inner;
  method = req.method;
  latency = latency;
  ip = get_client_ip req;
  handler = handler;
}

-- What a request with this answer left.
pub record IsRecorded (req : Request) (latency : ℕ) (a : Answer) (before after : Observed)
    : Type 0 where
  pub inflight :
      (label : Str) → after.metrics.requests_inflight label ≡ before.metrics.requests_inflight label
  pub duration :
      after.metrics.request_durations
      ≡ before.metrics.request_durations ++ sample_of req a.response latency ∷ []
  pub size :
      after.metrics.response_sizes
      ≡ before.metrics.response_sizes
        ++ sample_of req a.response (length a.response.inner.body) ∷ []
  pub mirrored :
      after.metrics.mirror_requests ≡ before.metrics.mirror_requests ++ map mirror_request a.counted
  pub quiet : req.path ≡ ascii "/healthz" → after.log ≡ before.log
  pub logged :
      req.path ≢ ascii "/healthz"
      → after.log ≡ before.log ++ line_of req latency a.handler a.response ∷ []

add_sub : (z : ℤ) → (z +ℤ pos 1) +ℤ negsuc 0 ≡ z
add_sub z = omega int_laws

add-back : (label : Str) (g : Gauge) (l : Str) → add label (negsuc 0) (add label (pos 1) g) l ≡ g l
unfolding add
add-back label g l = elim (Bool-cases (str_eq label l)) [
  | inl same ↦ rw same (add_sub (g l))
  | inr other ↦ rw other
]

level_of-Settled :
    (r : Response)
    → Settled r
    → level_of r ≡ (if final_status r.inner == 200 then info else failure r.error)
unfolding level_of
level_of-Settled r s = ground (arith, s.seen, s.known)

module _ (req : Request) (r : Response) (s : Settled r) where
  sample-Settled : (value : ℕ) → sample req r value ≡ sample_of req r value
  sample-Settled value =
      ap
        (λ code. record {
          handler = path_label req;
          method = req.method;
          code = format code;
          value = value;
        })
        s.seen

log_line-Settled :
    (req : Request) (latency : ℕ) (a : Answer)
    → Settled a.response
    → log_line req latency a ≡ line_of req latency a.handler a.response
log_line-Settled req latency a s = rw (level_of-Settled a.response s) (
    ap
      (λ code. record {
        level = if final_status a.response.inner == 200 then info else failure a.response.error;
        path = req.path;
        status = code;
        method = req.method;
        latency = latency;
        ip = get_client_ip req;
        handler = a.handler;
      })
      s.seen)

module _ (reg : Registry) (env : Environment) (final : AreFinal env) (req : Request) (latency : ℕ)
    (o : Observed) where
  -- Whatever the request, the store, the router and the mirrors do, if no mirror sends interim
  -- headers: the gauge of requests in flight is afterwards what it was, one duration and one size
  -- were observed, with the status that the client sees and the number of bytes of its body, the
  -- counts of the mirrors were added, and one line was logged, as a failure exactly if the client
  -- does not see 200, but none for /healthz.
  pub observe-IsRecorded :
      IsRecorded req latency (handle reg env req new_response) o (observe reg env req latency o).1
  unfolding observe
  observe-IsRecorded =
      let a = handle reg env req new_response in
      let settled = handle-Settled reg env req final in
      record {
        inflight = λ label. add-back (path_label req) o.metrics.requests_inflight label;
        duration =
            ap (λ x. o.metrics.request_durations ++ x ∷ [])
              (sample-Settled req a.response settled latency);
        size =
            ap (λ x. o.metrics.response_sizes ++ x ∷ [])
              (sample-Settled req a.response settled a.response.size
                ∙ ap (sample_of req a.response) settled.sized);
        mirrored = refl;
        quiet = λ h. rw ((str_eq_iff req.path (ascii "/healthz")).1 h);
        logged = λ h.
            rw (str_eq_of_ne req.path (ascii "/healthz") h)
              (ap (λ x. o.log ++ x ∷ []) (log_line-Settled req latency a settled));
      }
