-- ===== src/Tests/Requests.antt =====
-- The theorems on what is counted and logged of requests at concrete inputs.
use spegel.Base.{◌≡◌, refl, ascii, has_prefix, cut, cut_last, [], ◌∷◌, ok}
use spegel.Base.HostPort.{
  split_host_port, split_plain, split_checked, split_bracketed, split_behind, addr_err,
}
use spegel.Metrics.Http.{no_http_metrics}
use spegel.Mux.Response.{new_response}
use spegel.Registry.Handlers.{handle}
use spegel.Registry.Handlers.Exchange.{Request, Answer, answer}
use spegel.Registry.Requests.{Observed, begin, finish_request, observe, get_client_ip, path_label}
use spegel.Registry.Requests.Recorded.{IsRecorded, observe-IsRecorded}
use spegel.Registry.Requests.Inflight.{
  Busy, arrives, answered, Reach, at_first, further, IsCounted, Reach-IsCounted,
}
use spegel.Tests.Data.{environment-AreFinal, registry, environment, request}

plain : split_host_port (ascii "10.0.0.9:51000") ≡ ok (ascii "10.0.0.9", ascii "51000")
unfolding split_host_port split_plain split_checked cut_last cut
plain = refl

bracketed : split_host_port (ascii "[::1]:80") ≡ ok (ascii "::1", ascii "80")
unfolding split_host_port split_bracketed split_behind split_checked cut
bracketed = refl

many :
    split_host_port (ascii "::1:80")
    ≡ addr_err (ascii "::1:80") (ascii "too many colons in address")
unfolding split_host_port split_plain cut_last cut
many = refl

client : get_client_ip request ≡ ascii "10.0.0.9"
unfolding get_client_ip split_host_port split_plain split_checked cut_last cut
client = refl

label : path_label request ≡ ascii "/v2/*"
unfolding path_label has_prefix
label = refl

abbrev nothing : Observed
nothing = record { metrics = no_http_metrics; log = [] }

observe-IsRecorded_example :
    IsRecorded request 7
      (handle registry environment request new_response)
      nothing
      (observe registry environment request 7 nothing).1
observe-IsRecorded_example =
    observe-IsRecorded registry environment environment-AreFinal request 7 nothing

abbrev health : Request
health = record request { path = ascii "/healthz" }

abbrev an_answer : Answer
an_answer = answer (ascii "mirror") new_response

-- Two requests are handled at the same time, and the first is answered first.
abbrev busy : Busy
busy = record {
  running = health ∷ [];
  arrived = 2;
  observed = finish_request request 7 an_answer (begin health (begin request nothing));
}

busy_reached : Reach busy
busy_reached =
    let one = further at_first (arrives request [] 0 nothing) in
    let two = further one (arrives health (request ∷ []) 1 (begin request nothing)) in
    further two
      (answered (health ∷ []) [] request 7 an_answer 2 (begin health (begin request nothing)))

Reach-IsCounted_example : IsCounted busy
Reach-IsCounted_example = Reach-IsCounted busy busy_reached
