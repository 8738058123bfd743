-- ===== src/Registry/Handlers/Interim.antt =====
-- What interim headers of a mirror do to `handleMirror` of pkg/registry/registry.go.
use spegel.Base.{
  ℕ, ◌≡◌, refl, ap, Str, take, true, false, not, ◌&&◌, Option, none, ◌∙◌, List, [], ◌∷◌, ok, arith,
  ◌==◌, if◌then◌else◌,
}
use spegel.Base.Maps.{Map}
use spegel.Routing.Router.{AddrPort}
use spegel.Mux.Response.{
  Response, new_response, write_header, write, set_header, status, is_interim, final_status,
}
use spegel.Registry.Distribution.{Reference, has_latest_tag}
use spegel.Registry.Handlers.Mirroring.{handle_mirror-loop}
use spegel.Registry.Handlers.{
  forward, or_abort, is_over, set_headers, mirror_loop, mirror_key, count_mirror, handle_mirror,
  is_external_request, scheme,
}
use spegel.Registry.Handlers.Exchange.{Registry, Request, Environment, interim, replied}

-- An interim status is recorded, and neither replaced nor taken for 200.
interim_status :
    (code : ℕ)
    → is_interim code ≡ true
    → ((if code == 0 then 200 else code) ≡ code) × ((code == 200) ≡ false)
unfolding is_interim
interim_status code h = (ground (arith, h), ground (arith, h))

-- Setting headers changes nothing else.
set_headers-same :
    (hs : Map Str) (r : Response)
    → ((set_headers hs r).status ≡ r.status)
      × ((set_headers hs r).written_header ≡ r.written_header)
      × ((set_headers hs r).inner.sent ≡ r.inner.sent)
      × ((set_headers hs r).inner.body ≡ r.inner.body)
unfolding set_headers set_header
set_headers-same [] r = (refl, refl, refl, refl)
set_headers-same ((k, v) ∷ more) r = set_headers-same more (set_header k v r)

module _ (reg : Registry) (env : Environment) (req : Request) (ref : Reference) (p : AddrPort)
    (ps : List AddrPort) (code : ℕ) (headers : Map Str) (body : Str) where
  -- The response after a mirror that sends an interim header and then replies with 200.
  abbrev answered : Response
  answered = or_abort env body (
      write body (env.takes body)
        (write_header 200 (set_headers headers (write_header code new_response))))

  first_answers :
      (patience : Option ℕ)
      → is_over patience ≡ false
      → env.proxy req (scheme req) p ≡ interim code (replied 200 headers body)
      → mirror_loop env req (mirror_key ref) patience 0 (p ∷ ps) new_response ≡ (answered, p ∷ [])
  unfolding mirror_loop forward
  first_answers patience stays e = rw (stays, e) refl

  answered-is :
      is_interim code ≡ true
      → (status answered ≡ code)
        × (final_status answered.inner ≡ 200)
        × (answered.inner.body ≡ take (env.takes body) body)
  unfolding status write write_header is_interim
  answered-is is_first =
      let (same_status, same_written, same_sent, same_body) =
        set_headers-same headers (write_header code new_response) in
      let (kept, other) = interim_status code is_first in
      let not_sent : (set_headers headers (write_header code new_response)).inner.sent ≡ none =
        same_sent ∙ rw is_first refl in
      (rw (same_written, same_status) kept, rw not_sent refl, rw same_body refl)

  -- If the first mirror that the router found for a reference that is not held back for its latest
  -- tag sends an interim header before it replies with 200, and the client did not go away before,
  -- then it sees 200 and the mirror's body, as far as the connection takes it, but the interim
  -- status is what is recorded, and the request is counted as a miss.
  pub handle_mirror-interim :
      is_interim code ≡ true
      → (not reg.resolve_latest_tag && has_latest_tag ref) ≡ false
      → is_over env.patience ≡ false
      → env.resolve (mirror_key ref) (is_external_request reg req) reg.resolve_retries ≡ ok (p ∷ ps)
      → env.proxy req (scheme req) p ≡ interim code (replied 200 headers body)
      → let a = handle_mirror reg env req ref new_response in
        (a.counted
          ≡ record {
            registry = ref.original_registry;
            hit = false;
            external = is_external_request reg req;
          }
            ∷ [])
        × (status a.response ≡ code)
        × (final_status a.response.inner ≡ 200)
        × (a.response.inner.body ≡ take (env.takes body) body)
  unfolding count_mirror
  handle_mirror-interim is_first kept stays found e =
      let (recorded, seen, whole) = answered-is is_first in
      let (_, other) = interim_status code is_first in
      let same : handle_mirror reg env req ref new_response
          ≡ count_mirror reg req ref (answered, p ∷ []) =
        handle_mirror-loop reg env req ref (p ∷ ps) kept found
        ∙ ap (count_mirror reg req ref) (first_answers env.patience stays e) in
      rw same (rw recorded (rw other refl), recorded, seen, whole)
