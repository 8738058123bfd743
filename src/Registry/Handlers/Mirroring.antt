-- ===== src/Registry/Handlers/Mirroring.antt =====
-- Which mirror answers a request, and what is counted: `handleMirror` of pkg/registry/registry.go.
use spegel.Base.{
  ℕ, zero, suc, ◌+◌, ◌≡◌, ◌∙◌, refl, ap, Str, All, take, Bool, true, false, not, ◌&&◌, ◌||◌,
  Bool-cases, Option, none, some, inl, inr, List, [], ◌∷◌, ◌++◌, ok, ◌==◌, if◌then◌else◌,
}
use spegel.Base.Maps.{Map}
use spegel.Routing.Router.{AddrPort}
use spegel.Mux.Response.{Response, new_response, write_header, write, status}
use spegel.Registry.Distribution.{Reference, has_latest_tag}
use spegel.Registry.Handlers.Fresh.{
  Fresh, Fresh-new, Fresh-set_headers, proxied-status, error-status,
}
use spegel.Registry.Handlers.{
  forward, informed, or_abort, set_headers, cancelled, exhausted, round_result, mirror_loop,
  mirror_key, resolve_mirror, count_mirror, handle_mirror, is_external_request, scheme,
}
use spegel.Registry.Handlers.Exchange.{
  Registry, Request, Environment, Reply, unreachable, replied, interim,
}

-- A mirror that replies with 200.
abbrev pub serves : Reply → Bool
serves (unreachable e) = false
serves (replied code headers body) = code == 200
serves (interim code reply) = serves reply

-- A mirror that sends no interim header.
abbrev pub IsFinal : Reply → Type 0
IsFinal (interim code reply) = ⊥
IsFinal (unreachable e) = Unit
IsFinal (replied code headers body) = Unit

-- No mirror sends interim headers.
abbrev pub AreFinal : Environment → Type 0
AreFinal env = (req : Request) (scheme : Str) (p : AddrPort) → IsFinal (env.proxy req scheme p)

-- The mirrors that come before the client goes away.
abbrev pub within {ℓ} : {A : Type ℓ} → Option ℕ → List A → List A
within none ps = ps
within (some n) ps = take n ps

pub informed-final : (p : Reply) (r : Response) → IsFinal p → informed p r ≡ r
unfolding informed
informed-final (unreachable e) r f = refl
informed-final (replied code headers body) r f = refl
informed-final (interim code reply) r f = absurd f

module _ (env : Environment) (req : Request) where
  abbrev pub serving : AddrPort → Bool
  serving p = serves (env.proxy req (scheme req) p)

  abbrev pub some_serving : List AddrPort → Bool
  some_serving [] = false
  some_serving (p ∷ ps) = serving p || some_serving ps

  -- The mirrors up to the first that serves.
  abbrev pub until_served : List AddrPort → List AddrPort
  until_served [] = []
  until_served (p ∷ ps) = p ∷ (if serving p then [] else until_served ps)

  forward-none : (p : Reply) (r : Response) → serves p ≡ false → forward env p r ≡ none
  unfolding forward
  forward-none (unreachable e) r h = refl
  forward-none (replied code headers body) r h = rw h
  forward-none (interim code reply) r h = forward-none reply (write_header code r) h

  forward-some :
      (p : Reply) (r : Response)
      → serves p ≡ true
      → (headers : Map Str) × (body : Str) × (forward env p r
          ≡ some (
              or_abort env body (
                write body
                  (env.takes body)
                  (write_header 200 (set_headers headers (informed p r))))))
  unfolding forward informed
  forward-some (unreachable e) r h = cc
  forward-some (replied code headers body) r h = (headers, body, rw h)
  forward-some (interim code reply) r h = forward-some reply (write_header code r) h

  -- With a client that stays, and mirrors that send no interim headers, these are tried in order:
  -- those that fail leave no trace in the response, and the first that replies with 200 is
  -- answered from.
  pub mirror_loop-found :
      AreFinal env
      → (key : Str) (n : ℕ) (before after : List AddrPort) (p : AddrPort) (headers : Map Str)
      → (body : Str) (r : Response) → All (λ q. serving q ≡ false) before
      → env.proxy req (scheme req) p ≡ replied 200 headers body
      → mirror_loop env req key none n (before ++ p ∷ after) r ≡ (
        or_abort env body (write body (env.takes body) (write_header 200 (set_headers headers r))),
        before ++ p ∷ [],
      )
  unfolding mirror_loop
  mirror_loop-found final key n [] after p headers body r failing serves =
      rw serves (unfold forward in refl)
  mirror_loop-found final key n (q ∷ before) after p headers body r failing serves =
      rw
        (
          forward-none (env.proxy req (scheme req) q) r failing.0,
          informed-final (env.proxy req (scheme req) q) r (final req (scheme req) q),
        )
        (rw (mirror_loop-found final key (n + 1) before after p headers body r failing.1 serves))

  round-tried :
      (p : Reply) (r : Response) (later : Response × List AddrPort) (peer : AddrPort)
      → (round_result (forward env p r) later peer).1 ≡ peer ∷ (if serves p then [] else later.1)
  round-tried p r later peer = elim (Bool-cases (serves p)) [
    | inl yes_serves ↦ let (headers, body, e) = forward-some p r yes_serves in rw (e, yes_serves)
    | inr no_serves ↦ rw (forward-none p r no_serves, no_serves)
  ]

  cancelled-miss :
      (key : Str) (r : Response) → Fresh r → (status (cancelled env key r) == 200) ≡ false
  unfolding cancelled
  cancelled-miss key r f = rw (error-status 404 _ r f (inl refl))

  exhausted-miss :
      (key : Str) (n : ℕ) (r : Response) → Fresh r → (status (exhausted key n r) == 200) ≡ false
  unfolding exhausted
  exhausted-miss key n r f = rw (error-status 404 _ r f (inl refl))

  round-hit :
      (p : Reply) (r : Response) (later : Response × List AddrPort) (peer : AddrPort)
      → Fresh r
      → IsFinal p
      → (status (round_result (forward env p r) later peer).0 == 200)
        ≡ (serves p || (status later.0 == 200))
  unfolding status
  round-hit p r later peer f final = elim (Bool-cases (serves p)) [
    | inl yes_serves ↦
        let (headers, body, e) = forward-some p r yes_serves in
        rw (e, yes_serves, informed-final p r final)
          (rw (
            proxied-status body (env.takes body) (set_headers headers r)
              (Fresh-set_headers headers r f)))
    | inr no_serves ↦ rw (forward-none p r no_serves, no_serves)
  ]

  loop-hit :
      AreFinal env
      → (key : Str) (patience : Option ℕ) (n : ℕ) (ps : List AddrPort) (r : Response) → Fresh r
      → (status (mirror_loop env req key patience n ps r).0 == 200)
        ≡ some_serving (within patience ps)
  unfolding mirror_loop
  loop-hit final key (some zero) n [] r f = cancelled-miss key r f
  loop-hit final key (some zero) n (p ∷ ps) r f = cancelled-miss key r f
  loop-hit final key none n [] r f = exhausted-miss key n r f
  loop-hit final key (some (suc k)) n [] r f = exhausted-miss key n r f
  loop-hit final key none n (p ∷ ps) r f =
      rw (informed-final (env.proxy req (scheme req) p) r (final req (scheme req) p)) (
        round-hit (env.proxy req (scheme req) p) r (mirror_loop env req key none (n + 1) ps r) p f
          (final req (scheme req) p)
        ∙ ap (λ b. serving p || b) (loop-hit final key none (n + 1) ps r f))
  loop-hit final key (some (suc k)) n (p ∷ ps) r f =
      rw (informed-final (env.proxy req (scheme req) p) r (final req (scheme req) p)) (
        round-hit (env.proxy req (scheme req) p) r (mirror_loop env req key (some k) (n + 1) ps r) p
          f (final req (scheme req) p)
        ∙ ap (λ b. serving p || b) (loop-hit final key (some k) (n + 1) ps r f))

  loop-tried :
      (key : Str) (patience : Option ℕ) (n : ℕ) (ps : List AddrPort) (r : Response)
      → (mirror_loop env req key patience n ps r).1 ≡ until_served (within patience ps)
  unfolding mirror_loop
  loop-tried key (some zero) n [] r = refl
  loop-tried key (some zero) n (p ∷ ps) r = refl
  loop-tried key none n [] r = refl
  loop-tried key (some (suc k)) n [] r = refl
  loop-tried key none n (p ∷ ps) r =
      let sent = informed (env.proxy req (scheme req) p) r in
      round-tried (env.proxy req (scheme req) p) r (mirror_loop env req key none (n + 1) ps sent) p
      ∙ ap (λ qs. p ∷ (if serving p then [] else qs)) (loop-tried key none (n + 1) ps sent)
  loop-tried key (some (suc k)) n (p ∷ ps) r =
      let sent = informed (env.proxy req (scheme req) p) r in
      round-tried (env.proxy req (scheme req) p) r
        (mirror_loop env req key (some k) (n + 1) ps sent) p
      ∙ ap (λ qs. p ∷ (if serving p then [] else qs)) (loop-tried key (some k) (n + 1) ps sent)

module _ (reg : Registry) (env : Environment) (req : Request) (ref : Reference) where
  resolve_mirror-loop :
      (peers : List AddrPort)
      → env.resolve (mirror_key ref) (is_external_request reg req) reg.resolve_retries ≡ ok peers
      → resolve_mirror reg env req ref new_response
        ≡ mirror_loop env req (mirror_key ref) env.patience 0 peers new_response
  unfolding resolve_mirror
  resolve_mirror-loop peers found = rw (found, resolve_mirror)

  pub handle_mirror-loop :
      (peers : List AddrPort)
      → (not reg.resolve_latest_tag && has_latest_tag ref) ≡ false
      → env.resolve (mirror_key ref) (is_external_request reg req) reg.resolve_retries ≡ ok peers
      → handle_mirror reg env req ref new_response
        ≡ count_mirror reg req ref
            (mirror_loop env req (mirror_key ref) env.patience 0 peers new_response)
  unfolding handle_mirror
  handle_mirror-loop peers kept found =
      rw kept (ap (count_mirror reg req ref) (resolve_mirror-loop peers found))

  -- With mirrors that send no interim headers, a reference that is not held back for its latest
  -- tag, and whose peers the router found: the mirrors are tried in order up to the first that
  -- replies with 200 before the client goes away, and the request is counted once, as a hit
  -- exactly if there is such a mirror.
  pub handle_mirror-hit :
      AreFinal env
      → (peers : List AddrPort) → (not reg.resolve_latest_tag && has_latest_tag ref) ≡ false
      → env.resolve (mirror_key ref) (is_external_request reg req) reg.resolve_retries ≡ ok peers
      → ((handle_mirror reg env req ref new_response).tried
          ≡ until_served env req (within env.patience peers))
        × ((handle_mirror reg env req ref new_response).counted
            ≡ record {
              registry = ref.original_registry;
              hit = some_serving env req (within env.patience peers);
              external = is_external_request reg req;
            }
              ∷ [])
  unfolding count_mirror
  handle_mirror-hit final peers kept found = rw (handle_mirror-loop peers kept found) (
    loop-tried env req (mirror_key ref) env.patience 0 peers new_response,
    rw (loop-hit env req final (mirror_key ref) env.patience 0 peers new_response Fresh-new),
  )
