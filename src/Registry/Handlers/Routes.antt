-- ===== src/Registry/Handlers/Routes.antt =====
-- The statuses of all answers: `handle` of pkg/registry/registry.go.
use spegel.Base.{
  is_empty, ℕ, zero, suc, ◌+◌, refl, inl, inr, Str, str_eq, ascii, has_prefix, Bool, true, false,
  not, Bool-cases, Result-cases, Option-cases, Option, none, some, List, [], ◌∷◌, ◌==◌, ◌&&◌, ◌||◌,
  if◌then◌else◌,
}
use spegel.Base.Clean.{clean}
use spegel.Routing.Router.{AddrPort}
use spegel.Mux.Response.{Response, new_response}
use spegel.Registry.Distribution.{
  Reference, ReferenceKind, manifest, blob, has_latest_tag, parse_path_components,
}
use spegel.Registry.Handlers.{
  forward, cancelled, exhausted, round_result, mirror_loop, mirror_key, resolve_mirror,
  handle_mirror, ready_handler, serve_manifest, handle_manifest, copy_blob, handle_blob,
  serve_reference, dispatch, registry_handler, handle, is_external_request, scheme,
  described_manifest, described_blob, serve_blob,
}
use spegel.Registry.Handlers.Exchange.{
  Registry, Request, Environment, Reply, unreachable, replied, interim, Answer,
}
use spegel.Registry.Handlers.Mirroring.{IsFinal, AreFinal, informed-final}
use spegel.Registry.Handlers.Fresh.{
  Fresh, Fresh-new, Fresh-set_header, Fresh-set_headers, Settled, Fresh-Settled, ok-Settled,
  not_found-Settled, failed-Settled, error-Settled, body-Settled, copy-Settled, proxied-Settled,
  aborted-Settled,
}

if-Settled : (b : Bool) (x y : Response) → Settled x → Settled y → Settled (if b then x else y)
if-Settled true x y sx sy = sx
if-Settled false x y sx sy = sy

Fresh-manifest :
    (dgst media_type b : Str) (r : Response)
    → Fresh r
    → Fresh (described_manifest dgst media_type b r)
unfolding described_manifest
Fresh-manifest dgst media_type b r f =
    Fresh-set_header _ _ _ (Fresh-set_header _ _ _ (Fresh-set_header _ _ r f))

Fresh-blob : (dgst : Str) (size : ℕ) (r : Response) → Fresh r → Fresh (described_blob dgst size r)
unfolding described_blob
Fresh-blob dgst size r f = Fresh-set_header _ _ _ (Fresh-set_header _ _ r f)

module _ (env : Environment) where
  ready_handler-Settled : (r : Response) → Fresh r → Settled (ready_handler env r)
  unfolding ready_handler
  ready_handler-Settled r f = elim (Result-cases env.ready) [
    | inl (e, failed) ↦ rw (failed, ready_handler) (error-Settled 500 _ r f (inr refl))
    | inr (true, found) ↦ rw (found, ready_handler) (Fresh-Settled r f)
    | inr (false, found) ↦ rw (found, ready_handler) (failed-Settled r f)
  ]

  module _ (req : Request) where
    round-Settled :
        (p : Reply) (r : Response) (later : Response × List AddrPort) (peer : AddrPort)
        → Fresh r
        → IsFinal p
        → Settled later.0
        → Settled (round_result (forward env p r) later peer).0
    unfolding forward
    round-Settled (unreachable e) r later peer f final s = s
    round-Settled (replied code headers body) r later peer f final s =
        elim (Bool-cases (code == 200)) [
          | inl yes_ok ↦ rw yes_ok (
              aborted-Settled _ _
                (proxied-Settled body (env.takes body) _ (Fresh-set_headers headers r f)))
          | inr no_ok ↦ rw no_ok s
        ]
    round-Settled (interim code reply) r later peer f final s = absurd final

    mirror_loop-Settled :
        AreFinal env
        → (key : Str) (patience : Option ℕ) (n : ℕ) (ps : List AddrPort) (r : Response) → Fresh r
        → Settled (mirror_loop env req key patience n ps r).0
    unfolding mirror_loop cancelled exhausted
    mirror_loop-Settled final key (some zero) n [] r f = error-Settled 404 _ r f (inl refl)
    mirror_loop-Settled final key (some zero) n (p ∷ ps) r f = error-Settled 404 _ r f (inl refl)
    mirror_loop-Settled final key none n [] r f = error-Settled 404 _ r f (inl refl)
    mirror_loop-Settled final key (some (suc k)) n [] r f = error-Settled 404 _ r f (inl refl)
    mirror_loop-Settled final key none n (p ∷ ps) r f =
        rw (informed-final (env.proxy req (scheme req) p) r (final req (scheme req) p)) (
          round-Settled (env.proxy req (scheme req) p) r _ p f (final req (scheme req) p)
            (mirror_loop-Settled final key none (n + 1) ps r f))
    mirror_loop-Settled final key (some (suc k)) n (p ∷ ps) r f =
        rw (informed-final (env.proxy req (scheme req) p) r (final req (scheme req) p)) (
          round-Settled (env.proxy req (scheme req) p) r _ p f (final req (scheme req) p)
            (mirror_loop-Settled final key (some k) (n + 1) ps r f))

    serve_manifest-Settled :
        (dgst : Str) (r : Response) → Fresh r → Settled (serve_manifest env req dgst r)
    unfolding serve_manifest
    serve_manifest-Settled dgst r f = elim (Result-cases (env.client.get_manifest dgst)) [
      | inl (e, failed) ↦ rw (failed, serve_manifest) (error-Settled 404 _ r f (inl refl))
      | inr ((b, media_type), found) ↦
          rw (found, serve_manifest)
            (let g = Fresh-manifest dgst media_type b r f in
              if-Settled (str_eq req.method (ascii "HEAD")) _ _ (Fresh-Settled _ g)
                (body-Settled b (env.takes b) _ g))
    ]

module _ (reg : Registry) (env : Environment) (req : Request) where
  resolve_mirror-Settled :
      AreFinal env
      → (ref : Reference) (r : Response) → Fresh r
      → Settled (resolve_mirror reg env req ref r).0
  unfolding resolve_mirror
  resolve_mirror-Settled final ref r f =
      elim (Result-cases
        (env.resolve (mirror_key ref) (is_external_request reg req) reg.resolve_retries)) [
          | inl (e, failed) ↦ rw (failed, resolve_mirror) (error-Settled 500 _ r f (inr refl))
          | inr (peers, found) ↦
              rw (found, resolve_mirror)
                (mirror_loop-Settled env req final (mirror_key ref) env.patience 0 peers r f)
        ]

  handle_mirror-Settled :
      AreFinal env
      → (ref : Reference) (r : Response) → Fresh r
      → Settled (handle_mirror reg env req ref r).response
  unfolding handle_mirror
  handle_mirror-Settled final ref r f =
      elim (Bool-cases (not reg.resolve_latest_tag && has_latest_tag ref)) [
        | inl held ↦ rw held (not_found-Settled r f)
        | inr kept ↦ rw kept (resolve_mirror-Settled final ref r f)
      ]

  handle_manifest-Settled :
      (ref : Reference) (r : Response) → Fresh r → Settled (handle_manifest env req ref r)
  unfolding handle_manifest
  handle_manifest-Settled ref r f = elim (Bool-cases (is_empty ref.dgst)) [
    | inr some_digest ↦ rw some_digest (serve_manifest-Settled env req ref.dgst r f)
    | inl no_digest ↦ rw no_digest (elim (Result-cases (env.client.resolve ref.name)) [
      | inl (e, failed) ↦ rw failed (error-Settled 404 _ r f (inl refl))
      | inr (dgst, found) ↦ rw found (serve_manifest-Settled env req dgst r f)
    ])
  ]

  copy_blob-Settled : (b : Str) (r : Response) → Fresh r → Settled (copy_blob reg env b r)
  unfolding copy_blob
  copy_blob-Settled b r f = elim (Option-cases reg.throttler) [
    | inl direct ↦ rw (direct, copy_blob) (copy-Settled b (env.takes b) r f)
    | inr (speed, throttled) ↦ rw (throttled, copy_blob) (body-Settled b (env.takes b) r f)
  ]

  serve_blob-Settled : (dgst : Str) (r : Response) → Fresh r → Settled (serve_blob reg env dgst r)
  unfolding serve_blob
  serve_blob-Settled dgst r f = elim (Result-cases (env.client.get_blob dgst)) [
    | inl (e, failed) ↦ rw (failed, serve_blob) (error-Settled 500 _ r f (inr refl))
    | inr (b, found) ↦ rw (found, serve_blob) (copy_blob-Settled b r f)
  ]

  handle_blob-Settled :
      (ref : Reference) (r : Response) → Fresh r → Settled (handle_blob reg env req ref r)
  unfolding handle_blob
  handle_blob-Settled ref r f = elim (Result-cases (env.client.size ref.dgst)) [
    | inl (e, failed) ↦ rw (failed, handle_blob) (error-Settled 500 _ r f (inr refl))
    | inr (size, found) ↦
        rw (found, handle_blob)
          (let g = Fresh-blob ref.dgst size r f in
            if-Settled (str_eq req.method (ascii "HEAD")) _ _ (Fresh-Settled _ g)
              (serve_blob-Settled ref.dgst _ g))
  ]

  serve_reference-Settled :
      (kind : ReferenceKind) (ref : Reference) (r : Response)
      → Fresh r
      → Settled (serve_reference kind reg env req ref r).response
  unfolding serve_reference
  serve_reference-Settled manifest ref r f = handle_manifest-Settled ref r f
  serve_reference-Settled blob ref r f = handle_blob-Settled ref r f

if-answer-Settled :
    (b : Bool) (x y : Answer)
    → Settled x.response
    → Settled y.response
    → Settled (if b then x else y).response
if-answer-Settled true x y sx sy = sx
if-answer-Settled false x y sx sy = sy

module _ (reg : Registry) (env : Environment) (req : Request) where
  dispatch-Settled :
      AreFinal env
      → (ref : Reference) (r : Response) → Fresh r
      → Settled (dispatch reg env req ref r).response
  unfolding dispatch
  dispatch-Settled final ref r f =
      if-answer-Settled (not (str_eq req.mirrored (ascii "true"))) _ _
        (handle_mirror-Settled reg env (record req { mirrored = ascii "true" }) final ref r f)
        (serve_reference-Settled reg env req ref.kind ref r f)

  registry_handler-Settled :
      AreFinal env → (r : Response) → Fresh r → Settled (registry_handler reg env req r).response
  unfolding registry_handler
  registry_handler-Settled final r f = elim (Bool-cases (str_eq (clean req.path) (ascii "/v2"))) [
    | inl version ↦ rw version (ok-Settled r f)
    | inr other ↦ rw other (elim (Result-cases (parse_path_components req.namespace req.path)) [
      | inl (e, failed) ↦ rw failed (error-Settled 404 _ r f (inl refl))
      | inr (ref, found) ↦ rw found (dispatch-Settled final ref r f)
    ])
  ]

  -- Whatever the request, the store, the router and the mirrors do, if no mirror sends interim
  -- headers, the answer has status 200, 404 or 500, the status that is recorded for the log and
  -- the metrics is the one that the client sees, and the size that is recorded is that of the
  -- body.
  pub handle-Settled : AreFinal env → Settled (handle reg env req new_response).response
  unfolding handle
  handle-Settled final =
      if-answer-Settled (str_eq req.path (ascii "/healthz") && str_eq req.method (ascii "GET")) _ _
        (ready_handler-Settled env new_response Fresh-new)
        (if-answer-Settled
          (has_prefix req.path (ascii "/v2")
            && (str_eq req.method (ascii "GET") || str_eq req.method (ascii "HEAD")))
          _ _ (registry_handler-Settled final new_response Fresh-new)
          (not_found-Settled new_response Fresh-new))
