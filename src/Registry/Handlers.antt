-- ===== src/Registry/Handlers.antt =====
-- The handlers of the registry: pkg/registry/registry.go.
pub mod Exchange
pub mod Fresh
pub mod Mirroring
pub mod Interim
pub mod Serving
pub mod Routes
use spegel.Registry.Handlers.Exchange.{
  Registry, Request, Reply, unreachable, replied, interim, Environment, Answer, answer,
}
use spegel.Base.{
  ℕ, zero, suc, ◌+◌, Str, ascii, str_eq, has_prefix, is_empty, length, Bool, true, false, not, ◌&&◌,
  ◌||◌, Option, none, some, List, [], ◌∷◌, ◌++◌, ok, err, error, errorf, wrapf, joined, ◌==◌,
  if◌then◌else◌, ltb,
}
use spegel.Base.Maps.{Map}
use spegel.Base.Decimal.{format}
use spegel.Base.Clean.{clean}
use spegel.Routing.Router.{AddrPort}
use spegel.Mux.Response.{Response, write_header, write, write_error, read_from, set_header, status}
use spegel.Registry.Distribution.{
  Reference, ReferenceKind, manifest, blob, has_latest_tag, parse_path_components,
}

unfoldable pub is_external_request : Registry → Request → Bool
is_external_request reg req = not (str_eq req.host reg.local_addr)

unfoldable pub ready_handler : Environment → Response → Response
ready_handler env r = elim env.ready [
  | err e ↦ write_error 500 (wrapf "could not determine router readiness: %w" [] e) r
  | ok ready ↦ if ready then r else write_header 500 r
]

-- `key := ref.dgst.String(); if key == "" { key = ref.name }`
unfoldable pub mirror_key : Reference → Str
mirror_key ref = if is_empty ref.dgst then ref.name else ref.dgst

unfoldable pub set_headers : Map Str → Response → Response
set_headers [] r = r
set_headers ((k, v) ∷ more) r = set_headers more (set_header k v r)

-- The interim headers of a mirror, which the reverse proxy writes as they come.
unfoldable pub informed : Reply → Response → Response
informed (interim code reply) r = informed reply (write_header code r)
informed (unreachable e) r = r
informed (replied code headers body) r = r

-- The reverse proxy panics with `http.ErrAbortHandler` if the body is not copied whole.
abbrev pub or_abort : Environment → Str → Response → Response
or_abort env body r = record r {
  inner = record r.inner { aborted = ltb (env.takes body) (length body) };
}

-- The reverse proxy with its `ModifyResponse` and its `ErrorHandler`: any status but 200 is an
-- error, and an error writes nothing besides the interim headers.
unfoldable pub forward : Environment → Reply → Response → Option Response
forward env (unreachable e) r = none
forward env (replied code headers body) r =
    if code == 200
    then some
        (or_abort env body (write body (env.takes body) (write_header 200 (set_headers headers r))))
    else none
forward env (interim code reply) r = forward env reply (write_header code r)

abbrev pub is_over : Option ℕ → Bool
is_over (some zero) = true
is_over _ = false

abbrev pub one_less : Option ℕ → Option ℕ
one_less (some (suc n)) = some n
one_less patience = patience

unfoldable pub cancelled : Environment → Str → Response → Response
cancelled env key r =
    write_error 404
      (wrapf "mirroring for image component %s has been cancelled: %w" (key ∷ []) env.cancellation)
      r

unfoldable pub exhausted : Str → ℕ → Response → Response
exhausted key attempts r =
    let missing = errorf "mirror with image component %s could not be found" (key ∷ []) in
    let all_failed =
      errorf
        "requests to %d mirrors failed, all attempts have been exhausted or timeout has been reached"
        (format attempts ∷ []) in
    write_error 404 (if attempts == 0 then missing else joined missing all_failed) r

abbrev pub scheme : Request → Str
scheme req = if req.tls then ascii "https" else ascii "http"

-- The end of a round: the loop is left if the mirror succeeded, and goes on otherwise.
abbrev pub round_result :
    Option Response → Response × List AddrPort → AddrPort → Response × List AddrPort
round_result (some r) later p = (r, p ∷ [])
round_result none later p = (later.0, p ∷ later.1)

-- The loop of `handleMirror` over what the channel of peers yields before it is closed. Each round
-- begins by finding out whether the client went away.
unfoldable pub mirror_loop :
    Environment → Request → Str → Option ℕ → ℕ → List AddrPort → Response → Response × List AddrPort
mirror_loop env req key patience attempts [] r =
    if is_over patience then (cancelled env key r, []) else (exhausted key attempts r, [])
mirror_loop env req key patience attempts (p ∷ ps) r =
    let reply = env.proxy req (scheme req) p in
    let later = mirror_loop env req key (one_less patience) (attempts + 1) ps (informed reply r) in
    if is_over patience
    then (cancelled env key r, [])
    else round_result (forward env reply r) later p

-- `handleMirror` behind its test of the latest tag.
unfoldable pub resolve_mirror :
    Registry → Environment → Request → Reference → Response → Response × List AddrPort
resolve_mirror reg env req ref r =
    let key = mirror_key ref in
    elim (env.resolve key (is_external_request reg req) reg.resolve_retries) [
      | err e ↦ (
        write_error 500 (wrapf "error occurred when attempting to resolve mirrors: %w" [] e) r,
        [],
      )
      | ok peers ↦ mirror_loop env req key env.patience 0 peers r
    ]

-- The deferred count of `handleMirror`. A panic leaves the name of the handler empty in `handle`.
unfoldable pub count_mirror : Registry → Request → Reference → Response × List AddrPort → Answer
count_mirror reg req ref (r, tried) = record {
  response = r;
  handler = if r.inner.aborted then [] else ascii "mirror";
  tried = tried;
  counted =
      record {
        registry = ref.original_registry;
        hit = status r == 200;
        external = is_external_request reg req;
      }
      ∷ [];
}

unfoldable pub handle_mirror : Registry → Environment → Request → Reference → Response → Answer
unfolding count_mirror
handle_mirror reg env req ref r = count_mirror reg req ref (
    if not reg.resolve_latest_tag && has_latest_tag ref
    then (write_header 404 r, [])
    else resolve_mirror reg env req ref r)

-- The headers of a manifest.
unfoldable pub described_manifest : Str → Str → Str → Response → Response
described_manifest dgst media_type b r = set_header (ascii "Docker-Content-Digest") dgst (
    set_header (ascii "Content-Length") (format (length b))
      (set_header (ascii "Content-Type") media_type r))

-- `handleManifest` with its digest, whichever way it was found.
unfoldable pub serve_manifest : Environment → Request → Str → Response → Response
unfolding described_manifest
serve_manifest env req dgst r = elim (env.client.get_manifest dgst) [
  | err e ↦
      write_error 404 (wrapf "could not get manifest content for digest %s: %w" (dgst ∷ []) e) r
  | ok (b, media_type) ↦
      let described = described_manifest dgst media_type b r in
      if str_eq req.method (ascii "HEAD") then described else write b (env.takes b) described
]

unfoldable pub handle_manifest : Environment → Request → Reference → Response → Response
handle_manifest env req ref r =
    if not (is_empty ref.dgst)
    then serve_manifest env req ref.dgst r
    else elim (env.client.resolve ref.name) [
      | err e ↦
          write_error 404 (wrapf "could not get digest for image tag %s: %w" (ref.name ∷ []) e) r
      | ok dgst ↦ serve_manifest env req dgst r
    ]

-- `io.Copy(w, rc)`: the throttler's writer is written to, and the response itself reads.
unfoldable pub copy_blob : Registry → Environment → Str → Response → Response
copy_blob reg env b r = elim reg.throttler [
  | some speed ↦ write b (env.takes b) r
  | none ↦ read_from b (env.takes b) r
]

-- The headers of a blob.
unfoldable pub described_blob : Str → ℕ → Response → Response
described_blob dgst size r =
    set_header (ascii "Docker-Content-Digest") dgst
      (set_header (ascii "Content-Length") (format size) r)

-- `handleBlob` behind the headers, for a request that wants the body.
unfoldable pub serve_blob : Registry → Environment → Str → Response → Response
unfolding copy_blob
serve_blob reg env dgst r = elim (env.client.get_blob dgst) [
  | err e ↦
      write_error 500 (wrapf "could not get reader for blob with digest %s: %w" (dgst ∷ []) e) r
  | ok b ↦ copy_blob reg env b r
]

unfoldable pub handle_blob : Registry → Environment → Request → Reference → Response → Response
unfolding described_blob serve_blob
handle_blob reg env req ref r = elim (env.client.size ref.dgst) [
  | err e ↦
      write_error 500
        (wrapf "could not determine size of blob with digest %s: %w" (ref.dgst ∷ []) e) r
  | ok size ↦
      let described = described_blob ref.dgst size r in
      if str_eq req.method (ascii "HEAD") then described else serve_blob reg env ref.dgst described
]

-- The endpoints behind the test of the mirrored header.
unfoldable pub serve_reference :
    ReferenceKind → Registry → Environment → Request → Reference → Response → Answer
serve_reference manifest reg env req ref r =
    answer (ascii "manifest") (handle_manifest env req ref r)
serve_reference blob reg env req ref r = answer (ascii "blob") (handle_blob reg env req ref r)

-- `registryHandler` with the reference of its path.
unfoldable pub dispatch : Registry → Environment → Request → Reference → Response → Answer
unfolding serve_reference
dispatch reg env req ref r =
    if not (str_eq req.mirrored (ascii "true"))
    then handle_mirror reg env (record req { mirrored = ascii "true" }) ref r
    else serve_reference ref.kind reg env req ref r

unfoldable pub registry_handler : Registry → Environment → Request → Response → Answer
registry_handler reg env req r =
    if str_eq (clean req.path) (ascii "/v2")
    then answer (ascii "v2") (write_header 200 r)
    else elim (parse_path_components req.namespace req.path) [
      | err e ↦ answer (ascii "registry") (
          write_error 404 (wrapf "could not parse path according to OCI distribution spec: %w" [] e)
            r)
      | ok ref ↦ dispatch reg env req ref r
    ]

-- `handle`, without its log and its timing.
unfoldable pub handle : Registry → Environment → Request → Response → Answer
handle reg env req r =
    if str_eq req.path (ascii "/healthz") && str_eq req.method (ascii "GET")
    then answer (ascii "ready") (ready_handler env r)
    else if has_prefix req.path (ascii "/v2")
        && (str_eq req.method (ascii "GET") || str_eq req.method (ascii "HEAD"))
    then registry_handler reg env req r
    else answer [] (write_header 404 r)
