-- ===== src/Registry/Handlers/Serving.antt =====
-- What a mirror serves from its own store: pkg/registry/registry.go.
use spegel.Base.{
  is_empty, ℕ, ◌≡◌, refl, Str, str_eq, str_eq_iff, ascii, has_prefix, length, take, Bool, true,
  false, Result-cases, Option, some, inl, inr, List, [], ◌∷◌, ◌++◌, Result, ok, ◌&&◌, ◌||◌,
  if◌then◌else◌,
}
use spegel.Base.Clean.{clean}
use spegel.Base.Maps.{lookup, insert}
use spegel.Base.Decimal.{format}
use spegel.Routing.Router.{AddrPort}
use spegel.Mux.Response.{Response, new_response, set_header, write, final_status}
use spegel.Registry.Distribution.{Reference, ReferenceKind, manifest, blob, parse_path_components}
use spegel.Registry.Distribution.Searching.{is_name}
use spegel.Registry.Distribution.Paths.{manifest_path, IsDigest, parse-manifest_digest}
use spegel.Registry.Handlers.{
  ready_handler, serve_manifest, handle_manifest, handle_blob, serve_reference, serve_blob,
  described_manifest, dispatch, registry_handler, handle,
}
use spegel.Registry.Handlers.Exchange.{Registry, Request, Environment, Reply, Answer, answer}

-- The same surroundings with another router and other mirrors.
abbrev pub with_others :
    (Str → Bool → ℕ → Result (List AddrPort))
    → (Request → Str → AddrPort → Reply)
    → Environment
    → Environment
with_others resolve proxy env = record env { resolve = resolve; proxy = proxy }

module _ (resolve : Str → Bool → ℕ → Result (List AddrPort))
    (proxy : Request → Str → AddrPort → Reply) (reg : Registry) (env : Environment)
    (req : Request) where
  abbrev Local : Answer → Answer → Type 0
  Local a b = (a ≡ b) × (a.tried ≡ []) × (a.counted ≡ [])

  if-Local :
      (b : Bool) {x x' y y' : Answer}
      → Local x x'
      → Local y y'
      → Local (if b then x else y) (if b then x' else y')
  if-Local true p q = p
  if-Local false p q = q

  serve_reference-Local :
      (kind : ReferenceKind) (ref : Reference) (r : Response)
      → Local
          (serve_reference kind reg env req ref r)
          (serve_reference kind reg (with_others resolve proxy env) req ref r)
  unfolding serve_reference handle_manifest handle_blob serve_manifest serve_blob
  serve_reference-Local manifest ref r = (refl, refl, refl)
  serve_reference-Local blob ref r = (refl, refl, refl)

  module _ (mirrored : req.mirrored ≡ ascii "true") where
    dispatch-Local :
        (ref : Reference) (r : Response)
        → Local
            (dispatch reg env req ref r)
            (dispatch reg (with_others resolve proxy env) req ref r)
    unfolding dispatch
    dispatch-Local ref r =
        rw ((str_eq_iff req.mirrored (ascii "true")).1 mirrored)
          (serve_reference-Local ref.kind ref r)

    registry_handler-Local :
        (r : Response)
        → Local
            (registry_handler reg env req r)
            (registry_handler reg (with_others resolve proxy env) req r)
    unfolding registry_handler
    registry_handler-Local r =
        if-Local (str_eq (clean req.path) (ascii "/v2")) (refl, refl, refl)
          (elim (Result-cases (parse_path_components req.namespace req.path)) [
            | inl (e, failed) ↦ rw failed (refl, refl, refl)
            | inr (ref, found) ↦ rw found (dispatch-Local ref r)
          ])

    -- A request that a mirror forwarded is answered from the node's own store: it is forwarded no
    -- further, it is not counted as a mirror request, and the answer is the same whatever the router
    -- and the other mirrors would say.
    pub handle-Local :
        (r : Response)
        → Local (handle reg env req r) (handle reg (with_others resolve proxy env) req r)
    unfolding handle ready_handler
    handle-Local r =
        if-Local (str_eq req.path (ascii "/healthz") && str_eq req.method (ascii "GET"))
          (refl, refl, refl)
          (if-Local
            (has_prefix req.path (ascii "/v2")
              && (str_eq req.method (ascii "GET") || str_eq req.method (ascii "HEAD")))
            (registry_handler-Local r) (refl, refl, refl))

abbrev pub header : Str → Response → Option Str
header key r = lookup key r.inner.headers

-- What a client gets of a manifest: its bytes, as far as the connection took them, described.
pub record ServesManifest (dgst media_type b : Str) (taken : ℕ) (r : Response) : Type 0 where
  pub status : final_status r.inner ≡ 200
  pub body : r.inner.body ≡ take taken b
  pub length : header (ascii "Content-Length") r ≡ some (format (length b))
  pub digest : header (ascii "Docker-Content-Digest") r ≡ some dgst
  pub content_type : header (ascii "Content-Type") r ≡ some media_type

written-ServesManifest :
    (dgst media_type b : Str) (n : ℕ)
    → ServesManifest dgst media_type b n
        (write b n (described_manifest dgst media_type b new_response))
unfolding write described_manifest set_header lookup insert str_eq
written-ServesManifest dgst media_type b n = record {
  status = refl;
  body = refl;
  length = refl;
  digest = refl;
  content_type = refl;
}

some_digest : (algorithm hash : Str) → is_empty (algorithm ++ b':' ∷ hash) ≡ false
some_digest [] hash = refl
some_digest (c ∷ algorithm) hash = refl

module _ (reg : Registry) (env : Environment) (base : Request) (name algorithm hash : Str) where
  abbrev pub manifest_request : Request
  manifest_request = record base {
    method = ascii "GET";
    path = manifest_path name (algorithm ++ b':' ∷ hash);
    mirrored = ascii "true";
  }

  dispatch-manifest_request :
      dispatch reg env manifest_request
        (record {
          kind = manifest;
          name = [];
          dgst = algorithm ++ b':' ∷ hash;
          original_registry = base.namespace;
        })
        new_response
      ≡ answer
          (ascii "manifest")
          (serve_manifest env manifest_request (algorithm ++ b':' ∷ hash) new_response)
  unfolding dispatch str_eq handle_manifest
  dispatch-manifest_request = rw (some_digest algorithm hash)

  registry_handler-manifest_request :
      is_name name ≡ true
      → IsDigest algorithm hash
      → str_eq (clean (manifest_path name (algorithm ++ b':' ∷ hash))) (ascii "/v2") ≡ false
      → registry_handler reg env manifest_request new_response
        ≡ answer
            (ascii "manifest")
            (serve_manifest env manifest_request (algorithm ++ b':' ∷ hash) new_response)
  unfolding registry_handler
  registry_handler-manifest_request named d deep =
      rw (deep, parse-manifest_digest base.namespace name algorithm hash named d)
        dispatch-manifest_request

  -- A forwarded GET request for a manifest by a well-formed name and digest, whose cleaned path is not
  -- `/v2` and whose manifest the store has, is answered
  -- with status 200, the store's bytes of that manifest as far as the connection takes them, their
  -- length and media type, and the digest that was asked for.
  pub handle-ServesManifest :
      (b media_type : Str)
      → is_name name ≡ true
      → IsDigest algorithm hash
      → str_eq (clean (manifest_path name (algorithm ++ b':' ∷ hash))) (ascii "/v2") ≡ false
      → env.client.get_manifest (algorithm ++ b':' ∷ hash) ≡ ok (b, media_type)
      → ServesManifest
          (algorithm ++ b':' ∷ hash)
          media_type
          b
          (env.takes b)
          (handle reg env manifest_request new_response).response
  unfolding handle has_prefix str_eq serve_manifest
  handle-ServesManifest b media_type named d deep found =
      rw (registry_handler-manifest_request named d deep) (
        rw (found, serve_manifest)
          (written-ServesManifest (algorithm ++ b':' ∷ hash) media_type b (env.takes b)))
