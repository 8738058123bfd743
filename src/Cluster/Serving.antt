-- ===== src/Cluster/Serving.antt =====
-- What a node replies to a forwarded request for a reference: pkg/registry/registry.go.
use spegel.Base.{
  [], none, ap, ◌∷◌, ℕ, ◌≡◌, ◌⊎◌, refl, sym, subst, ◌∙◌, inl, inr, Str, ascii, str_eq, has_prefix,
  is_empty, take, false, true, Result-cases, Option-cases, some, ◌++◌, ok,
}
use spegel.Base.Clean.{clean}
use spegel.Base.Maps.{Map, lookup, insert}
use spegel.Oci.Client.{Client}
use spegel.Mux.Response.{
  Response, new_response, is_interim, write, read_from, sent_after, write_header, write_error,
  set_header,
}
use spegel.Registry.Distribution.{Reference, ReferenceKind, manifest, blob, parse_path_components}
use spegel.Registry.Handlers.{
  set_headers, handle, registry_handler, dispatch, serve_manifest, handle_blob, serve_blob,
  copy_blob, described_manifest, described_blob,
}
use spegel.Registry.Handlers.Exchange.{Registry, Request, Environment, Reply, replied}
use spegel.Registry.Handlers.Mirroring.{serves}
use spegel.Cluster.{reply_of}

-- A request for the content of a reference.
pub record IsPull (req : Request) (ref : Reference) : Type 0 where
  pub method : req.method ≡ ascii "GET"
  pub rest : Str
  pub path : req.path ≡ ascii "/v2/" ++ rest
  pub deep : str_eq (clean req.path) (ascii "/v2") ≡ false
  pub parsed : parse_path_components req.namespace req.path ≡ ok ref
  pub known : (is_empty ref.dgst ≡ false) ⊎ (ref.kind ≡ manifest)

pub forwarded :
    {req : Request} {ref : Reference}
    → IsPull req ref
    → IsPull (record req { mirrored = ascii "true" }) ref
forwarded pull = record {
  method = pull.method;
  rest = pull.rest;
  path = pull.path;
  deep = pull.deep;
  parsed = pull.parsed;
  known = pull.known;
}

module _ (reg : Registry) (env : Environment) (req : Request) (ref : Reference)
    (pull : IsPull req ref) (r : Response) where
  pub handle-registry_handler : handle reg env req r ≡ registry_handler reg env req r
  unfolding handle has_prefix str_eq
  handle-registry_handler = rw (pull.path, pull.method) refl

  pub registry_handler-dispatch : registry_handler reg env req r ≡ dispatch reg env req ref r
  unfolding registry_handler
  registry_handler-dispatch = rw (pull.deep, pull.parsed) refl

-- The bytes that a store has of the reference's digest.
abbrev pub HasBytes : ReferenceKind → Str → Client → Str → Type 0
HasBytes manifest dgst client b =
    (media_type : Str) × (client.get_manifest dgst ≡ ok (b, media_type))
HasBytes blob dgst client b =
    (size : ℕ) × (client.size dgst ≡ ok size) × (client.get_blob dgst ≡ ok b)

-- The digest that a store takes a reference for: its own, or the one of its tag.
pub data Names (ref : Reference) (client : Client) : Str → Type 0 where
  by_digest : is_empty ref.dgst ≡ false → Names ref client ref.dgst
  by_tag :
      {dgst : Str}
      → is_empty ref.dgst ≡ true
      → client.resolve ref.name ≡ ok dgst
      → Names ref client dgst

-- The digest and the bytes that a store has for a reference.
abbrev pub Content : ReferenceKind → Reference → Client → Str → Str → Type 0
Content kind ref client dgst b = Names ref client dgst × HasBytes kind dgst client b

-- A reply with these bytes, which one who passes it on describes by this digest.
abbrev pub Described : Str → Str → Reply → Type 0
Described dgst b p =
    (headers : Map Str) × (p ≡ replied 200 headers b)
    × (lookup (ascii "Docker-Content-Digest") (set_headers headers new_response).inner.headers
        ≡ some dgst)

-- Either no 200, since the store has none, or the bytes of the store, as far as the connection
-- takes them.
abbrev pub Replied : ReferenceKind → Str → Environment → Reply → Type 0
Replied kind dgst env p =
    ((serves p ≡ false) × ((b : Str) → ¬ (HasBytes kind dgst env.client b)))
    ⊎ ((b : Str) × HasBytes kind dgst env.client b × Described dgst (take (env.takes b) b) p)

module _ (env : Environment) (req : Request) (dgst : Str) (get : req.method ≡ ascii "GET") where
  pub serve_manifest-Replied :
      Replied manifest dgst env (reply_of (serve_manifest env req dgst new_response))
  unfolding serve_manifest described_manifest set_header set_headers write str_eq lookup insert
      write_error write_header is_interim
  serve_manifest-Replied = elim (Result-cases (env.client.get_manifest dgst)) [
    | inl (e, failed) ↦ inl (rw (failed, serve_manifest) refl, λ b h. cc (sym failed ∙ h.1))
    | inr ((b, media_type), found) ↦ inr (
      b,
      (media_type, found),
      (
        (described_manifest dgst media_type b new_response).inner.headers,
        rw (found, get, serve_manifest) refl,
        refl,
      ),
    )
  ]

  copied_status :
      (b : Str) → ◌≡◌ {A = ℕ} (elim (sent_after b none) [ none ↦ 200 | some code ↦ code ]) 200
  copied_status [] = refl
  copied_status (c ∷ b) = refl

  module _ (reg : Registry) where
    copy_blob-Described :
        (b : Str) (size : ℕ)
        → Described dgst
            (take (env.takes b) b)
            (reply_of (copy_blob reg env b (described_blob dgst size new_response)))
    unfolding copy_blob described_blob set_header set_headers write read_from str_eq lookup insert
    copy_blob-Described b size = elim (Option-cases reg.throttler) [
      | inr (speed, slow) ↦
          ((described_blob dgst size new_response).inner.headers, rw (slow, copy_blob) refl, refl)
      | inl fast ↦
          let headers = (described_blob dgst size new_response).inner.headers in
          (
            headers,
            rw (fast, copy_blob)
                (ap (λ code. replied code headers (take (env.takes b) b))
                  (copied_status (take (env.takes b) b))),
            refl,
          )
    ]

    serve_blob-Replied :
        (size : ℕ)
        → env.client.size dgst ≡ ok size
        → Replied blob dgst env
            (reply_of (serve_blob reg env dgst (described_blob dgst size new_response)))
    unfolding serve_blob described_blob set_header write_error write_header is_interim
    serve_blob-Replied size sized = elim (Result-cases (env.client.get_blob dgst)) [
      | inl (e, failed) ↦ inl (rw (failed, serve_blob) refl, λ b h. cc (sym failed ∙ h.2))
      | inr (b, found) ↦
          inr (b, (size, sized, found), rw (found, serve_blob) (copy_blob-Described b size))
    ]

module _ (reg : Registry) (env : Environment) (req : Request) (ref : Reference)
    (get : req.method ≡ ascii "GET") where
  handle_blob-sized :
      (size : ℕ)
      → env.client.size ref.dgst ≡ ok size
      → handle_blob reg env req ref new_response
        ≡ serve_blob reg env ref.dgst (described_blob ref.dgst size new_response)
  unfolding handle_blob str_eq
  handle_blob-sized size sized = rw (sized, handle_blob) (rw get refl)

  pub handle_blob-Replied :
      Replied blob ref.dgst env (reply_of (handle_blob reg env req ref new_response))
  unfolding handle_blob write_error write_header is_interim str_eq
  handle_blob-Replied = elim (Result-cases (env.client.size ref.dgst)) [
    | inl (e, failed) ↦ inl (rw (failed, handle_blob) refl, λ b h. cc (sym failed ∙ h.1))
    | inr (size, sized) ↦
        subst (λ r. Replied blob ref.dgst env (reply_of r)) (sym (handle_blob-sized size sized))
          (serve_blob-Replied env req ref.dgst get reg size sized)
  ]
