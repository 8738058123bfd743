-- ===== src/Cluster/Answering.antt =====
-- What a node replies to a forwarded request, by its digest or by a tag: pkg/registry/registry.go.
use spegel.Base.{
  ◌≡◌, ◌⊎◌, refl, sym, subst, ◌∙◌, inl, inr, Str, ascii, str_eq, is_empty, take, Bool-cases, err,
  Error, false, true, ok_injective, Result-cases, some, ok,
}
use spegel.Oci.Client.{Client}
use spegel.Mux.Response.{new_response, is_interim, write_header, write_error}
use spegel.Registry.Distribution.{Reference, ReferenceKind, manifest, blob}
use spegel.Registry.Handlers.{dispatch, serve_reference, handle_manifest}
use spegel.Registry.Handlers.Exchange.{Registry, Request, Environment, Reply}
use spegel.Routing.Router.{AddrPort}
use spegel.Base.{Option, none}
use spegel.Registry.Handlers.Mirroring.{serves, IsFinal}
use spegel.Cluster.{Node, Network, reply_of, answer_of, forward_to}
use spegel.Cluster.Serving.{
  IsPull, forwarded, handle-registry_handler, registry_handler-dispatch, HasBytes, Described,
  Replied, Names, by_digest, by_tag, Content, serve_manifest-Replied, handle_blob-Replied,
}

answer_of-IsFinal : (o : Option Node) (req : Request) → IsFinal (answer_of o req)
answer_of-IsFinal none req = tt
answer_of-IsFinal (some n) req = tt

pub forward_to-IsFinal :
    (net : Network) (req : Request) (scheme : Str) (p : AddrPort)
    → IsFinal (forward_to net req scheme p)
forward_to-IsFinal net req scheme p = answer_of-IsFinal (net p) req

-- Either no 200, since the store has nothing for the reference, or the bytes that it has.
abbrev pub Answered : ReferenceKind → Reference → Environment → Reply → Type 0
Answered kind ref env p =
    ((serves p ≡ false) × ((dgst b : Str) → ¬ (Content kind ref env.client dgst b)))
    ⊎ ((dgst b : Str) × Content kind ref env.client dgst b
        × Described dgst (take (env.takes b) b) p)

pub Names-digest :
    {ref : Reference} {client : Client} {dgst : Str}
    → is_empty ref.dgst ≡ false
    → Names ref client dgst
    → dgst ≡ ref.dgst
Names-digest some_digest (by_digest e) = refl
Names-digest some_digest (by_tag e found) = cc

Names-tag :
    {ref : Reference} {client : Client} {dgst other : Str}
    → is_empty ref.dgst ≡ true
    → client.resolve ref.name ≡ ok other
    → Names ref client dgst
    → dgst ≡ other
Names-tag no_digest resolved (by_digest e) = cc
Names-tag no_digest resolved (by_tag e found) = ok_injective (sym found ∙ resolved)

Names-failed :
    {ref : Reference} {client : Client} {dgst : Str} {e : Error}
    → is_empty ref.dgst ≡ true
    → client.resolve ref.name ≡ err e
    → ¬ (Names ref client dgst)
Names-failed no_digest failed (by_digest e) = cc
Names-failed no_digest failed (by_tag e found) = cc

-- A store that takes the reference for the digest replies for the reference as for the digest.
Answered-Replied :
    (kind : ReferenceKind) (ref : Reference) (env : Environment) (dgst : Str) (p : Reply)
    → Names ref env.client dgst
    → ((d : Str) → Names ref env.client d → d ≡ dgst)
    → Replied kind dgst env p
    → Answered kind ref env p
Answered-Replied kind ref env dgst p named only (inl (silent, has_none)) =
    inl (silent, λ d b c. has_none b (subst (λ x. HasBytes kind x env.client b) (only d c.0) c.1))
Answered-Replied kind ref env dgst p named only (inr (b, has, described)) =
    inr (dgst, b, (named, has), described)

module _ (reg : Registry) (env : Environment) (req : Request) (ref : Reference)
    (get : req.method ≡ ascii "GET") where
  handle_manifest-Answered :
      Answered manifest ref env (reply_of (handle_manifest env req ref new_response))
  unfolding handle_manifest write_error write_header is_interim
  handle_manifest-Answered = elim (Bool-cases (is_empty ref.dgst)) [
    | inr some_digest ↦ rw some_digest (
        Answered-Replied manifest ref env ref.dgst _ (by_digest some_digest)
          (λ d. Names-digest some_digest) (serve_manifest-Replied env req ref.dgst get))
    | inl no_digest ↦ rw no_digest (elim (Result-cases (env.client.resolve ref.name)) [
      | inl (e, failed) ↦ rw failed (inl (refl, λ d b c. Names-failed no_digest failed c.0))
      | inr (dgst, found) ↦ rw found (
          Answered-Replied manifest ref env dgst _ (by_tag no_digest found)
            (λ d. Names-tag no_digest found) (serve_manifest-Replied env req dgst get))
    ])
  ]

  serve_reference-Answered :
      (kind : ReferenceKind)
      → (is_empty ref.dgst ≡ false) ⊎ (kind ≡ manifest)
      → Answered kind ref env
          (reply_of (serve_reference kind reg env req ref new_response).response)
  unfolding serve_reference
  serve_reference-Answered manifest known = handle_manifest-Answered
  serve_reference-Answered blob (inl some_digest) =
      Answered-Replied blob ref env ref.dgst _ (by_digest some_digest)
        (λ d. Names-digest some_digest) (handle_blob-Replied reg env req ref get)
  serve_reference-Answered blob (inr other) = absurd (cc other)

-- A node that is asked for a reference by a forwarded request replies with the bytes that its store has
-- for it, and with their digest, or with no 200 if it has none.
pub answer_of-Answered :
    (n : Node) (req : Request) (ref : Reference)
    → IsPull req ref
    → Answered ref.kind ref n.environment
        (answer_of (some n) (record req { mirrored = ascii "true" }))
unfolding dispatch str_eq
answer_of-Answered n req ref pull =
    let sent = record req { mirrored = ascii "true" } in
    let same = forwarded pull in
    rw (handle-registry_handler n.registry n.environment sent ref same new_response) (
      rw (registry_handler-dispatch n.registry n.environment sent ref same new_response) (
        serve_reference-Answered n.registry n.environment sent ref pull.method ref.kind pull.known))
