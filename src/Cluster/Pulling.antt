-- ===== src/Cluster/Pulling.antt =====
-- A node gets from the others what its own client asks for: pkg/registry/registry.go on several nodes.

use mathlib.Core.List.{Mem}
use spegel.Base.{
  ◌≡◌, ◌≢◌, ◌∙◌, refl, sym, ap, subst, inl, inr, Str, ascii, take, true, false, not, ◌&&◌, none,
  some, List, [], ◌∷◌, ◌++◌, ok, Option,
}
use spegel.Base.Join.{str_eq_of_ne}
use spegel.Routing.Router.{AddrPort}
use spegel.Mux.Response.{new_response}
use spegel.Registry.Distribution.{Reference, has_latest_tag}
use spegel.Registry.Handlers.{
  handle, dispatch, count_mirror, mirror_key, mirror_loop, set_headers, is_external_request, scheme,
}
use spegel.Registry.Handlers.Exchange.{Registry, Request, Environment}
use spegel.Registry.Handlers.Fresh.{Fresh-new, Fresh-set_headers}
use spegel.Registry.Handlers.Mirroring.{
  serves, serving, IsFinal, AreFinal, mirror_loop-found, handle_mirror-loop,
}
use spegel.Cluster.{Node, Network, answer_of}
use spegel.Registry.Handlers.Exchange.{Reply}
use mathlib.Core.List.{mem-append_right, mem-cons_self}
use spegel.Base.{is_empty}
use spegel.Cluster.Serving.{
  Content, by_digest, IsPull, HasBytes, Described, handle-registry_handler,
  registry_handler-dispatch,
}
use spegel.Cluster.Answering.{forward_to-IsFinal, Names-digest, answer_of-Answered}
use spegel.Cluster.Passing.{
  Joins, Agrees, IsPulled, IsPulledFrom, sent_by, take-all, proxied-IsPulled, first_serving,
  some_serving-Mem,
}

module _ (net : Network) (env : Environment) (req : Request) (ref : Reference)
    (pull : IsPull req ref) (joins : Joins net env) where
  sent : Request
  sent = record req { mirrored = ascii "true" }

  -- A peer that serves is a node that has something for the reference.
  Serves : Option Node → Reply → Type 0
  Serves o r =
      (n : Node) × (dgst b : Str) × (o ≡ some n)
      × Content ref.kind ref n.environment.client dgst b
      × Described dgst (sent_by n b) r

  answered-Serves :
      (o : Option Node) → serves (answer_of o sent) ≡ true → Serves o (answer_of o sent)
  unfolding sent Serves
  answered-Serves none h = cc
  answered-Serves (some n) h = elim (answer_of-Answered n req ref pull) [
    | inl (silent, has_none) ↦ cc
    | inr (dgst, b, content, described) ↦ (n, dgst, b, refl, content, described)
  ]

  answered-serves :
      (n : Node) (dgst b : Str)
      → Content ref.kind ref n.environment.client dgst b
      → serves (answer_of (some n) sent) ≡ true
  unfolding sent
  answered-serves n dgst b has = elim (answer_of-Answered n req ref pull) [
    | inl (silent, has_none) ↦ absurd (has_none dgst b has)
    | inr (other, c, content, (headers, reply, described)) ↦ ap serves reply
  ]

  -- The nodes send no interim headers.
  joined-AreFinal : AreFinal env
  joined-AreFinal r s p = subst IsFinal (sym (joins r s p)) (forward_to-IsFinal net r s p)

  serving-Serves :
      (p : AddrPort) → serving env sent p ≡ true → Serves (net p) (env.proxy sent (scheme sent) p)
  unfolding Serves
  serving-Serves p h =
      subst (Serves (net p)) (sym (joins sent (scheme sent) p))
        (answered-Serves (net p) (sym (ap serves (joins sent (scheme sent) p)) ∙ h))

  module _ (reg : Registry) (fresh : req.mirrored ≢ ascii "true") (stays : env.patience ≡ none)
      (kept : (not reg.resolve_latest_tag && has_latest_tag ref) ≡ false) (peers : List AddrPort)
      (found : env.resolve (mirror_key ref) (is_external_request reg req) reg.resolve_retries
        ≡ ok peers) where
    handle-mirror_loop :
        handle reg env req new_response
        ≡ count_mirror reg sent ref
            (mirror_loop env sent (mirror_key ref) none 0 peers new_response)
    unfolding dispatch sent is_external_request
    handle-mirror_loop =
        handle-registry_handler reg env req ref pull new_response
        ∙ registry_handler-dispatch reg env req ref pull new_response
        ∙ (rw (str_eq_of_ne req.mirrored (ascii "true") fresh) (
            handle_mirror-loop reg env sent ref peers kept found
            ∙ ap
                (λ patience.
                  count_mirror reg sent ref
                    (mirror_loop env sent (mirror_key ref) patience 0 peers new_response))
                stays))

    -- A GET request for a manifest or a blob, by its digest or by a tag, whose cleaned path is
    -- not /v2, of a client that stays, which no mirror forwarded and which is not held back for
    -- its latest tag. If one of the peers that the router found is a node whose store has
    -- something for the reference, then the client gets what the store of one of these peers
    -- has for it, with its digest and with status 200, as far as the connections of the peer
    -- and of the client take it, however many of the peers fail, and the request is counted
    -- once, as a hit.
    pub handle-IsPulledFrom :
        (p : AddrPort) (n : Node) (dgst b : Str)
        → Mem p peers
        → net p ≡ some n
        → Content ref.kind ref n.environment.client dgst b
        → IsPulledFrom net peers env ref
            (is_external_request reg req)
            (handle reg env req new_response)
    unfolding sent is_external_request Serves
    handle-IsPulledFrom p n dgst b among there has =
        let serves_p =
          ap serves (joins sent (scheme sent) p)
          ∙ ap (λ o. serves (answer_of o sent)) there
          ∙ answered-serves n dgst b has in
        let (before, after, q, split, failing, found_q) =
          first_serving env sent peers (some_serving-Mem env sent p peers among serves_p) in
        let (m, d, c, there_q, content, (headers, e, described)) = serving-Serves q found_q in
        let loop =
          ap (λ ps. mirror_loop env sent (mirror_key ref) none 0 ps new_response) split
          ∙ mirror_loop-found env sent joined-AreFinal (mirror_key ref) 0 before after q headers
              (sent_by m c) new_response failing e in
        let whole = handle-mirror_loop ∙ ap (count_mirror reg sent ref) loop in
        record {
          peer = q;
          node = m;
          dgst = d;
          bytes = c;
          among = subst (Mem q) (sym split) (mem-append_right before mem-cons_self);
          there = there_q;
          content = content;
          pulled =
              subst (IsPulled env ref d (sent_by m c) (is_external_request reg req)) (sym whole) (
                proxied-IsPulled reg env sent ref d (sent_by m c) (set_headers headers new_response)
                  (before ++ q ∷ []) (Fresh-set_headers headers new_response Fresh-new) described);
        }

    -- A request for content by its digest, of a client that stays, which no mirror forwarded and
    -- which is not held back for its latest tag. If one of the peers that the router found is a
    -- node whose store has the bytes of the digest, and every node that has bytes of the digest
    -- has these and sends them whole, then the client gets these bytes with status 200, as far as
    -- its connection takes them, whichever peer they come from and however many fail, and the
    -- request is counted once, as a hit.
    pub handle-IsPulled :
        (b : Str)
        → Agrees net ref.kind ref.dgst b
        → is_empty ref.dgst ≡ false
        → (p : AddrPort) (n : Node) → Mem p peers
        → net p ≡ some n
        → HasBytes ref.kind ref.dgst n.environment.client b
        → IsPulled env ref ref.dgst b
            (is_external_request reg req)
            (handle reg env req new_response)
    handle-IsPulled b agrees some_digest p n among there has =
        let from = handle-IsPulledFrom p n ref.dgst b among there (by_digest some_digest, has) in
        let same = Names-digest some_digest from.content.0 in
        let (these, whole) = agrees from.peer from.node from.bytes from.there (
          subst (λ d. HasBytes ref.kind d from.node.environment.client from.bytes) same
            from.content.1) in
        let all_sent =
          ap (λ x. sent_by from.node x) these ∙ ap (λ k. take k b) whole ∙ take-all b in
        subst
          (λ d.
            IsPulled env ref d b (is_external_request reg req) (handle reg env req new_response))
          same
          (subst
            (λ x.
              IsPulled env ref from.dgst x (is_external_request reg req)
                (handle reg env req new_response))
            all_sent from.pulled)
