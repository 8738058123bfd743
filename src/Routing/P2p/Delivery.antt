-- ===== src/Routing/P2p/Delivery.antt =====
-- Which peers a resolution of pkg/routing/p2p.go delivers.
use mathlib.Core.List.{append_assoc, append-nil, Sublist}
use mathlib.Core.List.Sublist
use spegel.Base.{
  ℕ, ◌+◌, ◌≡◌, ◌∙◌, ◌≤◌, refl, ap, sym, subst, length, length-append, Bool, true, Option, none,
  some, List, [], ◌∷◌, ◌++◌, arith, ◌≢◌, Str, ok, ok_injective, bind_ok,
}
use spegel.Routing.Router.{AddrPort}
use spegel.Routing.P2p.Network.{AddrInfo, Addresses, Table, IsLimited}
use spegel.Routing.P2p.{
  Resolving, Step, skip, send, drop, close, receive, Reach, start, next, peer_of, peer_buffer_size,
  resolve,
}

module _ (peer : AddrInfo → Option AddrPort) where
  abbrev pub with_peer : Option AddrPort → List AddrPort → List AddrPort
  with_peer none ps = ps
  with_peer (some p) ps = p ∷ ps

  -- The peers that are acceptable, in order.
  abbrev pub peers_of : List AddrInfo → List AddrPort
  peers_of [] = []
  peers_of (info ∷ infos) = with_peer (peer info) (peers_of infos)

  -- What was or may be delivered.
  abbrev line_of : Resolving → List AddrPort
  line_of st = st.received ++ (st.buffer ++ peers_of st.incoming)

  moved :
      (received buffer rest : List AddrPort) (p : AddrPort)
      → (received ++ p ∷ []) ++ (buffer ++ rest) ≡ received ++ ((p ∷ buffer) ++ rest)
  moved received buffer rest p = append_assoc received (p ∷ []) (buffer ++ rest)

  module _ (size : ℕ) where
    -- There is room for all that may come.
    record Roomy (infos : List AddrInfo) (st : Resolving) : Type 0 where
      line : line_of st ≡ peers_of infos
      room : length st.buffer + length st.incoming ≤ size
      ended : st.closed ≡ true → st.incoming ≡ []

    Step-Roomy :
        {infos : List AddrInfo} {s t : Resolving}
        → Step peer size s t
        → Roomy infos s
        → Roomy infos t
    Step-Roomy (skip info infos buffer received e) g = record {
      line = rw e at g.line;
      room = omega (arith, g.room);
      ended = λ c. cc;
    }
    Step-Roomy (send info infos buffer received p e free) g = record {
      line =
          ap (λ r. received ++ r) (append_assoc buffer (p ∷ []) (peers_of infos))
          ∙ (rw e at g.line);
      room = omega (arith, g.room, length-append buffer (p ∷ []));
      ended = λ c. cc;
    }
    Step-Roomy (drop info infos buffer received p e full) g = absurd (omega (arith, g.room))
    Step-Roomy (close buffer received) g = record {
      line = g.line;
      room = g.room;
      ended = λ c. refl;
    }
    Step-Roomy (receive infos buffer received p closed) g = record {
      line = moved received buffer (peers_of infos) p ∙ g.line;
      room = omega (arith, g.room);
      ended = g.ended;
    }

    Reach-Roomy :
        {infos : List AddrInfo} {st : Resolving}
        → length infos ≤ size
        → Reach peer size infos st
        → Roomy infos st
    Reach-Roomy h start = record { line = refl; room = omega (arith, h); ended = λ c. cc }
    Reach-Roomy h (next r st) = Step-Roomy st (Reach-Roomy h r)

    -- If the search yields no more peers than the buffer holds, none is dropped: once the channel is
    -- closed, what was received from it and what it still holds are the acceptable peers, in order,
    -- whatever the order of the steps.
    Reach-peers_of :
        (infos : List AddrInfo) (st : Resolving)
        → length infos ≤ size
        → Reach peer size infos st
        → st.closed ≡ true
        → st.received ++ st.buffer ≡ peers_of infos
    Reach-peers_of infos st h r c =
        let g = Reach-Roomy h r in
        ap (λ b. st.received ++ b)
          (sym (append-nil st.buffer) ∙ ap (λ i. st.buffer ++ peers_of i) (sym (g.ended c)))
        ∙ g.line

    -- Whatever was dropped.
    record Bounded (infos : List AddrInfo) (st : Resolving) : Type 0 where
      line : Sublist (line_of st) (peers_of infos)
      room : length st.buffer ≤ size

    without : (xs ys : List AddrPort) (p : AddrPort) → Sublist (xs ++ ys) (xs ++ p ∷ ys)
    without [] ys p = Sublist.cons p (Sublist.refl ys)
    without (x ∷ xs) ys p = Sublist.cons-cons x (without xs ys p)

    Step-Bounded :
        {infos : List AddrInfo} {s t : Resolving}
        → Step peer size s t
        → Bounded infos s
        → Bounded infos t
    Step-Bounded (skip info infos buffer received e) g = record {
      line = rw e at g.line;
      room = g.room;
    }
    Step-Bounded {infos = all} (send info infos buffer received p e free) g = record {
      line =
          subst (λ r. Sublist (received ++ r) (peers_of all))
            (sym (append_assoc buffer (p ∷ []) (peers_of infos))) (rw e at g.line);
      room = omega (arith, free, length-append buffer (p ∷ []));
    }
    Step-Bounded {infos = all} (drop info infos buffer received p e full) g = record {
      line =
          Sublist.trans
            (subst (λ r. Sublist r ((received ++ buffer) ++ p ∷ peers_of infos))
              (append_assoc received buffer (peers_of infos))
              (without (received ++ buffer) (peers_of infos) p))
            (subst (λ r. Sublist r (peers_of all))
              (sym (append_assoc received buffer (p ∷ peers_of infos))) (rw e at g.line));
      room = g.room;
    }
    Step-Bounded (close buffer received) g = record { line = g.line; room = g.room }
    Step-Bounded {infos = all} (receive infos buffer received p closed) g = record {
      line =
          subst (λ r. Sublist r (peers_of all)) (sym (moved received buffer (peers_of infos) p))
            g.line;
      room = omega (arith, g.room);
    }

    Reach-Bounded :
        {infos : List AddrInfo} {st : Resolving} → Reach peer size infos st → Bounded infos st
    Reach-Bounded {infos} start = record {
      line = Sublist.refl (peers_of infos);
      room = omega arith;
    }
    Reach-Bounded (next r st) = Step-Bounded st (Reach-Bounded r)

    -- However many peers the search yields, and whoever receives them when: what was received, what
    -- the channel holds and what is still acceptable are among the acceptable peers, in their order,
    -- and the channel never holds more than its size.
    pub Reach-Sublist :
        (infos : List AddrInfo) (st : Resolving)
        → Reach peer size infos st
        → Sublist (st.received ++ (st.buffer ++ peers_of st.incoming)) (peers_of infos)
          × (length st.buffer ≤ size)
    Reach-Sublist infos st r = let g = Reach-Bounded r in (g.line, g.room)

peer_buffer_size-some : (count : ℕ) → count ≢ 0 → peer_buffer_size count ≡ count
unfolding peer_buffer_size
peer_buffer_size-some count h = ground (arith, h)

-- With a count that is not zero, and a search that yields no more providers than the count: once the
-- channel is closed, what was received from it and what it still holds are what `peer_of` returns of
-- the providers.
pub resolve-peer_of :
    {S : Type 0} (table : Table S) (net : Addresses) (self key : Str) (port count : ℕ)
    (allow_self : Bool)
    → (s : S) (first st : Resolving) → IsLimited table
    → count ≢ 0
    → resolve table key count s ≡ ok first
    → Reach (peer_of net self port allow_self) (peer_buffer_size count) first.incoming st
    → st.closed ≡ true
    → st.received ++ st.buffer ≡ peers_of (peer_of net self port allow_self) first.incoming
unfolding resolve
resolve-peer_of table net self key port count allow_self s first st limited some_count e r c =
    let (found, eq, started) = bind_ok (table.sum key) _ first e in
    let few = limited found count s some_count in
    let same = ap (λ r. r.incoming) (ok_injective started) in
    Reach-peers_of (peer_of net self port allow_self) (peer_buffer_size count) first.incoming st
      (subst (λ n. length first.incoming ≤ n) (sym (peer_buffer_size-some count some_count))
        (subst (λ is. length is ≤ count) same few))
      r c
