-- ===== src/Routing/P2p/Picked.antt =====
-- Which providers a resolution of pkg/routing/p2p.go accepts.
use spegel.Base.{
  ℕ, ◌≡◌, ◌≢◌, ◌∙◌, refl, sym, ap, subst, inl, inr, Bool, Bool-cases, true, false, Option-cases,
  some, List, [], ◌∷◌, ◌++◌, Str, str_eq, str_eq_iff, Result-cases, ◌&&◌, not, ok,
}
use spegel.Routing.Router.{AddrPort}
use spegel.Routing.P2p.Network.{AddrInfo, Addresses, Table, IsLimited}
use spegel.Routing.P2p.{
  Resolving, Reach, ip_in_multiaddr, single_addr, peer_of, peer_buffer_size, resolve,
}
use spegel.Routing.P2p.Delivery.{peers_of, resolve-peer_of}

refused-itself :
    (allowed itself : Bool) → (not allowed && itself) ≡ true → (allowed ≡ false) × (itself ≡ true)
refused-itself false itself e = (refl, e)
refused-itself true itself e = cc

module _ (net : Addresses) (self : Str) (port : ℕ) (allow_self : Bool) where
  -- The provider is this peer: it has one address, which has the IP, and it is not the router itself
  -- unless the caller allows that.
  pub record Accepts (info : AddrInfo) (p : AddrPort) : Type 0 where
    pub addr : Str
    pub only : info.addrs ≡ addr ∷ []
    pub located : ip_in_multiaddr net addr ≡ ok p.ip
    pub same_port : p.port ≡ port
    pub other : allow_self ≡ false → info.id ≢ self

  -- The peers are those of the providers, in their order, less the providers that are none.
  pub data Picks : List AddrInfo → List AddrPort → Type 0 where
    ended : Picks [] []
    taken :
        (info : AddrInfo) (p : AddrPort) (infos : List AddrInfo) (ps : List AddrPort)
        → Accepts info p
        → Picks infos ps
        → Picks (info ∷ infos) (p ∷ ps)
    left_out :
        (info : AddrInfo) (infos : List AddrInfo) (ps : List AddrPort)
        → ((p : AddrPort) → ¬ Accepts info p)
        → Picks infos ps
        → Picks (info ∷ infos) ps

  single_addr-some :
      (addrs : List Str) (p : AddrPort)
      → single_addr net port addrs ≡ some p
      → (a : Str) × (addrs ≡ a ∷ []) × (ip_in_multiaddr net a ≡ ok p.ip) × (p.port ≡ port)
  single_addr-some [] p e = cc
  single_addr-some (a ∷ b ∷ addrs) p e = cc
  single_addr-some (a ∷ []) p e = elim (Result-cases (ip_in_multiaddr net a)) [
    | inl (x, failed) ↦ absurd (cc (rw failed at e))
    | inr (ip, found) ↦
        let same : record { ip = ip; port = port } ≡ p = cc (rw found at e) in
        (a, refl, found ∙ ap (λ q. ok q.ip) same, sym (ap (λ q. q.port) same))
  ]

  peer_of-Accepts :
      (info : AddrInfo) (p : AddrPort)
      → peer_of net self port allow_self info ≡ some p
      → Accepts info p
  unfolding peer_of
  peer_of-Accepts info p e = elim (Bool-cases (not allow_self && str_eq info.id self)) [
    | inl same ↦ absurd (cc (rw same at e))
    | inr other ↦
        let (a, only, located, same_port) = single_addr-some info.addrs p (rw other at e) in
        record {
          addr = a;
          only = only;
          located = located;
          same_port = same_port;
          other = λ h same. absurd (cc (rw (h, (str_eq_iff info.id self).1 same) at other));
        }
  ]

  Accepts-peer_of :
      (info : AddrInfo) (p : AddrPort)
      → Accepts info p
      → peer_of net self port allow_self info ≡ some p
  unfolding peer_of
  Accepts-peer_of info p a = elim (Bool-cases (not allow_self && str_eq info.id self)) [
    | inl same ↦
        let (refused, itself) = refused-itself allow_self (str_eq info.id self) same in
        absurd (a.other refused ((str_eq_iff info.id self).0 itself))
    | inr other ↦
        rw (other, a.only, a.located)
          (ap (λ q. some (record { ip = p.ip; port = q })) (sym a.same_port))
  ]

  peers_of-Picks :
      (infos : List AddrInfo) → Picks infos (peers_of (peer_of net self port allow_self) infos)
  peers_of-Picks [] = ended
  peers_of-Picks (info ∷ infos) = elim (Option-cases (peer_of net self port allow_self info)) [
    | inl skipped ↦ rw skipped (
        left_out info infos _ (λ p a. cc (skipped, Accepts-peer_of info p a))
          (peers_of-Picks infos))
    | inr (p, accepted) ↦
        rw accepted (taken info p infos _ (peer_of-Accepts info p accepted) (peers_of-Picks infos))
  ]

-- With a count that is not zero, and a search that yields no more providers than the count: none is
-- dropped, whatever the order of the steps. Once the channel is closed, what was received from it and
-- what it still holds are, in the order of the search, the peers of exactly those providers that have
-- one address, of which an IP can be had, and that are not the router itself unless the caller allows
-- it; each peer has the port of the registry.
pub resolve-Picks :
    {S : Type 0} (table : Table S) (net : Addresses) (self key : Str) (port count : ℕ)
    (allow_self : Bool)
    → (s : S) (first st : Resolving) → IsLimited table
    → count ≢ 0
    → resolve table key count s ≡ ok first
    → Reach (peer_of net self port allow_self) (peer_buffer_size count) first.incoming st
    → st.closed ≡ true
    → Picks net self port allow_self first.incoming (st.received ++ st.buffer)
resolve-Picks table net self key port count allow_self s first st limited some_count e r c =
    subst (Picks net self port allow_self first.incoming)
      (sym (
        resolve-peer_of table net self key port count allow_self s first st limited some_count e r
          c))
      (peers_of-Picks net self port allow_self first.incoming)
