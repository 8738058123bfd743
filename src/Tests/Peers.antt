-- ===== src/Tests/Peers.antt =====
-- Addresses as texts, and the theorems on peers and on leaders there.
use spegel.Base.HostPort.{split_host_port, split_plain, split_checked}
use spegel.Base.{
  subst, ℕ, ◌+◌, ◌≡◌, ◌≤◌, refl, Str, ascii, str_eq, all, has_prefix, cut, cut_last,
  drop as drop_bytes, take, zero, suc, length, true, false, Option, none, some, List, [], ◌∷◌, ◌++◌,
  ok, ok_injective, arith, ◌==◌, if◌then◌else◌,
}
use spegel.Base.Decimal.{value_from, is_digit}
use spegel.Routing.Router.{AddrPort}
use spegel.Routing.P2p.Network.{AddrInfo, Value, found, not_found, Addresses, Table}
use spegel.Routing.P2p.{
  Resolving, start_resolving, resolve, skip, send, close, receive, Reach, start, next, peer_of,
  peer_buffer_size, ip_in_multiaddr, address_factory, parse_uint16, pick_addrs,
}
use spegel.Routing.P2p.Picked.{Picks, resolve-Picks}
use spegel.Routing.P2p.Setup.{
  Listening, Libp2p, P2pRouter, new_p2p_router, listen_multiaddrs, UsesFactory, IsMade,
  new_p2p_router-IsMade,
}

-- Addresses like /ip4/10.0.0.1/tcp/5001.
unfoldable pub value_behind : Str → Str → Value
value_behind prefix m =
    if has_prefix m prefix then found (cut b'/' (drop_bytes (length prefix) m)).0 else not_found

abbrev pub addresses : Addresses
addresses = record {
  p_ip4 = 4;
  p_ip6 = 41;
  value_for_protocol = λ m p. value_behind (if p == 4 then ascii "/ip4/" else ascii "/ip6/") m;
  first_protocol = λ m.
      if has_prefix m (ascii "/ip4/")
      then some 4
      else if has_prefix m (ascii "/ip6/")
      then some 41
      else none;
  is_loopback =
      λ m. if has_prefix m (ascii "/ip4/127.") then true else has_prefix m (ascii "/ip6/::1/");
  parse_addr = λ s. ok s;
}

abbrev pub near : AddrInfo
near = record { id = ascii "near"; addrs = ascii "/ip4/10.0.0.1/tcp/5001" ∷ [] }

abbrev far : AddrInfo
far = record { id = ascii "far"; addrs = ascii "/ip4/10.0.0.2/tcp/5001" ∷ [] }

abbrev twice : AddrInfo
twice = record {
  id = ascii "twice";
  addrs = ascii "/ip4/10.0.0.3/tcp/5001" ∷ ascii "/ip4/10.0.0.4/tcp/5001" ∷ [];
}

abbrev pub near_peer : AddrPort
near_peer = record { ip = ascii "10.0.0.1"; port = 30021 }

abbrev far_peer : AddrPort
far_peer = record { ip = ascii "10.0.0.2"; port = 30021 }

abbrev peer : AddrInfo → Option AddrPort
peer = peer_of addresses (ascii "self") 30021 false

peer-near : peer near ≡ some near_peer
unfolding peer_of ip_in_multiaddr value_behind has_prefix cut str_eq
peer-near = refl

peer-far : peer far ≡ some far_peer
unfolding peer_of ip_in_multiaddr value_behind has_prefix cut str_eq
peer-far = refl

peer-twice : peer twice ≡ none
unfolding peer_of str_eq
peer-twice = refl

abbrev infos : List AddrInfo
infos = near ∷ twice ∷ far ∷ []

abbrev size : ℕ
size = peer_buffer_size 3

abbrev delivered : Resolving
delivered = record {
  incoming = [];
  buffer = far_peer ∷ [];
  received = near_peer ∷ [];
  closed = true;
}

-- The first peer is received before the last is sent.
all_delivered : Reach peer size infos delivered
unfolding peer_buffer_size
all_delivered =
    next
      (next
        (next
          (next (next start (send near (twice ∷ far ∷ []) [] [] near_peer peer-near (omega arith)))
            (receive (twice ∷ far ∷ []) [] [] near_peer false))
          (skip twice (far ∷ []) [] (near_peer ∷ []) peer-twice))
        (send far [] [] (near_peer ∷ []) far_peer peer-far (omega arith)))
      (close (far_peer ∷ []) (near_peer ∷ []))

abbrev table : Table ℕ
table = record {
  sum = λ key. ok key;
  find_providers = λ c count s. take count infos;
  provide = λ c announce s. (none, s + 1);
  size = λ s. s;
  bootstrap = λ s. (none, s);
}

pub length-take : {A : Type 0} (n : ℕ) (xs : List A) → length (take n xs) ≤ n
length-take zero xs = omega arith
length-take (suc n) [] = omega arith
length-take (suc n) (x ∷ xs) = omega (arith, length-take n xs)

resolve-Picks_example : Picks addresses (ascii "self") 30021 false infos (near_peer ∷ far_peer ∷ [])
unfolding resolve
resolve-Picks_example =
    resolve-Picks table addresses (ascii "self") (ascii "key") 30021 3 false 0
      (start_resolving infos) delivered (λ c count s h. length-take count infos) (λ e. cc) refl
      all_delivered refl

-- A host that has a loopback address and another.
abbrev pub listening : Listening
listening = record {
  is_ip4 = λ h. str_eq h (ascii "10.0.0.1");
  is_ip16 = λ h. str_eq h (ascii "10.0.0.1");
  new_multiaddr = λ s. ok s;
  encapsulate = λ ip tcp. ip ++ tcp;
  ip6_unspecified = ascii "/ip6/::";
  ip4_unspecified = ascii "/ip4/0.0.0.0";
}

abbrev listened : List Str
listened = ascii "/ip4/127.0.0.1/tcp/5001" ∷ ascii "/ip4/10.0.0.1/tcp/5001" ∷ []

abbrev pub libp2p : Libp2p
libp2p = record {
  new_host = λ addrs factory.
      ok (record { id = ascii "near"; network_addrs = listened; addrs = factory listened });
  new_dht = λ host peers. none;
}

pub libp2p-UsesFactory : UsesFactory libp2p
libp2p-UsesFactory addrs factory host e =
    subst (λ h. h.addrs ≡ factory h.network_addrs) (ok_injective e) refl

abbrev pub router : P2pRouter
router = record {
  host = record {
    id = ascii "near";
    network_addrs = listened;
    addrs = ascii "/ip4/10.0.0.1/tcp/5001" ∷ [];
  };
  registry_port = 30021;
}

new_router :
    new_p2p_router listening addresses libp2p (ascii "10.0.0.1:5001") (ascii "30021") ≡ ok router
unfolding new_p2p_router listen_multiaddrs split_host_port split_plain split_checked cut_last
    parse_uint16 all value_from str_eq cut address_factory pick_addrs has_prefix is_digit
new_router = refl

new_p2p_router-IsMade_example : IsMade addresses (ascii "30021") router
new_p2p_router-IsMade_example =
    new_p2p_router-IsMade listening addresses libp2p (ascii "10.0.0.1:5001") (ascii "30021") router
      libp2p-UsesFactory new_router
