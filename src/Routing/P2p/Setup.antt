-- ===== src/Routing/P2p/Setup.antt =====
-- How a router over libp2p is set up: `NewP2PRouter`, `listenMultiaddrs` and `Run` of
-- pkg/routing/p2p.go.
--
-- The libraries are parameters: what the addresses are made of, the host and the hash table.
use spegel.Base.{
  String, ℕ, ◌≡◌, ◌<◌, ◌^◌, Str, ascii, Bool, Option, none, some, List, [], ◌∷◌, ◌++◌, map, Result,
  ok, err, Error, errorf, wrapf, ◌>>=◌, bind_ok, ok_injective, refl, sym, ap, subst, ◌∙◌,
  if◌then◌else◌,
}
use spegel.Base.HostPort.{split_host_port}
use spegel.Routing.P2p.Network.{AddrInfo, Addresses, Table}
use spegel.Routing.P2p.{address_factory, parse_uint16, bootstrap_peers}
use spegel.Routing.P2p.Selection.{Announces, address_factory-Announces, parse_uint16-bounded}

-- `net.ParseIP` with the two tests on its result, and the addresses of libp2p.
pub record Listening : Type 0 where
  pub is_ip4 : Str → Bool
  pub is_ip16 : Str → Bool
  pub new_multiaddr : Str → Result Str
  pub encapsulate : Str → Str → Str
  pub ip6_unspecified : Str
  pub ip4_unspecified : Str

-- `host.Host`: its identity, the addresses that it has on the network, and those that it announces,
-- which `Addrs` returns.
pub record Host : Type 0 where
  pub id : Str
  pub network_addrs : List Str
  pub addrs : List Str

-- `libp2p.New` by the addresses to listen on and the factory of addresses, and `dht.New` by the host
-- and which peers to begin with.
pub record Libp2p : Type 0 where
  pub new_host : List Str → (List Str → List Str) → Result Host
  pub new_dht : Host → (Result AddrInfo → List AddrInfo) → Option Error

-- `P2PRouter`, less what the libraries made for it.
pub record P2pRouter : Type 0 where
  pub host : Host
  pub registry_port : ℕ

module _ (l : Listening) where
  abbrev pub host_multiaddr : Str → Str → Result (List Str)
  host_multiaddr protocol h = elim (l.new_multiaddr (protocol ++ h)) [
    | err e ↦ err (wrapf "could not create host multi address: %w" [] e)
    | ok m ↦ ok (m ∷ [])
  ]

  -- `ipComps`
  unfoldable pub ip_components : Str → Result (List Str)
  ip_components h =
      if l.is_ip4 h
      then host_multiaddr (ascii "/ip4/") h
      else if l.is_ip16 h
      then host_multiaddr (ascii "/ip6/") h
      else ok (l.ip6_unspecified ∷ l.ip4_unspecified ∷ [])

  -- `listenMultiaddrs`
  unfoldable pub listen_multiaddrs : Str → Result (List Str)
  unfolding ip_components
  listen_multiaddrs addr = do
    parts ← split_host_port addr
    tcp ← l.new_multiaddr (ascii "/tcp/" ++ parts.1)
    ips ← ip_components parts.0
    ok (map (λ ip. l.encapsulate ip tcp) ips)

-- `len(host.Addrs()) != 1`
abbrev pub single_host_addr : Host → List Str → Result Host
single_host_addr host (addr ∷ []) = ok host
single_host_addr host [] = err (errorf "expected single host address but got %d %s" [])
single_host_addr host (a ∷ b ∷ addrs) =
    err (errorf "expected single host address but got %d %s" (a ∷ b ∷ addrs))

abbrev pub wrapped {ℓ} : {A : Type ℓ} → String → Result A → Result A
wrapped format (ok a) = ok a
wrapped format (err e) = err (wrapf format [] e)

abbrev pub unless_failed {ℓ} : {A : Type ℓ} → String → Option Error → A → Result A
unless_failed format none a = ok a
unless_failed format (some e) a = err (wrapf format [] e)

-- `NewP2PRouter`
unfoldable pub new_p2p_router : Listening → Addresses → Libp2p → Str → Str → Result P2pRouter
unfolding listen_multiaddrs
new_p2p_router l net lib addr registry_port = do
  port ← parse_uint16 registry_port
  addrs ← listen_multiaddrs l addr
  host ← wrapped "could not create host: %w" (lib.new_host addrs (address_factory net))
  single ← single_host_addr host host.addrs
  unless_failed "could not create distributed hash table: %w"
      (lib.new_dht single (bootstrap_peers single.id))
      (record { host = single; registry_port = port })

-- `self`, in `Run`; `none` stands for an index out of range.
unfoldable pub self_of : Host → Option Str
self_of host = elim host.addrs [
  | [] ↦ none
  | addr ∷ addrs ↦ some (addr ++ (ascii "/p2p/" ++ host.id))
]

abbrev pub unless_unreachable :
    {S : Type 0} → Option Error × S → (S → Option Error × S) → Option Error × S
unless_unreachable (some e, s) run =
    (some (wrapf "could not boostrap distributed hash table: %w" [] e), s)
unless_unreachable (none, s) run = run s

-- `Run`, where `run` is that of the bootstrapper.
unfoldable pub run_router :
    {S : Type 0} → Table S → (Str → S → Option Error × S) → Host → S → Option (Option Error × S)
unfolding self_of
run_router table run host s = elim (self_of host) [
  | none ↦ none
  | some self ↦ some (unless_unreachable (table.bootstrap s) (run self))
]

-- What a host announces is what the factory returns of the addresses that it has.
abbrev pub UsesFactory : Libp2p → Type 0
UsesFactory lib =
    (listen : List Str) (factory : List Str → List Str) (host : Host)
    → lib.new_host listen factory ≡ ok host
    → host.addrs ≡ factory host.network_addrs

single_host_addr-ok :
    (host h : Host) (addrs : List Str)
    → single_host_addr host addrs ≡ ok h
    → (h ≡ host) × (a : Str) × (addrs ≡ a ∷ [])
single_host_addr-ok host h (a ∷ []) e = (sym (ok_injective e), a, refl)
single_host_addr-ok host h [] e = cc
single_host_addr-ok host h (a ∷ b ∷ addrs) e = cc

wrapped-ok {ℓ} :
    {A : Type ℓ} (format : String) (r : Result A) (a : A) → wrapped format r ≡ ok a → r ≡ ok a
wrapped-ok format (ok b) a e = e
wrapped-ok format (err x) a e = cc

unless_failed-ok {ℓ} :
    {A : Type ℓ} (format : String) (o : Option Error) (a b : A)
    → unless_failed format o a ≡ ok b
    → b ≡ a
unless_failed-ok format none a b e = sym (ok_injective e)
unless_failed-ok format (some x) a b e = cc

-- What a new router is: the host of the library with one address, and the port.
pub record IsMade (net : Addresses) (registry_port : Str) (r : P2pRouter) : Type 0 where
  pub addr : Str
  pub single : r.host.addrs ≡ addr ∷ []
  pub announced : Announces net r.host.network_addrs (addr ∷ [])
  pub port : parse_uint16 registry_port ≡ ok r.registry_port
  pub bounded : r.registry_port < 2 ^ 16

-- If the host announces what the factory of addresses returns, a new router has exactly one address,
-- which is the last of IP version 6 of the host's addresses that are no loopback, or the last of the
-- others if there is none of these; and its port is the given one, below 2^16.
pub new_p2p_router-IsMade :
    (l : Listening) (net : Addresses) (lib : Libp2p) (addr registry_port : Str) (r : P2pRouter)
    → UsesFactory lib
    → new_p2p_router l net lib addr registry_port ≡ ok r
    → IsMade net registry_port r
unfolding new_p2p_router
new_p2p_router-IsMade l net lib addr registry_port r uses e =
    let (port, ep, e1) = bind_ok (parse_uint16 registry_port) _ r e in
    let (listen, el, e2) = bind_ok (listen_multiaddrs l addr) _ r e1 in
    let (host, eh, e3) = bind_ok (wrapped _ (lib.new_host listen (address_factory net))) _ r e2 in
    let (single, es, e4) = bind_ok (single_host_addr host host.addrs) _ r e3 in
    let (same, a, ea) = single_host_addr-ok host single host.addrs es in
    let made = unless_failed-ok _ (lib.new_dht single (bootstrap_peers single.id)) _ r e4 in
    let ef = uses listen (address_factory net) host (wrapped-ok _ _ host eh) in
    let announced =
      subst (Announces net host.network_addrs) (sym ef ∙ ea)
        (address_factory-Announces net host.network_addrs) in
    let same_host : host ≡ r.host = sym same ∙ sym (ap (λ q. q.host) made) in
    record {
      addr = a;
      single = cc;
      announced = subst (λ h. Announces net h.network_addrs (a ∷ [])) same_host announced;
      port = cc;
      bounded = parse_uint16-bounded registry_port r.registry_port cc;
    }
