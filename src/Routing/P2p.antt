-- ===== src/Routing/P2p.antt =====
-- The router over libp2p: pkg/routing/p2p.go.
pub mod Network
pub mod Delivery
pub mod Picked
pub mod Advertising
pub mod Selection
pub mod Setup
use spegel.Base.{
  ℕ, zero, suc, ◌+◌, ◌^◌, ◌≡◌, ◌≤◌, ◌<◌, Str, ascii, str_eq, is_empty, all, length, Bool, true,
  false, not, ◌&&◌, ◌||◌, Option, none, some, List, [], ◌∷◌, ◌++◌, Result, ok, err, Error, error,
  wrapf, ◌>>=◌, ◌==◌, ltb, if◌then◌else◌,
}
use spegel.Base.Decimal.{value_from, is_digit}
use spegel.Routing.Router.{AddrPort}
use spegel.Routing.P2p.Network.{AddrInfo, Value, found, not_found, invalid, Addresses, Table}

-- `strconv.ParseUint(s, 10, 16)`
unfoldable pub parse_uint16 : Str → Result ℕ
parse_uint16 s =
    if is_empty s || not (all is_digit s)
    then err (error "invalid syntax")
    else if ltb (value_from 0 s) (2 ^ 16)
    then ok (value_from 0 s)
    else err (error "value out of range")

module _ (net : Addresses) where
  -- `isIp6`
  unfoldable pub is_ip6 : Str → Bool
  is_ip6 m = elim (net.first_protocol m) [ none ↦ false | some code ↦ code == net.p_ip6 ]

  -- The loop of the factory of addresses, by `ip4Ma` and `ip6Ma`.
  unfoldable pub pick_addrs : Option Str → Option Str → List Str → Option Str × Option Str
  unfolding is_ip6
  pick_addrs ip4 ip6 [] = (ip4, ip6)
  pick_addrs ip4 ip6 (addr ∷ addrs) =
      pick_addrs (if net.is_loopback addr || is_ip6 addr then ip4 else some addr)
        (if not (net.is_loopback addr) && is_ip6 addr then some addr else ip6) addrs

  abbrev pub prefer_ip6 : Option Str × Option Str → List Str
  prefer_ip6 (ip4, some addr) = addr ∷ []
  prefer_ip6 (some addr, none) = addr ∷ []
  prefer_ip6 (none, none) = []

  -- `libp2p.AddrsFactory`, in `NewP2PRouter`
  unfoldable pub address_factory : List Str → List Str
  unfolding pick_addrs
  address_factory addrs = prefer_ip6 (pick_addrs none none addrs)

  -- The loop of `ipInMultiaddr`.
  unfoldable pub ip_from : List ℕ → Str → Result Str
  ip_from [] m = err (error "IP not found in address")
  ip_from (p ∷ ps) m =
      let rest = ip_from ps m in
      elim (net.value_for_protocol m p) [
        | not_found ↦ rest
        | invalid e ↦ err e
        | found v ↦ net.parse_addr v
      ]

  unfoldable pub ip_in_multiaddr : Str → Result Str
  unfolding ip_from
  ip_in_multiaddr m = ip_from (net.p_ip6 ∷ net.p_ip4 ∷ []) m

  -- `netip.AddrPortFrom`, for an address that has an IP.
  abbrev pub with_port : ℕ → Result Str → Option AddrPort
  with_port port (err e) = none
  with_port port (ok ip) = some (record { ip = ip; port = port })

  -- The only address of a peer.
  abbrev pub single_addr : ℕ → List Str → Option AddrPort
  single_addr port [] = none
  single_addr port (a ∷ []) = with_port port (ip_in_multiaddr a)
  single_addr port (a ∷ b ∷ addrs) = none

  -- The round of the goroutine of `Resolve`, up to the sending: `none` stands for `continue`.
  unfoldable pub peer_of : Str → ℕ → Bool → AddrInfo → Option AddrPort
  unfolding ip_in_multiaddr
  peer_of self port allow_self info =
      if not allow_self && str_eq info.id self then none else single_addr port info.addrs

-- `peerBufferSize`
unfoldable pub peer_buffer_size : ℕ → ℕ
peer_buffer_size count = if count == 0 then 20 else count

-- The goroutine of `Resolve` and the channel of peers: what the search still yields before its
-- channel is closed, what is in the buffer, what was received from it, and whether it is closed.
pub record Resolving : Type 0 where
  pub incoming : List AddrInfo
  pub buffer : List AddrPort
  pub received : List AddrPort
  pub closed : Bool

abbrev pub start_resolving : List AddrInfo → Resolving
start_resolving infos = record { incoming = infos; buffer = []; received = []; closed = false }

-- A step, where `peer` is `peer_of` and `size` the size of the buffer.
pub data Step (peer : AddrInfo → Option AddrPort) (size : ℕ) : Resolving → Resolving → Type 0 where
  skip :
      (info : AddrInfo) (infos : List AddrInfo) (buffer received : List AddrPort)
      → peer info ≡ none
      → Step peer size
          (record { incoming = info ∷ infos; buffer = buffer; received = received; closed = false })
          (record { incoming = infos; buffer = buffer; received = received; closed = false })
  send :
      (info : AddrInfo) (infos : List AddrInfo) (buffer received : List AddrPort) (p : AddrPort)
      → peer info ≡ some p
      → length buffer < size
      → Step peer size
          (record { incoming = info ∷ infos; buffer = buffer; received = received; closed = false })
          (record {
            incoming = infos;
            buffer = buffer ++ p ∷ [];
            received = received;
            closed = false;
          })
  drop :
      (info : AddrInfo) (infos : List AddrInfo) (buffer received : List AddrPort) (p : AddrPort)
      → peer info ≡ some p
      → size ≤ length buffer
      → Step peer size
          (record { incoming = info ∷ infos; buffer = buffer; received = received; closed = false })
          (record { incoming = infos; buffer = buffer; received = received; closed = false })
  close :
      (buffer received : List AddrPort)
      → Step peer size
          (record { incoming = []; buffer = buffer; received = received; closed = false })
          (record { incoming = []; buffer = buffer; received = received; closed = true })
  receive :
      (infos : List AddrInfo) (buffer received : List AddrPort) (p : AddrPort) (closed : Bool)
      → Step peer size
          (record { incoming = infos; buffer = p ∷ buffer; received = received; closed = closed })
          (record {
            incoming = infos;
            buffer = buffer;
            received = received ++ p ∷ [];
            closed = closed;
          })

-- The states of a resolution of these peers.
pub data Reach (peer : AddrInfo → Option AddrPort) (size : ℕ) (infos : List AddrInfo)
    : Resolving → Type 0 where
  start : Reach peer size infos (start_resolving infos)
  next : {s t : Resolving} → Reach peer size infos s → Step peer size s t → Reach peer size infos t

module _ {S : Type 0} (table : Table S) where
  -- `Resolve`, up to the goroutine that it starts.
  unfoldable pub resolve : Str → ℕ → S → Result Resolving
  resolve key count s = do c ← table.sum key; ok (start_resolving (table.find_providers c count s))

  abbrev pub provided : Option Error × S → (S → Option Error × S) → Option Error × S
  provided (some e, s) later = (some e, s)
  provided (none, s) later = later s

  -- `Advertise`; `sum` is `createCid`.
  unfoldable pub advertise : List Str → S → Option Error × S
  advertise [] s = (none, s)
  advertise (key ∷ keys) s = elim (table.sum key) [
    | err e ↦ (some e, s)
    | ok c ↦ provided (table.provide c false s) (advertise keys)
  ]

  abbrev pub not_ready : Option Error × S → Result Bool × S
  not_ready (some e, s) = (err e, s)
  not_ready (none, s) = (ok false, s)

  -- `Ready`, by what the bootstrapper returns.
  unfoldable pub ready : Str → Result AddrInfo → S → Result Bool × S
  ready self (err e) s = (err e, s)
  ready self (ok info) s =
      if str_eq info.id self
      then (ok true, s)
      else if table.size s == 0
      then not_ready (table.bootstrap s)
      else (ok true, s)

-- `dht.BootstrapPeersFunc`, in `NewP2PRouter`
unfoldable pub bootstrap_peers : Str → Result AddrInfo → List AddrInfo
bootstrap_peers self (err e) = []
bootstrap_peers self (ok info) = if str_eq info.id self then [] else info ∷ []
