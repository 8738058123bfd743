-- ===== src/Routing/P2p/Network.antt =====
-- What pkg/routing/p2p.go uses of libp2p, of its distributed hash table and of its addresses, which
-- are parameters.
use spegel.Base.{ℕ, ◌≢◌, ◌≤◌, length, Str, Bool, Option, List, Result, Error}

-- `peer.AddrInfo`, with the addresses as their text.
pub record AddrInfo : Type 0 where
  pub id : Str
  pub addrs : List Str

-- What `ValueForProtocol` returns.
pub data Value : Type 0 where
  found : Str → Value
  not_found : Value
  invalid : Error → Value

-- Multiaddresses, with the codes of their protocols, and `netip.ParseAddr`, which returns an address
-- by its text.
pub record Addresses : Type 0 where
  pub p_ip4 : ℕ
  pub p_ip6 : ℕ
  pub value_for_protocol : Str → ℕ → Value
  pub first_protocol : Str → Option ℕ
  pub is_loopback : Str → Bool
  pub parse_addr : Str → Result Str

-- The hash table over its state: `Sum` of the prefix in `createCid`, the operations of the routing
-- discovery, the size of the routing table, and `Bootstrap`. To provide says by its Boolean whether
-- the content is announced to other nodes too, or is only kept in the accounting of this node.
pub record Table (S : Type 0) : Type 0 where
  pub sum : Str → Result Str
  pub find_providers : Str → ℕ → S → List AddrInfo
  pub provide : Str → Bool → S → Option Error × S
  pub size : S → ℕ
  pub bootstrap : S → Option Error × S

-- A search for a number of providers that is not zero yields no more than it.
abbrev pub IsLimited : {S : Type 0} → Table S → Type 0
IsLimited {S} table =
    (c : Str) (count : ℕ) (s : S) → count ≢ 0 → length (table.find_providers c count s) ≤ count
