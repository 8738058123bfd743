-- ===== src/Routing/Memory.antt =====
-- The router in memory: pkg/routing/memory.go.
pub mod Lookups
use spegel.Base.{
  ℕ, Str, Bool, true, false, Option, none, some, List, [], ◌∷◌, ◌++◌, Result, ok, Error,
}
use spegel.Base.Maps.{Map, lookup, insert}
use spegel.Routing.Router.{AddrPort, Router}

pub record MemoryRouter : Type 0 where
  pub resolver : Map (List AddrPort)
  pub self : AddrPort

-- `len(m.resolver) > 0`
unfoldable pub ready : MemoryRouter → Result Bool
ready m = elim m.resolver [ [] ↦ ok false | _ ∷ _ ↦ ok true ]

-- `Resolve`: all peers of the key are sent, whatever `allowSelf` and `count` are, and the channel
-- is closed; of an unknown key it is closed at once.
unfoldable pub resolve : MemoryRouter → Str → Bool → ℕ → Result (List AddrPort)
resolve m key allow_self count = elim (lookup key m.resolver) [
  | none ↦ ok []
  | some peers ↦ ok peers
]

unfoldable pub add : Str → AddrPort → MemoryRouter → MemoryRouter
add key ap m = elim (lookup key m.resolver) [
  | some v ↦ record m { resolver = insert key (v ++ ap ∷ []) m.resolver }
  | none ↦ record m { resolver = insert key (ap ∷ []) m.resolver }
]

-- The loop of `Advertise`.
unfoldable pub add_all : List Str → MemoryRouter → MemoryRouter
add_all [] m = m
add_all (key ∷ keys) m = add_all keys (add key m.self m)

unfoldable pub advertise : List Str → MemoryRouter → Option Error × MemoryRouter
advertise keys m = (none, add_all keys m)

-- `Lookup`
unfoldable pub lookup_peers : MemoryRouter → Str → Option (List AddrPort)
lookup_peers m key = lookup key m.resolver

abbrev pub memory_router : Router MemoryRouter
memory_router = record { ready = ready; resolve = resolve; advertise = advertise }
