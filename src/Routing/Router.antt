-- ===== src/Routing/Router.antt =====
-- The interface `Router` of pkg/routing/routing.go, over the router's state.
use spegel.Base.{ℕ, Str, Bool, Option, List, Error, Result}

-- `netip.AddrPort`, with the address as its text.
pub record AddrPort : Type 0 where
  pub ip : Str
  pub port : ℕ

-- A channel of peers is the sequence of addresses that is received before it is closed.
pub record Router (S : Type 0) : Type 0 where
  pub ready : S → Result Bool
  pub resolve : S → Str → Bool → ℕ → Result (List AddrPort)
  pub advertise : List Str → S → Option Error × S
