-- ===== src/Routing/Bootstrap.antt =====
-- How a router finds its first peer: pkg/routing/bootstrap.go.
--
-- `resourcelock.UnknownLeader` and the reading of an address are parameters. Leader election may
-- call `OnNewLeader` at any time, and any goroutine may call `Get`.
pub mod Leaders
pub mod Overlaps
pub mod Serving
use spegel.Base.{
  ◌≡◌, ◌≢◌, Str, Bool, true, false, Option, none, some, List, [], ◌∷◌, ◌++◌, Result, ok, err, ◌>>=◌,
}
use spegel.Mux.Response.{Response, write_header, write}
use spegel.Base.{ℕ}
use spegel.Routing.P2p.Network.{AddrInfo}

-- `multiaddr.NewMultiaddr` and `peer.AddrInfoFromP2pAddr`.
pub record Parsing : Type 0 where
  pub new_multiaddr : Str → Result Str
  pub addr_info : Str → Result AddrInfo

-- The end of both `Get` methods.
unfoldable pub addr_info_of : Parsing → Str → Result AddrInfo
addr_info_of parsing text = do addr ← parsing.new_multiaddr text; parsing.addr_info addr

-- The handler of `/id`, where the connection takes `n` bytes.
unfoldable pub serve_id : Str → ℕ → Response → Response
serve_id id n r = write id n (write_header 200 r)

-- `Get` of the bootstrapper over HTTP, by the body of the reply.
unfoldable pub http_get : Parsing → Result Str → Result AddrInfo
unfolding addr_info_of
http_get parsing reply = do b ← reply; addr_info_of parsing b

-- A call of `OnNewLeader`: at the test whether the channel is closed, about to close it, or waiting
-- for the lock.
pub data Callback : Type 0 where
  testing closing locking : Str → Callback

-- A call of `Get`: waiting for the channel, behind it, or with the identity that it read.
pub data Getter : Type 0 where
  waiting passed : Getter
  read : Str → Getter

-- `KubernetesBootstrapper`: whether `initCh` is closed, and `id`. `panicked` says that the channel
-- was closed twice, and `reported` are the leaders that were reported.
pub record Leader : Type 0 where
  pub init_closed : Bool
  pub id : Str
  pub callbacks : List Callback
  pub getters : List Getter
  pub panicked : Bool
  pub reported : List Str

-- `NewKubernetesBootstrapper`
abbrev pub new_bootstrapper : Leader
new_bootstrapper = record {
  init_closed = false;
  id = [];
  callbacks = [];
  getters = [];
  panicked = false;
  reported = [];
}

-- What a call of `OnNewLeader` does next, and what becomes of the call.
pub data Act (b : Leader) : Callback → Leader → Option Callback → Type 0 where
  is_closed : (i : Str) → b.init_closed ≡ true → Act b (testing i) b (some (locking i))
  not_closed : (i : Str) → b.init_closed ≡ false → Act b (testing i) b (some (closing i))
  close :
      (i : Str)
      → b.init_closed ≡ false
      → Act b (closing i) (record b { init_closed = true }) (some (locking i))
  close_closed :
      (i : Str) → b.init_closed ≡ true → Act b (closing i) (record b { panicked = true }) none
  set_id : (i : Str) → Act b (locking i) (record b { id = i }) none

abbrev pub still : Option Callback → List Callback
still none = []
still (some c) = c ∷ []

-- What a call of `Get` does next.
pub data Look (b : Leader) : Getter → Getter → Type 0 where
  pass : b.init_closed ≡ true → Look b waiting passed
  look : Look b passed (read b.id)

pub data Step (unknown : Str) : Leader → Leader → Type 0 where
  report :
      (b : Leader) (i : Str)
      → i ≢ unknown
      → Step unknown b (record b { callbacks = testing i ∷ b.callbacks; reported = i ∷ b.reported })
  report_unknown : (b : Leader) → Step unknown b b
  get : (b : Leader) → Step unknown b (record b { getters = waiting ∷ b.getters })
  act :
      (b t : Leader) (before after : List Callback) (c : Callback) (rest : Option Callback)
      → b.callbacks ≡ before ++ c ∷ after
      → Act b c t rest
      → Step unknown b (record t { callbacks = before ++ (still rest ++ after) })
  see :
      (b : Leader) (before after : List Getter) (g h : Getter)
      → b.getters ≡ before ++ g ∷ after
      → Look b g h
      → Step unknown b (record b { getters = before ++ h ∷ after })

pub data Reach (unknown : Str) : Leader → Type 0 where
  start : Reach unknown new_bootstrapper
  next : {b c : Leader} → Reach unknown b → Step unknown b c → Reach unknown c
