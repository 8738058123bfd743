-- ===== src/Routing/Contract.antt =====
-- What the tracking of pkg/state/state.go relies on of a router of pkg/routing, whichever it is.
use spegel.Base.{◌≡◌, Str, All, Option, none, List, Error}

-- What is advertised with no error is held then, and advertising, with an error or with none, takes
-- away nothing that is held. Whether a key is held is a proposition.
pub record Keeps {S : Type 0} (advertise : List Str → S → Option Error × S)
    (Holds : S → Str → Type 0) : Type 0 where
  pub done :
      (keys : List Str) (s : S)
      → (advertise keys s).0 ≡ none
      → All (Holds (advertise keys s).1) keys
  pub is_prop : (s : S) (key : Str) → IsProp (Holds s key)
  pub kept : (keys : List Str) (s : S) (key : Str) → Holds s key → Holds (advertise keys s).1 key
