-- ===== src/Channel.antt =====
-- The merge of channels: internal/channel/channel.go.
--
-- A channel that is merged is the values that it yields until it is closed. The steps of the
-- goroutines may come in any order.
pub mod Merging
pub mod Ending
use spegel.Base.{◌≡◌, Bool, true, false, Option, none, some, List, [], ◌∷◌, ◌++◌, map}

-- A goroutine `output(c)`: what its channel is still to yield, the value that it received and has
-- to send, and whether it called `wg.Done()`.
pub record Output {ℓ} (A : Type ℓ) : Type ℓ where
  pub pending : List A
  pub hand : Option A
  pub finished : Bool

-- `go output(c)`
abbrev pub output {ℓ} : {A : Type ℓ} → List A → Output A
output c = record { pending = c; hand = none; finished = false }

-- A step of a goroutine, with what it sends to `out`.
pub data Move {ℓ} {A : Type ℓ} : Output A → List A → Output A → Type ℓ where
  receive :
      (n : A) (c : List A)
      → Move
          (record { pending = n ∷ c; hand = none; finished = false })
          []
          (record { pending = c; hand = some n; finished = false })
  send :
      (n : A) (c : List A)
      → Move
          (record { pending = c; hand = some n; finished = false })
          (n ∷ [])
          (record { pending = c; hand = none; finished = false })
  finish :
      Move
        (record { pending = []; hand = none; finished = false })
        []
        (record { pending = []; hand = none; finished = true })

-- What was received from `out`, and whether it is closed.
pub record Merge {ℓ} (A : Type ℓ) : Type ℓ where
  pub outputs : List (Output A)
  pub out : List A
  pub closed : Bool

-- `wg.Wait()` returns.
abbrev pub AllFinished {ℓ} : {A : Type ℓ} → List (Output A) → Type 0
AllFinished [] = Unit
AllFinished (o ∷ os) = (o.finished ≡ true) × AllFinished os

-- `Merge(cs...)`
abbrev pub merge {ℓ} : {A : Type ℓ} → List (List A) → Merge A
merge cs = record { outputs = map output cs; out = []; closed = false }

pub data Step {ℓ} {A : Type ℓ} : Merge A → Merge A → Type ℓ where
  move :
      (before after : List (Output A)) (o p : Output A) (sent out : List A)
      → Move o sent p
      → Step
          (record { outputs = before ++ o ∷ after; out = out; closed = false })
          (record { outputs = before ++ p ∷ after; out = out ++ sent; closed = false })
  close :
      (os : List (Output A)) (out : List A)
      → AllFinished os
      → Step
          (record { outputs = os; out = out; closed = false })
          (record { outputs = os; out = out; closed = true })

-- The states of a run of `Merge(cs...)`.
pub data Reach {ℓ} {A : Type ℓ} (cs : List (List A)) : Merge A → Type ℓ where
  start : Reach cs (merge cs)
  next : {s t : Merge A} → Reach cs s → Step s t → Reach cs t
