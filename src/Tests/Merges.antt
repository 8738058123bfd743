-- ===== src/Tests/Merges.antt =====
-- The theorems on merged channels at a run in which the second channel comes first.
use spegel.Base.{ℕ, refl, true, false, none, some, List, [], ◌∷◌}
use spegel.Channel.{Output, output, receive, send, finish, move, close, Reach, start, next}
use spegel.Channel.Merging.{Interleaving, Reach-Interleaving}

abbrev channels : List (List ℕ)
channels = (1 ∷ []) ∷ (2 ∷ []) ∷ []

abbrev holding : ℕ → Output ℕ
holding n = record { pending = []; hand = some n; finished = false }

abbrev empty : Output ℕ
empty = record { pending = []; hand = none; finished = false }

abbrev over : Output ℕ
over = record { pending = []; hand = none; finished = true }

second_received :
    Reach channels (record { outputs = output (1 ∷ []) ∷ holding 2 ∷ []; out = []; closed = false })
second_received =
    next start (move (output (1 ∷ []) ∷ []) [] (output (2 ∷ [])) (holding 2) [] [] (receive 2 []))

second_sent :
    Reach channels (record { outputs = output (1 ∷ []) ∷ empty ∷ []; out = 2 ∷ []; closed = false })
second_sent =
    next second_received (move (output (1 ∷ []) ∷ []) [] (holding 2) empty (2 ∷ []) [] (send 2 []))

first_sent :
    Reach channels (record { outputs = empty ∷ empty ∷ []; out = 2 ∷ 1 ∷ []; closed = false })
first_sent =
    next
      (next second_sent
        (move [] (empty ∷ []) (output (1 ∷ [])) (holding 1) [] (2 ∷ []) (receive 1 [])))
      (move [] (empty ∷ []) (holding 1) empty (1 ∷ []) (2 ∷ []) (send 1 []))

all_closed : Reach channels (record { outputs = over ∷ over ∷ []; out = 2 ∷ 1 ∷ []; closed = true })
all_closed =
    next
      (next (next first_sent (move [] (empty ∷ []) empty over [] (2 ∷ 1 ∷ []) finish))
        (move (over ∷ []) [] empty over [] (2 ∷ 1 ∷ []) finish))
      (close (over ∷ over ∷ []) (2 ∷ 1 ∷ []) (refl, (refl, tt)))

Reach-Interleaving_example : Interleaving channels (2 ∷ 1 ∷ [])
Reach-Interleaving_example =
    Reach-Interleaving channels
      (record { outputs = over ∷ over ∷ []; out = 2 ∷ 1 ∷ []; closed = true }) all_closed refl
