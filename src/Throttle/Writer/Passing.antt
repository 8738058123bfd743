-- ===== src/Throttle/Writer/Passing.antt =====
-- What a throttled writer of pkg/throttle/throttle.go passes on, and how long it waits.
use spegel.Base.{
  ℕ, ◌+◌, ◌≡◌, ◌≢◌, ◌≤◌, refl, ap, Str, length, All, Option, none, some, List, [], ◌∷◌, Error,
  arith,
}
use spegel.Throttle.Writer.{
  Limiters, Write, burst_limit, Throttled, throttled_write, written, reserved,
}

-- Texts that are written one after the other, up to the first error: the counts that the writes
-- return, and the error.
abbrev pub counted : {S : Type 0} → ℕ → (List ℕ × Option Error) × S → (List ℕ × Option Error) × S
counted n r = ((n ∷ r.0.0, r.0.1), r.1)

abbrev pub write_next :
    {S : Type 0}
    → (S → (List ℕ × Option Error) × S)
    → (ℕ × Option Error) × S
    → (List ℕ × Option Error) × S
write_next more ((n, some e), s) = (([], some e), s)
write_next more ((n, none), s) = counted n (more s)

unfoldable pub write_all : {S : Type 0} → Write S → List Str → S → (List ℕ × Option Error) × S
write_all write [] s = (([], none), s)
write_all write (p ∷ ps) s = write_next (write_all write ps) (write p s)

-- A reservation of no more than the burst is OK.
abbrev pub IsPatient : {L : Type 0} → Limiters L → Type 0
IsPatient {L} limiters = (n : ℕ) (l : L) → n ≤ burst_limit → (limiters.reserve n l).0 ≢ none

-- A writer writes no more than it is given.
abbrev pub IsWriter : {W : Type 0} → Write W → Type 0
IsWriter {W} write = (p : Str) (w : W) → (write p w).0.0 ≤ length p

-- A limiter, and the time that is slept with it, after the counts are reserved one by one.
abbrev pub wait : {L : Type 0} → Option ℕ × L → ℕ → L × ℕ
wait (none, l) slept = (l, slept)
wait (some delay, l) slept = (l, slept + delay)

unfoldable pub paced : {L : Type 0} → Limiters L → List ℕ → L × ℕ → L × ℕ
paced limiters [] at = at
paced limiters (n ∷ ns) (l, slept) = paced limiters ns (wait (limiters.reserve n l) slept)

module _ {L W : Type 0} (limiters : Limiters L) (inner : Write W) where
  -- What is written without the throttling, with each of its counts reserved and waited for.
  abbrev pub slowed : L × ℕ → (List ℕ × Option Error) × W → (List ℕ × Option Error) × Throttled L W
  slowed at r =
      let end = paced limiters r.0.0 at in
      (r.0, record { limiter = end.0; writer = r.1; slept = end.1 })

  abbrev IsSlowed : List Str → Throttled L W → Type 0
  IsSlowed ps t =
      write_all (throttled_write limiters inner) ps t
      ≡ slowed (t.limiter, t.slept) (write_all inner ps t.writer)

  reserved-slowed :
      (ps : List Str) (n : ℕ) (res : Option ℕ × L) (t : Throttled L W)
      → res.0 ≢ none
      → ((u : Throttled L W) → IsSlowed ps u)
      → write_next (write_all (throttled_write limiters inner) ps) (reserved limiters inner n res t)
        ≡ counted n (slowed (wait res t.slept) (write_all inner ps t.writer))
  reserved-slowed ps n (none, l) t granted later = absurd (granted refl)
  reserved-slowed ps n (some delay, l) t granted later =
      ap (counted n) (later (record t { limiter = l; slept = t.slept + delay }))

  written-slowed :
      (ps : List Str) (r : (ℕ × Option Error) × W) (t : Throttled L W)
      → IsPatient limiters
      → r.0.0 ≤ burst_limit
      → ((u : Throttled L W) → IsSlowed ps u)
      → write_next (write_all (throttled_write limiters inner) ps) (written limiters inner r t)
        ≡ slowed (t.limiter, t.slept) (write_next (write_all inner ps) r)
  unfolding paced
  written-slowed ps ((n, some e), w) t patient few later = refl
  written-slowed ps ((n, none), w) t patient few later =
      reserved-slowed ps n (limiters.reserve n t.limiter) (record t { writer = w })
        (patient n t.limiter few) later

  -- With a limiter whose reservations of no more than the burst are OK, and a writer that writes
  -- no more than it is given: texts that are no longer than the burst are written through the
  -- throttled writer as they are without it, with the same counts up to the same error; and the
  -- limiter and the time slept are what they are after each of these counts is reserved in turn
  -- and its delay is slept.
  pub write_all-slowed :
      (ps : List Str) (t : Throttled L W)
      → IsPatient limiters
      → IsWriter inner
      → All (λ p. length p ≤ burst_limit) ps
      → write_all (throttled_write limiters inner) ps t
        ≡ slowed (t.limiter, t.slept) (write_all inner ps t.writer)
  unfolding write_all throttled_write paced
  write_all-slowed [] t patient writes h = refl
  write_all-slowed (p ∷ ps) t patient writes (short, h) =
      written-slowed ps (inner p t.writer) t patient (omega (arith, writes p t.writer, short))
        (λ u. write_all-slowed ps u patient writes h)
