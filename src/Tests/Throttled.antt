-- ===== src/Tests/Throttled.antt =====
-- The theorem on the throttled writer, with a limiter that lets a byte pass in each unit of time.
use spegel.Base.{ℕ, ◌+◌, ◌++◌, ◌≡◌, Str, ascii, length, none, some, [], ◌∷◌, arith}
use spegel.Base.Int.{pos}
use spegel.Throttle.Writer.{Limiters, Write, new_throttler, throttled_writer, throttled_write}
use spegel.Throttle.Writer.Passing.{IsPatient, IsWriter, write_all, paced, write_all-slowed}

abbrev limiters : Limiters ℕ
limiters = record {
  new_limiter = λ rate burst. 0;
  allow = λ n used. used;
  reserve = λ n used. (some n, used + n);
}

limiters-IsPatient : IsPatient limiters
limiters-IsPatient n used h e = cc

abbrev buffer : Write Str
buffer p w = ((length p, none), w ++ p)

buffer-IsWriter : IsWriter buffer
buffer-IsWriter p w = omega arith

write_all-slowed_example :
    write_all
      (throttled_write limiters buffer)
      (ascii "ab" ∷ ascii "c" ∷ [])
      (throttled_writer (new_throttler limiters (pos 1)) [])
    ≡ ((2 ∷ 1 ∷ [], none), record { limiter = 3; writer = ascii "abc"; slept = 3 })
unfolding write_all paced
write_all-slowed_example =
    write_all-slowed limiters buffer (ascii "ab" ∷ ascii "c" ∷ [])
      (throttled_writer (new_throttler limiters (pos 1)) []) limiters-IsPatient buffer-IsWriter
      (omega arith, (omega arith, tt))
