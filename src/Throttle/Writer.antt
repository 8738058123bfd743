-- ===== src/Throttle/Writer.antt =====
-- The writer that is slowed down: pkg/throttle/throttle.go.
--
-- The limiter of golang.org/x/time/rate is a parameter.
pub mod Passing
use spegel.Base.{ℕ, ◌+◌, ◌*◌, Str, Option, none, some, List, [], ◌∷◌, Error, errorf}
use spegel.Base.Int.{ℤ}

-- A limiter over its state: a new one by its rate and its burst, `AllowN`, and `ReserveN` by the
-- delay, which there is if the reservation is OK.
pub record Limiters (L : Type 0) : Type 0 where
  pub new_limiter : ℤ → ℕ → L
  pub allow : ℕ → L → L
  pub reserve : ℕ → L → Option ℕ × L

-- `io.Writer` over its state: the bytes that were written, and the error.
abbrev pub Write : Type 0 → Type 0
Write W = Str → W → (ℕ × Option Error) × W

abbrev pub burst_limit : ℕ
burst_limit = 1024 * 1024 * 1024

-- `NewThrottler`
abbrev pub new_throttler : {L : Type 0} → Limiters L → ℤ → L
new_throttler limiters br = limiters.allow burst_limit (limiters.new_limiter br burst_limit)

-- `writer`, with the time that it slept.
pub record Throttled (L W : Type 0) : Type 0 where
  pub limiter : L
  pub writer : W
  pub slept : ℕ

-- `Throttler.Writer`
abbrev pub throttled_writer : {L W : Type 0} → L → W → Throttled L W
throttled_writer limiter w = record { limiter = limiter; writer = w; slept = 0 }

module _ {L W : Type 0} (limiters : Limiters L) (inner : Write W) where
  -- Behind the reservation.
  abbrev pub reserved : ℕ → Option ℕ × L → Throttled L W → (ℕ × Option Error) × Throttled L W
  reserved n (none, l) t =
      ((n, some (errorf "write size %d exceeds limiters burst %d" [])), record t { limiter = l })
  reserved n (some delay, l) t = ((n, none), record t { limiter = l; slept = t.slept + delay })

  -- Behind the write to the inner writer.
  abbrev pub written : (ℕ × Option Error) × W → Throttled L W → (ℕ × Option Error) × Throttled L W
  written ((n, some e), w) t = ((0, some e), record t { writer = w })
  written ((n, none), w) t = reserved n (limiters.reserve n t.limiter) (record t { writer = w })

  -- `Write`
  unfoldable pub throttled_write : Write (Throttled L W)
  throttled_write p t = written (inner p t.writer) t
