-- ===== src/Throttle/Byterate.antt =====
-- Rates of bytes: pkg/throttle/byterate.go.
pub mod Rates
use spegel.Base.{
  ℕ, ◌+◌, ◌-◌, ◌*◌, ◌%◌, ◌^◌, Str, ascii, str_eq, is_empty, ◌&&◌, ◌||◌, Option, none, some, [], ◌∷◌,
  Result, ok, err, error, errorf, ◌==◌, ltb, if◌then◌else◌,
}
use spegel.Base.Int.{ℤ, pos, negsuc}
use spegel.Base.Decimal.{value_from, is_digit}

-- The units, by their names in the source.
pub data RateUnit : Type 0 where
  bps kbps mbps gbps tbps : RateUnit

unfoldable pub unit_rate : RateUnit → ℕ
unit_rate bps = 1
unit_rate kbps = 1024
unit_rate mbps = 1024 ^ 2
unit_rate gbps = 1024 ^ 3
unit_rate tbps = 1024 ^ 4

unfoldable pub unit_text : RateUnit → Str
unit_text bps = ascii "Bps"
unit_text kbps = ascii "KBps"
unit_text mbps = ascii "MBps"
unit_text gbps = ascii "GBps"
unit_text tbps = ascii "TBps"

-- `int64(n)`: two's complement.
unfoldable pub to_int64 : ℕ → ℤ
to_int64 n = let m = n % 2 ^ 64 in if ltb m (2 ^ 63) then pos m else negsuc (2 ^ 64 - m - 1)

-- `(\d+)`, as the digits at the front and the rest.
unfoldable pub span_digits : Str → Str × Str
unfolding is_digit
span_digits [] = ([], [])
span_digits (c ∷ s) =
    let rest = span_digits s in if is_digit c then (c ∷ rest.0, rest.1) else ([], c ∷ s)

-- `\s?`
unfoldable pub skip_space : Str → Str
skip_space [] = []
skip_space (c ∷ s) =
    if c == 0x20 || c == 0x09 || c == 0x0a || c == 0x0c || c == 0x0d then s else c ∷ s

-- `([KMGT]?Bps)$`, and the switch on it.
unfoldable pub unit_of : Str → Option RateUnit
unit_of s =
    if str_eq s (ascii "Bps")
    then some bps
    else if str_eq s (ascii "KBps")
    then some kbps
    else if str_eq s (ascii "MBps")
    then some mbps
    else if str_eq s (ascii "GBps")
    then some gbps
    else if str_eq s (ascii "TBps")
    then some tbps
    else none

-- `strconv.Atoi` of digits, where `int` has 64 bits.
unfoldable pub atoi : Str → Result ℕ
atoi s =
    let v = value_from 0 s in
    if ltb v (2 ^ 63) then ok v else err (error "strconv.Atoi: value out of range")

unfoldable pub invalid_format : Str → Result ℤ
invalid_format b = err (
    errorf "invalid byterate format %s should be n Bps, n KBps, n MBps, n GBps, or n TBps" (b ∷ []))

-- `Byterate(v) * unit`, by what `Atoi` returned.
unfoldable pub scaled : RateUnit → Result ℕ → Result ℤ
scaled unit (err e) = err e
scaled unit (ok v) = ok (to_int64 (v * unit_rate unit))

-- `UnmarshalText`
unfoldable pub unmarshal_text : Str → Result ℤ
unfolding span_digits skip_space unit_of atoi invalid_format scaled
unmarshal_text b =
    let parts = span_digits b in
    if is_empty parts.0 then invalid_format b else elim (unit_of (skip_space parts.1)) [
      | none ↦ invalid_format b
      | some unit ↦ scaled unit (atoi parts.0)
    ]
