-- ===== src/Throttle/Byterate/Rates.antt =====
-- Which rates the texts of pkg/throttle/byterate.go stand for.
use spegel.Base.{
  ℕ, ◌*◌, ◌^◌, ◌<◌, ◌≡◌, ◌∙◌, refl, ap, Str, All, str_eq, is_empty, Bool, true, false, some, [],
  ◌∷◌, ◌++◌, ok, arith,
}
use spegel.Base.Int.{pos}
use spegel.Base.Decimal.{format, value-format, All-format, format-ne-nil, is_digit}
use spegel.Throttle.Byterate.{
  RateUnit, bps, kbps, mbps, gbps, tbps, unit_rate, unit_text, to_int64, span_digits, skip_space,
  unit_of, atoi, scaled, unmarshal_text,
}

-- The space that may stand between the number and the unit.
abbrev pub spacing : Bool → Str
spacing true = 0x20 ∷ []
spacing false = []

unit_no_digit : (u : RateUnit) → span_digits (unit_text u) ≡ ([], unit_text u)
unfolding span_digits unit_text
unit_no_digit bps = refl
unit_no_digit kbps = refl
unit_no_digit mbps = refl
unit_no_digit gbps = refl
unit_no_digit tbps = refl

span_digits-unit :
    (s : Str) (space : Bool) (u : RateUnit)
    → All (λ c. is_digit c ≡ true) s
    → span_digits (s ++ (spacing space ++ unit_text u)) ≡ (s, spacing space ++ unit_text u)
unfolding span_digits
span_digits-unit [] true u h = refl
span_digits-unit [] false u h = unit_no_digit u
span_digits-unit (c ∷ s) space u h = rw (h.0, span_digits-unit s space u h.1)

unit_of-text :
    (space : Bool) (u : RateUnit) → unit_of (skip_space (spacing space ++ unit_text u)) ≡ some u
unfolding unit_of skip_space unit_text str_eq
unit_of-text true bps = refl
unit_of-text true kbps = refl
unit_of-text true mbps = refl
unit_of-text true gbps = refl
unit_of-text true tbps = refl
unit_of-text false bps = refl
unit_of-text false kbps = refl
unit_of-text false mbps = refl
unit_of-text false gbps = refl
unit_of-text false tbps = refl

atoi-format : (n : ℕ) → n < 2 ^ 63 → atoi (format n) ≡ ok n
unfolding atoi
atoi-format n h = rw (value-format n) (ground arith)

parts-accepted :
    (b digits rest : Str) (u : RateUnit)
    → span_digits b ≡ (digits, rest)
    → is_empty digits ≡ false
    → unit_of (skip_space rest) ≡ some u
    → unmarshal_text b ≡ scaled u (atoi digits)
unfolding unmarshal_text
parts-accepted b digits rest u split some_digits known =
    rw (split, some_digits, known) (ap (λ p. scaled u (atoi p.0)) split)

pub unmarshal_text-format :
    (n : ℕ) (space : Bool) (u : RateUnit)
    → n < 2 ^ 63
    → unmarshal_text (format n ++ (spacing space ++ unit_text u)) ≡ ok (to_int64 (n * unit_rate u))
unfolding scaled
unmarshal_text-format n space u h =
    parts-accepted _ (format n) (spacing space ++ unit_text u) u
      (span_digits-unit (format n) space u (All-format n)) (format-ne-nil n) (unit_of-text space u)
    ∙ ap (scaled u) (atoi-format n h)

to_int64-fits : (n : ℕ) → n < 2 ^ 63 → to_int64 n ≡ pos n
unfolding to_int64
to_int64-fits n h = ground arith

number_fits : (n : ℕ) (u : RateUnit) → n * unit_rate u < 2 ^ 63 → n < 2 ^ 63
unfolding unit_rate
number_fits n bps h = omega arith
number_fits n kbps h = omega arith
number_fits n mbps h = omega arith
number_fits n gbps h = omega arith
number_fits n tbps h = omega arith

-- A rate below 2^63 bytes per second, written with any unit, with a space or none, is read as it is.
pub unmarshal_text-fits :
    (n : ℕ) (space : Bool) (u : RateUnit)
    → n * unit_rate u < 2 ^ 63
    → unmarshal_text (format n ++ (spacing space ++ unit_text u)) ≡ ok (pos (n * unit_rate u))
unmarshal_text-fits n space u h =
    unmarshal_text-format n space u (number_fits n u h) ∙ ap ok (to_int64-fits (n * unit_rate u) h)
