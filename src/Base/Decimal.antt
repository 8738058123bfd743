-- ===== src/Base/Decimal.antt =====
-- Decimal numbers as Go's `strconv` writes them.
use Prim.Native.Nat.{ℕ, zero, suc, ◌+◌, ◌-◌, ◌*◌, ◌/◌, ◌%◌, ◌<◌}
use mathlib.Core.Path.{◌≡◌, refl}
use mathlib.Core.Logic.{inl, inr}
use mathlib.Core.List.{[], ◌∷◌, ◌++◌}
use native.Mathlib.Omega.{arith}
use mathlib.Core.Bool.{Bool, true, false, ◌&&◌}
use spegel.Base.Lists.{All, All-append}
use spegel.Base.Tests.{leb, ltb, if◌then◌else◌, Bool-cases}
use spegel.Base.Bytes.{Str, is_empty}

digits : ℕ → ℕ → Str
digits zero n = []
digits (suc fuel) n =
    let front = digits fuel (n / 10) in
    if ltb n 10 then (b'0' + n) ∷ [] else front ++ (b'0' + n % 10) ∷ []

-- `strconv.FormatInt(n, 10)` of a number that is not negative.
unfoldable pub format : ℕ → Str
unfolding digits
format n = digits (suc n) n

-- The number that decimal digits stand for, behind digits that stand for `seen`.
unfoldable pub value_from : ℕ → Str → ℕ
value_from seen [] = seen
value_from seen (c ∷ s) = value_from (seen * 10 + (c - b'0')) s

value_from-snoc :
    (seen c : ℕ) (s : Str) → value_from seen (s ++ c ∷ []) ≡ value_from seen s * 10 + (c - b'0')
unfolding value_from
value_from-snoc seen c [] = refl
value_from-snoc seen c (d ∷ s) = value_from-snoc (seen * 10 + (d - b'0')) c s

value-digits : (fuel n : ℕ) → n < fuel → value_from 0 (digits fuel n) ≡ n
unfolding digits
value-digits zero n h = elim h [ ]
value-digits (suc fuel) n h = elim (Bool-cases (ltb n 10)) [
  | inl small ↦ rw small (unfold value_from in omega arith)
  | inr large ↦
      rw (large, value_from-snoc) (rw (value-digits fuel (n / 10) (ground arith)) (omega arith))
]

-- Enough fuel is given: the digits of a number stand for it.
pub value-format : (n : ℕ) → value_from 0 (format n) ≡ n
unfolding format
value-format n = value-digits (suc n) n (omega arith)

unfoldable pub is_digit : ℕ → Bool
is_digit c = leb b'0' c && leb c b'9'

All-digits : (fuel n : ℕ) → All (λ c. is_digit c ≡ true) (digits fuel n)
unfolding digits is_digit
All-digits zero n = tt
All-digits (suc fuel) n = elim (Bool-cases (ltb n 10)) [
  | inl small ↦ rw small (ground arith, tt)
  | inr large ↦
      rw large (All-append _ (digits fuel (n / 10)) _ (All-digits fuel (n / 10)) (ground arith, tt))
]

pub All-format : (n : ℕ) → All (λ c. is_digit c ≡ true) (format n)
unfolding format
All-format n = All-digits (suc n) n

snoc-ne-nil : (s : Str) (c : ℕ) → is_empty (s ++ c ∷ []) ≡ false
snoc-ne-nil [] c = refl
snoc-ne-nil (_ ∷ s) c = refl

pub format-ne-nil : (n : ℕ) → is_empty (format n) ≡ false
unfolding format digits
format-ne-nil n = elim (Bool-cases (ltb n 10)) [
  | inl small ↦ rw small refl
  | inr large ↦ rw large (snoc-ne-nil (digits n (n / 10)) _)
]
