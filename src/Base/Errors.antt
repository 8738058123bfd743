-- ===== src/Base/Errors.antt =====
-- Go's error values, and the results of functions that return a value and an error.
use Prim.Native.Nat.{ℕ}
use Prim.Native.String.{String}
use mathlib.Core.Path.{◌≡◌, refl}
use mathlib.Core.Logic.{◌⊎◌, inl, inr}
use mathlib.Core.Option.{Option, none, some}
use mathlib.Core.List.{List, [], ◌∷◌}

-- An error by the place that makes it: its text or format, with the arguments that are strings.
pub data Error : Type 0 where
  -- `errors.New(text)`
  error : String → Error
  -- `fmt.Errorf(format, args...)`
  errorf : String → List (List ℕ) → Error
  -- `fmt.Errorf(format, args..., err)` with `%w`
  wrapf : String → List (List ℕ) → Error → Error
  -- `errors.Join` of two errors or more
  joined : Error → Error → Error

join_from : Error → List Error → Error
join_from e [] = e
join_from e (x ∷ xs) = joined e (join_from x xs)

-- `errors.Join(errs...)`: `nil` exactly when there is no error.
unfoldable pub join : List Error → Option Error
unfolding join_from
join [] = none
join (e ∷ es) = some (join_from e es)

pub data Result {ℓ} (A : Type ℓ) : Type ℓ where
  ok : A → Result A
  err : Error → Result A

infixl 5 ◌>>=◌
abbrev pub ◌>>=◌ {ℓ κ} : {A : Type ℓ} {B : Type κ} → Result A → (A → Result B) → Result B
ok a >>= f = f a
err e >>= f = err e

pub Result-cases {ℓ} :
    {A : Type ℓ} (r : Result A) → ((e : Error) × (r ≡ err e)) ⊎ ((a : A) × (r ≡ ok a))
Result-cases (err e) = inl (e, refl)
Result-cases (ok a) = inr (a, refl)

pub ok_injective {ℓ} : {A : Type ℓ} {a b : A} → ok a ≡ ok b → a ≡ b
ok_injective e = cc

-- A chain that ends well has a result at each of its steps.
pub bind_ok {ℓ κ} :
    {A : Type ℓ} {B : Type κ} (r : Result A) (f : A → Result B) (b : B)
    → (r >>= f) ≡ ok b
    → (a : A) × (r ≡ ok a) × (f a ≡ ok b)
bind_ok (ok a) f b e = (a, refl, e)
bind_ok (err x) f b e = cc
