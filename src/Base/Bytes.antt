-- ===== src/Base/Bytes.antt =====
-- Go's strings, which are sequences of bytes, and what the program uses of package `strings`.
use Prim.Native.Char.{code}
use Prim.Native.Nat.{ℕ}
use Prim.Native.String.{String}
use mathlib.Core.Path.{◌≡◌, refl}
use mathlib.Core.Logic.{◌↔◌}
use mathlib.Core.Bool.{Bool, true, false, ◌&&◌, ◌||◌}
use mathlib.Core.Option.{Option, none, some}
use mathlib.Core.List.{List, [], ◌∷◌}
use native.Mathlib.Omega.{arith}
use spegel.Base.Tests.{◌==◌, ==_iff, if◌then◌else◌}

abbrev pub Str : Type 0
Str = List ℕ

-- The bytes of an ASCII literal.
abbrev pub ascii : String → Str
ascii String.[] = []
ascii (String.◌∷◌ c s) = code c ∷ ascii s

-- `s == t`.
unfoldable pub str_eq : Str → Str → Bool
str_eq [] [] = true
str_eq (c ∷ s) (d ∷ t) = (c == d) && str_eq s t
str_eq _ _ = false

-- `s == ""`.
abbrev pub is_empty : Str → Bool
is_empty [] = true
is_empty (_ ∷ _) = false

-- `strings.HasPrefix(s, p)`.
unfoldable pub has_prefix : Str → Str → Bool
has_prefix s [] = true
has_prefix [] (_ ∷ _) = false
has_prefix (c ∷ s) (d ∷ p) = (c == d) && has_prefix s p

-- `strings.Contains(s, p)`.
unfoldable pub contains : Str → Str → Bool
unfolding has_prefix
contains [] p = is_empty p
contains (c ∷ s) p = if has_prefix (c ∷ s) p then true else contains s p

-- `strings.Cut(s, sep)` at a separator of one byte: what stands before it, and what stands behind.
unfoldable pub cut : ℕ → Str → Str × Option Str
cut sep [] = ([], none)
cut sep (c ∷ s) = let rest = cut sep s in if c == sep then ([], some s) else (c ∷ rest.0, rest.1)

-- `strings.LastIndex` at one byte, as the parts around the last occurrence.
unfoldable pub cut_last : ℕ → Str → Option (Str × Str)
cut_last sep [] = none
cut_last sep (c ∷ s) = elim (cut_last sep s) [
  | some (before, after) ↦ some (c ∷ before, after)
  | none ↦ if c == sep then some ([], s) else none
]

-- `strings.TrimPrefix(s, "c")`, for a prefix of one byte.
unfoldable pub trim_byte : ℕ → Str → Str
trim_byte p [] = []
trim_byte p (c ∷ s) = if c == p then s else c ∷ s

pub str_eq_iff : (s t : Str) → (str_eq s t ≡ true) ↔ (s ≡ t)
unfolding str_eq
str_eq_iff [] [] = (λ _. refl, λ _. refl)
str_eq_iff [] (d ∷ t) = ground arith
str_eq_iff (c ∷ s) [] = ground arith
str_eq_iff (c ∷ s) (d ∷ t) = ground (arith, str_eq_iff s t, ==_iff c d)

pub str_eq_refl : (s : Str) → str_eq s s ≡ true
str_eq_refl s = (str_eq_iff s s).1 refl

-- `strings.ContainsRune(s, c)`, for one byte.
unfoldable pub has_byte : ℕ → Str → Bool
has_byte c [] = false
has_byte c (d ∷ s) = c == d || has_byte c s

-- `strings.Index(s, p)`, as what stands before the first occurrence and what begins there.
unfoldable pub cut_at : Str → Str → Option (Str × Str)
unfolding has_prefix
cut_at p [] = if is_empty p then some ([], []) else none
cut_at p (c ∷ s) =
    let rest = cut_at p s in
    if has_prefix (c ∷ s) p
    then some ([], c ∷ s)
    else elim rest [ none ↦ none | some (before, after) ↦ some (c ∷ before, after) ]

-- The bytes of a text that a test accepts all of.
unfoldable pub all : (ℕ → Bool) → Str → Bool
all p [] = true
all p (c ∷ s) = p c && all p s
