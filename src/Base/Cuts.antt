-- ===== src/Base/Cuts.antt =====
-- Laws of cutting and searching a text, by the bytes that its parts lack.
use Prim.Native.Nat.{ℕ}
use mathlib.Core.Path.{◌≡◌, refl}
use mathlib.Core.Bool.{true, false}
use mathlib.Core.Option.{none, some}
use mathlib.Core.List.{[], ◌∷◌, ◌++◌}
use native.Mathlib.Omega.{arith}
use spegel.Base.Tests.{◌==◌, ==_iff}
use spegel.Base.Lists.{All}
use spegel.Base.Bytes.{Str, cut, cut_last, contains}

-- No byte of `s` is `b`.
abbrev pub Lacks : ℕ → Str → Type 0
Lacks b s = All (λ c. (c == b) ≡ false) s

==_refl : (b : ℕ) → (b == b) ≡ true
==_refl b = (==_iff b b).1 refl

pub cut-Lacks : (b : ℕ) (s : Str) → Lacks b s → cut b s ≡ (s, none)
unfolding cut
cut-Lacks b [] h = refl
cut-Lacks b (c ∷ s) h = rw (h.0, cut-Lacks b s h.1)

pub cut-found : (b : ℕ) (s t : Str) → Lacks b s → cut b (s ++ b ∷ t) ≡ (s, some t)
unfolding cut
cut-found b [] t h = rw (==_refl b)
cut-found b (c ∷ s) t h = rw (h.0, cut-found b s t h.1)

pub cut_last-Lacks : (b : ℕ) (s : Str) → Lacks b s → cut_last b s ≡ none
unfolding cut_last
cut_last-Lacks b [] h = refl
cut_last-Lacks b (c ∷ s) h = rw (cut_last-Lacks b s h.1, h.0)

pub cut_last-found : (b : ℕ) (s t : Str) → Lacks b t → cut_last b (s ++ b ∷ t) ≡ some (s, t)
unfolding cut_last
cut_last-found b [] t h = rw (cut_last-Lacks b t h, ==_refl b)
cut_last-found b (c ∷ s) t h = rw (cut_last-found b s t h)

-- A pattern that begins with `b` begins at no byte but `b`.
pub contains-skip :
    (b : ℕ) (p s t : Str) → Lacks b s → contains (s ++ t) (b ∷ p) ≡ contains t (b ∷ p)
unfolding contains
contains-skip b p [] t h = refl
contains-skip b p (c ∷ s) t h = rw h.0 (contains-skip b p s t h.1)

-- A text without the second byte of a pattern does not contain it.
pub contains-Lacks : (a b : ℕ) (p s : Str) → Lacks b s → contains s (a ∷ b ∷ p) ≡ false
unfolding contains
contains-Lacks a b p [] h = refl
contains-Lacks a b p (c ∷ []) h = ground arith
contains-Lacks a b p (c ∷ d ∷ s) h = ground (arith, contains-Lacks a b p (d ∷ s) h.1)
