-- ===== src/Registry/Distribution/Searching.antt =====
-- What the patterns of pkg/registry/distribution.go find, and where they find nothing.
pub mod Absence
use spegel.Base.{
  ℕ, ◌≡◌, refl, subst, ==_iff, Str, ascii, contains, has_prefix, Bool, true, false, ◌&&◌, ◌||◌,
  Bool-cases, Option-cases, inl, inr, Option, none, some, [], ◌∷◌, ◌++◌, ◌==◌, all, arith,
}
use mathlib.Core.Bool.{and-eq-true_iff}
use spegel.Base.Cuts.{Lacks}
use spegel.Registry.Distribution.{
  is_name_byte, is_separator, name_from, ends_here, literal, is_tag, is_tag_byte, is_tag_start,
  whole_tag, behind_name, match_here, find, manifest_tag,
}

-- The texts of `nameRegex`, from the middle of a word or from its beginning.
unfoldable pub is_name_from : Bool → Str → Bool
is_name_from inside [] = inside
is_name_from inside (c ∷ s) =
    (is_name_byte c || (inside && is_separator c)) && is_name_from (is_name_byte c) s

-- A name: words of `[a-z0-9]+` joined by one of `._-/` each.
abbrev pub is_name : Str → Bool
is_name s = is_name_from false s

-- Nowhere in the text does `rest` begin.
abbrev pub Nowhere {ℓ} : {A : Type ℓ} → (Str → Option A) → Str → Type ℓ
Nowhere rest [] = rest [] ≡ none
Nowhere rest (c ∷ s) = (rest (c ∷ s) ≡ none) × Nowhere rest s

abbrev pub tail : Str → Str
tail [] = []
tail (_ ∷ s) = s

Nowhere-here {ℓ} : {A : Type ℓ} (rest : Str → Option A) (s : Str) → Nowhere rest s → rest s ≡ none
Nowhere-here rest [] h = h
Nowhere-here rest (c ∷ s) h = h.0

module _ {ℓ} {A : Type ℓ} (rest : Str → Option A) where
  ends_here-none : (inside : Bool) → ends_here {A = A} inside none ≡ none
  ends_here-none true = refl
  ends_here-none false = refl

  name_from-none : (inside : Bool) (s : Str) → Nowhere rest s → name_from rest inside s ≡ none
  unfolding name_from
  name_from-none inside [] h = rw h (ends_here-none inside)
  name_from-none inside (c ∷ s) h =
      rw (h.0, name_from-none (is_name_byte c) s h.1) (ground (arith, ends_here-none inside))

  name_from-end :
      (t : Str) (a : A)
      → rest t ≡ some a
      → Nowhere rest (tail t)
      → name_from rest true t ≡ some ([], a)
  unfolding name_from
  name_from-end [] a h none_later = rw h
  name_from-end (c ∷ t) a h none_later =
      rw (h, name_from-none (is_name_byte c) t none_later) (ground arith)

  name_from-step :
      (inside : Bool) (c : ℕ) (s name : Str) (a : A)
      → (is_name_byte c || (inside && is_separator c)) ≡ true
      → name_from rest (is_name_byte c) s ≡ some (name, a)
      → name_from rest inside (c ∷ s) ≡ some (c ∷ name, a)
  unfolding name_from
  name_from-step inside c s name a allowed h = rw (h, allowed)

  -- A name that is followed by the only place where `rest` begins is found whole.
  name_from-found :
      (inside : Bool) (name t : Str) (a : A)
      → is_name_from inside name ≡ true
      → rest t ≡ some a
      → Nowhere rest (tail t)
      → name_from rest inside (name ++ t) ≡ some (name, a)
  unfolding is_name_from
  name_from-found inside [] t a named h later = rw named (name_from-end t a h later)
  name_from-found inside (c ∷ name) t a named h later =
      let (allowed, named') = (and-eq-true_iff _ (is_name_from (is_name_byte c) name)).0 named in
      name_from-step inside c (name ++ t) name a allowed
        (name_from-found (is_name_byte c) name t a named' h later)

literal-Nowhere {ℓ} :
    {A : Type ℓ} (rest : Str → Option A) (p s t : Str)
    → literal p s ≡ some t
    → Nowhere rest s
    → Nowhere rest t
unfolding literal
literal-Nowhere rest [] s t e h = let same : s ≡ t = cc in subst (Nowhere rest) same h
literal-Nowhere rest (c ∷ p) [] t e h = cc
literal-Nowhere rest (c ∷ p) (d ∷ s) t e h = elim (Bool-cases (d == c)) [
  | inl same ↦ literal-Nowhere rest p s t (rw same at e) h.1
  | inr other ↦ cc (rw other at e)
]

literal_self : (p s : Str) → literal p (p ++ s) ≡ some s
unfolding literal
literal_self [] s = refl
literal_self (c ∷ p) s = rw ((==_iff c c).1 refl) (literal_self p s)

match_here-none : (rest : Str → Option Str) (s : Str) → Nowhere rest s → match_here rest s ≡ none
unfolding match_here
match_here-none rest s h = elim (Option-cases (literal (ascii "/v2/") s)) [
  | inl missing ↦ rw (missing, match_here)
  | inr (t, found) ↦
      rw (found, match_here)
        (name_from-none rest false t (literal-Nowhere rest (ascii "/v2/") s t found h))
]

pub find-none : (rest : Str → Option Str) (s : Str) → Nowhere rest s → find rest s ≡ none
unfolding find
find-none rest [] h = match_here-none rest [] h
find-none rest (c ∷ s) h = rw (match_here-none rest (c ∷ s) h, find-none rest s h.1)

find_of_match :
    (rest : Str → Option Str) (s : Str) (r : Str × Str)
    → match_here rest s ≡ some r
    → find rest s ≡ some r
unfolding find
find_of_match rest [] r h = h
find_of_match rest (c ∷ s) r h = rw h

-- `/v2/`, a name, and the only place where `rest` begins behind it.
pub find-found :
    (rest : Str → Option Str) (name t a : Str)
    → is_name name ≡ true
    → rest t ≡ some a
    → Nowhere rest (tail t)
    → find rest (ascii "/v2/" ++ (name ++ t)) ≡ some (name, a)
unfolding match_here
find-found rest name t a named h later =
    find_of_match rest (ascii "/v2/" ++ (name ++ t)) (name, a)
      (name_from-found rest false name t a named h later)
