-- ===== src/Registry/Distribution/Searching/Absence.antt =====
-- Where the patterns of pkg/registry/distribution.go begin nowhere.
use spegel.Base.{
  ℕ, ◌≡◌, refl, Str, ascii, contains, has_prefix, false, Bool-cases, Option-cases, inl, inr, Option,
  none, some, [], ◌∷◌, ◌++◌, ◌==◌, all, arith,
}
use spegel.Base.Cuts.{Lacks}
use spegel.Registry.Distribution.{
  is_name_byte, literal, is_tag, is_tag_byte, is_tag_start, whole_tag, behind_name, manifest_tag,
}
use spegel.Registry.Distribution.Searching.{Nowhere}

literal-Lacks : (p q s : Str) (b : ℕ) → Lacks b s → literal (p ++ b ∷ q) s ≡ none
unfolding literal
literal-Lacks [] q [] b h = refl
literal-Lacks [] q (d ∷ s) b h = rw h.0
literal-Lacks (c ∷ p) q [] b h = refl
literal-Lacks (c ∷ p) q (d ∷ s) b h = ground (arith, literal-Lacks p q s b h.1)

behind_name-none :
    (p : Str) (last : Str → Option Str) (s : Str) → literal p s ≡ none → behind_name p last s ≡ none
unfolding behind_name
behind_name-none p last s h = rw (h, behind_name)

-- A pattern whose literal begins with a slash begins nowhere in a text without slashes.
Nowhere-Lacks :
    (p : Str) (last : Str → Option Str) (s : Str)
    → Lacks b'/' s
    → Nowhere (behind_name (b'/' ∷ p) last) s
Nowhere-Lacks p last [] h = behind_name-none (b'/' ∷ p) last [] (literal-Lacks [] p [] b'/' h)
Nowhere-Lacks p last (c ∷ s) h = (
  behind_name-none (b'/' ∷ p) last (c ∷ s) (literal-Lacks [] p (c ∷ s) b'/' h),
  Nowhere-Lacks p last s h.1,
)

-- The text begins nowhere in its own tail, if a digest or a tag without slashes follows.
pub Nowhere-manifests :
    (last : Str → Option Str) (s : Str)
    → Lacks b'/' s
    → Nowhere (behind_name (ascii "/manifests/") last) (ascii "manifests/" ++ s)
unfolding behind_name
Nowhere-manifests last s h = (
  refl,
  (
    refl,
    (
      refl,
      (
        refl,
        (
          refl,
          (
            refl,
            (
              refl,
              (
                refl,
                (
                  refl,
                  (
                    rw (literal-Lacks (ascii "manifests") [] s b'/' h),
                    Nowhere-Lacks (ascii "manifests/") last s h,
                  ),
                ),
              ),
            ),
          ),
        ),
      ),
    ),
  ),
)

pub Nowhere-blobs :
    (last : Str → Option Str) (s : Str)
    → Lacks b'/' s
    → Nowhere (behind_name (ascii "/blobs/") last) (ascii "blobs/" ++ s)
unfolding behind_name
Nowhere-blobs last s h = (
  refl,
  (
    refl,
    (
      refl,
      (
        refl,
        (
          refl,
          (rw (literal-Lacks (ascii "blobs") [] s b'/' h), Nowhere-Lacks (ascii "blobs/") last s h),
        ),
      ),
    ),
  ),
)

literal-has_prefix : (p s : Str) → has_prefix s p ≡ false → literal p s ≡ none
unfolding literal has_prefix
literal-has_prefix [] s h = cc
literal-has_prefix (c ∷ p) [] h = refl
literal-has_prefix (c ∷ p) (d ∷ s) h = ground (arith, literal-has_prefix p s)

contains-false :
    (d : ℕ) (s p : Str)
    → contains (d ∷ s) p ≡ false
    → (has_prefix (d ∷ s) p ≡ false) × (contains s p ≡ false)
unfolding contains
contains-false d s p h = ground arith

-- A pattern begins nowhere in a text that does not contain its literal.
pub Nowhere-contains :
    (c : ℕ) (p : Str) (last : Str → Option Str) (s : Str)
    → contains s (c ∷ p) ≡ false
    → Nowhere (behind_name (c ∷ p) last) s
Nowhere-contains c p last [] h = behind_name-none (c ∷ p) last [] (unfold literal in refl)
Nowhere-contains c p last (d ∷ s) h =
    let (here, later) = contains-false d s (c ∷ p) h in
    (
      behind_name-none (c ∷ p) last (d ∷ s) (literal-has_prefix (c ∷ p) (d ∷ s) here),
      Nowhere-contains c p last s later,
    )

eq_sym-false : (a b : ℕ) → (a == b) ≡ false → (b == a) ≡ false
eq_sym-false a b h = ground arith

-- A text with a colon that only a part without slashes follows.
literal-colon :
    (p xs ys t : Str)
    → Lacks b':' p
    → literal p (xs ++ b':' ∷ ys) ≡ some t
    → (zs : Str) × (t ≡ zs ++ b':' ∷ ys)
unfolding literal
literal-colon [] xs ys t h e = (xs, cc)
literal-colon (c ∷ p) [] ys t h e =
    let other : (b':' == c) ≡ false = eq_sym-false c b':' h.0 in cc (rw other at e)
literal-colon (c ∷ p) (x ∷ xs) ys t h e = elim (Bool-cases (x == c)) [
  | inl same ↦ literal-colon p xs ys t h.1 (rw same at e)
  | inr other ↦ cc (rw other at e)
]

all-false : (zs ys : Str) → all is_tag_byte (zs ++ b':' ∷ ys) ≡ false
unfolding all is_tag_byte is_tag_start is_name_byte
all-false [] ys = refl
all-false (z ∷ zs) ys = ground (arith, all-false zs ys)

not-is_tag : (zs ys : Str) → is_tag (zs ++ b':' ∷ ys) ≡ false
unfolding is_tag
not-is_tag [] ys = refl
not-is_tag (z ∷ zs) ys = rw (all-false zs ys) (ground arith)

manifest_tag-colon : (xs ys : Str) → manifest_tag (xs ++ b':' ∷ ys) ≡ none
unfolding manifest_tag
manifest_tag-colon xs ys = elim (Option-cases (literal (ascii "/manifests/") (xs ++ b':' ∷ ys))) [
  | inl missing ↦ behind_name-none (ascii "/manifests/") whole_tag (xs ++ b':' ∷ ys) missing
  | inr (t, found) ↦
      let (zs, e) =
        literal-colon (ascii "/manifests/") xs ys t
          (refl, (refl, (refl, (refl, (refl, (refl, (refl, (refl, (refl, (refl, (refl, tt)))))))))))
          found in
      rw (found, behind_name) (rw e (rw (not-is_tag zs ys)))
]

-- A digest is no tag: with a colon that only a part without slashes follows, no tag is found.
pub Nowhere-manifest_tag : (xs ys : Str) → Lacks b'/' ys → Nowhere manifest_tag (xs ++ b':' ∷ ys)
Nowhere-manifest_tag [] ys h = (
  manifest_tag-colon [] ys,
  unfold manifest_tag in Nowhere-Lacks (ascii "manifests/") whole_tag ys h,
)
Nowhere-manifest_tag (x ∷ xs) ys h = (manifest_tag-colon (x ∷ xs) ys, Nowhere-manifest_tag xs ys h)
