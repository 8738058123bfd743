-- ===== src/Oci/Image/Splitting.antt =====
-- How Parse of pkg/oci/image.go splits the text of a reference.
use mathlib.Core.List.{append_assoc}
use spegel.Base.{
  ℕ, ◌≡◌, ◌≢◌, ◌∙◌, refl, ap, Str, All-imp, ascii, contains, is_empty, trim_byte, true, false, ◌||◌,
  [], ◌∷◌, ◌++◌, ◌==◌, arith, if◌then◌else◌,
}
use spegel.Base.Cuts.{Lacks, cut-found, contains-skip}
use spegel.Url.Escape.{is_digit}
use spegel.Url.Plain.{AllOf, Lacks-of_test, IsHost, plain, with_port, is_word, is_reference_byte}
use spegel.Oci.Image.{split_path, split_object}

pub is_empty_of_ne : (s : Str) → s ≢ [] → is_empty s ≡ false
is_empty_of_ne [] h = absurd (h refl)
is_empty_of_ne (c ∷ s) h = refl

pub IsHost-ne-nil : (h t : Str) → IsHost h → is_empty (h ++ t) ≡ false
IsHost-ne-nil [] t (plain n _) = absurd (n refl)
IsHost-ne-nil [] t (with_port [] _ n _ _ _ _) = absurd (n refl)
IsHost-ne-nil [] t (with_port (_ ∷ _) _ _ _ _ _ e) = cc
IsHost-ne-nil (c ∷ h) t _ = refl

split_path-found :
    (s t : Str) (b : ℕ)
    → Lacks b':' s
    → Lacks b'@' s
    → (b == b':' || b == b'@') ≡ true
    → split_path (s ++ b ∷ t) ≡ (s, b ∷ t)
unfolding split_path
split_path-found [] t b _ _ stops = rw stops
split_path-found (c ∷ s) t b h k stops = rw (h.0, k.0, split_path-found s t b h.1 k.1 stops)

split_object-found :
    (tag dgst : Str) → Lacks b'@' tag → split_object (tag ++ b'@' ∷ dgst) ≡ (tag ++ b'@' ∷ [], dgst)
unfolding split_object
split_object-found tag dgst h = rw (cut-found b'@' tag dgst h)

-- A colon and no slash behind it.
contains-step :
    (d : ℕ) (t : Str)
    → (d == b'/') ≡ false
    → contains (b':' ∷ d ∷ t) (ascii "://") ≡ contains (d ∷ t) (ascii "://")
unfolding contains
contains-step d t h = rw h

abbrev pub tag_part : Str → Str
tag_part tag = if is_empty tag then [] else b':' ∷ tag

pub tag_part-Lacks_slash : (tag : Str) → AllOf is_word tag → Lacks b'/' (tag_part tag)
unfolding is_word
tag_part-Lacks_slash [] w = tt
tag_part-Lacks_slash (c ∷ tag) w = (refl, Lacks-of_test is_word b'/' (c ∷ tag) refl w)

pub tag_part-AllOf : (tag : Str) → AllOf is_word tag → AllOf is_reference_byte (tag_part tag)
unfolding is_reference_byte
tag_part-AllOf [] w = tt
tag_part-AllOf (c ∷ tag) w =
    (refl, All-imp (λ c. is_word c ≡ true) _ (c ∷ tag) (λ d h. ground arith) w)

no_scheme_behind_port :
    (port t : Str)
    → port ≢ []
    → AllOf is_digit port
    → contains t (ascii "://") ≡ false
    → contains (b':' ∷ (port ++ t)) (ascii "://") ≡ false
no_scheme_behind_port [] t n w h = absurd (n refl)
no_scheme_behind_port (d ∷ port) t n w h =
    contains-step d (port ++ t)
      (unfold is_digit in (Lacks-of_test is_digit b'/' (d ∷ port) refl w).0)
    ∙ contains-skip b':' (ascii "//") (d ∷ port) t
        (unfold is_digit in Lacks-of_test is_digit b':' (d ∷ port) refl w)
    ∙ h

pub no_scheme_behind_host :
    (h t : Str)
    → IsHost h
    → contains t (ascii "://") ≡ false
    → contains (h ++ t) (ascii "://") ≡ false
unfolding is_word
no_scheme_behind_host h t (plain _ w) none_in =
    contains-skip b':' (ascii "//") h t (Lacks-of_test is_word b':' h refl w) ∙ none_in
no_scheme_behind_host h t (with_port name port _ w n d e) none_in =
    ap (λ x. contains (x ++ t) (ascii "://")) e
    ∙ ap (λ x. contains x (ascii "://")) (append_assoc name (b':' ∷ port) t)
    ∙ contains-skip b':' (ascii "//") name (b':' ∷ (port ++ t))
        (Lacks-of_test is_word b':' name refl w)
    ∙ no_scheme_behind_port port t n d none_in

-- The part of `Parse` behind the split, at an object that begins with a tag or with a digest.
pub object-found :
    (tag dgst : Str)
    → Lacks b'@' tag
    → split_object (trim_byte b':' (tag_part tag ++ b'@' ∷ dgst)) ≡ (tag ++ b'@' ∷ [], dgst)
unfolding trim_byte
object-found [] dgst h = split_object-found [] dgst tt
object-found (c ∷ tag) dgst h = split_object-found (c ∷ tag) dgst h

pub split-object :
    (s tag dgst : Str)
    → Lacks b':' s
    → Lacks b'@' s
    → split_path (s ++ (tag_part tag ++ b'@' ∷ dgst)) ≡ (s, tag_part tag ++ b'@' ∷ dgst)
split-object s [] dgst h k = split_path-found s dgst b'@' h k refl
split-object s (c ∷ tag) dgst h k = split_path-found s (c ∷ (tag ++ b'@' ∷ dgst)) b':' h k refl
