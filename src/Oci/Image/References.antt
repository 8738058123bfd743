-- ===== src/Oci/Image/References.antt =====
-- `Parse` of pkg/oci/image.go reads back what the method `String` writes.
use spegel.Oci.Image.Splitting.{
  is_empty_of_ne, IsHost-ne-nil, tag_part, tag_part-Lacks_slash, tag_part-AllOf,
  no_scheme_behind_host, object-found, split-object,
}
use mathlib.Core.List.{append-nil}
use spegel.Base.{
  ℕ, ◌≡◌, ◌≢◌, ◌∙◌, ◌⊎◌, inl, inr, refl, Str, All-append, All-imp, ascii, contains, is_empty,
  str_eq_refl, Bool, false, ◌||◌, [], ◌∷◌, ◌++◌, ok, ◌==◌, arith, if◌then◌else◌,
}
use spegel.Base.Cuts.{Lacks, cut-found, contains-skip, contains-Lacks}
use spegel.Url
use spegel.Url.{Url}
use spegel.Url.Plain.{AllOf, Lacks-of_test, IsHost, is_word, is_reference_byte, parse-plain}
use spegel.Oci.Image.{Image, image_string, new_image, of_url, parse}

unfoldable pub is_repository_byte : ℕ → Bool
unfolding is_word
is_repository_byte c = is_word c || c == b'/'

unfoldable pub is_digest_byte : ℕ → Bool
unfolding is_word
is_digest_byte c = is_word c || c == b':' || c == b'='

-- A reference that is fully spelled out: a host with an optional port, a path of names, an optional
-- tag and a digest.
pub record IsReference (i : Image) : Type 0 where
  pub host : IsHost i.registry
  pub some_repository : i.repository ≢ []
  pub repository : AllOf is_repository_byte i.repository
  pub tag : AllOf is_word i.tag
  pub some_digest : i.digest ≢ []
  pub digest : AllOf is_digest_byte i.digest

-- What stands behind the repository.
abbrev object_of : Image → Str
object_of i = (if is_empty i.tag then [] else b':' ∷ i.tag) ++ b'@' ∷ i.digest

module _ (i : Image) (r : IsReference i) where
  object-Lacks_slash : Lacks b'/' (tag_part i.tag ++ b'@' ∷ i.digest)
  unfolding is_digest_byte
  object-Lacks_slash =
      All-append _ (tag_part i.tag) (b'@' ∷ i.digest) (tag_part-Lacks_slash i.tag r.tag)
        (refl, Lacks-of_test is_digest_byte b'/' i.digest refl r.digest)

  path-Lacks_colon : Lacks b':' (b'/' ∷ i.repository)
  unfolding is_repository_byte
  path-Lacks_colon = (refl, Lacks-of_test is_repository_byte b':' i.repository refl r.repository)

  path-Lacks_at : Lacks b'@' (b'/' ∷ i.repository)
  unfolding is_repository_byte
  path-Lacks_at = (refl, Lacks-of_test is_repository_byte b'@' i.repository refl r.repository)

  tag-Lacks_at : Lacks b'@' i.tag
  unfolding is_word
  tag-Lacks_at = Lacks-of_test is_word b'@' i.tag refl r.tag

  no_scheme : contains (image_string i) (ascii "://") ≡ false
  unfolding image_string
  no_scheme = no_scheme_behind_host i.registry _ r.host (
      contains-skip b':' (ascii "//") (b'/' ∷ i.repository) (tag_part i.tag ++ b'@' ∷ i.digest)
        path-Lacks_colon
      ∙ contains-Lacks b':' b'/' (ascii "/") _ object-Lacks_slash)

  rest-AllOf : AllOf is_reference_byte (i.repository ++ (tag_part i.tag ++ b'@' ∷ i.digest))
  unfolding is_digest_byte is_repository_byte is_reference_byte
  rest-AllOf =
      All-append _ i.repository _ (All-imp _ _ i.repository (λ c h. ground arith) r.repository) (
        All-append _ (tag_part i.tag) (b'@' ∷ i.digest) (tag_part-AllOf i.tag r.tag)
          (refl, All-imp _ _ i.digest (λ c h. ground arith) r.digest))

  some_host : is_empty i.registry ≡ false
  some_host = rw append-nil at (IsHost-ne-nil i.registry [] r.host)

  of_url-image_string :
      (s extra : Str)
      → s ≢ []
      → (extra ≡ []) ⊎ (extra ≡ i.digest)
      → of_url s extra (record {
        scheme = ascii "dummy";
        host = i.registry;
        path = b'/' ∷ (i.repository ++ (tag_part i.tag ++ b'@' ∷ i.digest));
      })
        ≡ ok (record i { name = s })
  unfolding of_url new_image
  of_url-image_string s extra some_s agrees =
      rw
        (
          split-object i.repository i.tag i.digest path-Lacks_colon.1 path-Lacks_at.1,
          object-found i.tag i.digest tag-Lacks_at,
          cut-found b'@' i.tag [] tag-Lacks_at,
        )
        (elim agrees [
          | inl e ↦ rw e (
              ground (
                arith,
                is_empty_of_ne s some_s,
                str_eq_refl (ascii "dummy"),
                is_empty_of_ne i.digest r.some_digest,
                is_empty_of_ne i.repository r.some_repository,
                some_host,
              ))
          | inr e ↦ rw e (
              ground (
                arith,
                is_empty_of_ne s some_s,
                str_eq_refl (ascii "dummy"),
                str_eq_refl i.digest,
                is_empty_of_ne i.digest r.some_digest,
                is_empty_of_ne i.repository r.some_repository,
                some_host,
              ))
        ])

  image_string-ne-nil : image_string i ≢ []
  unfolding image_string
  image_string-ne-nil e = cc (
      IsHost-ne-nil i.registry (b'/' ∷ (i.repository ++ (tag_part i.tag ++ b'@' ∷ i.digest)))
        r.host)

  url-image_string :
      Url.parse (ascii "dummy://" ++ image_string i)
      ≡ ok (record {
        scheme = ascii "dummy";
        host = i.registry;
        path = b'/' ∷ (i.repository ++ (tag_part i.tag ++ b'@' ∷ i.digest));
      })
  unfolding image_string
  url-image_string = parse-plain i.registry _ r.host rest-AllOf

-- Parsing the text of a full reference, with its digest or with none given beside it, gives the
-- image back, under that text as its name.
pub parse-image_string :
    (i : Image) (extra : Str)
    → IsReference i
    → (extra ≡ []) ⊎ (extra ≡ i.digest)
    → parse (image_string i) extra ≡ ok (record i { name = image_string i })
unfolding parse
parse-image_string i extra r agrees =
    rw (no_scheme i r, url-image_string i r)
      (of_url-image_string i r (image_string i) extra (image_string-ne-nil i r) agrees)
