-- ===== src/Oci/Image/Validity.antt =====
-- What `Parse` of pkg/oci/image.go guarantees of the images that it returns.
use spegel.Base.{◌≡◌, ◌≢◌, Str, str_eq_iff, ok, [], ◌∷◌, arith}
use spegel.Url.{Url}
use spegel.Oci.Image.{Image, new_image, of_url, parse}

-- The fields that `NewImage` insists on are there.
pub record IsComplete (i : Image) : Type 0 where
  pub name : i.name ≢ []
  pub registry : i.registry ≢ []
  pub repository : i.repository ≢ []
  pub digest : i.digest ≢ []

new_image_sound :
    (name registry repository tag dgst : Str) (i : Image)
    → new_image name registry repository tag dgst ≡ ok i
    → IsComplete i × (i.name ≡ name) × (i.digest ≡ dgst)
unfolding new_image
new_image_sound [] registry repository tag dgst i h = cc
new_image_sound (_ ∷ _) [] repository tag dgst i h = cc
new_image_sound (_ ∷ _) (_ ∷ _) [] tag dgst i h = cc
new_image_sound (_ ∷ _) (_ ∷ _) (_ ∷ _) tag [] i h = cc
new_image_sound (_ ∷ _) (_ ∷ _) (_ ∷ _) tag (_ ∷ _) i h = ground arith

of_url_sound :
    (s extra : Str) (u : Url) (i : Image)
    → of_url s extra u ≡ ok i
    → IsComplete i × (i.name ≡ s) × (extra ≢ [] → i.digest ≡ extra)
unfolding of_url
of_url_sound s extra u i h = grind (arith, new_image_sound, str_eq_iff)

-- An image that parsing returns has a name, a registry, a repository and a digest; its name is the
-- text, and its digest is the one given beside the text, if one was given.
pub parse_sound :
    (s extra : Str) (i : Image)
    → parse s extra ≡ ok i
    → IsComplete i × (i.name ≡ s) × (extra ≢ [] → i.digest ≡ extra)
unfolding parse
parse_sound s extra i h = grind (arith, of_url_sound)
