-- ===== src/Tests/Images.antt =====
-- The theorems on images at concrete inputs.
use spegel.Base.{◌≡◌, refl, inr, ascii, ok, all, contains, cut, str_eq, cut_last}
use spegel.Url.Plain.{with_port, of_all, is_word}
use spegel.Url
use spegel.Url.Escape.{is_digit, unescape}
use spegel.Oci.Image.{image_string, parse, of_url, new_image}
use spegel.Oci.Image.References.{
  IsReference, is_repository_byte, is_digest_byte, parse-image_string,
}
use spegel.Tests.Data.{alpine}

alpine-IsReference : IsReference alpine
unfolding is_word is_digit is_repository_byte is_digest_byte all
alpine-IsReference = record {
  host =
      with_port (ascii "docker.io") (ascii "443") (λ e. cc)
        (of_all is_word (ascii "docker.io") refl) (λ e. cc) (of_all is_digit (ascii "443") refl)
        refl;
  some_repository = λ e. cc;
  repository = of_all is_repository_byte (ascii "library/alpine") refl;
  tag = of_all is_word (ascii "3.18") refl;
  some_digest = λ e. cc;
  digest = of_all is_digest_byte (ascii "sha256:ab") refl;
}

parse-image_string_example :
    parse (image_string alpine) (ascii "sha256:ab")
    ≡ ok (record alpine { name = image_string alpine })
parse-image_string_example =
    parse-image_string alpine (ascii "sha256:ab") alpine-IsReference (inr refl)

alpine_parsed :
    parse (image_string alpine) (ascii "sha256:ab")
    ≡ ok (record alpine { name = image_string alpine })
unfolding parse contains image_string Url.parse cut str_eq cut_last all unescape of_url new_image
alpine_parsed = refl
