-- ===== src/Tests/Paths.antt =====
-- The theorems on paths of the distribution API at concrete inputs.
use spegel.Base.{◌≡◌, refl, ascii, some, [], ok, all, contains, true, false}
use spegel.Url.Plain.{of_all}
use spegel.Oci.Image.{tag_name}
use spegel.Registry.Distribution.{
  manifest, is_name_byte, is_separator, is_tag, is_tag_byte, is_tag_start, parse_path_components,
}
use spegel.Registry.Distribution.Searching.{is_name, is_name_from}
use spegel.Registry.Distribution.Blobs.{parse-blob_as_manifest}
use spegel.Registry.Distribution.Paths.{manifest_path, blob_path, IsDigest, parse-tag_name}
use spegel.Registry.Distribution.{has_latest_tag}
use spegel.Registry.Distribution.Latest.{tagged, has_latest_tag-tagged}
use spegel.Base.{str_eq, false}
use spegel.Tests.Data.{alpine}

pub name_is : is_name (ascii "library/alpine") ≡ true
unfolding is_name_from is_name_byte is_separator
name_is = refl

short_name_is : is_name (ascii "ci") ≡ true
unfolding is_name_from is_name_byte is_separator
short_name_is = refl

pub tag_is : is_tag (ascii "3.18") ≡ true
unfolding is_tag is_tag_byte is_tag_start is_name_byte all
tag_is = refl

pub sha256-IsDigest : IsDigest (ascii "sha256") (ascii "ab")
unfolding is_tag_byte is_tag_start is_name_byte all
sha256-IsDigest = record {
  algorithm_bytes = of_all is_tag_byte (ascii "sha256") refl;
  hash_bytes = of_all is_tag_byte (ascii "ab") refl;
}

alpine_key : tag_name alpine ≡ some (ascii "docker.io:443/library/alpine:3.18")
unfolding tag_name
alpine_key = refl

parse-tag_name_example :
    parse_path_components
      (ascii "docker.io:443")
      (manifest_path (ascii "library/alpine") (ascii "3.18"))
    ≡ ok (record {
      kind = manifest;
      name = ascii "docker.io:443/library/alpine:3.18";
      dgst = [];
      original_registry = ascii "docker.io:443";
    })
parse-tag_name_example =
    parse-tag_name alpine (ascii "docker.io:443/library/alpine:3.18") alpine_key (λ e. cc) name_is
      tag_is

misread_plain : contains (ascii "manifests/app/blobs/sha256:ab") (ascii "/manifests/") ≡ false
unfolding contains
misread_plain = refl

parse-blob_as_manifest_example :
    parse_path_components [] (blob_path (ascii "ci/manifests/app") (ascii "sha256:ab"))
    ≡ ok (record {
      kind = manifest;
      name = [];
      dgst = ascii "app/blobs/sha256:ab";
      original_registry = [];
    })
parse-blob_as_manifest_example =
    parse-blob_as_manifest (ascii "ci") (ascii "app") (ascii "sha256") (ascii "ab") [] short_name_is
      sha256-IsDigest (refl, (refl, (refl, tt))) misread_plain

has_latest_tag-tagged_example :
    (has_latest_tag (tagged (ascii "localhost") (ascii "app") (ascii "latest"))
      ≡ str_eq (ascii "latest") (ascii "latest"))
    × (has_latest_tag (tagged (ascii "localhost:5000") (ascii "app") (ascii "latest")) ≡ false)
has_latest_tag-tagged_example =
    has_latest_tag-tagged (ascii "localhost") (ascii "5000") (ascii "app") (ascii "latest")
      (refl, (refl, (refl, (refl, (refl, (refl, (refl, (refl, (refl, tt)))))))))
      (refl, (refl, (refl, tt)))
