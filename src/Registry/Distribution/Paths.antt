-- ===== src/Registry/Distribution/Paths.antt =====
-- Which references the paths of the distribution API stand for: `parsePathComponents` of
-- pkg/registry/distribution.go.
use mathlib.Core.List.{append_assoc}
use spegel.Base.{
  ◌==◌, All-append, ℕ, ◌≡◌, ◌≢◌, ◌∙◌, refl, ap, Str, ascii, true, false, none, some, [], ◌∷◌, ◌++◌,
  ok, arith,
}
use spegel.Base.Cuts.{Lacks, cut-Lacks}
use spegel.Url.Plain.{AllOf, Lacks-of_test, of_all}
use spegel.Oci.Image.{Image, tag_name}
use spegel.Registry.Distribution.{
  manifest, is_tag, is_tag_byte, is_tag_start, is_name_byte, whole_tag, line, behind_name, find,
  manifest_tag, manifest_digest, parse_digest, parse_path_components,
}
use spegel.Registry.Distribution.Searching.{is_name, Nowhere, find-none, find-found}
use spegel.Registry.Distribution.Searching.Absence.{Nowhere-manifests, Nowhere-manifest_tag}

abbrev pub manifest_path : Str → Str → Str
manifest_path name reference = ascii "/v2/" ++ (name ++ (ascii "/manifests/" ++ reference))

abbrev pub blob_path : Str → Str → Str
blob_path name dgst = ascii "/v2/" ++ (name ++ (ascii "/blobs/" ++ dgst))

tag_parts :
    (c : ℕ) (s : Str) → is_tag (c ∷ s) ≡ true → (is_tag_start c ≡ true) × AllOf is_tag_byte s
unfolding is_tag
tag_parts c s h = (ground arith, of_all is_tag_byte s (ground arith))

tag-Lacks_slash : (tag : Str) → is_tag tag ≡ true → Lacks b'/' tag
unfolding is_tag is_tag_byte is_tag_start is_name_byte
tag-Lacks_slash [] h = tt
tag-Lacks_slash (c ∷ s) h =
    let (start, rest) = tag_parts c s h in
    (ground arith, Lacks-of_test is_tag_byte b'/' s refl rest)

find-tag :
    (name tag : Str)
    → is_name name ≡ true
    → is_tag tag ≡ true
    → find manifest_tag (manifest_path name tag) ≡ some (name, tag)
unfolding manifest_tag
find-tag name tag named tagged =
    find-found (behind_name (ascii "/manifests/") whole_tag) name (ascii "/manifests/" ++ tag) tag
      named (unfold behind_name whole_tag in rw tagged)
      (Nowhere-manifests whole_tag tag (tag-Lacks_slash tag tagged))

-- A manifest path of a well-formed name and tag, asked for on behalf of a registry, is the tag
-- reference `registry/name:tag` of that registry.
pub parse-manifest_tag :
    (registry name tag : Str)
    → registry ≢ []
    → is_name name ≡ true
    → is_tag tag ≡ true
    → parse_path_components registry (manifest_path name tag)
      ≡ ok (record {
        kind = manifest;
        name = registry ++ (b'/' ∷ (name ++ (b':' ∷ tag)));
        dgst = [];
        original_registry = registry;
      })
unfolding parse_path_components
parse-manifest_tag [] name tag some_registry named tagged = absurd (some_registry refl)
parse-manifest_tag (c ∷ registry) name tag some_registry named tagged =
    rw (find-tag name tag named tagged, parse_path_components)

-- The key that is looked up for a tag of an image is the key that is advertised for that image, if
-- its registry is not empty and its repository and tag are well-formed.
pub parse-tag_name :
    (i : Image) (key : Str)
    → tag_name i ≡ some key
    → i.registry ≢ []
    → is_name i.repository ≡ true
    → is_tag i.tag ≡ true
    → parse_path_components i.registry (manifest_path i.repository i.tag)
      ≡ ok (record { kind = manifest; name = key; dgst = []; original_registry = i.registry })
unfolding tag_name
parse-tag_name i key e some_registry named tagged =
    parse-manifest_tag i.registry i.repository i.tag some_registry named tagged ∙ ground arith

pub line-found : (s : Str) → Lacks 10 s → line s ≡ some s
unfolding line
line-found s h = rw (cut-Lacks 10 s h)

no_tag :
    (name before hash : Str)
    → Lacks b'/' hash
    → find manifest_tag (manifest_path name (before ++ b':' ∷ hash)) ≡ none
no_tag name before hash h =
    ap (find manifest_tag) (simp append_assoc)
    ∙ find-none manifest_tag (manifest_path name before ++ b':' ∷ hash)
        (Nowhere-manifest_tag (manifest_path name before) hash h)

-- A manifest path whose reference is no tag, since only a part without slashes follows its last
-- colon, and that holds no second `/manifests/`.
pub parse-manifest :
    (registry name before hash : Str)
    → is_name name ≡ true
    → Nowhere manifest_digest (ascii "manifests/" ++ (before ++ b':' ∷ hash))
    → Lacks b'/' hash
    → Lacks 10 (before ++ b':' ∷ hash)
    → parse_path_components registry (manifest_path name (before ++ b':' ∷ hash))
      ≡ ok (record {
        kind = manifest;
        name = [];
        dgst = before ++ b':' ∷ hash;
        original_registry = registry;
      })
unfolding manifest_digest parse_path_components
parse-manifest registry name before hash named later no_slash one_line =
    rw (no_tag name before hash no_slash, parse_path_components)
      (rw (
        find-found manifest_digest name (ascii "/manifests/" ++ (before ++ b':' ∷ hash))
            (before ++ b':' ∷ hash) named (line-found (before ++ b':' ∷ hash) one_line) later,
        parse_digest,
      ))

-- A digest: an algorithm and a hash, of the bytes that tags have too.
pub record IsDigest (algorithm hash : Str) : Type 0 where
  pub algorithm_bytes : AllOf is_tag_byte algorithm
  pub hash_bytes : AllOf is_tag_byte hash

pub digest-Lacks :
    (b : ℕ) (algorithm hash : Str)
    → is_tag_byte b ≡ false
    → (b':' == b) ≡ false
    → IsDigest algorithm hash
    → Lacks b (algorithm ++ b':' ∷ hash)
digest-Lacks b algorithm hash no_b no_colon d =
    All-append _ algorithm (b':' ∷ hash)
      (Lacks-of_test is_tag_byte b algorithm no_b d.algorithm_bytes)
      (no_colon, Lacks-of_test is_tag_byte b hash no_b d.hash_bytes)

-- A manifest path of a well-formed name and digest stands for that digest.
pub parse-manifest_digest :
    (registry name algorithm hash : Str)
    → is_name name ≡ true
    → IsDigest algorithm hash
    → parse_path_components registry (manifest_path name (algorithm ++ b':' ∷ hash))
      ≡ ok (record {
        kind = manifest;
        name = [];
        dgst = algorithm ++ b':' ∷ hash;
        original_registry = registry;
      })
unfolding is_tag_byte is_tag_start is_name_byte
parse-manifest_digest registry name algorithm hash named d =
    parse-manifest registry name algorithm hash named
      (unfold manifest_digest in
        Nowhere-manifests line (algorithm ++ b':' ∷ hash)
          (digest-Lacks b'/' algorithm hash refl refl d))
      (Lacks-of_test is_tag_byte b'/' hash refl d.hash_bytes)
      (digest-Lacks 10 algorithm hash refl refl d)
