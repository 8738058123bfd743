-- ===== src/Registry/Distribution/Blobs.antt =====
-- Which references the paths of blobs stand for: `parsePathComponents` of
-- pkg/registry/distribution.go.
use mathlib.Core.List.{append_assoc}
use spegel.Base.{
  All-append, ◌≡◌, ◌∙◌, refl, ap, Str, ascii, contains, true, false, none, some, [], ◌∷◌, ◌++◌,
  Result, ok,
}
use spegel.Base.Cuts.{Lacks}
use spegel.Url.Plain.{Lacks-of_test}
use spegel.Registry.Distribution.{
  Reference, manifest, blob, is_tag_byte, is_tag_start, is_name_byte, whole_tag, line, find,
  manifest_tag, manifest_digest, blobs_digest, parse_digest, parse_path_components,
}
use spegel.Registry.Distribution.Searching.{is_name, find-none, find-found}
use spegel.Registry.Distribution.Searching.Absence.{Nowhere-blobs, Nowhere-contains}
use spegel.Registry.Distribution.Paths.{
  parse-manifest, digest-Lacks, line-found, IsDigest, blob_path, manifest_path,
}

no_manifest_tag :
    (path : Str) → contains path (ascii "/manifests/") ≡ false → find manifest_tag path ≡ none
unfolding manifest_tag
no_manifest_tag path h =
    find-none manifest_tag path (Nowhere-contains b'/' (ascii "manifests/") whole_tag path h)

no_manifest_digest :
    (path : Str) → contains path (ascii "/manifests/") ≡ false → find manifest_digest path ≡ none
unfolding manifest_digest
no_manifest_digest path h =
    find-none manifest_digest path (Nowhere-contains b'/' (ascii "manifests/") line path h)

find-blob :
    (name algorithm hash : Str)
    → is_name name ≡ true
    → IsDigest algorithm hash
    → find blobs_digest (blob_path name (algorithm ++ b':' ∷ hash))
      ≡ some (name, algorithm ++ b':' ∷ hash)
unfolding blobs_digest is_tag_byte is_tag_start is_name_byte
find-blob name algorithm hash named d =
    find-found blobs_digest name (ascii "/blobs/" ++ (algorithm ++ b':' ∷ hash))
      (algorithm ++ b':' ∷ hash) named
      (line-found (algorithm ++ b':' ∷ hash) (digest-Lacks 10 algorithm hash refl refl d))
      (Nowhere-blobs line (algorithm ++ b':' ∷ hash) (digest-Lacks b'/' algorithm hash refl refl d))

-- A blob path of a well-formed name and digest stands for that digest, if it does not hold
-- `/manifests/`.
pub parse-blob :
    (registry name algorithm hash : Str)
    → is_name name ≡ true
    → IsDigest algorithm hash
    → contains (blob_path name (algorithm ++ b':' ∷ hash)) (ascii "/manifests/") ≡ false
    → parse_path_components registry (blob_path name (algorithm ++ b':' ∷ hash))
      ≡ ok (record {
        kind = blob;
        name = [];
        dgst = algorithm ++ b':' ∷ hash;
        original_registry = registry;
      })
unfolding parse_path_components
parse-blob registry name algorithm hash named d plain =
    rw (no_manifest_tag (blob_path name (algorithm ++ b':' ∷ hash)) plain, parse_path_components)
      (rw (no_manifest_digest (blob_path name (algorithm ++ b':' ∷ hash)) plain, parse_digest)
        (rw (find-blob name algorithm hash named d, parse_digest)))

abbrev manifest_of : Str → Str → Result Reference
manifest_of registry dgst =
    ok (record { kind = manifest; name = []; dgst = dgst; original_registry = registry })

module _ (name rest algorithm hash : Str) where
  -- The same bytes, as the text before the last colon and the text behind it.
  misread :
      (rest ++ ascii "/blobs/" ++ algorithm) ++ b':' ∷ hash
      ≡ rest ++ (ascii "/blobs/" ++ (algorithm ++ b':' ∷ hash))
  misread = simp append_assoc

  misread_path :
      blob_path (name ++ (ascii "/manifests/" ++ rest)) (algorithm ++ b':' ∷ hash)
      ≡ manifest_path name ((rest ++ ascii "/blobs/" ++ algorithm) ++ b':' ∷ hash)
  misread_path = simp append_assoc

  misread-one_line :
      IsDigest algorithm hash
      → Lacks 10 rest
      → Lacks 10 ((rest ++ ascii "/blobs/" ++ algorithm) ++ b':' ∷ hash)
  unfolding is_tag_byte is_tag_start is_name_byte
  misread-one_line d one_line = rw misread (
      All-append _ rest (ascii "/blobs/" ++ (algorithm ++ b':' ∷ hash)) one_line (
        All-append _ (ascii "/blobs/") (algorithm ++ b':' ∷ hash)
          (refl, (refl, (refl, (refl, (refl, (refl, (refl, tt)))))))
          (digest-Lacks 10 algorithm hash refl refl d)))

  -- Of a repository with a component `manifests` behind a well-formed name, the path of a blob with a
  -- well-formed digest is taken for the path of a manifest, whose digest is the rest of the name with
  -- the blob's digest, if that rest is one line and no other `/manifests/` follows.
  pub parse-blob_as_manifest :
      (registry : Str)
      → is_name name ≡ true
      → IsDigest algorithm hash
      → Lacks 10 rest
      → contains
          (ascii "manifests/" ++ (rest ++ (ascii "/blobs/" ++ (algorithm ++ b':' ∷ hash))))
          (ascii "/manifests/")
        ≡ false
      → parse_path_components registry
          (blob_path (name ++ (ascii "/manifests/" ++ rest)) (algorithm ++ b':' ∷ hash))
        ≡ ok (record {
          kind = manifest;
          name = [];
          dgst = rest ++ (ascii "/blobs/" ++ (algorithm ++ b':' ∷ hash));
          original_registry = registry;
        })
  parse-blob_as_manifest registry named d one_line plain =
      ap (parse_path_components registry) misread_path
      ∙ parse-manifest registry name (rest ++ ascii "/blobs/" ++ algorithm) hash named
          (unfold manifest_digest in
            Nowhere-contains b'/' (ascii "manifests/") line _
              (ap (λ x. contains (ascii "manifests/" ++ x) (ascii "/manifests/")) misread ∙ plain))
          (unfold is_tag_byte is_tag_start is_name_byte in
            Lacks-of_test is_tag_byte b'/' hash refl d.hash_bytes)
          (misread-one_line d one_line)
      ∙ ap (manifest_of registry) misread
