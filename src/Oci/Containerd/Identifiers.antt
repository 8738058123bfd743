-- ===== src/Oci/Containerd/Identifiers.antt =====
-- Which keys `AllIdentifiers` of pkg/oci/containerd.go finds.
use mathlib.Core.List.{Mem, mem-append_left, mem-append_right, mem-cons_self, map, map-append}
use spegel.Base.{
  ◌≡◌, ◌∙◌, refl, ap, subst, Str, true, false, Bool-cases, Result-cases, inl, inr, Option, none,
  some, List, [], ◌∷◌, ◌++◌, Result, ok, err, Error,
}
use spegel.Oci.Image.{Image}
use spegel.Oci.Containerd.{
  is_index, is_manifest, only_local, some_local, index_children, manifest_at, manifest_keys,
  identify, found_keys, all_identifiers,
}
use spegel.Oci.Containerd.Backend.{Descriptor, Manifest, Info, StoredImage, Services}
use spegel.Oci.Containerd.Walks.{Walked, IsWalk, Walked-cons, Walked-append, Walked-keeps}

-- What an image is made of, as far as the store has it: its own digest, the parts of the manifests
-- of an index that exist locally, and the configuration and the layers of a manifest.
pub data Part (s : Services) : Descriptor → Str → Type 0 where
  itself : {d : Descriptor} → Part s d d.dgst
  local_manifest :
      {d : Descriptor} (m : Descriptor) (before after : List Descriptor) (b : Str) {x : Str}
      (i : Info)
      → is_index s d.media_type ≡ true
      → s.read_blob d ≡ ok b
      → s.unmarshal_index b ≡ ok (before ++ m ∷ after)
      → s.info m.dgst ≡ ok i
      → Part s m x
      → Part s d x
  config :
      {d : Descriptor} (b : Str) (m : Manifest)
      → is_index s d.media_type ≡ false
      → is_manifest s d.media_type ≡ true
      → s.read_blob d ≡ ok b
      → s.unmarshal_manifest b ≡ ok m
      → Part s d m.config.dgst
  layer :
      {d : Descriptor} (l : Descriptor) (before after : List Descriptor) (b : Str) (m : Manifest)
      → is_index s d.media_type ≡ false
      → is_manifest s d.media_type ≡ true
      → s.read_blob d ≡ ok b
      → s.unmarshal_manifest b ≡ ok m
      → m.layers ≡ before ++ l ∷ after
      → Part s d l.dgst

module _ (s : Services) where
  manifest_keys-keeps :
      (r : Result Manifest) (x : Str) (ks : List Str) → Mem x ks → Mem x (manifest_keys r ks).1
  manifest_keys-keeps (err e) x ks m = m
  manifest_keys-keeps (ok man) x ks m = mem-append_left _ (mem-append_left _ m)

  identify-keeps_seen :
      (x : Str) (d : Descriptor) (ks : List Str)
      → Mem x (ks ++ d.dgst ∷ [])
      → Mem x (identify s d ks).1
  unfolding identify
  identify-keeps_seen x d ks m = elim (Bool-cases (is_index s d.media_type)) [
    | inl index ↦ rw index m
    | inr other ↦ elim (Bool-cases (is_manifest s d.media_type)) [
      | inl man ↦ rw (other, man) (manifest_keys-keeps (manifest_at s d) x _ m)
      | inr unknown ↦ rw (other, unknown) m
    ]
  ]

  identify-keeps : (x : Str) (d : Descriptor) (ks : List Str) → Mem x ks → Mem x (identify s d ks).1
  identify-keeps x d ks m = identify-keeps_seen x d ks (mem-append_left _ m)

  identify-self : (d : Descriptor) (ks : List Str) → Mem d.dgst (identify s d ks).1
  identify-self d ks = identify-keeps_seen d.dgst d ks (mem-append_right _ mem-cons_self)

  only_local-append :
      (xs ys : List Descriptor) → only_local s (xs ++ ys) ≡ only_local s xs ++ only_local s ys
  unfolding only_local
  only_local-append [] ys = refl
  only_local-append (x ∷ xs) ys = elim (Result-cases (s.info x.dgst)) [
    | inl (e, gone) ↦ rw (gone, only_local) (only_local-append xs ys)
    | inr (i, there) ↦ rw (there, only_local) (ap (λ r. x ∷ r) (only_local-append xs ys))
  ]

  pub some_local-ok :
      (d : Descriptor) (ds children : List Descriptor)
      → some_local d ds ≡ ok children
      → children ≡ ds
  some_local-ok d [] children e = cc
  some_local-ok d (x ∷ ds) children e = cc

  -- The children of an index whose walk went on.
  index-children :
      (d m : Descriptor) (before after children : List Descriptor) (b : Str) (i : Info)
      → (ks seen : List Str) → is_index s d.media_type ≡ true
      → s.read_blob d ≡ ok b
      → s.unmarshal_index b ≡ ok (before ++ m ∷ after)
      → s.info m.dgst ≡ ok i
      → identify s d ks ≡ (ok children, seen)
      → children ≡ only_local s before ++ m ∷ only_local s after
  unfolding identify index_children only_local
  index-children d m before after children b i ks seen index read decoded there e =
      some_local-ok d _ children (ap (λ r. r.0) (rw (index, read, decoded) at e))
      ∙ only_local-append before (m ∷ after)
      ∙ rw (there, only_local) refl

  manifest-keys :
      (d : Descriptor) (b : Str) (m : Manifest) (ks : List Str)
      → is_index s d.media_type ≡ false
      → is_manifest s d.media_type ≡ true
      → s.read_blob d ≡ ok b
      → s.unmarshal_manifest b ≡ ok m
      → (identify s d ks).1
        ≡ ((ks ++ d.dgst ∷ []) ++ m.config.dgst ∷ []) ++ map (λ l. l.dgst) m.layers
  unfolding identify manifest_at
  manifest-keys d b m ks other man read decoded = rw (other, man, read, decoded) refl

  seen-found :
      (x : Str) (d : Descriptor) (after : List Descriptor) (keys found : List Str)
      → Mem x (identify s d keys).1
      → Walked (identify s) (d ∷ after) keys found
      → Mem x found
  seen-found x d after keys found m w =
      let (children, seen, below, e, down, next) = Walked-cons (identify s) d after keys found w in
      Walked-keeps (identify s) x (identify-keeps x) next
        (Walked-keeps (identify s) x (identify-keeps x) down (subst (λ r. Mem x r.1) e m))

  layer-Mem :
      (before after : List Descriptor) (l : Descriptor) (m : Manifest)
      → m.layers ≡ before ++ l ∷ after
      → Mem l.dgst (map (λ d. d.dgst) m.layers)
  layer-Mem before after l m e =
      rw (e, map-append (λ (d : Descriptor). d.dgst) before (l ∷ after))
        (mem-append_right _ mem-cons_self)

  -- A walk that visits an image finds all of its parts.
  Walked-Part :
      {d : Descriptor} {x : Str}
      → Part s d x
      → (after : List Descriptor) (keys found : List Str)
      → Walked (identify s) (d ∷ after) keys found
      → Mem x found
  Walked-Part {d} itself after keys found w =
      seen-found d.dgst d after keys found (identify-self d keys) w
  Walked-Part {d} (config b m other man read decoded) after keys found w =
      seen-found m.config.dgst d after keys found
        (rw (manifest-keys d b m keys other man read decoded)
          (mem-append_left _ (mem-append_right _ mem-cons_self)))
        w
  Walked-Part {d} (layer l lower upper b m other man read decoded layers) after keys found w =
      seen-found l.dgst d after keys found
        (rw (manifest-keys d b m keys other man read decoded)
          (mem-append_right _ (layer-Mem lower upper l m layers)))
        w
  Walked-Part {d} {x} (local_manifest m lower upper b i index read decoded there part) after keys
        found w =
      let (children, seen, below, e, down, next) = Walked-cons (identify s) d after keys found w in
      let same = index-children d m lower upper children b i keys seen index read decoded there e in
      let (between, _, right) =
        Walked-append (identify s) (only_local s lower) (m ∷ only_local s upper) seen below
          (subst (λ ds. Walked (identify s) ds seen below) same down) in
      Walked-keeps (identify s) x (identify-keeps x) next
        (Walked-Part part (only_local s upper) between below right)

  pub found_keys-ok :
      (r : Option Error × List Str) (keys : List Str) → found_keys r ≡ ok keys → r ≡ (none, keys)
  found_keys-ok (some e, ks) keys h = cc
  found_keys-ok (none, []) keys h = cc
  found_keys-ok (none, k ∷ ks) keys h = cc

  -- With a walk as containerd documents it, the keys that `AllIdentifiers` returns of an image hold
  -- every part that the store has of the image's target.
  pub all_identifiers-Part :
      (img : Image) (stored : StoredImage) (keys : List Str) (x : Str)
      → IsWalk s.walk_images
      → s.service_image img.name ≡ ok stored
      → all_identifiers (ok s) img ≡ ok keys
      → Part s stored.target x
      → Mem x keys
  unfolding all_identifiers
  all_identifiers-Part img stored keys x walks found e part =
      Walked-Part part [] [] keys
        (walks (identify s) (stored.target ∷ []) [] keys (found_keys-ok _ keys (rw found at e)))
