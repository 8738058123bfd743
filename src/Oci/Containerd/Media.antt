-- ===== src/Oci/Containerd/Media.antt =====
-- Where the bytes and the media types of `GetManifest` come from: pkg/oci/containerd.go.
use spegel.Base.{
  String, subst, ◌≡◌, ◌∙◌, refl, ap, Str, ascii, str_eq, str_eq_iff, is_empty, true, false, not,
  Bool-cases, inl, inr, Option, none, some, List, [], ◌∷◌, ◌++◌, Result, ok, err, ok_injective,
  if◌then◌else◌, arith, bind_ok,
}
use spegel.Oci.Containerd.{
  with_context, is_image_config, get_content_filter, look_for_parent, parent_of, media_type_in,
  or_error, media_type_of_parent, media_type_by_parent, first_target, lookup_media_type,
  fallback_media_type, get_manifest,
}
use spegel.Oci.Containerd.Backend.{Descriptor, Manifest, ImageConfig, StoredImage, Services, bare}

-- A document that names descriptors.
pub data Names (s : Services) (b : Str) : List Descriptor → Type 0 where
  index : (ds : List Descriptor) → s.unmarshal_index b ≡ ok ds → Names s b ds
  layers : (m : Manifest) → s.unmarshal_manifest b ≡ ok m → Names s b (m.config ∷ m.layers)

-- What says that the content of a digest, which is `b`, has a media type.
pub data Typed (s : Services) (dgst b : Str) : Str → Type 0 where
  declared : (mt : Str) → s.unmarshal_unknown b ≡ ok mt → is_empty mt ≡ false → Typed s dgst b mt
  as_config :
      (ic : ImageConfig)
      → s.unmarshal_image b ≡ ok ic
      → is_image_config ic ≡ true
      → Typed s dgst b s.image_config
  as_target :
      (img : StoredImage) (imgs : List StoredImage)
      → s.service_images (ascii "target.digest==" ++ dgst) ≡ ok (img ∷ imgs)
      → Typed s dgst b img.target.media_type
  in_parent :
      (parent c : Str) (before after : List Descriptor) (d : Descriptor)
      → s.read_blob (bare parent) ≡ ok c
      → Names s c (before ++ d ∷ after)
      → d.dgst ≡ dgst
      → Typed s dgst b d.media_type

-- The place of the descriptor that is found.
media_type_in-found :
    (dgst mt : Str) (ds : List Descriptor)
    → media_type_in dgst ds ≡ some mt
    → (before : List Descriptor) × (d : Descriptor) × (after : List Descriptor) × (ds
        ≡ before ++ d ∷ after)
      × (d.dgst ≡ dgst)
      × (d.media_type ≡ mt)
unfolding media_type_in
media_type_in-found dgst mt [] e = cc
media_type_in-found dgst mt (d ∷ ds) e = elim (Bool-cases (str_eq d.dgst dgst)) [
  | inl same ↦ ([], d, ds, refl, (str_eq_iff d.dgst dgst).0 same, ground (arith, e))
  | inr other ↦
      let (before, f, after, split, named, typed) =
        media_type_in-found dgst mt ds (rw other at e) in
      (d ∷ before, f, after, ap (λ r. d ∷ r) split, named, typed)
]

module _ (s : Services) (dgst b : Str) where
  child-Typed :
      (parent c mt : Str) (ds : List Descriptor)
      → s.read_blob (bare parent) ≡ ok c
      → Names s c ds
      → media_type_in dgst ds ≡ some mt
      → Typed s dgst b mt
  child-Typed parent c mt ds read names e =
      let (before, d, after, split, named, typed) = media_type_in-found dgst mt ds e in
      subst (Typed s dgst b) typed
        (in_parent parent c before after d read (subst (Names s c) split names) named)

  or_error-some : (o : Option Str) (mt : Str) → or_error o ≡ ok mt → o ≡ some mt
  or_error-some none mt e = cc
  or_error-some (some t) mt e = cc

  media_type_of_parent-Typed :
      (parent c mt : Str) (ds : List Descriptor)
      → s.read_blob (bare parent) ≡ ok c
      → s.unmarshal_index c ≡ ok ds
      → (o : Option Str) → media_type_in dgst ds ≡ o
      → media_type_of_parent s dgst c o ≡ ok mt
      → Typed s dgst b mt
  unfolding media_type_of_parent
  media_type_of_parent-Typed parent c mt ds read decoded (some t) found e =
      child-Typed parent c mt ds read (index ds decoded) (found ∙ ap some (ok_injective e))
  media_type_of_parent-Typed parent c mt ds read decoded none found e =
      let (m, manifest, last) = bind_ok (s.unmarshal_manifest c) _ mt e in
      child-Typed parent c mt (m.config ∷ m.layers) read (layers m manifest)
        (or_error-some _ mt last)

  media_type_by_parent-Typed : (mt : Str) → media_type_by_parent s dgst ≡ ok mt → Typed s dgst b mt
  unfolding media_type_by_parent
  media_type_by_parent-Typed mt e =
      let (info, _, e1) = bind_ok (s.info dgst) _ mt e in
      let (filter, _, e2) = bind_ok (get_content_filter s info.labels) _ mt e1 in
      let (parent, _, e3) =
        bind_ok (parent_of (s.walk_content (look_for_parent dgst) filter [])) _ mt e2 in
      let (c, read, e4) = bind_ok (s.read_blob (bare parent)) _ mt e3 in
      let (ds, decoded, e5) = bind_ok (s.unmarshal_index c) _ mt e4 in
      media_type_of_parent-Typed parent c mt ds read decoded (media_type_in dgst ds) refl e5

  first_target-Typed :
      (mt : Str) (imgs : List StoredImage)
      → s.service_images (ascii "target.digest==" ++ dgst) ≡ ok imgs
      → first_target s dgst imgs ≡ ok mt
      → Typed s dgst b mt
  first_target-Typed mt [] listed e = media_type_by_parent-Typed mt e
  first_target-Typed mt (img ∷ imgs) listed e =
      subst (Typed s dgst b) (ok_injective e) (as_target img imgs listed)

  with_context-ok :
      (text : String) (args : List Str) (r : Result Str) (mt : Str)
      → with_context text args r ≡ ok mt
      → r ≡ ok mt
  with_context-ok text args (ok t) mt e = e
  with_context-ok text args (err f) mt e = cc

  lookup_media_type-Typed : (mt : Str) → lookup_media_type s dgst ≡ ok mt → Typed s dgst b mt
  unfolding lookup_media_type
  lookup_media_type-Typed mt e =
      let (imgs, listed, e1) =
        bind_ok (s.service_images (ascii "target.digest==" ++ dgst)) _ mt e in
      first_target-Typed mt imgs listed e1

  fallback-Typed : (mt : Str) → fallback_media_type s dgst b ≡ ok mt → Typed s dgst b mt
  unfolding fallback_media_type
  fallback-Typed mt e =
      let (ic, decoded, e1) = bind_ok (s.unmarshal_image b) _ mt e in
      elim (Bool-cases (is_image_config ic)) [
        | inl yes_config ↦
            subst (Typed s dgst b) (ok_injective (rw yes_config at e1))
              (as_config ic decoded yes_config)
        | inr no_config ↦
            lookup_media_type-Typed mt
              (with_context-ok _ _ (lookup_media_type s dgst) mt (rw no_config at e1))
      ]

  chosen-Typed :
      (t mt : Str)
      → s.unmarshal_unknown b ≡ ok t
      → (if not (is_empty t) then ok t else fallback_media_type s dgst b) ≡ ok mt
      → Typed s dgst b mt
  chosen-Typed [] mt unknown e = fallback-Typed mt e
  chosen-Typed (c ∷ t) mt unknown e =
      subst (Typed s dgst b) (ok_injective e) (declared (c ∷ t) unknown refl)

-- What `GetManifest` returns are the bytes that the store has of the digest, and a media type that is
-- the one that the bytes declare, or that of an image configuration if they are one, or that of an
-- image whose target is the digest, or the one that an index or a manifest of the store gives to the
-- digest.
pub get_manifest-Typed :
    (s : Services) (dgst b mt : Str)
    → get_manifest (ok s) dgst ≡ ok (b, mt)
    → (s.read_blob (bare dgst) ≡ ok b) × Typed s dgst b mt
unfolding get_manifest
get_manifest-Typed s dgst b mt e =
    let (c, read, e1) = bind_ok (s.read_blob (bare dgst)) _ (b, mt) e in
    let (t, unknown, e2) = bind_ok (s.unmarshal_unknown c) _ (b, mt) e1 in
    let (u, chosen, e3) =
      bind_ok (if not (is_empty t) then ok t else fallback_media_type s dgst c) _ (b, mt) e2 in
    let same = ok_injective e3 in
    (
      read ∙ ap (λ p. ok p.0) same,
      subst (λ p. Typed s dgst p.0 p.1) same (chosen-Typed s dgst c t u unknown chosen),
    )
