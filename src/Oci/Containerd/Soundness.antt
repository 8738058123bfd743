-- ===== src/Oci/Containerd/Soundness.antt =====
-- `AllIdentifiers` of pkg/oci/containerd.go finds no other keys than the parts of the image.
use mathlib.Core.List.{append_assoc}
use spegel.Base.{
  ◌≡◌, ◌∙◌, refl, ap, sym, subst, Str, true, false, Bool-cases, Result-cases, inl, inr, List, [],
  ◌∷◌, ◌++◌, map, Result, ok, err, All, All-append,
}
use spegel.Oci.Image.{Image}
use spegel.Oci.Containerd.{
  is_index, is_manifest, only_local, index_children, manifest_at, manifest_keys, identify,
  all_identifiers,
}
use spegel.Oci.Containerd.Backend.{Descriptor, Manifest, StoredImage, Services}
use spegel.Oci.Containerd.Walks.{Walked, nothing, visit, IsWalk}
use spegel.Oci.Containerd.Identifiers.{
  Part, itself, local_manifest, config, layer, some_local-ok, found_keys-ok,
}

module _ (s : Services) where
  -- What one image is made of is among what another is made of.
  abbrev Within : Descriptor → Descriptor → Type 0
  Within d m = (x : Str) → Part s m x → Part s d x

  locals-Within :
      (d : Descriptor) (b : Str) (before rest : List Descriptor)
      → is_index s d.media_type ≡ true
      → s.read_blob d ≡ ok b
      → s.unmarshal_index b ≡ ok (before ++ rest)
      → All (Within d) (only_local s rest)
  unfolding only_local
  locals-Within d b before [] index read decoded = tt
  locals-Within d b before (m ∷ rest) index read decoded =
      let later =
        locals-Within d b (before ++ m ∷ []) rest index read
          (decoded ∙ ap ok (sym (append_assoc before (m ∷ []) rest))) in
      elim (Result-cases (s.info m.dgst)) [
        | inl (e, gone) ↦ rw (gone, only_local) later
        | inr (i, there) ↦
            rw (there, only_local)
              (λ x part. local_manifest m before rest b i index read decoded there part, later)
      ]

  index_children-Within :
      (d : Descriptor) (children : List Descriptor)
      → is_index s d.media_type ≡ true
      → index_children s d ≡ ok children
      → All (Within d) children
  unfolding index_children
  index_children-Within d children index e = elim (Result-cases (s.read_blob d)) [
    | inl (f, unread) ↦ cc (rw unread at e)
    | inr (b, read) ↦ elim (Result-cases (s.unmarshal_index b)) [
      | inl (f, undecoded) ↦ cc (rw (read, undecoded) at e)
      | inr (ms, decoded) ↦
          rw (some_local-ok s d (only_local s ms) children (rw (read, decoded) at e))
            (locals-Within d b [] ms index read decoded)
    ]
  ]

  no_children :
      (r : Result Manifest) (keys seen : List Str) (children : List Descriptor)
      → manifest_keys r keys ≡ (ok children, seen)
      → children ≡ []
  no_children (err f) keys seen children e = cc (ap (λ r. r.0) e)
  no_children (ok m) keys seen children e = cc (ap (λ r. r.0) e)

  children-Within :
      (d : Descriptor) (keys seen : List Str) (children : List Descriptor)
      → identify s d keys ≡ (ok children, seen)
      → All (Within d) children
  unfolding identify
  children-Within d keys seen children e = elim (Bool-cases (is_index s d.media_type)) [
    | inl index ↦ index_children-Within d children index (ap (λ r. r.0) (rw index at e))
    | inr other ↦ elim (Bool-cases (is_manifest s d.media_type)) [
      | inl man ↦ rw (no_children (manifest_at s d) _ seen children (rw (other, man) at e)) tt
      | inr unknown ↦ cc (ap (λ r. r.0) (rw (other, unknown) at e))
    ]
  ]

  module _ (P : Str → Type 0) where
    layers-All :
        (m : Manifest) (before rest : List Descriptor)
        → ((l : Descriptor) (lower upper : List Descriptor)
            → m.layers ≡ lower ++ l ∷ upper
            → P l.dgst)
        → m.layers ≡ before ++ rest
        → All P (map (λ (l : Descriptor). l.dgst) rest)
    layers-All m before [] p e = tt
    layers-All m before (l ∷ rest) p e = (
      p l before rest e,
      layers-All m (before ++ l ∷ []) rest p (e ∙ sym (append_assoc before (l ∷ []) rest)),
    )

    manifest_keys-All :
        (d : Descriptor) (keys : List Str)
        → is_index s d.media_type ≡ false
        → is_manifest s d.media_type ≡ true
        → ((x : Str) → Part s d x → P x)
        → All P keys
        → All P (manifest_keys (manifest_at s d) keys).1
    unfolding manifest_at
    manifest_keys-All d keys other man p h = elim (Result-cases (s.read_blob d)) [
      | inl (f, unread) ↦ rw unread h
      | inr (b, read) ↦ elim (Result-cases (s.unmarshal_manifest b)) [
        | inl (f, undecoded) ↦ rw (read, undecoded) h
        | inr (m, decoded) ↦
            rw (read, decoded)
              (All-append P (keys ++ m.config.dgst ∷ []) _
                (All-append P keys _ h (p _ (config b m other man read decoded), tt))
                (layers-All m [] m.layers
                  (λ l lower upper e. p _ (layer l lower upper b m other man read decoded e)) refl))
      ]
    ]

    identify-All :
        (d : Descriptor) (keys : List Str)
        → ((x : Str) → Part s d x → P x)
        → All P keys
        → All P (identify s d keys).1
    unfolding identify
    identify-All d keys p h =
        let seen = All-append P keys (d.dgst ∷ []) h (p d.dgst itself, tt) in
        elim (Bool-cases (is_index s d.media_type)) [
          | inl index ↦ rw index seen
          | inr other ↦ elim (Bool-cases (is_manifest s d.media_type)) [
            | inl man ↦ rw (other, man) (manifest_keys-All d _ other man p seen)
            | inr unknown ↦ rw (other, unknown) seen
          ]
        ]

    abbrev Allowed : Descriptor → Type 0
    Allowed d = (x : Str) → Part s d x → P x

    All-Allowed :
        (d : Descriptor) (children : List Descriptor)
        → Allowed d
        → All (Within d) children
        → All Allowed children
    All-Allowed d [] p h = tt
    All-Allowed d (c ∷ cs) p h = (λ x part. p x (h.0 x part), All-Allowed d cs p h.1)

    Walked-All :
        {ds : List Descriptor} {keys after : List Str}
        → Walked (identify s) ds keys after
        → All Allowed ds
        → All P keys
        → All P after
    Walked-All nothing p h = h
    Walked-All (visit {d} {ds} {children} {keys} {seen} e down next) p h = Walked-All next p.1 (
        Walked-All down (All-Allowed d children p.0 (children-Within d keys seen children e))
          (subst (λ r. All P r.1) e (identify-All d keys p.0 h)))

  -- With a walk as containerd documents it, the keys that `AllIdentifiers` returns of an image are
  -- parts that the store has of the image's target, and no others.
  pub all_identifiers-All :
      (img : Image) (stored : StoredImage) (keys : List Str)
      → IsWalk s.walk_images
      → s.service_image img.name ≡ ok stored
      → all_identifiers (ok s) img ≡ ok keys
      → All (Part s stored.target) keys
  unfolding all_identifiers
  all_identifiers-All img stored keys walks found e =
      Walked-All (Part s stored.target)
        (walks (identify s) (stored.target ∷ []) [] keys (found_keys-ok s _ keys (rw found at e)))
        (λ x part. part, tt) tt
