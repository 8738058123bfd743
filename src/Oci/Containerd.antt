-- ===== src/Oci/Containerd.antt =====
-- The client of containerd: pkg/oci/containerd.go.
--
-- containerd's services, its walks, and the decoding of its documents are parameters.
pub mod Connecting
pub mod Backend
pub mod Walks
pub mod Identifiers
pub mod Soundness
pub mod Events
pub mod Delivering
pub mod Media
pub mod Setup
pub mod Verification
use spegel.Oci.Containerd.Backend.{
  Descriptor, bare, Manifest, ImageConfig, Info, StoredImage, Event, image_create, image_update,
  image_delete, other_event, WalkEnd, walked, skipped_all, walk_failed, Handler, Services,
}
use spegel.Base.{
  ℕ, Str, ascii, str_eq, has_prefix, is_empty, Bool, true, false, not, ◌&&◌, ◌||◌, Option, none,
  some, List, [], ◌∷◌, ◌++◌, map, Result, ok, err, Error, error, errorf, wrapf, ◌>>=◌, String,
  if◌then◌else◌,
}
use spegel.Base.Maps.{Map}
use spegel.Oci.Image
use spegel.Oci.Image.{Image, ImageEvent, EventType, create, update, delete}

-- `fmt.Errorf` around an error, if there is one.
abbrev pub with_context {ℓ} : {A : Type ℓ} → String → List Str → Result A → Result A
with_context text args (ok a) = ok a
with_context text args (err e) = err (wrapf text args e)

-- `ListImages` behind the list of containerd.
unfoldable pub parsed_images : List StoredImage → Result (List Image)
parsed_images [] = ok []
parsed_images (c ∷ cs) = do
  img ← Image.parse c.name c.target.dgst
  imgs ← parsed_images cs
  ok (img ∷ imgs)

-- `client` is what `Client()` returns.
unfoldable pub list_images : Result Services → Str → Result (List Image)
list_images client list_filter = do
  s ← client
  c_imgs ← s.list_images list_filter
  parsed_images c_imgs

unfoldable pub resolve : Result Services → Str → Result Str
resolve client ref = do s ← client; c_img ← s.get_image ref; ok c_img.target.dgst

unfoldable pub size : Result Services → Str → Result ℕ
size client dgst = do s ← client; info ← s.info dgst; ok info.size

abbrev pub is_index : Services → Str → Bool
is_index s mt = str_eq mt s.docker_manifest_list || str_eq mt s.image_index

abbrev pub is_manifest : Services → Str → Bool
is_manifest s mt = str_eq mt s.docker_manifest || str_eq mt s.image_manifest

-- The manifests of an index that exist locally.
unfoldable pub only_local : Services → List Descriptor → List Descriptor
only_local s [] = []
only_local s (m ∷ ms) =
    let rest = only_local s ms in elim (s.info m.dgst) [ err e ↦ rest | ok i ↦ m ∷ rest ]

abbrev pub some_local : Descriptor → List Descriptor → Result (List Descriptor)
some_local desc [] =
    err (
      errorf "could not find any platforms with local content in manifest list: %v"
        (desc.dgst ∷ []))
some_local desc (d ∷ ds) = ok (d ∷ ds)

unfoldable pub index_children : Services → Descriptor → Result (List Descriptor)
index_children s desc = do
  b ← with_context "failed to read blob for manifest list: %w" [] (s.read_blob desc)
  manifests ← s.unmarshal_index b
  some_local desc (only_local s manifests)

unfoldable pub manifest_at : Services → Descriptor → Result Manifest
manifest_at s desc = do
  b ← with_context "failed to read blob for manifest: %w" [] (s.read_blob desc)
  s.unmarshal_manifest b

abbrev pub manifest_keys : Result Manifest → List Str → Result (List Descriptor) × List Str
manifest_keys (err e) keys = (err e, keys)
manifest_keys (ok m) keys = (ok [], (keys ++ m.config.dgst ∷ []) ++ map (λ l. l.dgst) m.layers)

-- The handler that `AllIdentifiers` walks with.
unfoldable pub identify : Services → Handler
identify s desc keys =
    let seen = keys ++ desc.dgst ∷ [] in
    if is_index s desc.media_type
    then (index_children s desc, seen)
    else if is_manifest s desc.media_type
    then manifest_keys (manifest_at s desc) seen
    else (
      err (errorf "unexpected media type %v for digest: %v" (desc.media_type ∷ desc.dgst ∷ [])),
      seen,
    )

abbrev pub found_keys : Option Error × List Str → Result (List Str)
found_keys (some e, keys) = err (wrapf "failed to walk image manifests: %w" [] e)
found_keys (none, []) = err (error "no image digests found")
found_keys (none, k ∷ keys) = ok (k ∷ keys)

unfoldable pub all_identifiers : Result Services → Image → Result (List Str)
all_identifiers client img = do
  s ← client
  c_img ← s.service_image img.name
  found_keys (s.walk_images (identify s) (c_img.target ∷ []) [])

unfoldable pub is_image_config : ImageConfig → Bool
is_image_config ic =
    not (is_empty ic.architecture) && (not (is_empty ic.os) && not (is_empty ic.root_fs_type))

-- `getContentFilter`, over the labels in the order in which `range` yields them.
unfoldable pub get_content_filter : Services → Map Str → Result Str
get_content_filter s [] = err (error "could not find distribution label to create content filter")
get_content_filter s ((k, v) ∷ labels) =
    let rest = get_content_filter s labels in
    if not (has_prefix k (ascii "containerd.io/distribution.source"))
    then rest
    else ok (ascii "labels." ++ (s.quoted k ++ (ascii "==" ++ v)))

-- Whether a label holds the digest.
unfoldable pub has_label : Str → Map Str → Bool
has_label dgst [] = false
has_label dgst ((k, v) ∷ labels) = str_eq v dgst || has_label dgst labels

-- The callback of the walk over the content store; `true` stands for `filepath.SkipAll`.
unfoldable pub look_for_parent : Str → Info → Str → Bool × Str
look_for_parent dgst info parent =
    if has_label dgst info.labels then (true, info.dgst) else (false, parent)

abbrev pub parent_of : WalkEnd × Str → Result Str
parent_of (walk_failed e, parent) = err e
parent_of (walked, []) = err (error "could not find parent")
parent_of (walked, c ∷ parent) = ok (c ∷ parent)
parent_of (skipped_all, []) = err (error "could not find parent")
parent_of (skipped_all, c ∷ parent) = ok (c ∷ parent)

-- The media type that the first descriptor of this digest has.
unfoldable pub media_type_in : Str → List Descriptor → Option Str
media_type_in dgst [] = none
media_type_in dgst (d ∷ ds) =
    if str_eq d.dgst dgst then some d.media_type else media_type_in dgst ds

abbrev pub or_error : Option Str → Result Str
or_error none = err (error "could not find reference in parent")
or_error (some mt) = ok mt

-- The search of the parent's documents, by what the index yielded.
unfoldable pub media_type_of_parent : Services → Str → Str → Option Str → Result Str
media_type_of_parent s dgst b (some mt) = ok mt
media_type_of_parent s dgst b none = do
  m ← s.unmarshal_manifest b
  or_error (media_type_in dgst (m.config ∷ m.layers))

-- `lookupMediaType` behind the list of the images with this target.
unfoldable pub media_type_by_parent : Services → Str → Result Str
media_type_by_parent s dgst = do
  info ← s.info dgst
  filter ← get_content_filter s info.labels
  parent ← parent_of (s.walk_content (look_for_parent dgst) filter [])
  b ← s.read_blob (bare parent)
  manifests ← s.unmarshal_index b
  media_type_of_parent s dgst b (media_type_in dgst manifests)

abbrev pub first_target : Services → Str → List StoredImage → Result Str
first_target s dgst [] = media_type_by_parent s dgst
first_target s dgst (img ∷ imgs) = ok img.target.media_type

unfoldable pub lookup_media_type : Services → Str → Result Str
lookup_media_type s dgst = do
  images ← s.service_images (ascii "target.digest==" ++ dgst)
  first_target s dgst images

-- The media type of `GetManifest`, for a document without one.
unfoldable pub fallback_media_type : Services → Str → Str → Result Str
fallback_media_type s dgst b = do
  ic ← s.unmarshal_image b
  if is_image_config ic
      then ok s.image_config
      else with_context "could not get media type for %s: %w" (dgst ∷ []) (lookup_media_type s dgst)

unfoldable pub get_manifest : Result Services → Str → Result (Str × Str)
get_manifest client dgst = do
  s ← client
  b ← s.read_blob (bare dgst)
  declared ← s.unmarshal_unknown b
  mt ← if not (is_empty declared) then ok declared else fallback_media_type s dgst b
  ok (b, mt)

-- `getEventImage`, where `none` is a nil value.
unfoldable pub get_event_image : Option (Result Event) → Result (Str × EventType)
get_event_image none = err (error "any cannot be nil")
get_event_image (some (err e)) = err (wrapf "failed to unmarshal any: %w" [] e)
get_event_image (some (ok (image_create name))) = ok (name, create)
get_event_image (some (ok (image_update name))) = ok (name, update)
get_event_image (some (ok (image_delete name))) = ok (name, delete)
get_event_image (some (ok other_event)) = err (error "unsupported event type")

-- The image of an event, by its type.
unfoldable pub image_of_event : Services → Str → EventType → Result Image
image_of_event s name delete = Image.parse name []
image_of_event s name create = do c_img ← s.get_image name; Image.parse c_img.name c_img.target.dgst
image_of_event s name update = do c_img ← s.get_image name; Image.parse c_img.name c_img.target.dgst

-- One round of the loop of `Subscribe`: what is sent to the channel of errors or of events.
unfoldable pub receive : Services → Option (Result Event) → Result ImageEvent
receive s envelope = do
  named ← get_event_image envelope
  img ← image_of_event s named.0 named.1
  ok (record { image = img; event_type = named.1 })

-- The loop of `Subscribe`, over the envelopes that are received.
unfoldable pub subscribe : Services → List (Option (Result Event)) → List (Result ImageEvent)
subscribe s [] = []
subscribe s (envelope ∷ later) = receive s envelope ∷ subscribe s later
