-- ===== src/Tests/Walk.antt =====
-- A walk as containerd documents it, to some depth, and the theorems on the client of containerd at a
-- store with an index, two manifests of which one exists locally, and an image of the index.
use mathlib.Core.List.{Mem}
use spegel.Base.{
  ℕ, zero, suc, ◌≡◌, refl, sym, ap, Str, ascii, str_eq, Option, none, some, List, [], ◌∷◌, Result,
  ok, err, Error, error, if◌then◌else◌,
}
use spegel.Oci.Image.{Image}
use spegel.Oci.Containerd.{identify, all_identifiers, index_children, manifest_at, only_local}
use spegel.Oci.Containerd.Backend.{
  Descriptor, Manifest, Info, StoredImage, Services, Handler, walked,
}
use spegel.Base.{All, contains, cut, cut_last, all, has_prefix}
use spegel.Url
use spegel.Url.Escape.{unescape}
use spegel.Oci.Image
use spegel.Oci.Containerd.{
  parsed_images, list_images, get_manifest, fallback_media_type, is_image_config, lookup_media_type,
  media_type_by_parent, get_content_filter, media_type_in, media_type_of_parent,
}
use spegel.Oci.Containerd.Backend.{bare}
use spegel.Oci.Containerd.Soundness.{all_identifiers-All}
use spegel.Oci.Image.{ImageEvent, create, delete}
use spegel.Oci.Containerd.Media.{Typed, get_manifest-Typed}
use spegel.Oci.Containerd.Walks.{Walked, nothing, visit, IsWalk}
use spegel.Oci.Containerd.Identifiers.{Part, layer, local_manifest, all_identifiers-Part}
use spegel.Tests.Data.{alpine}

module _ (walk : Handler → List Descriptor → List Str → Option Error × List Str) where
  unfoldable pub next_images :
      Handler → List Descriptor → Option Error × List Str → Option Error × List Str
  next_images h ds (some e, below) = (some e, below)
  next_images h ds (none, below) = walk h ds below

  unfoldable pub visit_image :
      Handler → List Descriptor → Result (List Descriptor) × List Str → Option Error × List Str
  unfolding next_images
  visit_image h ds (err e, seen) = (some e, seen)
  visit_image h ds (ok children, seen) = next_images h ds (walk h children seen)

unfoldable pub walk_to : ℕ → Handler → List Descriptor → List Str → Option Error × List Str
unfolding visit_image
walk_to zero h ds keys = (some (error "too deep"), keys)
walk_to (suc depth) h [] keys = (none, keys)
walk_to (suc depth) h (d ∷ ds) keys = visit_image (walk_to depth) h ds (h d keys)

module _ (walk : Handler → List Descriptor → List Str → Option Error × List Str)
    (walks : IsWalk walk) where
  next_images-Walked :
      (h : Handler) (d : Descriptor) (ds children : List Descriptor) (keys seen after : List Str)
      → (r : Option Error × List Str) → h d keys ≡ (ok children, seen)
      → walk h children seen ≡ r
      → next_images walk h ds r ≡ (none, after)
      → Walked h (d ∷ ds) keys after
  unfolding next_images
  next_images-Walked h d ds children keys seen after (some e, below) here down rest = cc
  next_images-Walked h d ds children keys seen after (none, below) here down rest =
      visit here (walks h children seen below down) (walks h ds below after rest)

  visit_image-Walked :
      (h : Handler) (d : Descriptor) (ds : List Descriptor) (keys after : List Str)
      → (r : Result (List Descriptor) × List Str) → h d keys ≡ r
      → visit_image walk h ds r ≡ (none, after)
      → Walked h (d ∷ ds) keys after
  unfolding visit_image
  visit_image-Walked h d ds keys after (err e, seen) here rest = cc
  visit_image-Walked h d ds keys after (ok children, seen) here rest =
      next_images-Walked h d ds children keys seen after (walk h children seen) here refl rest

walk_to-nil :
    (depth : ℕ) (h : Handler) (keys after : List Str)
    → walk_to (suc depth) h [] keys ≡ (none, after)
    → keys ≡ after
unfolding walk_to
walk_to-nil depth h keys after e = ap (λ r. r.1) e

pub walk_to-IsWalk : (depth : ℕ) → IsWalk (walk_to depth)
unfolding walk_to
walk_to-IsWalk zero h ds keys after e = cc
walk_to-IsWalk (suc depth) h [] keys after e = rw (sym (walk_to-nil depth h keys after e)) nothing
walk_to-IsWalk (suc depth) h (d ∷ ds) keys after e =
    visit_image-Walked (walk_to depth) (walk_to-IsWalk depth) h d ds keys after (h d keys) refl e

abbrev pub first_manifest : Descriptor
first_manifest = record { media_type = ascii "manifest"; dgst = ascii "m1" }

abbrev pub second_manifest : Descriptor
second_manifest = record { media_type = ascii "manifest"; dgst = ascii "m2" }

abbrev pub layer_blob : Descriptor
layer_blob = record { media_type = ascii "layer"; dgst = ascii "l" }

abbrev pub only_manifest : Manifest
only_manifest = record {
  config = record { media_type = ascii "config"; dgst = ascii "c" };
  layers = layer_blob ∷ [];
}

abbrev the_image : StoredImage
the_image = record {
  name = alpine.name;
  target = record { media_type = ascii "index"; dgst = ascii "i" };
}

abbrev pub an_info : Str → Info
an_info dgst = record {
  dgst = dgst;
  size = 3;
  labels = (ascii "containerd.io/distribution.source.a", ascii "b") ∷ [];
}

abbrev local_info : Str → Result Info
local_info dgst = if str_eq dgst (ascii "m2") then err (error "not found") else ok (an_info dgst)

abbrev services : Services
services = record {
  docker_manifest_list = ascii "docker-list";
  image_index = ascii "index";
  docker_manifest = ascii "docker-manifest";
  image_manifest = ascii "manifest";
  image_config = ascii "config";
  get_image = λ name. ok the_image;
  list_images = λ filter. ok (the_image ∷ []);
  service_image = λ name. ok the_image;
  service_images = λ filter. ok [];
  info = local_info;
  read_blob = λ d. ok d.dgst;
  reader_at = λ d. ok d.dgst;
  walk_images = walk_to 5;
  walk_content = λ f filter parent. (walked, (f (an_info (ascii "i")) parent).1);
  quoted = λ k. k;
  unmarshal_index = λ b. ok (first_manifest ∷ second_manifest ∷ []);
  unmarshal_manifest = λ b. ok only_manifest;
  unmarshal_image = λ b. ok (record { architecture = []; os = []; root_fs_type = [] });
  unmarshal_unknown = λ b. ok [];
}

abbrev image_keys : List Str
image_keys = ascii "i" ∷ ascii "m1" ∷ ascii "c" ∷ ascii "l" ∷ []

keys_found : all_identifiers (ok services) alpine ≡ ok image_keys
unfolding all_identifiers walk_to identify index_children only_local manifest_at str_eq
keys_found = refl

layer_of_image : Part services the_image.target (ascii "l")
unfolding str_eq
layer_of_image =
    local_manifest first_manifest [] (second_manifest ∷ []) (ascii "i") (an_info (ascii "m1")) refl
      refl refl refl (layer layer_blob [] [] (ascii "m1") only_manifest refl refl refl refl refl)

all_identifiers-Part_example : Mem (ascii "l") image_keys
all_identifiers-Part_example =
    all_identifiers-Part services alpine the_image image_keys (ascii "l") (walk_to-IsWalk 5) refl
      keys_found layer_of_image

all_identifiers-All_example : All (Part services the_image.target) image_keys
all_identifiers-All_example =
    all_identifiers-All services alpine the_image image_keys (walk_to-IsWalk 5) refl keys_found

-- The store with an image by whose name the reference is parsed.
abbrev pub named_image : StoredImage
named_image = record the_image {
  target = record { media_type = ascii "index"; dgst = ascii "sha256:ab" };
}

abbrev pub listing : Services
listing = record services {
  get_image = λ name. ok named_image;
  list_images = λ filter. ok (named_image ∷ []);
}

listed : list_images (ok listing) [] ≡ ok (alpine ∷ [])
unfolding list_images parsed_images Image.parse contains Url.parse cut str_eq cut_last all unescape
    Image.of_url Image.new_image
listed = refl

-- The media type of a layer, which the manifest that its label leads to names.
abbrev labelled : Services
labelled = record services {
  unmarshal_index = λ b. ok [];
  info = λ dgst. ok (an_info dgst);
  walk_content = λ f filter parent. (walked, ascii "m1");
}

layer_typed : get_manifest (ok labelled) (ascii "l") ≡ ok (ascii "l", ascii "layer")
unfolding get_manifest fallback_media_type is_image_config lookup_media_type media_type_by_parent
    get_content_filter media_type_in media_type_of_parent has_prefix str_eq
layer_typed = refl

get_manifest-Typed_example :
    (labelled.read_blob (bare (ascii "l")) ≡ ok (ascii "l"))
    × Typed labelled (ascii "l") (ascii "l") (ascii "layer")
get_manifest-Typed_example =
    get_manifest-Typed labelled (ascii "l") (ascii "l") (ascii "layer") layer_typed
