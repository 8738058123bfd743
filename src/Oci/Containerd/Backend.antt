-- ===== src/Oci/Containerd/Backend.antt =====
-- What pkg/oci/containerd.go uses of containerd, and of the image specification's documents.
use spegel.Base.{ℕ, Str, Bool, Option, List, [], Result, Error}
use spegel.Base.Maps.{Map}

-- What the program reads of the types of containerd and of the image specification.
pub record Descriptor : Type 0 where
  pub media_type : Str
  pub dgst : Str

-- `ocispec.Descriptor{Digest: dgst}`
abbrev pub bare : Str → Descriptor
bare dgst = record { media_type = []; dgst = dgst }

pub record Manifest : Type 0 where
  pub config : Descriptor
  pub layers : List Descriptor

pub record ImageConfig : Type 0 where
  pub architecture : Str
  pub os : Str
  pub root_fs_type : Str

pub record Info : Type 0 where
  pub dgst : Str
  pub size : ℕ
  pub labels : Map Str

pub record StoredImage : Type 0 where
  pub name : Str
  pub target : Descriptor

-- The events of containerd, after their decoding.
pub data Event : Type 0 where
  image_create image_update image_delete : Str → Event
  other_event : Event

-- How a walk over the content store ends: by itself, by `filepath.SkipAll`, or with an error.
pub data WalkEnd : Type 0 where
  walked skipped_all : WalkEnd
  walk_failed : Error → WalkEnd

-- A handler of a walk over images, which appends to the keys.
abbrev pub Handler : Type 0
Handler = Descriptor → List Str → Result (List Descriptor) × List Str

pub record Services : Type 0 where
  pub docker_manifest_list : Str
  pub image_index : Str
  pub docker_manifest : Str
  pub image_manifest : Str
  pub image_config : Str
  pub get_image : Str → Result StoredImage
  pub list_images : Str → Result (List StoredImage)
  pub service_image : Str → Result StoredImage
  pub service_images : Str → Result (List StoredImage)
  pub info : Str → Result Info
  pub read_blob : Descriptor → Result Str
  pub reader_at : Descriptor → Result Str
  pub walk_images : Handler → List Descriptor → List Str → Option Error × List Str
  pub walk_content : (Info → Str → Bool × Str) → Str → Str → WalkEnd × Str
  pub quoted : Str → Str
  pub unmarshal_index : Str → Result (List Descriptor)
  pub unmarshal_manifest : Str → Result Manifest
  pub unmarshal_image : Str → Result ImageConfig
  pub unmarshal_unknown : Str → Result Str
