-- ===== src/Oci/Client.antt =====
-- The interface of the image store: pkg/oci/oci.go.
use spegel.Base.{ℕ, Str, List, Result}
use spegel.Oci.Image.{Image}

-- What the store answers, at one state of the store. A reader is the bytes that it yields.
pub record Client : Type 0 where
  pub list_images : Result (List Image)
  pub all_identifiers : Image → Result (List Str)
  pub resolve : Str → Result Str
  pub size : Str → Result ℕ
  pub get_manifest : Str → Result (Str × Str)
  pub get_blob : Str → Result Str
