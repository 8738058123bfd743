-- ===== src/Oci/Mock.antt =====
-- The client for the program's own tests: pkg/oci/mock.go.
use spegel.Base.{List, [], ◌∷◌, ok}
use spegel.Oci.Image.{Image}
use spegel.Oci.Client.{Client}

-- `MockClient`, by its images; a reader that is nil yields nothing.
abbrev pub mock_client : List Image → Client
mock_client images = record {
  list_images = ok images;
  all_identifiers = λ img. ok (img.digest ∷ []);
  resolve = λ ref. ok [];
  size = λ dgst. ok 0;
  get_manifest = λ dgst. ok ([], []);
  get_blob = λ dgst. ok [];
}
