-- ===== src/Tests/Store.antt =====
-- The theorem on the parts of containerd's images at a store with one image, an index.
use mathlib.Core.List.Memᴰ
use mathlib.Core.List.{Memᴰ}
use spegel.Base.{
  ◌≡◌, ◌↔◌, false, refl, sym, ascii, str_eq, All, true, none, [], ◌∷◌, ok, ◌∙◌, ap, contains, cut,
  cut_last, all, join, Str,
}
use spegel.Url
use spegel.Url.Escape.{unescape}
use spegel.Oci.Image
use spegel.Oci.Containerd.{
  identify, all_identifiers, index_children, manifest_at, only_local, list_images, parsed_images,
}
use spegel.Oci.Containerd.Backend.{Services, StoredImage}
use spegel.Oci.Containerd.Identifiers.{Part}
use spegel.Oci.Containerd.Setup.{
  Containerd, Files, containerd_client, Runtime, new_containerd, with_content_path, verify,
  verify_status_response, verify_config, split_list, split_from, has_path, create_filters,
  escape_dots, join_with,
}
use spegel.Oci.Containerd.Verification.{IsVerified, verify-IsVerified}
use spegel.Base.Maps.{lookup}
use spegel.Routing.Memory.{memory_router, advertise}
use spegel.Routing.Memory.Lookups.{Held, memory_router-Keeps}
use spegel.State.{
  all_images, sync_all, sync_image, synced, update_image, provide, has_target, finish,
}
use spegel.State.Parts.{IsStore, all_images-Part}
use spegel.Tests.Data.{start}
use spegel.Tests.Walk.{walk_to, walk_to-IsWalk, named_image, listing}

abbrev pub whole : Services
whole = record listing {
  service_image = λ name. ok named_image;
  unmarshal_unknown = λ b. ok (ascii "index");
}

abbrev pub containerd : Containerd
containerd = record {
  content_path = [];
  list_filter = [];
  event_filter = [];
  registry_config_path = [];
}

abbrev pub files : Files
files = record { algorithm = λ d. d; encoded = λ d. d; open_file = λ p. ok p }

the_only : (c : StoredImage) → Memᴰ c (named_image ∷ []) → c ≡ named_image
the_only c m = Memᴰ.eq_of_singleton m

pub whole-IsStore : IsStore whole [] (named_image ∷ [])
whole-IsStore = record {
  walks = walk_to-IsWalk 5;
  listed = refl;
  by_name = (refl, tt);
  digests = (λ e. cc, tt);
  one_target = λ c d mc md e. ap (λ i. i.target) (the_only c mc ∙ sym (the_only d md));
}

pub whole_clean :
    (all_images memory_router true (containerd_client files (ok whole) containerd) start).0 ≡ none
unfolding all_images containerd_client list_images parsed_images Image.parse contains Url.parse cut
    str_eq cut_last all unescape Image.of_url Image.new_image join sync_all sync_image synced
    update_image provide has_target finish advertise all_identifiers walk_to identify index_children
    only_local manifest_at
whole_clean = refl

all_images-Part_example :
    All
      (λ k.
        (x : Str)
        → Part whole k.target x
        → Held
            (all_images memory_router true
              (containerd_client files (ok whole) containerd)
              start).1.router
            x)
      (named_image ∷ [])
all_images-Part_example =
    all_images-Part memory_router Held memory_router-Keeps whole containerd files (named_image ∷ [])
      true start whole-IsStore whole_clean

-- The paths of the registries are among those of containerd.
abbrev pub runtime : Runtime
runtime = record {
  is_serving = ok true;
  status = ok ((ascii "config", ascii "/etc/a:/etc/b") ∷ []);
  unmarshal_config = λ s. ok (record { config_path = s; discard_unpacked_layers = false });
}

abbrev configured : Containerd
configured =
    new_containerd (ascii "/etc/b") (ascii "docker.io" ∷ [])
      (with_content_path (ascii "/content") ∷ [])

runtime_accepted : verify (ok runtime) configured ≡ none
unfolding new_containerd verify verify_status_response verify_config split_list split_from has_path
    lookup str_eq
runtime_accepted = refl

verify-IsVerified_example :
    (verify (ok runtime) configured ≡ none) ↔ IsVerified runtime configured.registry_config_path
verify-IsVerified_example = verify-IsVerified runtime configured

filters : create_filters (ascii "docker.io" ∷ ascii "gcr.io" ∷ []) ≡ (
  ascii "name~=\"^(docker\\\\.io|gcr\\\\.io)/\"",
  ascii
      "topic~=\"/images/create|/images/update|/images/delete\",event.name~=\"^(docker\\\\.io|gcr\\\\.io)/\"",
)
unfolding create_filters escape_dots join_with
filters = refl
