-- ===== src/State/Mocked.antt =====
-- `all` of pkg/state/state.go with the client of pkg/oci/mock.go.
use spegel.Base.{◌≡◌, ◌∙◌, refl, ap, Str, Bool, true, false, All, none, List, [], ◌∷◌, ok, join}
use spegel.Oci.Image.{Image}
use spegel.Oci.Mock.{mock_client}
use spegel.Routing.Memory.{MemoryRouter, memory_router}
use spegel.State.{
  World, Sync, synced, sync_image, sync_all, all_images, all_listed, has_target, start_sync,
  identifiers,
}
use spegel.Routing.Memory.{add_all, advertise}
use spegel.Routing.Memory.Lookups.{Held, memory_router-Keeps}
use spegel.State.{update_image, provide, finish, count_event, tag_keys}
use spegel.Oci.Image.{update}
use spegel.Base.{length, ◌++◌}
use spegel.Oci.Client.{Client}
use spegel.State.Providing.{Provided}
use spegel.State.Resolving.{all_images-Provided}

update-ok :
    (latest : Bool) (client : Client) (i : Image) (skip : Bool) (w : World MemoryRouter)
    (dgsts : List Str)
    → identifiers client i skip ≡ ok dgsts
    → update_image memory_router latest client (record { image = i; event_type = update }) skip w
      ≡ (
        ok (length (tag_keys latest i ++ dgsts)),
        record w { router = add_all (tag_keys latest i ++ dgsts) w.router },
      )
unfolding update_image provide finish count_event advertise
update-ok latest client i skip w dgsts found = rw (found, provide)

module _ (latest : Bool) (imgs : List Image) where
  chosen :
      (i : Image) (skip : Bool)
      → (dgsts : List Str) × (identifiers (mock_client imgs) i skip ≡ ok dgsts)
  chosen i true = ([], refl)
  chosen i false = (i.digest ∷ [], refl)

  sync_image-errs :
      (i : Image) (st : Sync MemoryRouter)
      → (sync_image memory_router latest (mock_client imgs) i st).errs ≡ st.errs
  unfolding sync_image synced
  sync_image-errs i st =
      let (dgsts, found) = chosen i (has_target i.digest st.targets) in
      rw
        (update-ok latest (mock_client imgs) i (has_target i.digest st.targets) st.world dgsts
          found)
        refl

  sync_all-errs :
      (is : List Image) (st : Sync MemoryRouter)
      → (sync_all memory_router latest (mock_client imgs) is st).errs ≡ st.errs
  unfolding sync_all
  sync_all-errs [] st = refl
  sync_all-errs (i ∷ is) st = sync_all-errs is _ ∙ sync_image-errs i st

  all_images-none :
      (w : World MemoryRouter) → (all_images memory_router latest (mock_client imgs) w).0 ≡ none
  unfolding all_images all_listed join start_sync
  all_images-none w = ap join (sync_all-errs imgs (start_sync w))

  -- With the client for tests, whatever its images: `all` ends with no error, and then each image's
  -- digest, and its tag reference if it is to be advertised, have this node among the peers that the
  -- router in memory finds.
  all_images-mock :
      (w : World MemoryRouter)
      → ((all_images memory_router latest (mock_client imgs) w).0 ≡ none)
        × All
            (Provided latest
              (mock_client imgs)
              (Held (all_images memory_router latest (mock_client imgs) w).1.router))
            imgs
  all_images-mock w =
      let ends = all_images-none w in
      (
        ends,
        all_images-Provided memory_router Held memory_router-Keeps latest (mock_client imgs) imgs w
            (λ i j mi mj e. ap (λ d. ok (d ∷ [])) e) refl ends,
      )
