-- ===== src/State/Providing.antt =====
-- What one image that `all` of pkg/state/state.go synced has at the router, whichever it is.
use spegel.Base.{
  ◌≡◌, refl, Str, Bool, All, All-imp, Result-cases, none, inl, inr, List, [], ◌∷◌, ◌++◌, ok,
}
use spegel.Oci.Image.{Image, update}
use spegel.Oci.Client.{Client}
use spegel.Routing.Router.{Router}
use spegel.Routing.Contract.{Keeps}
use spegel.Base.{Option, some, Error}
use spegel.State.{
  Sync, finish, provide, update_image, synced, sync_image, has_target, identifiers, tag_keys,
}
use spegel.State.Gauges.{snoc-ne-nil}

-- The identifiers that the store gives for the image are among those that are held.
abbrev pub Found : Client → (Str → Type 0) → Image → Type 0
Found client Holds i = (ids : List Str) × (client.all_identifiers i ≡ ok ids) × All Holds ids

-- So are they and the tag reference of the image, if it is to be advertised.
abbrev pub Provided : Bool → Client → (Str → Type 0) → Image → Type 0
Provided latest client Holds i = All Holds (tag_keys latest i) × Found client Holds i

-- The router behind the keys of an image.
unfoldable pub advertised : {S : Type 0} → Router S → Bool → Image → List Str → S → S
advertised router latest i dgsts s = (router.advertise (tag_keys latest i ++ dgsts) s).1

module _ {S : Type 0} (router : Router S) (Holds : S → Str → Type 0)
    (keeps : Keeps router.advertise Holds) (latest : Bool) (client : Client) where
  -- One image was synced without an error.
  abbrev pub Synced : Image → Sync S → Type 0
  Synced i st =
      (dgsts : List Str) × (identifiers client i (has_target i.digest st.targets) ≡ ok dgsts)
      × All (Holds (advertised router latest i dgsts st.world.router)) (tag_keys latest i ++ dgsts)
      × ((sync_image router latest client i st).world.router
          ≡ advertised router latest i dgsts st.world.router)
      × ((sync_image router latest client i st).targets ≡ i.digest ∷ st.targets)

  finished :
      (i : Image) (keys : List Str) (st : Sync S) (r : Option Error × S)
      → (synced router latest i st
          (finish router latest (record { image = i; event_type = update }) keys st.world r)).errs
        ≡ []
      → (r.0 ≡ none)
        × ((synced router latest i st (
              finish router latest
                (record { image = i; event_type = update })
                keys
                st.world
                r)).world.router
            ≡ r.1)
        × ((synced router latest i st (
              finish router latest
                (record { image = i; event_type = update })
                keys
                st.world
                r)).targets
            ≡ i.digest ∷ st.targets)
  unfolding synced finish
  finished i keys st (some e, s) h = absurd (snoc-ne-nil _ _ h)
  finished i keys st (none, s) h = (refl, refl, refl)

  pub sync_image-Synced :
      (i : Image) (st : Sync S) → (sync_image router latest client i st).errs ≡ [] → Synced i st
  unfolding sync_image update_image provide advertised synced
  sync_image-Synced i st h =
      elim (Result-cases (identifiers client i (has_target i.digest st.targets))) [
        | inl (e, failed) ↦ absurd (snoc-ne-nil _ _ (rw (failed, provide) at h))
        | inr (dgsts, found) ↦
            let keys = tag_keys latest i ++ dgsts in
            let (clean, router', targets') =
              finished i keys st (router.advertise keys st.world.router)
                (rw (found, provide) at h) in
            (
              dgsts,
              found,
              keeps.done keys st.world.router clean,
              rw (found, provide) router',
              rw (found, provide) targets',
            )
      ]

  pub All-Holds-more :
      (keys ids : List Str) (s : S)
      → All (Holds s) ids
      → All (Holds (router.advertise keys s).1) ids
  All-Holds-more keys ids s h = All-imp (Holds s) _ ids (keeps.kept keys s) h

  pub Found-more :
      (keys : List Str) (s : S) (i : Image)
      → Found client (Holds s) i
      → Found client (Holds (router.advertise keys s).1) i
  Found-more keys s i (ids, found, held) = (ids, found, All-Holds-more keys ids s held)

  pub Provided-more :
      (keys : List Str) (is : List Image) (s : S)
      → All (Provided latest client (Holds s)) is
      → All (Provided latest client (Holds (router.advertise keys s).1)) is
  Provided-more keys is s h =
      All-imp _ _ is (λ i p. (All-Holds-more keys _ s p.0, Found-more keys s i p.1)) h
