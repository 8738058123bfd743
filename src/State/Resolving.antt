-- ===== src/State/Resolving.antt =====
-- After `all` of pkg/state/state.go, what the images are made of is held by the router, whichever
-- it is.
use spegel.Base.{
  ◌≡◌, ◌∙◌, refl, ap, sym, subst, Str, str_eq, str_eq_iff, Bool, true, Bool-cases, All, All-imp,
  All-Memᴰ, All-split, none, inl, inr, List, [], ◌∷◌, ◌++◌, ok,
}
use mathlib.Core.List.{Memᴰ}
use spegel.Oci.Image.{Image}
use spegel.Oci.Client.{Client}
use spegel.Routing.Router.{Router}
use spegel.Routing.Contract.{Keeps}
use spegel.State.{
  World, Sync, sync_image, sync_all, all_images, all_listed, has_target, start_sync, identifiers,
  tag_keys,
}
use spegel.State.Gauges.{join-none, sync_all-clean}
use spegel.State.Providing.{
  Found, Provided, advertised, sync_image-Synced, Found-more, Provided-more,
}

-- The listed images of one digest have the same content.
abbrev pub SameContent : Client → List Image → Type 0
SameContent client imgs =
    (i j : Image)
    → Memᴰ i imgs
    → Memᴰ j imgs
    → i.digest ≡ j.digest
    → client.all_identifiers i ≡ client.all_identifiers j

module _ {S : Type 0} (router : Router S) (Holds : S → Str → Type 0)
    (keeps : Keeps router.advertise Holds) (latest : Bool) (client : Client) where
  module _ (Listed : Image → Type 0)
      (same_content : (i j : Image)
        → Listed i
        → Listed j
        → i.digest ≡ j.digest
        → client.all_identifiers i ≡ client.all_identifiers j) where
    -- The listed images of a digest that was done have their identifiers held.
    abbrev Covers : S → List Str → Type 0
    Covers s targets =
        All (λ t. (j : Image) → Listed j → j.digest ≡ t → Found client (Holds s) j) targets

    Covered :
        (s : S) (d : Str) (targets : List Str)
        → Covers s targets
        → has_target d targets ≡ true
        → (j : Image) → Listed j
        → j.digest ≡ d
        → Found client (Holds s) j
    unfolding has_target
    Covered s d [] c h j listed same = cc
    Covered s d (t ∷ ts) (here, later) h j listed same = elim (Bool-cases (str_eq t d)) [
      | inl e ↦ here j listed (same ∙ sym ((str_eq_iff t d).0 e))
      | inr e ↦ Covered s d ts later (rw e at h) j listed same
    ]

    Covers-more :
        (keys targets : List Str) (s : S)
        → Covers s targets
        → Covers (router.advertise keys s).1 targets
    Covers-more keys targets s c =
        All-imp _ _ targets
          (λ t f j listed same.
            Found-more router Holds keeps latest client keys s j (f j listed same))
          c

    -- One image that was synced without an error, by whether its digest was done before.
    image_ids :
        (i : Image) (targets dgsts : List Str) (s : S)
        → Listed i
        → Covers s targets
        → identifiers client i (has_target i.digest targets) ≡ ok dgsts
        → All (Holds (advertised router latest i dgsts s)) dgsts
        → (j : Image) → Listed j
        → j.digest ≡ i.digest
        → Found client (Holds (advertised router latest i dgsts s)) j
    unfolding advertised
    image_ids i targets dgsts s listed_i c chosen held j listed same =
        elim (Bool-cases (has_target i.digest targets)) [
          | inl done ↦
              Found-more router Holds keeps latest client _ s j
                (Covered s i.digest targets c done j listed same)
          | inr fresh ↦ (dgsts, same_content j i listed listed_i same ∙ (rw fresh at chosen), held)
        ]

    record Good (is : List Image) (st : Sync S) : Type 0 where
      covers : Covers st.world.router st.targets
      provided : All (Provided latest client (Holds st.world.router)) is

    Good-sync_image :
        (is : List Image) (i : Image) (st : Sync S)
        → Listed i
        → Good is st
        → (sync_image router latest client i st).errs ≡ []
        → Good (i ∷ is) (sync_image router latest client i st)
    unfolding advertised
    Good-sync_image is i st listed g clean =
        let (dgsts, chosen, held, router', targets') =
          sync_image-Synced router Holds keeps latest client i st clean in
        let keys = tag_keys latest i ++ dgsts in
        let s = st.world.router in
        let (tags_held, dgsts_held) = All-split _ (tag_keys latest i) dgsts held in
        let ids = image_ids i st.targets dgsts s listed g.covers chosen dgsts_held in
        record {
          covers = rw (router', targets') (ids, Covers-more keys st.targets s g.covers);
          provided =
              subst (λ r. All (Provided latest client (Holds r)) (i ∷ is)) (sym router')
                (
                  (tags_held, ids i listed refl),
                  Provided-more router Holds keeps latest client keys is s g.provided,
                );
        }

    Good-sync_all :
        (is done : List Image) (st : Sync S)
        → All Listed is
        → Good done st
        → (sync_all router latest client is st).errs ≡ []
        → All
            (Provided latest client (Holds (sync_all router latest client is st).world.router))
            done
          × All
              (Provided latest client (Holds (sync_all router latest client is st).world.router))
              is
    unfolding sync_all
    Good-sync_all [] done st listed g clean = (g.provided, tt)
    Good-sync_all (i ∷ is) done st (listed, later) g clean =
        let next = sync_image router latest client i st in
        let (clean', _) = sync_all-clean router latest client [] is next clean in
        let (before, after) =
          Good-sync_all is (i ∷ done) next later (Good-sync_image done i st listed g clean')
            clean in
        (before.1, (before.0, after))

    all_listed-Provided :
        (imgs : List Image) (w : World S)
        → All Listed imgs
        → (all_listed router latest client (ok imgs) w).0 ≡ none
        → All
            (Provided latest client (Holds (all_listed router latest client (ok imgs) w).1.router))
            imgs
    unfolding all_listed
    all_listed-Provided imgs w listed clean =
        (Good-sync_all imgs [] (start_sync w) listed (record { covers = tt; provided = tt })
          (join-none _ clean)).1

  -- With a router that keeps what is advertised, when `all` ends with no error, and listed images
  -- of one digest have the same content, then of every listed image the store gives identifiers,
  -- and the router holds these and the tag reference, if it is to be advertised.
  pub all_images-Provided :
      (imgs : List Image) (w : World S)
      → SameContent client imgs
      → client.list_images ≡ ok imgs
      → (all_images router latest client w).0 ≡ none
      → All (Provided latest client (Holds (all_images router latest client w).1.router)) imgs
  unfolding all_images
  all_images-Provided imgs w same_content listed clean =
      let at = ap (λ res. all_listed router latest client res w) listed in
      subst (λ res. All (Provided latest client (Holds res.1.router)) imgs) (sym at)
        (all_listed-Provided (λ i. Memᴰ i imgs) same_content imgs w (All-Memᴰ imgs)
          (sym (ap (λ res. res.0) at) ∙ clean))
