-- ===== src/State/Gauges.antt =====
-- What the gauges show after `all` of pkg/state/state.go.
use spegel.Base.{
  ℕ, ◌+◌, ◌≡◌, ◌≢◌, ◌∙◌, refl, ap, sym, subst, Str, str_eq, is_empty, Bool, not, ◌&&◌, Result-cases,
  Option, none, some, inl, inr, List, [], ◌∷◌, ◌++◌, Result, ok, err, Error, join, arith, tally,
}
use spegel.Base.Int.{ℤ, pos, pos_part, neg_part, ◌+ℤ◌, int_laws}
use spegel.Metrics
use spegel.Metrics.{Metrics}
use spegel.Oci.Image.{Image, update}
use spegel.Oci.Client.{Client}
use spegel.Routing.Router.{Router}
use spegel.State.{
  World, Sync, count_event, count_synced, finish, provide, update_image, synced, sync_image,
  sync_all, all_images, all_listed, has_target, start_sync, identifiers,
}

abbrev pub in_registry : Str → Image → Bool
in_registry r i = str_eq i.registry r

abbrev pub tagged_in : Str → Image → Bool
tagged_in r i = not (is_empty i.tag) && in_registry r i

abbrev pub untagged_in : Str → Image → Bool
untagged_in r i = is_empty i.tag && in_registry r i

-- The gauges at one registry grew by what the images count.
pub record Grew (r : Str) (is : List Image) (m n : Metrics) : Type 0 where
  pub images : n.advertised_images r ≡ m.advertised_images r +ℤ pos (tally (in_registry r) is)
  pub tags : n.advertised_image_tags r ≡ m.advertised_image_tags r +ℤ pos (tally (tagged_in r) is)
  pub digests :
      n.advertised_image_digests r ≡ m.advertised_image_digests r +ℤ pos (tally (untagged_in r) is)

-- The gauges at one registry are what the images count.
pub record Counted (r : Str) (is : List Image) (m : Metrics) : Type 0 where
  pub images : m.advertised_images r ≡ pos (tally (in_registry r) is)
  pub tags : m.advertised_image_tags r ≡ pos (tally (tagged_in r) is)
  pub digests : m.advertised_image_digests r ≡ pos (tally (untagged_in r) is)

+ℤ-zero : (a : ℤ) → a +ℤ pos 0 ≡ a
+ℤ-zero a = omega int_laws

Grew-count_synced :
    (r : Str) (i : Image) (n : ℕ) (m : Metrics) → Grew r (i ∷ []) m (count_synced i n m)
unfolding count_synced Metrics.add
Grew-count_synced r i n m = ground (
  arith,
  +ℤ-zero (m.advertised_images r),
  +ℤ-zero (m.advertised_image_tags r),
  +ℤ-zero (m.advertised_image_digests r),
)

zero-+ℤ : (n : ℕ) → pos 0 +ℤ pos n ≡ pos n
zero-+ℤ n = omega int_laws

+ℤ-chain : (a b c : ℤ) (x y : ℕ) → b ≡ a +ℤ pos (x + 0) → c ≡ b +ℤ pos y → c ≡ a +ℤ pos (x + y)
+ℤ-chain a b c x y p q =
    omega (int_laws, ap pos_part p, ap neg_part p, ap pos_part q, ap neg_part q)

Grew-cons :
    (r : Str) (i : Image) (is : List Image) (a b c : Metrics)
    → Grew r (i ∷ []) a b
    → Grew r is b c
    → Grew r (i ∷ is) a c
Grew-cons r i is a b c p q = record {
  images = +ℤ-chain _ _ _ _ _ p.images q.images;
  tags = +ℤ-chain _ _ _ _ _ p.tags q.tags;
  digests = +ℤ-chain _ _ _ _ _ p.digests q.digests;
}

Grew-refl : (r : Str) (m : Metrics) → Grew r [] m m
Grew-refl r m = record {
  images = sym (+ℤ-zero _);
  tags = sym (+ℤ-zero _);
  digests = sym (+ℤ-zero _);
}

pub snoc-ne-nil : (es : List Error) (e : Error) → es ++ e ∷ [] ≢ []
snoc-ne-nil [] e h = cc
snoc-ne-nil (_ ∷ es) e h = cc

pub join-none : (es : List Error) → join es ≡ none → es ≡ []
unfolding join
join-none [] h = refl
join-none (e ∷ es) h = cc

module _ {S : Type 0} (router : Router S) (latest : Bool) (client : Client) where
  finish-metrics :
      (i : Image) (keys : List Str) (w : World S) (r : Option Error × S)
      → (finish router latest (record { image = i; event_type = update }) keys w r).1.metrics
        ≡ w.metrics
  unfolding finish count_event
  finish-metrics i keys w (none, s) = refl
  finish-metrics i keys w (some e, s) = refl

  -- `update` leaves the gauges to `all`, for the events that `all` makes.
  update-metrics :
      (i : Image) (skip : Bool) (w : World S)
      → (update_image router latest client
          (record { image = i; event_type = update })
          skip
          w).1.metrics
        ≡ w.metrics
  unfolding update_image provide
  update-metrics i skip w = elim (Result-cases (identifiers client i skip)) [
    | inl (e, failed) ↦ rw (failed, provide)
    | inr (dgsts, found) ↦ rw (found, provide) (finish-metrics i _ w _)
  ]

  synced-clean :
      (r : Str) (i : Image) (st : Sync S) (res : Result ℕ × World S)
      → (synced router latest i st res).errs ≡ []
      → res.1.metrics ≡ st.world.metrics
      → (st.errs ≡ [])
        × Grew r (i ∷ []) st.world.metrics (synced router latest i st res).world.metrics
  unfolding synced
  synced-clean r i st (err e, w) h same = absurd (snoc-ne-nil st.errs e h)
  synced-clean r i st (ok n, w) h same = (h, rw same (Grew-count_synced r i n st.world.metrics))

  sync_image-clean :
      (r : Str) (i : Image) (st : Sync S)
      → (sync_image router latest client i st).errs ≡ []
      → (st.errs ≡ [])
        × Grew r (i ∷ []) st.world.metrics (sync_image router latest client i st).world.metrics
  unfolding sync_image
  sync_image-clean r i st h =
      synced-clean r i st
        (update_image router latest client (record { image = i; event_type = update })
          (has_target i.digest st.targets) st.world)
        h (update-metrics i (has_target i.digest st.targets) st.world)

  pub sync_all-clean :
      (r : Str) (is : List Image) (st : Sync S)
      → (sync_all router latest client is st).errs ≡ []
      → (st.errs ≡ [])
        × Grew r is st.world.metrics (sync_all router latest client is st).world.metrics
  unfolding sync_all
  sync_all-clean r [] st h = (h, Grew-refl r _)
  sync_all-clean r (i ∷ is) st h =
      let (clean, later) = sync_all-clean r is (sync_image router latest client i st) h in
      let (clean', now) = sync_image-clean r i st clean in
      (clean', Grew-cons r i is _ _ _ now later)

  sync_start-gauges :
      (r : Str) (imgs : List Image) (w : World S)
      → (sync_all router latest client imgs (start_sync w)).errs ≡ []
      → Counted r imgs (sync_all router latest client imgs (start_sync w)).world.metrics
  unfolding start_sync
  sync_start-gauges r imgs w h =
      let (_, grew) = sync_all-clean r imgs (start_sync w) h in
      record {
        images = grew.images ∙ zero-+ℤ _;
        tags = grew.tags ∙ zero-+ℤ _;
        digests = grew.digests ∙ zero-+ℤ _;
      }

  all_listed-gauges :
      (r : Str) (imgs : List Image) (w : World S)
      → (all_listed router latest client (ok imgs) w).0 ≡ none
      → Counted r imgs (all_listed router latest client (ok imgs) w).1.metrics
  unfolding all_listed
  all_listed-gauges r imgs w h = sync_start-gauges r imgs w (join-none _ h)

  -- When `all` ends with no error, the gauges of images, of tags and of digests at each registry
  -- are the numbers of its listed images, of those with a tag, and of those without.
  pub all_images-gauges :
      (imgs : List Image) (w : World S) (r : Str)
      → client.list_images ≡ ok imgs
      → (all_images router latest client w).0 ≡ none
      → Counted r imgs (all_images router latest client w).1.metrics
  unfolding all_images
  all_images-gauges imgs w r listed clean =
      let at = ap (λ res. all_listed router latest client res w) listed in
      subst (λ res. Counted r imgs res.1.metrics) (sym at)
        (all_listed-gauges r imgs w (sym (ap (λ res. res.0) at) ∙ clean))
