-- ===== src/Routing/P2p/Advertising.antt =====
-- What the router over libp2p holds of what is advertised: `Advertise` of pkg/routing/p2p.go.
use mathlib.Core.Logic.{∥∥₁_elim, ∥∥₁_prop}
use spegel.Base.{
  ◌≡◌, ◌∙◌, refl, sym, subst, ap, inl, inr, Str, All, Bool, false, Result-cases, Option, none, some,
  List, [], ◌∷◌, ok, Error,
}
use spegel.Routing.Contract.{Keeps}
use spegel.Routing.P2p.Network.{Table}
use spegel.Routing.P2p.{advertise, provided}

-- What is documented of providing, announced or not: with no error the content is then in the
-- accounting of what this node provides, and with an error or with none, what was there stays there.
pub record IsProviding {S : Type 0} (table : Table S) (Provides : S → Str → Type 0) : Type 0 where
  pub provides :
      (c : Str) (announce : Bool) (s : S)
      → (table.provide c announce s).0 ≡ none
      → Provides (table.provide c announce s).1 c
  pub stays :
      (c x : Str) (announce : Bool) (s : S)
      → Provides s x
      → Provides (table.provide c announce s).1 x

module _ {S : Type 0} (table : Table S) (Provides : S → Str → Type 0) where
  -- The content of the key is in the accounting of what this node provides.
  abbrev pub ProvidesKey : S → Str → Type 0
  ProvidesKey s key = ∥ ((c : Str) × (table.sum key ≡ ok c) × Provides s c) ∥₁

  module _ (lawful : IsProviding table Provides) where
    ProvidesKey-provide :
        (c : Str) (s : S) (key : Str)
        → ProvidesKey s key
        → ProvidesKey (table.provide c false s).1 key
    ProvidesKey-provide c s key h =
        ∥∥₁_elim h ∥∥₁_prop (λ (x, e, p). ∣ (x, e, lawful.stays c x false s p) ∣₁)

    provided-kept :
        (r : Option Error × S) (later : S → Option Error × S) (key : Str)
        → ((s : S) → ProvidesKey s key → ProvidesKey (later s).1 key)
        → ProvidesKey r.1 key
        → ProvidesKey (provided table r later).1 key
    provided-kept (some e, s) later key keeps h = h
    provided-kept (none, s) later key keeps h = keeps s h

    advertise-kept :
        (keys : List Str) (s : S) (key : Str)
        → ProvidesKey s key
        → ProvidesKey (advertise table keys s).1 key
    unfolding advertise
    advertise-kept [] s key h = h
    advertise-kept (k ∷ ks) s key h = elim (Result-cases (table.sum k)) [
      | inl (e, failed) ↦ rw (failed, advertise) h
      | inr (c, found) ↦
          rw (found, advertise)
            (provided-kept (table.provide c false s) (advertise table ks) key
              (λ t. advertise-kept ks t key) (ProvidesKey-provide c s key h))
    ]

    -- What was provided with no error, and then the rest.
    provided-done :
        (r : Option Error × S) (later : S → Option Error × S)
        → (provided table r later).0 ≡ none
        → (r.0 ≡ none) × (provided table r later ≡ later r.1)
    provided-done (some e, s) later h = cc
    provided-done (none, s) later h = (refl, refl)

    advertise-done :
        (keys : List Str) (s : S)
        → (advertise table keys s).0 ≡ none
        → All (ProvidesKey (advertise table keys s).1) keys
    unfolding advertise
    advertise-done [] s h = tt
    advertise-done (k ∷ ks) s h = elim (Result-cases (table.sum k)) [
      | inl (e, failed) ↦ absurd (cc (rw (failed, advertise) at h))
      | inr (c, found) ↦
          let (clean, rest) =
            provided-done (table.provide c false s) (advertise table ks)
              (rw (found, advertise) at h) in
          let t = (table.provide c false s).1 in
          let at : advertise table (k ∷ ks) s ≡ advertise table ks t = rw (found, advertise) rest in
          subst (λ r. All (ProvidesKey r.1) (k ∷ ks)) (sym at)
            (
              advertise-kept ks t k (∣ (c, found, lawful.provides c false s clean) ∣₁),
              advertise-done ks t (ap (λ r. r.0) (sym at) ∙ h),
            )
    ]

    -- With a table as it is documented, the router over libp2p keeps what is advertised: with no
    -- error, the content of each of the keys is in the accounting of what this node provides, and
    -- with an error or with none that of every key that was there before stays there.
    pub advertise-Keeps : Keeps (advertise table) ProvidesKey
    advertise-Keeps = record {
      done = advertise-done;
      is_prop = λ s key. ∥∥₁_prop;
      kept = advertise-kept;
    }
