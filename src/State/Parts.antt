-- ===== src/State/Parts.antt =====
-- From containerd's store to the router: what `all` of pkg/state/state.go makes findable when its
-- client is that of pkg/oci/containerd.go.
use mathlib.Core.Logic.{∥∥₁_elim}
use mathlib.Core.List.{Mem, Memᴰ}
use spegel.Base.{
  ◌≡◌, ◌≢◌, ◌∙◌, refl, ap, sym, subst, inl, inr, Str, Bool, All, All-imp, All-at, Result-cases, ok,
  ok_injective, ◌>>=◌, bind_ok, All-Memᴰ, none, List, [], ◌∷◌,
}
use spegel.Oci.Image
use spegel.Oci.Image.{Image}
use spegel.Oci.Image.Validity.{parse_sound}
use spegel.Oci.Client.{Client}
use spegel.Oci.Containerd.{parsed_images, list_images, all_identifiers, found_keys, identify}
use spegel.Oci.Containerd.Backend.{StoredImage, Services}
use spegel.Oci.Containerd.Walks.{IsWalk}
use spegel.Oci.Containerd.Identifiers.{Part, all_identifiers-Part}
use spegel.Oci.Containerd.Setup.{Containerd, Files, containerd_client}
use spegel.Routing.Router.{Router}
use spegel.Routing.Contract.{Keeps}
use spegel.State.{World, all_images, all_listed}
use spegel.State.Resolving.{all_images-Provided}

-- What is documented of containerd's store: its walk, and that the images it lists are those that it
-- yields by their names, with a digest each, and with one target for each digest.
pub record IsStore (s : Services) (list_filter : Str) (stored : List StoredImage) : Type 0 where
  pub walks : IsWalk s.walk_images
  pub listed : s.list_images list_filter ≡ ok stored
  pub by_name : All (λ c. s.service_image c.name ≡ ok c) stored
  pub digests : All (λ c. c.target.dgst ≢ []) stored
  pub one_target :
      (c d : StoredImage)
      → Memᴰ c stored
      → Memᴰ d stored
      → c.target.dgst ≡ d.target.dgst
      → c.target ≡ d.target

-- The image was parsed from the stored one.
abbrev Parsed : StoredImage → Image → Type 0
Parsed c i = (i.name ≡ c.name) × (i.digest ≡ c.target.dgst)

abbrev Matched : List StoredImage → List Image → Type 0
Matched cs imgs =
    All (λ i. (c : StoredImage) × Memᴰ c cs × Parsed c i) imgs
    × All (λ c. (i : Image) × Memᴰ i imgs × Parsed c i) cs

Matched-cons :
    (c : StoredImage) (i : Image) (cs : List StoredImage) (imgs : List Image)
    → Parsed c i
    → Matched cs imgs
    → Matched (c ∷ cs) (i ∷ imgs)
Matched-cons c i cs imgs here (sources, results) = (
  ((c, Memᴰ.head refl, here), All-imp _ _ imgs (λ j t. (t.0, Memᴰ.tail t.1, t.2)) sources),
  ((i, Memᴰ.head refl, here), All-imp _ _ cs (λ k t. (t.0, Memᴰ.tail t.1, t.2)) results),
)

parsed_images-Matched :
    (cs : List StoredImage) (imgs : List Image)
    → All (λ c. c.target.dgst ≢ []) cs
    → parsed_images cs ≡ ok imgs
    → Matched cs imgs
unfolding parsed_images
parsed_images-Matched [] imgs ds e = subst (Matched []) (ok_injective e) (tt, tt)
parsed_images-Matched (c ∷ cs) imgs (d, ds) e =
    let (img, good, e1) = bind_ok (Image.parse c.name c.target.dgst) _ imgs e in
    let (more, later, e2) = bind_ok (parsed_images cs) _ imgs e1 in
    let (_, name, digest) = parse_sound c.name c.target.dgst img good in
    subst (Matched (c ∷ cs)) (ok_injective e2)
      (Matched-cons c img cs more (name, digest d) (parsed_images-Matched cs more ds later))

module _ (s : Services) (list_filter : Str) (stored : List StoredImage)
    (store : IsStore s list_filter stored) where
  identifiers-Parsed :
      (c : StoredImage) (i : Image)
      → Memᴰ c stored
      → Parsed c i
      → all_identifiers (ok s) i ≡ found_keys (s.walk_images (identify s) (c.target ∷ []) [])
  unfolding all_identifiers
  identifiers-Parsed c i m (name, digest) =
      let there = All-at (λ d. s.service_image d.name ≡ ok d) c stored store.by_name m in
      rw (name, there) refl

  same_content :
      (imgs : List Image)
      → All (λ i. (c : StoredImage) × Memᴰ c stored × Parsed c i) imgs
      → (i j : Image) → Memᴰ i imgs
      → Memᴰ j imgs
      → i.digest ≡ j.digest
      → all_identifiers (ok s) i ≡ all_identifiers (ok s) j
  same_content imgs sources i j mi mj e =
      let (c, mc, pc) = All-at _ i imgs sources mi in
      let (d, md, pd) = All-at _ j imgs sources mj in
      let target = store.one_target c d mc md (sym pc.1 ∙ e ∙ pd.1) in
      identifiers-Parsed c i mc pc
      ∙ ap (λ t. found_keys (s.walk_images (identify s) (t ∷ []) [])) target
      ∙ sym (identifiers-Parsed d j md pd)

All-Mem :
    (P : Str → Type 0) (ids : List Str)
    → ((x : Str) → IsProp (P x))
    → All P ids
    → (x : Str) → Mem x ids
    → P x
All-Mem P ids props held x there = ∥∥₁_elim there (props x) (λ d. All-at P x ids held d)

all_listed-ok :
    {S : Type 0} (router : Router S) (latest : Bool) (client : Client) (w : World S)
    → (all_images router latest client w).0 ≡ none
    → (imgs : List Image) × (client.list_images ≡ ok imgs)
unfolding all_images all_listed
all_listed-ok router latest client w clean = elim (Result-cases client.list_images) [
  | inl (e, failed) ↦ cc (rw failed at clean)
  | inr found ↦ found
]

-- With a store as containerd documents it, and its client, and a router that keeps what is advertised:
-- when `all` ends with no error, then of every image that containerd lists, the router holds every part
-- that the store has of its target.
pub all_images-Part :
    {S : Type 0} (router : Router S) (Holds : S → Str → Type 0)
    → Keeps router.advertise Holds
    → (s : Services) (c : Containerd) (files : Files) (stored : List StoredImage) (latest : Bool)
    → (w : World S) → IsStore s c.list_filter stored
    → (all_images router latest (containerd_client files (ok s) c) w).0 ≡ none
    → All
        (λ k.
          (x : Str)
          → Part s k.target x
          → Holds (all_images router latest (containerd_client files (ok s) c) w).1.router x)
        stored
unfolding containerd_client list_images
all_images-Part router Holds keeps s c files stored latest w store clean =
    let client = containerd_client files (ok s) c in
    let (imgs, listed) = all_listed-ok router latest client w clean in
    let (sources, results) =
      parsed_images-Matched stored imgs store.digests
        (ap (λ found. found >>= parsed_images) (sym store.listed) ∙ listed) in
    let provided =
      all_images-Provided router Holds keeps latest client imgs w
        (same_content s c.list_filter stored store imgs sources) listed clean in
    All-imp _ _ stored
      (λ k m x part.
        let (i, mi, parsed) = All-at _ k stored results m in
        let (tags, kept) = All-at _ i imgs provided mi in
        let (ids, found, held) = kept in
        let by_name = All-at (λ d. s.service_image d.name ≡ ok d) k stored store.by_name m in
        All-Mem (Holds (all_images router latest client w).1.router) ids
          (keeps.is_prop (all_images router latest client w).1.router) held x
          (all_identifiers-Part s i k ids x store.walks (ap s.service_image parsed.0 ∙ by_name)
            found part))
      (All-Memᴰ stored)
