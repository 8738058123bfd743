-- ===== src/Oci/Containerd/Events.antt =====
-- Which images the client of pkg/oci/containerd.go lists, and which events it delivers.
use spegel.Base.{
  ◌≡◌, ◌≢◌, refl, sym, Str, Result-cases, inl, inr, Option, List, [], ◌∷◌, map, Result, ok,
  ok_injective, All, ◌>>=◌,
}
use spegel.Oci.Image
use spegel.Oci.Image.{Image, ImageEvent, EventType, create, update, delete}
use spegel.Oci.Image.Validity.{IsComplete, parse_sound}
use spegel.Oci.Containerd.{
  parsed_images, list_images, get_event_image, image_of_event, receive, subscribe,
}
use spegel.Oci.Containerd.Backend.{StoredImage, Services, Event}

parsed_images-IsComplete :
    (cs : List StoredImage) (imgs : List Image)
    → parsed_images cs ≡ ok imgs
    → All IsComplete imgs
      × (map (λ (i : Image). i.name) imgs ≡ map (λ (c : StoredImage). c.name) cs)
unfolding parsed_images
parsed_images-IsComplete [] imgs e = rw (sym (ok_injective e)) (tt, refl)
parsed_images-IsComplete (c ∷ cs) imgs e = elim (Result-cases (Image.parse c.name c.target.dgst)) [
  | inl (f, bad) ↦ cc (rw bad at e)
  | inr (img, good) ↦ elim (Result-cases (parsed_images cs)) [
    | inl (f, bad) ↦ cc (rw (good, bad) at e)
    | inr (more, later) ↦
        let (complete, names) = parsed_images-IsComplete cs more later in
        let (here, name, _) = parse_sound c.name c.target.dgst img good in
        rw (sym (ok_injective (rw (good, later) at e))) ((here, complete), rw (name, names) refl)
  ]
]

-- The images that are listed have a name, a registry, a repository and a digest, and they are
-- containerd's images of the filter, by name and in order.
pub list_images-IsComplete :
    (s : Services) (list_filter : Str) (stored : List StoredImage) (imgs : List Image)
    → s.list_images list_filter ≡ ok stored
    → list_images (ok s) list_filter ≡ ok imgs
    → All IsComplete imgs
      × (map (λ (i : Image). i.name) imgs ≡ map (λ (c : StoredImage). c.name) stored)
unfolding list_images
list_images-IsComplete s list_filter stored imgs found e =
    parsed_images-IsComplete stored imgs (rw found at e)

module _ (s : Services) where
  -- The image of the name, as containerd has it.
  abbrev pub Stored : Str → Image → Type 0
  Stored name img =
      (c : StoredImage) × (s.get_image name ≡ ok c)
      × (img.name ≡ c.name)
      × (c.target.dgst ≢ [] → img.digest ≡ c.target.dgst)

  -- Where the image of an event comes from.
  abbrev pub Origin : Str → EventType → Image → Type 0
  Origin name create img = Stored name img
  Origin name update img = Stored name img
  Origin name delete img = img.name ≡ name

  Stored-found :
      (name : Str) (img : Image)
      → (s.get_image name >>= (λ c. Image.parse c.name c.target.dgst)) ≡ ok img
      → IsComplete img × Stored name img
  Stored-found name img e = elim (Result-cases (s.get_image name)) [
    | inl (f, missing) ↦ cc (rw missing at e)
    | inr (c, found) ↦
        let (complete, named, digest) = parse_sound c.name c.target.dgst img (rw found at e) in
        (complete, (c, found, named, digest))
  ]

  image_of_event-Origin :
      (name : Str) (kind : EventType) (img : Image)
      → image_of_event s name kind ≡ ok img
      → IsComplete img × Origin name kind img
  unfolding image_of_event
  image_of_event-Origin name create img e = Stored-found name img e
  image_of_event-Origin name update img e = Stored-found name img e
  image_of_event-Origin name delete img e =
      let (complete, named, _) = parse_sound name [] img e in (complete, named)

  -- What an envelope that is delivered as an event says.
  abbrev pub Delivers : Option (Result Event) → ImageEvent → Type 0
  Delivers envelope event =
      (name : Str) × (get_event_image envelope ≡ ok (name, event.event_type))
      × IsComplete event.image
      × Origin name event.event_type event.image

  receive-Delivers :
      (envelope : Option (Result Event)) (event : ImageEvent)
      → receive s envelope ≡ ok event
      → Delivers envelope event
  unfolding receive
  receive-Delivers envelope event e = elim (Result-cases (get_event_image envelope)) [
    | inl (f, bad) ↦ cc (rw bad at e)
    | inr ((name, kind), named) ↦ elim (Result-cases (image_of_event s name kind)) [
      | inl (f, bad) ↦ cc (rw (named, bad) at e)
      | inr (img, found) ↦
          let (complete, origin) = image_of_event-Origin name kind img found in
          rw (sym (ok_injective (rw (named, found) at e))) (name, named, complete, origin)
    ]
  ]

  -- Each envelope is answered by one error or one event, in order.
  abbrev pub AllDeliver : List (Option (Result Event)) → List (Result ImageEvent) → Type 0
  AllDeliver [] [] = Unit
  AllDeliver (envelope ∷ later) (r ∷ rs) =
      ((event : ImageEvent) → r ≡ ok event → Delivers envelope event) × AllDeliver later rs
  AllDeliver _ _ = ⊥

  -- What `Subscribe` sends: one error or one event for each envelope, in order. The image of an event
  -- has a name, a registry, a repository and a digest. Of a new or changed image, containerd has the
  -- image, with that name and, if it names one, that digest; of a deleted one, the envelope has the
  -- name.
  pub subscribe-AllDeliver :
      (envelopes : List (Option (Result Event))) → AllDeliver envelopes (subscribe s envelopes)
  unfolding subscribe
  subscribe-AllDeliver [] = tt
  subscribe-AllDeliver (envelope ∷ later) = (receive-Delivers envelope, subscribe-AllDeliver later)
