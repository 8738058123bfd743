-- ===== src/Oci/Containerd/Walks.antt =====
-- What containerd documents of its walk over images: it calls the handler for each image, and then
-- walks over the children that the handler returned, before the next image.
use mathlib.Core.List.{Mem}
use spegel.Base.{◌≡◌, Str, List, [], ◌∷◌, ◌++◌, Option, none, ok, Error}
use spegel.Oci.Containerd.Backend.{Descriptor, Handler}

-- A walk that ended with no error, by the keys before and after.
pub data Walked (h : Handler) : List Descriptor → List Str → List Str → Type 0 where
  nothing : {keys : List Str} → Walked h [] keys keys
  visit :
      {d : Descriptor} {ds children : List Descriptor} {keys seen below after : List Str}
      → h d keys ≡ (ok children, seen)
      → Walked h children seen below
      → Walked h ds below after
      → Walked h (d ∷ ds) keys after

-- A walk that follows the documentation.
abbrev pub IsWalk : (Handler → List Descriptor → List Str → Option Error × List Str) → Type 0
IsWalk walk =
    (h : Handler) (ds : List Descriptor) (keys after : List Str)
    → walk h ds keys ≡ (none, after)
    → Walked h ds keys after

abbrev pub Visited : Handler → Descriptor → List Descriptor → List Str → List Str → Type 0
Visited h d ds keys after =
    (children : List Descriptor) × (seen : List Str) × (below : List Str) × (h d keys
      ≡ (ok children, seen))
    × Walked h children seen below
    × Walked h ds below after

pub Walked-cons :
    (h : Handler) (d : Descriptor) (ds : List Descriptor) (keys after : List Str)
    → Walked h (d ∷ ds) keys after
    → Visited h d ds keys after
Walked-cons h d ds keys after (visit e w v) = (_, _, _, e, w, v)

pub Walked-append :
    (h : Handler) (xs ys : List Descriptor) (keys after : List Str)
    → Walked h (xs ++ ys) keys after
    → (between : List Str) × Walked h xs keys between × Walked h ys between after
Walked-append h [] ys keys after w = (keys, nothing, w)
Walked-append h (x ∷ xs) ys keys after w =
    let (children, seen, below, e, down, next) = Walked-cons h x (xs ++ ys) keys after w in
    let (between, left, right) = Walked-append h xs ys below after next in
    (between, visit e down left, right)

-- A handler that only adds keys: a walk keeps what was there.
pub Walked-keeps :
    (h : Handler) {ds : List Descriptor} {keys after : List Str} (x : Str)
    → ((d : Descriptor) (ks : List Str) → Mem x ks → Mem x (h d ks).1)
    → Walked h ds keys after
    → Mem x keys
    → Mem x after
Walked-keeps h x adds nothing m = m
Walked-keeps h x adds (visit {d} {ds} {children} {keys} e down next) m =
    Walked-keeps h x adds next (Walked-keeps h x adds down (rw e at (adds d keys m)))
