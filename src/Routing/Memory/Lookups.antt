-- ===== src/Routing/Memory/Lookups.antt =====
-- What the router in memory finds after keys were advertised.
use mathlib.Core.Logic.{∥∥₁_prop}
use mathlib.Core.List.{
  append-nil, append_assoc, Mem, mem-append_left, mem-append_right, mem-cons_self,
}
use spegel.Base.{
  ℕ, ◌≡◌, ◌∙◌, refl, ap, sym, All, str_eq_refl, Str, str_eq, str_eq_iff, Bool, Bool-cases, inl, inr,
  Option, Option-cases, none, some, List, [], ◌∷◌, ◌++◌, ok, ok_injective, if◌then◌else◌, arith,
}
use spegel.Base.Maps.{lookup, lookup-insert}
use spegel.Routing.Router.{AddrPort}
use spegel.Routing.Contract.{Keeps}
use spegel.Routing.Memory.{MemoryRouter, memory_router, resolve, add, add_all, advertise}

-- The peers of a key, with none for a key that is not there.
abbrev pub or_nil : Option (List AddrPort) → List AddrPort
or_nil none = []
or_nil (some v) = v

-- One copy of `peer` for each time that `key` stands among the keys.
abbrev pub copies : Str → List Str → AddrPort → List AddrPort
copies key [] peer = []
copies key (k ∷ ks) peer = (if str_eq k key then peer ∷ [] else []) ++ copies key ks peer

lookup-add :
    (m : MemoryRouter) (k key : Str) (peer : AddrPort)
    → lookup key (add k peer m).resolver ≡ (
        if str_eq k key
        then some (or_nil (lookup k m.resolver) ++ peer ∷ [])
        else lookup key m.resolver)
unfolding add
lookup-add m k key peer = elim (Option-cases (lookup k m.resolver)) [
  | inl missing ↦ rw (missing, add) (lookup-insert k key (peer ∷ []) m.resolver)
  | inr (v, found) ↦ rw (found, add) (lookup-insert k key (v ++ peer ∷ []) m.resolver)
]

or_nil-add :
    (m : MemoryRouter) (k key : Str) (peer : AddrPort)
    → or_nil (lookup key (add k peer m).resolver)
      ≡ or_nil (lookup key m.resolver) ++ (if str_eq k key then peer ∷ [] else [])
or_nil-add m k key peer = elim (Bool-cases (str_eq k key)) [
  | inl same ↦ rw (lookup-add m k key peer, same) (rw ((str_eq_iff k key).0 same))
  | inr other ↦ rw (lookup-add m k key peer, other) (rw append-nil)
]

self-add : (m : MemoryRouter) (k : Str) (peer : AddrPort) → (add k peer m).self ≡ m.self
unfolding add
self-add m k peer = ground arith

or_nil-add_all :
    (keys : List Str) (m : MemoryRouter) (key : Str)
    → or_nil (lookup key (add_all keys m).resolver)
      ≡ or_nil (lookup key m.resolver) ++ copies key keys m.self
unfolding add_all
or_nil-add_all [] m key = rw append-nil
or_nil-add_all (k ∷ ks) m key =
    or_nil-add_all ks (add k m.self m) key
    ∙ (rw (or_nil-add m k key m.self, self-add m k m.self)
        (append_assoc _ (if str_eq k key then m.self ∷ [] else []) _))

pub resolve-eq :
    (m : MemoryRouter) (key : Str) (allow_self : Bool) (count : ℕ)
    → resolve m key allow_self count ≡ ok (or_nil (lookup key m.resolver))
unfolding resolve
resolve-eq m key allow_self count = ground arith

-- After keys were advertised, resolving a key yields the peers that it yielded before, and then
-- this node once for each time that the key was among them, whether or not the caller allows itself.
pub resolve-advertise :
    (keys : List Str) (m : MemoryRouter) (key : Str) (allow_self : Bool) (count : ℕ)
    → (before : List AddrPort) → resolve m key allow_self count ≡ ok before
    → resolve (advertise keys m).1 key allow_self count ≡ ok (before ++ copies key keys m.self)
unfolding advertise
resolve-advertise keys m key allow_self count before e =
    resolve-eq (add_all keys m) key allow_self count
    ∙ ap ok (
        or_nil-add_all keys m key
        ∙ ap (λ x. x ++ copies key keys m.self)
            (ok_injective (sym (resolve-eq m key allow_self count) ∙ e)))

-- This node is among the peers of the key.
abbrev pub Held : MemoryRouter → Str → Type 0
Held m key = Mem m.self (or_nil (lookup key m.resolver))

pub self-add_all : (keys : List Str) (m : MemoryRouter) → (add_all keys m).self ≡ m.self
unfolding add_all
self-add_all [] m = refl
self-add_all (k ∷ ks) m = self-add_all ks (add k m.self m) ∙ self-add m k m.self

-- Advertising more keys keeps what was found.
pub Held-add_all :
    (keys : List Str) (m : MemoryRouter) (key : Str) → Held m key → Held (add_all keys m) key
Held-add_all keys m key h =
    rw (self-add_all keys m, or_nil-add_all keys m key) (mem-append_left _ h)

Held-add : (m : MemoryRouter) (k : Str) → Held (add k m.self m) k
Held-add m k =
    rw (self-add m k m.self, or_nil-add m k k m.self, str_eq_refl k)
      (mem-append_right _ mem-cons_self)

pub All-Held-add_all : (keys : List Str) (m : MemoryRouter) → All (Held (add_all keys m)) keys
unfolding add_all
All-Held-add_all [] m = tt
All-Held-add_all (k ∷ ks) m =
    (Held-add_all ks (add k m.self m) k (Held-add m k), All-Held-add_all ks (add k m.self m))

pub memory_router-Keeps : Keeps memory_router.advertise Held
unfolding advertise
memory_router-Keeps = record {
  is_prop = λ m key. ∥∥₁_prop;
  done = λ keys m h. All-Held-add_all keys m;
  kept = λ keys m key h. Held-add_all keys m key h;
}
