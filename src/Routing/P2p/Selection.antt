-- ===== src/Routing/P2p/Selection.antt =====
-- Which address a router of pkg/routing/p2p.go announces, and which port it accepts.
use spegel.Base.{
  ℕ, ◌≡◌, ◌⊎◌, ◌<◌, ◌^◌, inl, inr, refl, ap, Str, All, all, Bool, true, false, not, ◌&&◌, ◌||◌,
  Bool-cases, Option, none, some, List, [], ◌∷◌, ◌++◌, ok, arith, if◌then◌else◌,
}
use spegel.Base.Decimal.{format, value-format, is_digit, All-format, format-ne-nil}
use spegel.Routing.P2p.Network.{Addresses}
use spegel.Routing.P2p.{is_ip6, pick_addrs, address_factory, parse_uint16}

-- The last text that passes a test, or what there was before.
last_from : (Str → Bool) → Option Str → List Str → Option Str
last_from p old [] = old
last_from p old (a ∷ xs) = last_from p (if p a then some a else old) xs

module _ (p : Str → Bool) where
  abbrev pub Fails : Str → Type 0
  Fails a = p a ≡ false

  -- The text is the last that passes the test.
  pub record IsLast (xs : List Str) (a : Str) : Type 0 where
    pub before : List Str
    pub after : List Str
    pub split : xs ≡ before ++ a ∷ after
    pub passes : p a ≡ true
    pub others : All Fails after

  IsLast-cons : (b : Str) (xs : List Str) (a : Str) → IsLast xs a → IsLast (b ∷ xs) a
  IsLast-cons b xs a l = record {
    before = b ∷ l.before;
    after = l.after;
    split = ap (λ r. b ∷ r) l.split;
    passes = l.passes;
    others = l.others;
  }

  last_from-cases :
      (old : Option Str) (xs : List Str)
      → (All Fails xs × (last_from p old xs ≡ old))
        ⊎ ((a : Str) × IsLast xs a × (last_from p old xs ≡ some a))
  unfolding last_from
  last_from-cases old [] = inl (tt, refl)
  last_from-cases old (b ∷ xs) = elim (Bool-cases (p b)) [
    | inl passes ↦ elim (last_from-cases (some b) xs) [
      | inl (fail, e) ↦ inr (
        b,
        record { before = []; after = xs; split = refl; passes = passes; others = fail },
        rw passes e,
      )
      | inr (a, last, e) ↦ inr (a, IsLast-cons b xs a last, rw passes e)
    ]
    | inr fails ↦ elim (last_from-cases old xs) [
      | inl (fail, e) ↦ inl ((fails, fail), rw fails e)
      | inr (a, last, e) ↦ inr (a, IsLast-cons b xs a last, rw fails e)
    ]
  ]

module _ (net : Addresses) where
  -- An address of IP version 6, or of another kind, that others can reach.
  abbrev pub usable_ip6 : Str → Bool
  usable_ip6 a = not (net.is_loopback a) && is_ip6 net a

  abbrev pub usable_ip4 : Str → Bool
  usable_ip4 a = not (net.is_loopback a || is_ip6 net a)

  pick_addrs-last :
      (ip4 ip6 : Option Str) (xs : List Str)
      → pick_addrs net ip4 ip6 xs ≡ (last_from usable_ip4 ip4 xs, last_from usable_ip6 ip6 xs)
  unfolding pick_addrs last_from
  pick_addrs-last ip4 ip6 [] = refl
  pick_addrs-last ip4 ip6 (a ∷ xs) = elim (Bool-cases (net.is_loopback a || is_ip6 net a)) [
    | inl passed ↦ rw passed (pick_addrs-last ip4 _ xs)
    | inr taken ↦ rw taken (pick_addrs-last (some a) _ xs)
  ]

  -- What is announced of the addresses.
  pub data Announces (xs : List Str) : List Str → Type 0 where
    ip6 : (a : Str) → IsLast usable_ip6 xs a → Announces xs (a ∷ [])
    ip4 : (a : Str) → All (Fails usable_ip6) xs → IsLast usable_ip4 xs a → Announces xs (a ∷ [])
    nothing : All (Fails usable_ip6) xs → All (Fails usable_ip4) xs → Announces xs []

  -- Of the addresses that are no loopback, the last of IP version 6 is announced, or the last of the
  -- others if there is none, and none if there is none of these either.
  pub address_factory-Announces : (xs : List Str) → Announces xs (address_factory net xs)
  unfolding address_factory
  address_factory-Announces xs =
      rw (pick_addrs-last none none xs) (elim (last_from-cases usable_ip6 none xs) [
        | inr (a, last, e) ↦ rw e (ip6 a last)
        | inl (no_ip6, e) ↦ elim (last_from-cases usable_ip4 none xs) [
          | inr (a, last, f) ↦ rw (e, f) (ip4 a no_ip6 last)
          | inl (no_ip4, f) ↦ rw (e, f) (nothing no_ip6 no_ip4)
        ]
      ])

all-true : (p : ℕ → Bool) (s : Str) → All (λ c. p c ≡ true) s → all p s ≡ true
unfolding all
all-true p [] h = refl
all-true p (c ∷ s) h = rw (h.0, all-true p s h.1)

-- The decimal digits of a number below 2^16 are accepted as a port, as that number.
parse_uint16-format : (n : ℕ) → n < 2 ^ 16 → parse_uint16 (format n) ≡ ok n
unfolding parse_uint16
parse_uint16-format n h =
    rw (format-ne-nil n, all-true is_digit (format n) (All-format n), value-format n) (ground arith)

-- What is accepted as a port is below 2^16.
pub parse_uint16-bounded : (s : Str) (n : ℕ) → parse_uint16 s ≡ ok n → n < 2 ^ 16
unfolding parse_uint16
parse_uint16-bounded s n e = ground (arith, e)
