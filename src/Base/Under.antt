-- ===== src/Base/Under.antt =====
-- Paths that part at a name, and what is under a directory.
use mathlib.Core.Bool.{true, false}
use mathlib.Core.List.{List, [], ◌∷◌, ◌++◌, append_assoc, append-nil, append_cancel_left}
use mathlib.Core.Logic.{◌≢◌, inl, inr}
use mathlib.Core.Path.{◌≡◌, refl, ◌∙◌, ap, sym}
use native.Mathlib.Omega.{arith}
use spegel.Base.Tests.{Bool-cases}
use spegel.Base.Bytes.{Str, has_prefix, cut}
use spegel.Base.Cuts.{Lacks, cut-Lacks, cut-found}
use spegel.Base.Join.{under, path_of, path_of-append, str_eq_of_ne}

-- The first of the names that a text begins with.
cut-path_of : (m : Str) (rest : List Str) → Lacks b'/' m → (cut b'/' (m ++ path_of rest)).0 ≡ m
cut-path_of m [] h = rw append-nil (ap (λ r. r.0) (cut-Lacks b'/' m h))
cut-path_of m (n ∷ ns) h = ap (λ r. r.0) (cut-found b'/' m (n ++ path_of ns) h)

has_prefix-split : (q p : Str) → has_prefix q p ≡ true → (r : Str) × (q ≡ p ++ r)
unfolding has_prefix
has_prefix-split q [] h = (q, refl)
has_prefix-split [] (d ∷ p) h = cc
has_prefix-split (c ∷ q) (d ∷ p) h =
    let (r, e) = has_prefix-split q p (ground (arith, h)) in (r, ground (arith, h, e))

tail : Str → Str
tail [] = []
tail (_ ∷ s) = s

-- Behind equal directories, equal paths go on with equal names.
same_name :
    (ds : List Str) (n m : Str) (s t : Str)
    → (cut b'/' s).0 ≡ n
    → (cut b'/' t).0 ≡ m
    → path_of ds ++ b'/' ∷ s ≡ path_of ds ++ b'/' ∷ t
    → n ≡ m
unfolding tail
same_name ds n m s t en em e =
    sym en ∙ ap (λ r. (cut b'/' (tail r)).0) (append_cancel_left (path_of ds) _ _ e) ∙ em

-- Paths that part at a name are not equal.
pub path_of-ne :
    (ds : List Str) (n m : Str) (ns ms : List Str)
    → Lacks b'/' n
    → Lacks b'/' m
    → n ≢ m
    → path_of (ds ++ n ∷ ns) ≢ path_of (ds ++ m ∷ ms)
path_of-ne ds n m ns ms hn hm other e = other (
    same_name ds n m (n ++ path_of ns) (m ++ path_of ms) (cut-path_of n ns hn) (cut-path_of m ms hm)
      (sym (path_of-append ds (n ∷ ns)) ∙ e ∙ path_of-append ds (m ∷ ms)))

-- What is under one name is not under another.
pub under-names :
    (ds : List Str) (n m : Str) (ms : List Str)
    → Lacks b'/' n
    → Lacks b'/' m
    → n ≢ m
    → under (path_of (ds ++ n ∷ [])) (path_of (ds ++ m ∷ ms)) ≡ false
unfolding under
under-names ds n m ms hn hm other =
    let p = path_of (ds ++ n ∷ []) in
    let q = path_of (ds ++ m ∷ ms) in
    rw (str_eq_of_ne p q (path_of-ne ds n m [] ms hn hm other))
      (elim (Bool-cases (has_prefix q (p ++ b'/' ∷ []))) [
        | inr no_prefix ↦ no_prefix
        | inl begins ↦
            let (r, e) = has_prefix-split q (p ++ b'/' ∷ []) begins in
            absurd (
              other (
                same_name ds n m (n ++ b'/' ∷ r) (m ++ path_of ms)
                  (ap (λ x. x.0) (cut-found b'/' n r hn)) (cut-path_of m ms hm)
                  (sym (prefix_path r) ∙ sym e ∙ path_of-append ds (m ∷ ms))))
      ])
  where
    prefix_path :
        (r : Str)
        → (path_of (ds ++ n ∷ []) ++ b'/' ∷ []) ++ r ≡ path_of ds ++ b'/' ∷ (n ++ b'/' ∷ r)
    prefix_path r = rw (path_of-append ds (n ∷ [])) (simp (append_assoc, append-nil))
