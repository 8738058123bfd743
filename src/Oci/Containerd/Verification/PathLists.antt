-- ===== src/Oci/Containerd/Verification/PathLists.antt =====
-- The paths of a list between colons, as `verifyStatusResponse` of pkg/oci/containerd.go reads them.
use mathlib.Core.List.{append_assoc, append-nil}
use spegel.Base.{
  ◌≡◌, ◌≢◌, ◌↔◌, ◌∙◌, refl, ap, sym, subst, inl, inr, Str, ascii, str_eq, str_eq_iff, str_eq_refl,
  is_empty, true, false, Bool-cases, All, All-append, List, [], ◌∷◌, ◌++◌, ◌==◌, ==_iff,
}
use spegel.Base.Cuts.{Lacks}
use spegel.Oci.Containerd.Setup.{join_with, split_from, split_list, has_path}

abbrev colon : Str
colon = ascii ":"

split_from-cons : (part s : Str) → (q : Str) × (qs : List Str) × (split_from part s ≡ q ∷ qs)
unfolding split_from
split_from-cons part [] = (part, [], refl)
split_from-cons part (c ∷ s) = elim (Bool-cases (c == b':')) [
  | inl e ↦ (part, split_from [] s, rw e refl)
  | inr e ↦ rw e (split_from-cons (part ++ c ∷ []) s)
]

join_with-cons :
    (sep p : Str) (ps : List Str) (q : Str) (qs : List Str)
    → ps ≡ q ∷ qs
    → join_with sep (p ∷ ps) ≡ p ++ (sep ++ join_with sep ps)
unfolding join_with
join_with-cons sep p ps q qs e = rw e refl

join_with-split_from : (part s : Str) → join_with colon (split_from part s) ≡ part ++ s
unfolding split_from join_with
join_with-split_from part [] = sym (append-nil part)
join_with-split_from part (c ∷ s) = elim (Bool-cases (c == b':')) [
  | inl e ↦
      let (q, qs, more) = split_from-cons [] s in
      rw e (
        join_with-cons colon part (split_from [] s) q qs more
        ∙ ap (λ r. part ++ b':' ∷ r) (join_with-split_from [] s)
        ∙ ap (λ d. part ++ d ∷ s) (sym ((==_iff c b':').0 e)))
  | inr e ↦ rw e (join_with-split_from (part ++ c ∷ []) s ∙ append_assoc part (c ∷ []) s)
]

split_from-Lacks : (part s : Str) → Lacks b':' part → All (Lacks b':') (split_from part s)
unfolding split_from
split_from-Lacks part [] h = (h, tt)
split_from-Lacks part (c ∷ s) h = elim (Bool-cases (c == b':')) [
  | inl e ↦ rw e (h, split_from-Lacks [] s tt)
  | inr e ↦ rw e (
      split_from-Lacks (part ++ c ∷ []) s
        (All-append (λ d. (d == b':') ≡ false) part (c ∷ []) h (e, tt)))
]

split_from-part : (part p : Str) → Lacks b':' p → split_from part p ≡ (part ++ p) ∷ []
unfolding split_from
split_from-part part [] h = rw (append-nil part) refl
split_from-part part (c ∷ p) h =
    rw h.0
      (split_from-part (part ++ c ∷ []) p h.1 ∙ ap (λ q. q ∷ []) (append_assoc part (c ∷ []) p))

split_from-found :
    (part p s : Str)
    → Lacks b':' p
    → split_from part (p ++ b':' ∷ s) ≡ (part ++ p) ∷ split_from [] s
unfolding split_from
split_from-found part [] s h = rw (append-nil part) refl
split_from-found part (c ∷ p) s h = rw h.0 (
    split_from-found (part ++ c ∷ []) p s h.1
    ∙ ap (λ q. q ∷ split_from [] s) (append_assoc part (c ∷ []) p))

split_from-join_with :
    (p : Str) (ps : List Str)
    → All (Lacks b':') (p ∷ ps)
    → split_from [] (join_with colon (p ∷ ps)) ≡ p ∷ ps
unfolding join_with
split_from-join_with p [] h = split_from-part [] p h.0
split_from-join_with p (q ∷ qs) h =
    split_from-found [] p (join_with colon (q ∷ qs)) h.0
    ∙ ap (λ r. p ∷ r) (split_from-join_with q qs h.1)

-- The text lists the path, between colons.
pub record Lists (text path : Str) : Type 0 where
  pub before : List Str
  pub after : List Str
  pub parts : All (Lacks b':') (before ++ path ∷ after)
  pub joined : text ≡ join_with (ascii ":") (before ++ path ∷ after)

has_path-split :
    (path : Str) (xs : List Str)
    → has_path path xs ≡ true
    → (before after : List Str) × (xs ≡ before ++ path ∷ after)
unfolding has_path
has_path-split path [] h = cc
has_path-split path (x ∷ xs) h = elim (Bool-cases (str_eq x path)) [
  | inl e ↦ ([], xs, ap (λ y. y ∷ xs) ((str_eq_iff x path).0 e))
  | inr e ↦
      let (before, after, split) = has_path-split path xs (rw e at h) in
      (x ∷ before, after, ap (λ ys. x ∷ ys) split)
]

has_path-append :
    (path : Str) (before after : List Str) → has_path path (before ++ path ∷ after) ≡ true
unfolding has_path
has_path-append path [] after = rw (str_eq_refl path) refl
has_path-append path (x ∷ before) after = elim (Bool-cases (str_eq x path)) [
  | inl e ↦ rw e refl
  | inr e ↦ rw e (has_path-append path before after)
]

is_empty-ne : (s : Str) → is_empty s ≡ false → s ≢ []
is_empty-ne [] h e = cc
is_empty-ne (_ ∷ s) h e = cc

split_list-ne : (s : Str) → is_empty s ≡ false → split_list s ≡ split_from [] s
unfolding split_list
split_list-ne s h = rw h refl

append-cons :
    {A : Type 0} (before after : List A) (x : A)
    → (y : A) × (ys : List A) × (before ++ x ∷ after ≡ y ∷ ys)
append-cons [] after x = (x, after, refl)
append-cons (b ∷ before) after x = (b, before ++ x ∷ after, refl)

pub has_path-Lists :
    (text path : Str)
    → is_empty text ≡ false
    → (has_path path (split_list text) ≡ true) ↔ Lists text path
has_path-Lists text path some_text = (
  λ h.
      let (before, after, split) = has_path-split path (split_list text) h in
      let parts = sym (split_list-ne text some_text) ∙ split in
      record {
        before = before;
        after = after;
        parts = subst (All (Lacks b':')) parts (split_from-Lacks [] text tt);
        joined = sym (join_with-split_from [] text) ∙ ap (join_with colon) parts;
      },
  λ l.
      let (p, ps, first) = append-cons l.before l.after path in
      let whole =
        split_list-ne text some_text
        ∙ ap (split_from []) (l.joined ∙ ap (join_with colon) first)
        ∙ split_from-join_with p ps (subst (All (Lacks b':')) first l.parts)
        ∙ sym first in
      subst (λ xs. has_path path xs ≡ true) (sym whole) (has_path-append path l.before l.after),
)
