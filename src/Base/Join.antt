-- ===== src/Base/Join.antt =====
-- `path.Join` and `path.Dir` of Go's package `path`, and the paths that are made of names.
use mathlib.Core.Bool.{Bool, true, false, ◌||◌}
use mathlib.Core.List.{List, [], ◌∷◌, ◌++◌, append_assoc, append-nil}
use mathlib.Core.Logic.{◌≢◌, inl, inr}
use mathlib.Core.Option.{none, some}
use mathlib.Core.Path.{◌≡◌, refl, ◌∙◌, ap, sym}
use spegel.Base.Tests.{if◌then◌else◌, Bool-cases}
use spegel.Base.Lists.{All, All-append}
use spegel.Base.Bytes.{Str, ascii, str_eq, str_eq_iff, is_empty, has_prefix, cut_last}
use spegel.Base.Cuts.{Lacks}
use spegel.Base.Clean.{clean, parts_from, clean_parts, join_parts}

-- The elements joined by slashes, behind what is joined already.
unfoldable pub join_from : Str → List Str → Str
join_from joined [] = joined
join_from joined (e ∷ es) = join_from (if is_empty joined then e else joined ++ b'/' ∷ e) es

-- `path.Join(es...)`
unfoldable pub path_join : List Str → Str
unfolding join_from
path_join es = let joined = join_from [] es in if is_empty joined then [] else clean joined

-- `path.Dir(s)`
unfoldable pub path_dir : Str → Str
path_dir s = elim (cut_last b'/' s) [
  | none ↦ clean []
  | some (before, file) ↦ clean (before ++ b'/' ∷ [])
]

-- Whether a path is another, or is under it.
unfoldable pub under : Str → Str → Bool
unfolding str_eq has_prefix
under p q = str_eq p q || has_prefix q (p ++ b'/' ∷ [])

-- A name of a file or of a directory.
pub record IsName (n : Str) : Type 0 where
  pub no_slash : Lacks b'/' n
  pub some_byte : n ≢ []
  pub no_dot : n ≢ ascii "."
  pub no_dots : n ≢ ascii ".."

-- The rooted path of these names.
abbrev pub path_of : List Str → Str
path_of [] = []
path_of (n ∷ ns) = b'/' ∷ (n ++ path_of ns)

pub path_of-append : (ms ns : List Str) → path_of (ms ++ ns) ≡ path_of ms ++ path_of ns
path_of-append [] ns = refl
path_of-append (m ∷ ms) ns =
    ap (λ r. b'/' ∷ (m ++ r)) (path_of-append ms ns)
    ∙ ap (λ r. b'/' ∷ r) (sym (append_assoc m (path_of ms) (path_of ns)))

parts_from-name : (part n : Str) → Lacks b'/' n → parts_from part n ≡ (part ++ n) ∷ []
unfolding parts_from
parts_from-name part [] h = rw append-nil
parts_from-name part (c ∷ n) h =
    rw h.0
      (parts_from-name (part ++ c ∷ []) n h.1 ∙ ap (λ r. r ∷ []) (append_assoc part (c ∷ []) n))

parts_from-slash :
    (part n s : Str)
    → Lacks b'/' n
    → parts_from part (n ++ b'/' ∷ s) ≡ (part ++ n) ∷ parts_from [] s
unfolding parts_from
parts_from-slash part [] s h = rw append-nil
parts_from-slash part (c ∷ n) s h = rw h.0 (
    parts_from-slash (part ++ c ∷ []) n s h.1
    ∙ ap (λ r. r ∷ parts_from [] s) (append_assoc part (c ∷ []) n))

parts_from-path_of :
    (n : Str) (ns : List Str)
    → Lacks b'/' n
    → All IsName ns
    → parts_from [] (n ++ path_of ns) ≡ n ∷ ns
parts_from-path_of n [] h hs = rw append-nil (parts_from-name [] n h)
parts_from-path_of n (m ∷ ms) h hs =
    parts_from-slash [] n (m ++ path_of ms) h
    ∙ ap (λ r. n ∷ r) (parts_from-path_of m ms hs.0.no_slash hs.1)

abbrev onto : List Str → List Str → List Str
onto [] done = done
onto (n ∷ ns) done = onto ns (n ∷ done)

is_empty_of_ne : (s : Str) → s ≢ [] → is_empty s ≡ false
is_empty_of_ne [] h = absurd (h refl)
is_empty_of_ne (_ ∷ _) h = refl

pub str_eq_of_ne : (s t : Str) → s ≢ t → str_eq s t ≡ false
str_eq_of_ne s t h = elim (Bool-cases (str_eq s t)) [
  | inl same ↦ absurd (h ((str_eq_iff s t).0 same))
  | inr other ↦ other
]

clean_parts-names : (ns done : List Str) → All IsName ns → clean_parts true done ns ≡ onto ns done
unfolding clean_parts
clean_parts-names [] done hs = refl
clean_parts-names (n ∷ ns) done (h, hs) =
    rw
      (
        is_empty_of_ne n h.some_byte,
        str_eq_of_ne n (ascii ".") h.no_dot,
        str_eq_of_ne n (ascii "..") h.no_dots,
      )
      (clean_parts-names ns (n ∷ done) hs)

-- The path of names that are kept last first, in front of a text.
abbrev path_back : List Str → Str → Str
path_back [] t = t
path_back (n ∷ ns) t = path_back ns (b'/' ∷ (n ++ t))

join_parts-path_back :
    (n : Str) (ns : List Str) (t : Str) → b'/' ∷ join_parts (n ∷ ns) t ≡ path_back (n ∷ ns) t
unfolding join_parts
join_parts-path_back n [] t = refl
join_parts-path_back n (m ∷ ns) t = join_parts-path_back m ns (b'/' ∷ (n ++ t))

path_back-onto :
    (ns done : List Str) (t : Str) → path_back (onto ns done) t ≡ path_back done (path_of ns ++ t)
path_back-onto [] done t = refl
path_back-onto (n ∷ ns) done t =
    path_back-onto ns (n ∷ done) t
    ∙ ap (λ r. path_back done (b'/' ∷ r)) (sym (append_assoc n (path_of ns) t))

onto-cons :
    (ns : List Str) (d : Str) (ds : List Str)
    → (m : Str) × (ms : List Str) × (onto ns (d ∷ ds) ≡ m ∷ ms)
onto-cons [] d ds = (d, ds, refl)
onto-cons (n ∷ ns) d ds = onto-cons ns n (d ∷ ds)

-- A path of names is clean.
pub clean-path_of :
    (n : Str) (ns : List Str) → All IsName (n ∷ ns) → clean (path_of (n ∷ ns)) ≡ path_of (n ∷ ns)
unfolding clean parts_from
clean-path_of n ns (h, hs) =
    let (m, ms, e) = onto-cons ns n [] in
    rw (parts_from-path_of n ns h.no_slash hs) (
      unfold clean_parts in
      rw (clean_parts-names (n ∷ ns) [] (h, hs)) (
        rw e (join_parts-path_back m ms [])
        ∙ ap (λ l. path_back l []) (sym e)
        ∙ path_back-onto ns (n ∷ []) []
        ∙ ap (λ r. b'/' ∷ (n ++ r)) (append-nil (path_of ns))))

join_from-names :
    (joined : Str) (ns : List Str) → joined ≢ [] → join_from joined ns ≡ joined ++ path_of ns
unfolding join_from
join_from-names joined [] h = rw append-nil
join_from-names joined (n ∷ ns) h = rw (is_empty_of_ne joined h) (
    join_from-names (joined ++ b'/' ∷ n) ns (append-ne-nil joined (b'/' ∷ n) h)
    ∙ append_assoc joined (b'/' ∷ n) (path_of ns))
  where
    append-ne-nil : (s t : Str) → s ≢ [] → s ++ t ≢ []
    append-ne-nil [] t h e = h refl
    append-ne-nil (_ ∷ s) t h e = cc

-- Names joined to a path of names.
pub path_join-names :
    (n : Str) (ns ms : List Str)
    → All IsName (n ∷ ns)
    → All IsName ms
    → path_join (path_of (n ∷ ns) ∷ ms) ≡ path_of ((n ∷ ns) ++ ms)
unfolding path_join
path_join-names n ns ms hn hm = rw (join_from-names (path_of (n ∷ ns)) ms (λ e. cc)) (
    ap clean (sym (path_of-append (n ∷ ns) ms))
    ∙ clean-path_of n (ns ++ ms) (All-append IsName (n ∷ ns) ms hn hm))
