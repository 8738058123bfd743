-- ===== src/Registry/Distribution.antt =====
-- Paths of the OCI distribution API: pkg/registry/distribution.go.
--
-- The patterns are read by a backtracking match of their own. `name_from` is `nameRegex`, whose
-- texts are words of `[a-z0-9]+` joined by one of `._-/`: each text has one parse, so that the
-- greedy pattern prefers the longest name, and what follows the name may send it back.
pub mod Searching
pub mod Paths
pub mod Blobs
pub mod Latest
use mathlib.Core.Option
use spegel.Base.{
  ℕ, Str, ascii, cut, str_eq, is_empty, length, Bool, true, false, not, ◌&&◌, ◌||◌, Option, none,
  some, [], ◌∷◌, ◌++◌, Result, ok, err, error, ◌==◌, leb, all, if◌then◌else◌,
}

pub data ReferenceKind : Type 0 where
  manifest blob : ReferenceKind

-- `dgst` is a `digest.Digest`, which is a string type.
pub record Reference : Type 0 where
  pub kind : ReferenceKind
  pub name : Str
  pub dgst : Str
  pub original_registry : Str

unfoldable pub has_latest_tag : Reference → Bool
has_latest_tag r = if is_empty r.name then false else elim (cut b':' r.name).1 [
  | none ↦ str_eq [] (ascii "latest")
  | some tag ↦ str_eq tag (ascii "latest")
]

-- `[a-z0-9]`
unfoldable pub is_name_byte : ℕ → Bool
is_name_byte c = (leb b'a' c && leb c b'z') || (leb b'0' c && leb c b'9')

-- `[._-]` and `/`, between the words of a name
unfoldable pub is_separator : ℕ → Bool
is_separator c = c == b'.' || c == b'_' || c == b'-' || c == b'/'

abbrev pub with_byte {ℓ} : {A : Type ℓ} → ℕ → Option (Str × A) → Option (Str × A)
with_byte c none = none
with_byte c (some (name, a)) = some (c ∷ name, a)

abbrev pub ends_here {ℓ} : {A : Type ℓ} → Bool → Option A → Option (Str × A)
ends_here true (some a) = some ([], a)
ends_here _ _ = none

abbrev pub or_else {ℓ} : {A : Type ℓ} → Option A → Option A → Option A
or_else none b = b
or_else (some a) b = some a

-- The rest of a name and what `rest` makes of the text behind it; `inside` says that a word has
-- begun, so that the name may end here.
unfoldable pub name_from {ℓ} : {A : Type ℓ} → (Str → Option A) → Bool → Str → Option (Str × A)
unfolding is_name_byte is_separator
name_from rest inside [] = ends_here inside (rest [])
name_from rest inside (c ∷ s) =
    let longer = with_byte c (name_from rest (is_name_byte c) s) in
    or_else (if is_name_byte c || (inside && is_separator c) then longer else none)
      (ends_here inside (rest (c ∷ s)))

-- A literal, and what stands behind it.
unfoldable pub literal : Str → Str → Option Str
literal [] s = some s
literal (c ∷ p) [] = none
literal (c ∷ p) (d ∷ s) = if d == c then literal p s else none

-- `[a-zA-Z0-9_]`
unfoldable pub is_tag_start : ℕ → Bool
unfolding is_name_byte
is_tag_start c = is_name_byte c || (leb b'A' c && leb c b'Z') || c == b'_'

-- `[a-zA-Z0-9._-]`
unfoldable pub is_tag_byte : ℕ → Bool
unfolding is_tag_start
is_tag_byte c = is_tag_start c || c == b'.' || c == b'-'

-- `tagRegex` up to the end of the text.
unfoldable pub is_tag : Str → Bool
unfolding is_tag_byte
is_tag [] = false
is_tag (c ∷ s) = is_tag_start c && all is_tag_byte s && leb (length s) 127

unfoldable pub whole_tag : Str → Option Str
unfolding is_tag
whole_tag s = if is_tag s then some s else none

-- `(.*)`, which stops before a newline.
unfoldable pub line : Str → Option Str
line s = some (cut 10 s).0

-- What the patterns want behind the name: a literal, and then a tag or a digest.
unfoldable pub behind_name : Str → (Str → Option Str) → Str → Option Str
unfolding literal
behind_name p last s = elim (literal p s) [ none ↦ none | some t ↦ last t ]

-- A match of `/v2/`, the name and the rest that begins with the text.
unfoldable pub match_here : (Str → Option Str) → Str → Option (Str × Str)
unfolding literal
match_here rest s = elim (literal (ascii "/v2/") s) [
  | none ↦ none
  | some t ↦ name_from rest false t
]

-- `FindStringSubmatch`: the leftmost match, by its groups 1 and 5.
unfoldable pub find : (Str → Option Str) → Str → Option (Str × Str)
find rest [] = match_here rest []
find rest (c ∷ s) = or_else (match_here rest (c ∷ s)) (find rest s)

unfoldable pub manifest_tag : Str → Option Str
unfolding behind_name whole_tag
manifest_tag = behind_name (ascii "/manifests/") whole_tag

unfoldable pub manifest_digest : Str → Option Str
unfolding behind_name line
manifest_digest = behind_name (ascii "/manifests/") line

unfoldable pub blobs_digest : Str → Option Str
unfolding behind_name line
blobs_digest = behind_name (ascii "/blobs/") line

-- `parsePathComponents` from its second pattern on.
unfoldable pub parse_digest : Str → Str → Result Reference
parse_digest original_registry path = elim (find manifest_digest path) [
  | some (_, dgst) ↦
      ok (record { kind = manifest; name = []; dgst = dgst; original_registry = original_registry })
  | none ↦ elim (find blobs_digest path) [
    | some (_, dgst) ↦
        ok (record { kind = blob; name = []; dgst = dgst; original_registry = original_registry })
    | none ↦ err (error "distribution path could not be parsed")
  ]
]

unfoldable pub parse_path_components : Str → Str → Result Reference
unfolding parse_digest
parse_path_components original_registry path = elim (find manifest_tag path) [
  | some (name, tag) ↦
      if is_empty original_registry
      then err (error "registry parameter needs to be set for tag references")
      else ok (record {
        kind = manifest;
        name = original_registry ++ (b'/' ∷ (name ++ (b':' ∷ tag)));
        dgst = [];
        original_registry = original_registry;
      })
  | none ↦ parse_digest original_registry path
]
