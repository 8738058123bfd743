-- ===== src/Tests/Memory.antt =====
-- A file system in memory, which is as pkg/oci/containerd.go takes it to be.
use spegel.Base.{
  ◌≡◌, ◌∙◌, refl, ap, inl, inr, Str, ascii, str_eq, str_eq_iff, is_empty, cut, has_byte, drop,
  length, All, Bool, true, false, not, ◌&&◌, ◌||◌, Bool-cases, Option, none, some, List, [], ◌∷◌,
  ◌++◌, Result, ok, ok_injective, err, error, arith, if◌then◌else◌, ◌+◌, str_eq_refl, subst,
}
use spegel.Base.Cuts.{Lacks}
use spegel.Base.Maps.{Map, lookup, insert, lookup-insert}
use spegel.Base.Join.{IsName, under}
use spegel.Oci.MirrorConfig.Files.{FileSystem, IsLawful}

-- Whether a text is a name.
unfoldable pub is_name : Str → Bool
is_name n =
    not (has_byte b'/' n)
    && (not (is_empty n) && (not (str_eq n (ascii ".")) && not (str_eq n (ascii ".."))))

has_byte-Lacks : (b : Str) → has_byte b'/' b ≡ false → Lacks b'/' b
unfolding has_byte
has_byte-Lacks [] h = tt
has_byte-Lacks (c ∷ s) h = (ground arith, has_byte-Lacks s (ground arith))

pub is_name-IsName : (n : Str) → is_name n ≡ true → IsName n
unfolding is_name has_byte
is_name-IsName [] h = cc
is_name-IsName (c ∷ n) h = record {
  no_slash = has_byte-Lacks (c ∷ n) (ground arith);
  some_byte = λ e. cc;
  no_dot = ground (arith, str_eq_iff (c ∷ n) (ascii "."));
  no_dots = ground (arith, str_eq_iff (c ∷ n) (ascii ".."));
}

-- The files that are not under a path.
unfoldable pub outside : Str → Map Str → Map Str
outside p [] = []
outside p ((q, b) ∷ files) = let rest = outside p files in if under p q then rest else (q, b) ∷ rest

lookup-outside :
    (p q : Str) (files : Map Str) → under p q ≡ false → lookup q (outside p files) ≡ lookup q files
unfolding outside lookup
lookup-outside p q [] h = refl
lookup-outside p q ((r, b) ∷ files) h = elim (Bool-cases (str_eq r q)) [
  | inl same ↦ rw (ap (under p) ((str_eq_iff r q).0 same) ∙ h) (rw same refl)
  | inr other ↦ elim (Bool-cases (under p r)) [
    | inl gone ↦ rw (gone, other) (lookup-outside p q files h)
    | inr there ↦ rw (there, other) (lookup-outside p q files h)
  ]
]

unfoldable pub has_name : Str → List Str → Bool
has_name n [] = false
has_name n (m ∷ ms) = str_eq n m || has_name n ms

-- The names behind a directory, each once.
unfoldable pub names_in : Str → List Str → Map Str → List Str
unfolding is_name has_name
names_in p seen [] = []
names_in p seen ((q, b) ∷ files) =
    let n = (cut b'/' (drop (length p + 1) q)).0 in
    let rest = names_in p seen files in
    let more = n ∷ names_in p (n ∷ seen) files in
    if is_name n && (under p q && not (has_name n seen)) then more else rest

and_left : (a b : Bool) → (a && b) ≡ true → a ≡ true
and_left true b h = refl
and_left false b h = h

names_in-IsName : (p : Str) (seen : List Str) (files : Map Str) → All IsName (names_in p seen files)
unfolding names_in
names_in-IsName p seen [] = tt
names_in-IsName p seen ((q, b) ∷ files) =
    let n = (cut b'/' (drop (length p + 1) q)).0 in
    elim (Bool-cases (is_name n && (under p q && not (has_name n seen)))) [
      | inl listed ↦
          rw listed (is_name-IsName n (and_left _ _ listed), names_in-IsName p (n ∷ seen) files)
      | inr skipped ↦ rw skipped (names_in-IsName p seen files)
    ]

-- A file or a directory of this path is there.
unfoldable pub is_there : Str → Map Str → Bool
is_there p [] = false
is_there p ((q, b) ∷ files) = under p q || is_there p files

unfoldable pub moved : Str → Str → Map Str → Map Str
moved old new [] = []
moved old new ((q, b) ∷ files) =
    ((if under old q then new ++ drop (length old) q else q), b) ∷ moved old new files

abbrev or_missing : Option Str → Result Str
or_missing none = err (error "file does not exist")
or_missing (some b) = ok b

-- Directories are there with their files.
abbrev pub memory : FileSystem
memory = record {
  State = Map Str;
  stat = λ p files. if is_there p files then none else some (error "file does not exist");
  is_not_exist = λ e. true;
  mkdir_all = λ p files. (none, files);
  read_dir = λ p files. ok (names_in p [] files);
  rename = λ old new files. (none, moved old new files);
  remove_all = λ p files. (none, outside p files);
  read_file = λ p files. or_missing (lookup p files);
  is_not_found = λ e. true;
  write_file = λ p b files. (none, insert p b files);
}

pub contents : Map Str → Str → Option Str
contents files p = lookup p files

pub memory-IsLawful : IsLawful memory contents
unfolding contents
memory-IsLawful = record {
  file-mkdir_all = λ p q files. refl;
  stat-mkdir_all = λ p q files h. h;
  file-written = λ p b files h. lookup-insert p p b files ∙ rw (str_eq_refl p) refl;
  file-write_file = λ p b q files h. lookup-insert p q b files ∙ rw h refl;
  file-remove_all = λ p q files h. lookup-outside p q files h;
  read_dir-names =
      λ p files names e. subst (All IsName) (ok_injective e) (names_in-IsName p [] files);
}
