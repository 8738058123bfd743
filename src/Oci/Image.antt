-- ===== src/Oci/Image.antt =====
-- Image references and image events: pkg/oci/image.go.
pub mod References
pub mod Splitting
pub mod Validity
use spegel.Base.{
  Str, ascii, cut, contains, trim_byte, is_empty, str_eq, Bool, not, ◌&&◌, ◌||◌, Option, none, some,
  [], ◌∷◌, ◌++◌, Result, ok, err, error, errorf, ◌>>=◌, ◌==◌, if◌then◌else◌,
}
use spegel.Url
use spegel.Url.{Url}

-- `digest.Digest` is a string type.
pub record Image : Type 0 where
  pub name : Str
  pub registry : Str
  pub repository : Str
  pub tag : Str
  pub digest : Str

pub data EventType : Type 0 where
  create update delete : EventType

pub record ImageEvent : Type 0 where
  pub image : Image
  pub event_type : EventType

unfoldable pub new_image : Str → Str → Str → Str → Str → Result Image
new_image name registry repository tag dgst =
    if is_empty name
    then err (error "image needs to contain a name")
    else if is_empty registry
    then err (error "image needs to contain a registry")
    else if is_empty repository
    then err (error "image needs to repository a digest")
    else if is_empty dgst
    then err (error "image needs to contain a digest")
    else ok (record {
      name = name;
      registry = registry;
      repository = repository;
      tag = tag;
      digest = dgst;
    })

unfoldable pub is_latest_tag : Image → Bool
is_latest_tag i = str_eq i.tag (ascii "latest")

-- The method `String`.
unfoldable pub image_string : Image → Str
image_string i =
    let tag = if is_empty i.tag then [] else b':' ∷ i.tag in
    i.registry ++ (b'/' ∷ (i.repository ++ (tag ++ (b'@' ∷ i.digest))))

unfoldable pub tag_name : Image → Option Str
tag_name i =
    if is_empty i.tag then none else some (i.registry ++ (b'/' ∷ (i.repository ++ (b':' ∷ i.tag))))

-- `u.Path` before and from the first match of `[:@]`.
unfoldable pub split_path : Str → Str × Str
split_path [] = ([], [])
split_path (c ∷ s) =
    let rest = split_path s in if c == b':' || c == b'@' then ([], c ∷ s) else (c ∷ rest.0, rest.1)

-- The parts of `strings.SplitAfterN(obj, "@", 2)`, by the parts of a cut at `@`.
after_cut : Str → Option Str → Str × Str
after_cut tag none = (tag, [])
after_cut tag (some dgst) = (tag ++ (b'@' ∷ []), dgst)

unfoldable pub split_object : Str → Str × Str
unfolding after_cut
split_object obj = let parts = cut b'@' obj in after_cut parts.0 parts.1

-- `Parse` behind `url.Parse`.
unfoldable pub of_url : Str → Str → Url → Result Image
unfolding split_path split_object trim_byte
of_url s extra_dgst u =
    if not (str_eq u.scheme (ascii "dummy"))
    then err (error "invalid reference")
    else if is_empty u.host
    then err (error "hostname required")
    else let parts = split_path u.path in
      let object = split_object (trim_byte b':' parts.1) in
      let tag = (cut b'@' object.0).0 in
      let repository = trim_byte b'/' parts.0 in
      let dgst = if is_empty object.1 then extra_dgst else object.1 in
      if not (is_empty extra_dgst) && not (str_eq dgst extra_dgst)
      then err (errorf "invalid digest set does not match parsed digest: %v %v" (s ∷ dgst ∷ []))
      else new_image s u.host repository tag dgst

unfoldable pub parse : Str → Str → Result Image
parse s extra_dgst =
    if contains s (ascii "://")
    then err (error "invalid reference")
    else do u ← Url.parse (ascii "dummy://" ++ s); of_url s extra_dgst u
