-- ===== src/Base/Clean.antt =====
-- `path.Clean` of Go's package `path`.
use mathlib.Core.Bool.{Bool, true, false, ◌||◌}
use mathlib.Core.List.{List, [], ◌∷◌, ◌++◌}
use mathlib.Core.Path.{◌≡◌, refl}
use spegel.Base.Tests.{◌==◌, if◌then◌else◌}
use spegel.Base.Bytes.{Str, ascii, str_eq, is_empty}

-- The parts between slashes; `part` are the bytes of the part that is being read.
unfoldable pub parts_from : Str → Str → List Str
parts_from part [] = part ∷ []
parts_from part (c ∷ s) =
    let closed = part ∷ parts_from [] s in
    let longer = parts_from (part ++ c ∷ []) s in if c == b'/' then closed else longer

-- A `..` takes the last part off, unless there is none or it is a `..` that stayed; at the root it
-- is dropped. The parts so far are kept last first.
unfoldable pub step_up : Bool → List Str → List Str
step_up true [] = []
step_up false [] = ascii ".." ∷ []
step_up rooted (p ∷ ps) = if str_eq p (ascii "..") then ascii ".." ∷ p ∷ ps else ps

unfoldable pub clean_parts : Bool → List Str → List Str → List Str
clean_parts rooted done [] = done
clean_parts rooted done (p ∷ ps) =
    clean_parts rooted
      (if is_empty p || str_eq p (ascii ".")
        then done
        else if str_eq p (ascii "..")
        then step_up rooted done
        else p ∷ done)
      ps

-- The parts, last first, joined by slashes in front of `text`.
unfoldable pub join_parts : List Str → Str → Str
join_parts [] text = text
join_parts (p ∷ []) text = p ++ text
join_parts (p ∷ q ∷ ps) text = join_parts (q ∷ ps) (b'/' ∷ (p ++ text))

unfoldable pub is_rooted : Str → Bool
is_rooted [] = false
is_rooted (c ∷ s) = c == b'/'

unfoldable pub or_dot : Str → Str
or_dot [] = ascii "."
or_dot (c ∷ s) = c ∷ s

unfoldable pub clean : Str → Str
unfolding parts_from step_up clean_parts join_parts is_rooted or_dot str_eq
clean path =
    let rooted = is_rooted path in
    let joined = join_parts (clean_parts rooted [] (parts_from [] path)) [] in
    if rooted then b'/' ∷ joined else or_dot joined

clean_examples :
    (clean (ascii "/v2/") ≡ ascii "/v2")
    × (clean (ascii "/a/../v2/./") ≡ ascii "/v2")
    × (clean (ascii "../a//b/..") ≡ ascii "../a")
unfolding clean
clean_examples = (refl, refl, refl)
