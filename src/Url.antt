-- ===== src/Url.antt =====
-- What the program uses of Go's package `net/url`: `url.Parse` (as of Go 1.22), over bytes, as far
-- as it determines the scheme, the host, the path and the error.
pub mod Escape
pub mod Plain
mod Tests
use spegel.Base.{
  ℕ, ◌+◌, ◌≡◌, Str, ascii, cut, cut_last, cut_at, all, has_byte, has_prefix, is_empty, str_eq, drop,
  Bool, true, false, not, ◌&&◌, ◌||◌, Option, none, some, [], ◌∷◌, ◌++◌, Result, ok, err, error,
  ◌>>=◌, ◌==◌, ltb, leb, if◌then◌else◌,
}
use spegel.Url.Escape.{path, host, zone, fragment, user_password, unescape}
use spegel.Url.Escape.{is_digit, is_letter}

pub record Url : Type 0 where
  pub scheme : Str
  pub host : Str
  pub path : Str

-- A byte that `stringContainsCTLByte` looks for.
unfoldable pub is_control : ℕ → Bool
is_control c = ltb c 0x20 || c == 0x7f

unfoldable pub has_control : Str → Bool
unfolding is_control
has_control [] = false
has_control (c ∷ s) = is_control c || has_control s

to_lower : Str → Str
to_lower [] = []
to_lower (c ∷ s) = (if leb b'A' c && leb c b'Z' then c + 32 else c) ∷ to_lower s

-- The loop of `getScheme`: `seen` are the bytes before, and `raw` is the text.
scheme_from : Str → Str → Str → Result (Str × Str)
scheme_from raw seen [] = ok ([], raw)
scheme_from raw seen (c ∷ s) =
    let next = scheme_from raw (seen ++ c ∷ []) s in
    if is_letter c
    then next
    else if is_digit c || c == b'+' || c == b'-' || c == b'.'
    then (if is_empty seen then ok ([], raw) else next)
    else if c == b':'
    then (if is_empty seen then err (error "missing protocol scheme") else ok (seen, s))
    else ok ([], raw)

-- `getScheme`
unfoldable pub get_scheme : Str → Result (Str × Str)
unfolding scheme_from is_letter is_digit
get_scheme raw = scheme_from raw [] raw

-- `validOptionalPort`
unfoldable pub valid_optional_port : Str → Bool
valid_optional_port [] = true
valid_optional_port (c ∷ s) = c == b':' && all is_digit s

user_byte : ℕ → Bool
user_byte c = is_letter c || is_digit c || has_byte c (ascii "-._:~!$&'()*+,;=%@")

unescape_password : Option Str → Result Str
unescape_password none = ok []
unescape_password (some password) = unescape user_password password

-- The checks of `parseAuthority` on what stands before the last `@`.
check_user : Str → Result (Unit {0})
check_user user = if not (all user_byte user) then err (error "net/url: invalid userinfo") else do
  let parts = cut b':' user
  _ ← unescape user_password parts.0
  _ ← unescape_password parts.1
  ok tt

-- A host in brackets: `host[:i]` and `host[i:]`, at its last `]`.
bracketed : Str → Str → Result Str
bracketed before after = elim (cut_at (ascii "%25") before) [
  | none ↦ unescape host (before ++ after)
  | some (name, zone_part) ↦ do
    a ← unescape host name
    b ← unescape zone zone_part
    c ← unescape host after
    ok (a ++ b ++ c)
]

invalid_port : Result Str
invalid_port = err (error "invalid port after host")

-- `parseHost`
unfoldable pub parse_host : Str → Result Str
unfolding valid_optional_port bracketed invalid_port
parse_host s =
    if has_prefix s (ascii "[")
    then elim (cut_last b']' s) [
      | none ↦ err (error "missing ']' in host")
      | some (before, port) ↦
          if valid_optional_port port then bracketed before (b']' ∷ port) else invalid_port
    ]
    else elim (cut_last b':' s) [
      | none ↦ unescape host s
      | some (name, port) ↦
          if valid_optional_port (b':' ∷ port) then unescape host s else invalid_port
    ]

-- `parseAuthority`, without the user.
unfoldable pub parse_authority : Str → Result Str
unfolding parse_host check_user user_byte unescape_password is_letter is_digit
parse_authority s = elim (cut_last b'@' s) [
  | none ↦ parse_host s
  | some (user, host_part) ↦ do h ← parse_host host_part; _ ← check_user user; ok h
]

-- `authority, rest = rest[:i], rest[i:]`, at the first `/`.
unfoldable pub at_slash : Str → Str × Str
at_slash s = let parts = cut b'/' s in (parts.0, elim parts.1 [ none ↦ [] | some p ↦ b'/' ∷ p ])

unfoldable pub located : Str → Str → Str → Result Url
located s h p = do decoded ← unescape path p; ok (record { scheme = s; host = h; path = decoded })

unfoldable pub with_authority : Str → Str × Str → Result Url
with_authority s (authority, rest) = do h ← parse_authority authority; located s h rest

-- The part of `parse` behind the scheme, with the query cut off.
unfoldable pub parse_rest : Str → Str → Result Url
unfolding at_slash located with_authority parse_authority
parse_rest s rest =
    if has_prefix rest (ascii "/")
    then (if has_prefix rest (ascii "//")
          && (not (is_empty s) || not (has_prefix rest (ascii "///")))
        then with_authority s (at_slash (drop 2 rest))
        else located s [] rest)
    else if not (is_empty s)
    then ok (record { scheme = s; host = []; path = [] })
    else if has_byte b':' (cut b'/' rest).0
    then err (error "first path segment in URL cannot contain colon")
    else located s [] rest

-- `parse`
unfoldable pub parse_no_fragment : Str → Result Url
unfolding has_control get_scheme to_lower parse_rest
parse_no_fragment raw =
    if has_control raw
    then err (error "net/url: invalid control character in URL")
    else if str_eq raw (ascii "*")
    then ok (record { scheme = []; host = []; path = raw })
    else do parts ← get_scheme raw; parse_rest (to_lower parts.0) (cut b'?' parts.1).0

check_fragment : Option Str → Result Str
check_fragment none = ok []
check_fragment (some f) = unescape fragment f

-- `url.Parse`
unfoldable pub parse : Str → Result Url
unfolding parse_no_fragment check_fragment
parse raw = do
  let parts = cut b'#' raw
  u ← parse_no_fragment parts.0
  _ ← check_fragment parts.1
  ok u
