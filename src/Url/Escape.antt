-- ===== src/Url/Escape.antt =====
-- Percent-decoding by Go's `net/url`: `unescape` and `shouldEscape`.
use spegel.Base.{
  ℕ, ◌+◌, ◌-◌, ◌*◌, Str, ascii, has_byte, Bool, true, ◌&&◌, ◌||◌, Option, none, some, [], ◌∷◌,
  Result, ok, err, error, ◌>>=◌, ◌==◌, leb, if◌then◌else◌,
}

-- The `encoding` modes that parsing uses.
pub data Mode : Type 0 where
  path user_password host zone fragment : Mode

unfoldable pub is_digit : ℕ → Bool
is_digit c = leb b'0' c && leb c b'9'

unfoldable pub is_letter : ℕ → Bool
is_letter c = (leb b'a' c && leb c b'z') || (leb b'A' c && leb c b'Z')

-- The value of a hexadecimal digit (`ishex`, `unhex`).
unfoldable pub hex : ℕ → Option ℕ
hex c =
    if leb b'0' c && leb c b'9'
    then some (c - b'0')
    else if leb b'a' c && leb c b'f'
    then some (c - b'a' + 10)
    else if leb b'A' c && leb c b'F'
    then some (c - b'A' + 10)
    else none

-- `!shouldEscape(c, encodeHost)`, also for `encodeZone`.
unfoldable pub host_byte : ℕ → Bool
unfolding is_digit is_letter has_byte
host_byte c = is_letter c || is_digit c || has_byte c (ascii "!$&'()*+,;=:[]<>\"-_.~")

-- A byte that is no escape may stand in a host if it is allowed there or no ASCII.
unfoldable pub may_stand : Mode → ℕ → Bool
unfolding host_byte
may_stand host c = host_byte c || leb 0x80 c
may_stand zone c = host_byte c || leb 0x80 c
may_stand _ c = true

-- `%xy` in this mode, with the values of its digits.
unfoldable pub may_escape : Mode → ℕ → ℕ → Bool
unfolding host_byte
may_escape host x y = leb 8 x || (x == 2 && y == 5)
may_escape zone x y = let v = x * 16 + y in (x == 2 && y == 5) || v == 0x20 || host_byte v
may_escape _ x y = true

push : ℕ → Result Str → Result Str
push c r = do s ← r; ok (c ∷ s)

unfoldable mutual
  unfolding push hex may_stand may_escape

  -- `unescape(s, mode)`
  pub unescape : Mode → Str → Result Str
  unescape mode [] = ok []
  unescape mode (c ∷ s) =
      let plain = push c (unescape mode s) in
      let escaped = after_percent mode s in
      if c == b'%'
      then escaped
      else if may_stand mode c
      then plain
      else err (error "invalid character in host name")

  after_percent : Mode → Str → Result Str
  after_percent mode [] = err (error "invalid URL escape")
  after_percent mode (x ∷ s) = after_digit mode (hex x) s

  after_digit : Mode → Option ℕ → Str → Result Str
  after_digit mode x [] = err (error "invalid URL escape")
  after_digit mode x (y ∷ s) =
      let rest = unescape mode s in
      elim x [
        | none ↦ err (error "invalid URL escape")
        | some v ↦ elim (hex y) [
          | none ↦ err (error "invalid URL escape")
          | some w ↦
              if may_escape mode v w
              then push (v * 16 + w) rest
              else err (error "invalid URL escape")
        ]
      ]
