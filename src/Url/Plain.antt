-- ===== src/Url/Plain.antt =====
-- What `url.Parse` makes of texts of plain bytes, which need no escapes.
use spegel.Base.{
  ℕ, ◌≡◌, ◌≢◌, ◌∙◌, has_prefix, refl, ap, Str, All, All-append, All-imp, ascii, cut_last, all, Bool,
  true, false, ◌||◌, Bool-cases, inl, inr, [], ◌∷◌, ◌++◌, ok, ◌==◌, ==_iff, arith,
}
use spegel.Base.Cuts.{Lacks, cut-Lacks, cut-found, cut_last-Lacks, cut_last-found}
use mathlib.Core.Bool.{and-eq-true_iff}
use spegel.Base.{str_eq}
use spegel.Url.{
  with_authority, located, Url, is_control, has_control, parse_host, parse_authority, at_slash,
  parse_rest, parse_no_fragment, parse,
}
use spegel.Url.Escape.{Mode, path, host, unescape, may_stand, host_byte, is_digit, is_letter}

-- Letters, digits, and the marks of names and tags.
unfoldable pub is_word : ℕ → Bool
unfolding is_letter is_digit
is_word c = is_letter c || is_digit c || c == b'-' || c == b'_' || c == b'.' || c == b'+'

-- Every byte of `s` passes the test.
abbrev pub AllOf : (ℕ → Bool) → Str → Type 0
AllOf p s = All (λ c. p c ≡ true) s

ne_of_test : (p : ℕ → Bool) (b c : ℕ) → p b ≡ false → p c ≡ true → (c == b) ≡ false
ne_of_test p b c no_b yes_c = elim (Bool-cases (c == b)) [
  | inl same ↦ cc (no_b, yes_c, ap p ((==_iff c b).0 same))
  | inr other ↦ other
]

-- A text that passes a test lacks each byte that fails it.
pub Lacks-of_test : (p : ℕ → Bool) (b : ℕ) (s : Str) → p b ≡ false → AllOf p s → Lacks b s
Lacks-of_test p b s no_b h = All-imp _ _ s (λ c. ne_of_test p b c no_b) h

pub unescape-plain :
    (mode : Mode) (p : ℕ → Bool) (s : Str)
    → p b'%' ≡ false
    → ((c : ℕ) → p c ≡ true → may_stand mode c ≡ true)
    → AllOf p s
    → unescape mode s ≡ ok s
unfolding unescape
unescape-plain mode p [] no_percent stands h = refl
unescape-plain mode p (c ∷ s) no_percent stands h =
    rw (ne_of_test p b'%' c no_percent h.0, unescape-plain mode p s no_percent stands h.1)
      (rw (stands c h.0))

is_word-host_byte : (c : ℕ) → is_word c ≡ true → host_byte c ≡ true
unfolding is_word host_byte
is_word-host_byte c h = ground arith

has_control-plain :
    (p : ℕ → Bool) (s : Str)
    → ((c : ℕ) → p c ≡ true → is_control c ≡ false)
    → AllOf p s
    → has_control s ≡ false
unfolding has_control
has_control-plain p [] f h = refl
has_control-plain p (c ∷ s) f h = rw (f c h.0, has_control-plain p s f h.1)

-- A host: a name, or a name and a port.
pub data IsHost (h : Str) : Type 0 where
  plain : h ≢ [] → AllOf is_word h → IsHost h
  with_port :
      (name port : Str)
      → name ≢ []
      → AllOf is_word name
      → port ≢ []
      → AllOf is_digit port
      → h ≡ name ++ b':' ∷ port
      → IsHost h

unfoldable pub is_host_byte : ℕ → Bool
unfolding is_word
is_host_byte c = is_word c || c == b':'

is_host_byte-may_stand : (c : ℕ) → is_host_byte c ≡ true → may_stand host c ≡ true
unfolding is_host_byte may_stand
is_host_byte-may_stand c h = ground arith

is_word-is_host_byte : (c : ℕ) → is_word c ≡ true → is_host_byte c ≡ true
unfolding is_host_byte
is_word-is_host_byte c h = ground arith

is_digit-is_host_byte : (c : ℕ) → is_digit c ≡ true → is_host_byte c ≡ true
unfolding is_host_byte
is_digit-is_host_byte c h = ground arith

IsHost-AllOf : (h : Str) → IsHost h → AllOf is_host_byte h
IsHost-AllOf h (plain _ w) = All-imp _ _ h is_word-is_host_byte w
IsHost-AllOf h (with_port name port _ w _ d e) = rw e (
    All-append _ name (b':' ∷ port) (All-imp _ _ name is_word-is_host_byte w)
      ((unfold is_host_byte in refl), All-imp _ _ port is_digit-is_host_byte d))

-- No plain host holds `b`.
pub IsHost-Lacks : (b : ℕ) (h : Str) → is_host_byte b ≡ false → IsHost h → Lacks b h
IsHost-Lacks b h no_b w = Lacks-of_test is_host_byte b h no_b (IsHost-AllOf h w)

no_bracket : (h : Str) → Lacks b'[' h → has_prefix h (ascii "[") ≡ false
unfolding has_prefix
no_bracket [] w = refl
no_bracket (c ∷ s) w = rw w.0

all_of : (p : ℕ → Bool) (s : Str) → AllOf p s → all p s ≡ true
unfolding all
all_of p [] h = refl
all_of p (c ∷ s) h = rw (h.0, all_of p s h.1)

unescape-host : (h : Str) → IsHost h → unescape host h ≡ ok h
unfolding is_host_byte
unescape-host h w =
    unescape-plain host is_host_byte h refl is_host_byte-may_stand (IsHost-AllOf h w)

pub parse_host-plain : (h : Str) → IsHost h → parse_host h ≡ ok h
unfolding parse_host is_host_byte
parse_host-plain h (plain some_byte w) =
    rw
      (
        no_bracket h (IsHost-Lacks b'[' h refl (plain some_byte w)),
        cut_last-Lacks b':' h (Lacks-of_test is_word b':' h refl w),
      )
      (unescape-host h (plain some_byte w))
parse_host-plain h (with_port name port n w n' d e) =
    rw (no_bracket h (IsHost-Lacks b'[' h refl (with_port name port n w n' d e))) (
      rw
        (ap (cut_last b':') e
          ∙ cut_last-found b':' name port (Lacks-of_test is_digit b':' port refl d))
        (rw (all_of is_digit port d) (unescape-host h (with_port name port n w n' d e))))

pub parse_authority-plain : (h : Str) → IsHost h → parse_authority h ≡ ok h
unfolding parse_authority is_host_byte
parse_authority-plain h w =
    rw (cut_last-Lacks b'@' h (IsHost-Lacks b'@' h refl w), parse_authority) (parse_host-plain h w)

pub of_all : (p : ℕ → Bool) (s : Str) → all p s ≡ true → AllOf p s
unfolding all
of_all p [] h = tt
of_all p (c ∷ s) h = let (x, xs) = (and-eq-true_iff (p c) (all p s)).0 h in (x, of_all p s xs)

-- The bytes of image references.
unfoldable pub is_reference_byte : ℕ → Bool
unfolding is_word
is_reference_byte c = is_word c || c == b'/' || c == b':' || c == b'@' || c == b'='

is_reference_byte-is_control : (c : ℕ) → is_reference_byte c ≡ true → is_control c ≡ false
unfolding is_reference_byte is_control
is_reference_byte-is_control c h = ground arith

is_host_byte-is_reference_byte : (c : ℕ) → is_host_byte c ≡ true → is_reference_byte c ≡ true
unfolding is_host_byte is_reference_byte
is_host_byte-is_reference_byte c h = ground arith

abbrev located_at : Str → Str → Url
located_at h p = record { scheme = ascii "dummy"; host = h; path = b'/' ∷ p }

unescape-path : (p : Str) → AllOf is_reference_byte p → unescape path (b'/' ∷ p) ≡ ok (b'/' ∷ p)
unfolding is_reference_byte may_stand
unescape-path p w = unescape-plain path is_reference_byte (b'/' ∷ p) refl (λ c _. refl) (refl, w)

module _ (h p : Str) (is_host : IsHost h) (is_path : AllOf is_reference_byte p) where
  authority-plain : at_slash (h ++ b'/' ∷ p) ≡ (h, b'/' ∷ p)
  unfolding at_slash is_host_byte
  authority-plain = rw (cut-found b'/' h p (IsHost-Lacks b'/' h refl is_host))

  with_authority-plain : with_authority (ascii "dummy") (h, b'/' ∷ p) ≡ ok (located_at h p)
  unfolding with_authority located
  with_authority-plain = rw (parse_authority-plain h is_host, unescape-path p is_path)

  parse_rest-plain :
      parse_rest (ascii "dummy") (ascii "//" ++ (h ++ b'/' ∷ p)) ≡ ok (located_at h p)
  unfolding parse_rest has_prefix
  parse_rest-plain = ap (with_authority (ascii "dummy")) authority-plain ∙ with_authority-plain

  reference-plain : AllOf is_reference_byte (ascii "dummy://" ++ (h ++ b'/' ∷ p))
  unfolding is_reference_byte all
  reference-plain =
      All-append (λ c. is_reference_byte c ≡ true) (ascii "dummy://") (h ++ b'/' ∷ p)
        (of_all is_reference_byte (ascii "dummy://") refl)
        (All-append _ h (b'/' ∷ p)
          (All-imp _ _ h is_host_byte-is_reference_byte (IsHost-AllOf h is_host)) (refl, is_path))

  parse_no_fragment-plain :
      parse_no_fragment (ascii "dummy://" ++ (h ++ b'/' ∷ p)) ≡ ok (located_at h p)
  unfolding parse_no_fragment is_reference_byte str_eq
  parse_no_fragment-plain =
      rw
        (
          has_control-plain is_reference_byte _ is_reference_byte-is_control reference-plain,
          cut-Lacks b'?' (ascii "//" ++ (h ++ b'/' ∷ p)) (
              Lacks-of_test is_reference_byte b'?' (ascii "//" ++ (h ++ b'/' ∷ p)) refl
                reference-plain.1.1.1.1.1.1),
        )
        parse_rest-plain

  -- A host and a path of such bytes behind `dummy://` are found again.
  pub parse-plain : parse (ascii "dummy://" ++ (h ++ b'/' ∷ p)) ≡ ok (located_at h p)
  unfolding parse is_reference_byte
  parse-plain = rw (
    cut-Lacks b'#' (ascii "dummy://" ++ (h ++ b'/' ∷ p)) (
        Lacks-of_test is_reference_byte b'#' (ascii "dummy://" ++ (h ++ b'/' ∷ p)) refl
          reference-plain),
    parse_no_fragment-plain,
  )
