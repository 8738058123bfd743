-- ===== src/Base/HostPort.antt =====
-- net.SplitHostPort of the standard library, which pkg/registry/registry.go uses for the address
-- of a client.
use Prim.Native.Nat.{ℕ}
use mathlib.Core.Path.{◌≡◌, refl, ◌∙◌}
use mathlib.Core.Bool.{Bool, true, false, not}
use mathlib.Core.Logic.{inl, inr}
use mathlib.Core.Option.{none, some}
use mathlib.Core.List.{[], ◌∷◌, ◌++◌}
use spegel.Base.Tests.{◌==◌, if◌then◌else◌, Bool-cases}
use spegel.Base.Lists.{All-append}
use spegel.Base.Cuts.{Lacks, cut-Lacks, cut-found, cut_last-found}
use spegel.Base.Bytes.{Str, ascii, cut, cut_last}
use spegel.Base.Errors.{Result, ok, err, errorf}

-- Whether a byte is among those of a text.
abbrev has_byte : ℕ → Str → Bool
has_byte b s = elim (cut b s).1 [ none ↦ false | some t ↦ true ]

abbrev pub addr_err : Str → Str → Result (Str × Str)
addr_err host_port why = err (errorf "address %s: %s" (host_port ∷ why ∷ []))

-- The tests for brackets where there can be none, and the result.
unfoldable pub split_checked : Str → Str → Str → Str → Str → Result (Str × Str)
split_checked host_port host port no_open no_close =
    if has_byte b'[' no_open
    then addr_err host_port (ascii "unexpected '[' in address")
    else if has_byte b']' no_close
    then addr_err host_port (ascii "unexpected ']' in address")
    else ok (host, port)

-- Behind the bracket that closes a host: a port, if the colon at its front is the last one.
unfoldable pub split_behind : Str → Str → Str → Str → Result (Str × Str)
unfolding split_checked
split_behind host_port rest host [] = addr_err host_port (ascii "missing port in address")
split_behind host_port rest host (c ∷ port) =
    if c == b':'
    then if has_byte b':' port
      then addr_err host_port (ascii "too many colons in address")
      else split_checked host_port host port rest port
    else addr_err host_port (ascii "missing port in address")

-- A host that begins with a bracket, which the text behind it ends.
unfoldable pub split_bracketed : Str → Str → Result (Str × Str)
unfolding split_behind
split_bracketed host_port rest = elim (cut b']' rest).1 [
  | none ↦ addr_err host_port (ascii "missing ']' in address")
  | some behind ↦ split_behind host_port rest (cut b']' rest).0 behind
]

unfoldable pub split_plain : Str → Result (Str × Str)
unfolding split_checked
split_plain host_port = elim (cut_last b':' host_port) [
  | none ↦ addr_err host_port (ascii "missing port in address")
  | some (host, port) ↦
      if has_byte b':' host
      then addr_err host_port (ascii "too many colons in address")
      else split_checked host_port host port host_port host_port
]

unfoldable pub split_host_port : Str → Result (Str × Str)
unfolding split_bracketed split_plain
split_host_port [] = addr_err [] (ascii "missing port in address")
split_host_port (c ∷ rest) =
    if not (has_byte b':' (c ∷ rest))
    then addr_err (c ∷ rest) (ascii "missing port in address")
    else if c == b'['
    then split_bracketed (c ∷ rest) rest
    else split_plain (c ∷ rest)

module _ (b : ℕ) where
  has_byte-Lacks : (s : Str) → Lacks b s → has_byte b s ≡ false
  has_byte-Lacks s h = rw (has_byte, cut-Lacks b s h)

  has_byte-found : (s t : Str) → Lacks b s → has_byte b (s ++ b ∷ t) ≡ true
  has_byte-found s t h = rw (has_byte, cut-found b s t h)

-- Neither a colon nor a bracket is in the text.
pub record IsBare (s : Str) : Type 0 where
  pub no_colon : Lacks b':' s
  pub no_open : Lacks b'[' s
  pub no_close : Lacks b']' s

split_plain-bare :
    (host port : Str)
    → IsBare host
    → IsBare port
    → split_plain (host ++ b':' ∷ port) ≡ ok (host, port)
unfolding split_plain
split_plain-bare host port h p = rw (
  split_plain,
  cut_last-found b':' host port p.no_colon,
  has_byte-Lacks b':' host h.no_colon,
  split_checked,
  has_byte-Lacks b'[' (host ++ b':' ∷ port)
      (All-append _ host (b':' ∷ port) h.no_open (refl, p.no_open)),
  has_byte-Lacks b']' (host ++ b':' ∷ port)
      (All-append _ host (b':' ∷ port) h.no_close (refl, p.no_close)),
)

has_byte-front : (b c : ℕ) (s : Str) → has_byte b (c ∷ s) ≡ false → (c == b) ≡ false
unfolding cut
has_byte-front b c s h = elim (Bool-cases (c == b)) [
  | inl same ↦ absurd (cc (rw (has_byte, same) at h))
  | inr other ↦ other
]

split_host_port-plain :
    (s : Str) → has_byte b':' s ≡ true → has_byte b'[' s ≡ false → split_host_port s ≡ split_plain s
unfolding split_host_port cut
split_host_port-plain [] h k = cc
split_host_port-plain (c ∷ s) h k = rw (split_host_port, h, has_byte-front b'[' c s k)

-- A host and a port with neither colons nor brackets.
pub split_host_port-bare :
    (host port : Str)
    → IsBare host
    → IsBare port
    → split_host_port (host ++ b':' ∷ port) ≡ ok (host, port)
split_host_port-bare host port h p =
    split_host_port-plain (host ++ b':' ∷ port) (has_byte-found b':' host port h.no_colon) (
      has_byte-Lacks b'[' (host ++ b':' ∷ port)
        (All-append _ host (b':' ∷ port) h.no_open (refl, p.no_open)))
    ∙ split_plain-bare host port h p
