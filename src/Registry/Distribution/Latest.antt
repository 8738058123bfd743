-- ===== src/Registry/Distribution/Latest.antt =====
-- Which references are taken for the latest tag: `hasLatestTag` of pkg/registry/distribution.go.
use spegel.Base.{
  ◌≡◌, ◌≢◌, refl, sym, subst, Str, ascii, str_eq, is_empty, All-split, All-append, false, [], ◌∷◌,
  ◌++◌, ◌∙◌,
}
use mathlib.Core.List.{append_assoc}
use spegel.Base.Cuts.{Lacks, cut-found}
use spegel.Base.Join.{str_eq_of_ne}
use spegel.Registry.Distribution.{Reference, manifest, has_latest_tag}

-- The reference of a tag, as it is parsed from the path of a manifest.
abbrev pub tagged : Str → Str → Str → Reference
tagged registry name tag = record {
  kind = manifest;
  name = registry ++ (b'/' ∷ (name ++ (b':' ∷ tag)));
  dgst = [];
  original_registry = registry;
}

-- A name with text before and behind a colon.
some_name : (before after : Str) → is_empty (before ++ b':' ∷ after) ≡ false
some_name [] after = refl
some_name (b ∷ before) after = refl

-- The text behind the first colon decides.
cut-has_latest_tag :
    (before after : Str)
    → Lacks b':' before
    → (r : Reference) → r.name ≡ before ++ b':' ∷ after
    → has_latest_tag r ≡ str_eq after (ascii "latest")
unfolding has_latest_tag
cut-has_latest_tag before after h r e =
    rw (e, some_name before after, cut-found b':' before after h) refl

latest-Lacks_slash : Lacks b'/' (ascii "latest")
latest-Lacks_slash = (refl, (refl, (refl, (refl, (refl, (refl, tt))))))

-- A text with a slash is not the latest tag.
slash-ne : (before after : Str) → before ++ b'/' ∷ after ≢ ascii "latest"
slash-ne before after e =
    let (_, slash) =
      All-split _ before (b'/' ∷ after) (subst (Lacks b'/') (sym e) latest-Lacks_slash) in
    absurd (cc slash.0)

-- Of a registry whose host has no port, and a name, both without colons, the reference of a tag is
-- taken for the latest tag exactly if the tag is latest. Of the same host with a port it never is,
-- since the first colon of the reference is the one of the port.
pub has_latest_tag-tagged :
    (host port name tag : Str)
    → Lacks b':' host
    → Lacks b':' name
    → (has_latest_tag (tagged host name tag) ≡ str_eq tag (ascii "latest"))
      × (has_latest_tag (tagged (host ++ b':' ∷ port) name tag) ≡ false)
has_latest_tag-tagged host port name tag h n = (
  cut-has_latest_tag (host ++ b'/' ∷ name) tag (All-append _ host (b'/' ∷ name) h (refl, n))
      (tagged host name tag) (sym (append_assoc host (b'/' ∷ name) (b':' ∷ tag))),
  cut-has_latest_tag host (port ++ b'/' ∷ (name ++ b':' ∷ tag)) h
        (tagged (host ++ b':' ∷ port) name tag)
        (append_assoc host (b':' ∷ port) (b'/' ∷ (name ++ b':' ∷ tag)))
      ∙ str_eq_of_ne (port ++ b'/' ∷ (name ++ b':' ∷ tag)) (ascii "latest")
          (slash-ne port (name ++ b':' ∷ tag)),
)
