-- ===== src/Oci/MirrorConfig/Validation.antt =====
-- Which registries `AddMirrorConfiguration` of pkg/oci/containerd.go accepts.
use spegel.Base.{
  ◌≡◌, ◌⊎◌, inl, inr, refl, Str, ascii, str_eq_iff, is_empty, All, All-split, Bool, true, false,
  none, List, [], ◌∷◌, ◌++◌, Error, join, Option-cases, arith,
}
use spegel.Oci.MirrorConfig.Files.{FileSystem, Toml}
use spegel.Oci.MirrorConfig.{
  RegistryUrl, failed, unless, url_errors, all_errors, validate_registries,
  add_mirror_configuration,
}

-- The address of a registry, and nothing besides.
pub record IsRegistry (u : RegistryUrl) : Type 0 where
  pub http_scheme : (u.scheme ≡ ascii "http") ⊎ (u.scheme ≡ ascii "https")
  pub no_path : u.path ≡ []
  pub no_query : u.has_query ≡ false
  pub no_user : u.has_user ≡ false

url_errors-nil : (u : RegistryUrl) → IsRegistry u → url_errors u ≡ []
unfolding url_errors unless
url_errors-nil u r =
    ground (arith, str_eq_iff u.scheme (ascii "http"), str_eq_iff u.scheme (ascii "https"))

is_empty-nil : (s : Str) → is_empty s ≡ true → s ≡ []
is_empty-nil [] h = refl
is_empty-nil (_ ∷ s) h = cc

-- Four tests that leave no error hold.
unless-nil :
    (a b c d : Bool) (e f g h : Error)
    → unless a e ++ (unless b f ++ (unless c g ++ unless d h)) ≡ []
    → (a ≡ true) × (b ≡ true) × (c ≡ true) × (d ≡ true)
unfolding unless
unless-nil true true true true e f g h n = (refl, refl, refl, refl)
unless-nil true true true false e f g h n = cc
unless-nil true true false d e f g h n = cc
unless-nil true false c d e f g h n = cc
unless-nil false b c d e f g h n = cc

append-nil_parts : {A : Type 0} (xs ys : List A) → xs ++ ys ≡ [] → (xs ≡ []) × (ys ≡ [])
append-nil_parts [] ys h = (refl, h)
append-nil_parts (x ∷ xs) ys h = cc

nil-IsRegistry : (u : RegistryUrl) → url_errors u ≡ [] → IsRegistry u
unfolding url_errors
nil-IsRegistry u h =
    let (scheme_ok, path_ok, query_ok, user_ok) = unless-nil _ _ _ _ _ _ _ _ h in
    record {
      http_scheme = ground (
        arith,
        scheme_ok,
        str_eq_iff u.scheme (ascii "http"),
        str_eq_iff u.scheme (ascii "https"),
      );
      no_path = is_empty-nil u.path path_ok;
      no_query = ground (arith, query_ok);
      no_user = ground (arith, user_ok);
    }

all_errors-IsRegistry : (us : List RegistryUrl) → all_errors us ≡ [] → All IsRegistry us
unfolding all_errors
all_errors-IsRegistry [] h = tt
all_errors-IsRegistry (u ∷ us) h =
    let (here, later) = append-nil_parts _ _ h in
    (nil-IsRegistry u here, all_errors-IsRegistry us later)

all_errors-nil : (us : List RegistryUrl) → All IsRegistry us → all_errors us ≡ []
unfolding all_errors
all_errors-nil [] h = refl
all_errors-nil (u ∷ us) (here, later) = rw (url_errors-nil u here, all_errors-nil us later)

join-none : (es : List Error) → join es ≡ none → es ≡ []
unfolding join
join-none [] h = refl
join-none (e ∷ es) h = cc

validate-IsRegistry : (us : List RegistryUrl) → validate_registries us ≡ none → All IsRegistry us
unfolding validate_registries
validate-IsRegistry us h = all_errors-IsRegistry us (join-none (all_errors us) h)

pub IsRegistry-validate :
    (us : List RegistryUrl) → All IsRegistry us → validate_registries us ≡ none
unfolding validate_registries join
IsRegistry-validate us h = rw (all_errors-nil us h)

-- If one of the registries is no address of a registry and nothing besides, the configuration is
-- refused with an error before anything is changed.
pub add-rejects :
    (fs : FileSystem) (toml : Toml) (config_path : Str) (before after : List RegistryUrl)
    → (u : RegistryUrl) (mirrors : List RegistryUrl) (resolve_tags append_to_backup : Bool)
    → (s : fs.State) → ¬ (IsRegistry u)
    → (e : Error) × (add_mirror_configuration fs toml config_path
          (before ++ u ∷ after)
          mirrors
          resolve_tags
          append_to_backup
          s
        ≡ failed e s)
unfolding add_mirror_configuration
add-rejects fs toml config_path before after u mirrors resolve_tags append_to_backup s bad =
    elim (Option-cases (validate_registries (before ++ u ∷ after))) [
      | inl valid ↦
          absurd (bad (All-split IsRegistry before (u ∷ after) (validate-IsRegistry _ valid)).1.0)
      | inr (e, invalid) ↦ (e, rw (invalid, add_mirror_configuration))
    ]
