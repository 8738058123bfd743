-- ===== src/Oci/Containerd/Verification.antt =====
-- When `Verify` of pkg/oci/containerd.go accepts containerd.
pub mod PathLists
use mathlib.Core.List.{append_assoc, append-nil}
use spegel.Base.{
  ◌≡◌, ◌≢◌, ◌↔◌, ◌∙◌, refl, ap, sym, subst, inl, inr, Str, ascii, str_eq, str_eq_iff, str_eq_refl,
  is_empty, Bool, true, false, Bool-cases, All, All-append, Option, none, some, List, [], ◌∷◌, ◌++◌,
  Result, ok, err, ◌==◌, ==_iff,
}
use spegel.Base.Maps.{Map, lookup}
use spegel.Base.Cuts.{Lacks}
use spegel.Oci.Containerd.Setup.{
  Containerd, Config, Runtime, join_with, split_from, split_list, has_path, verify_config,
  verify_decoded, verify_found, verify_status_response, verify_status, verify_serving, verify,
}
use spegel.Oci.Containerd.Verification.PathLists.{Lists, has_path-Lists}

-- Unpacked layers are kept, and the text of the paths is not empty and lists the path.
pub record Accepts (cfg : Config) (path : Str) : Type 0 where
  pub keeps_layers : cfg.discard_unpacked_layers ≡ false
  pub some_path : is_empty cfg.config_path ≡ false
  pub lists : Lists cfg.config_path path

verify_config-Accepts :
    (cfg : Config) (path : Str) → (verify_config cfg path ≡ none) ↔ Accepts cfg path
unfolding verify_config
verify_config-Accepts cfg path = elim (Bool-cases cfg.discard_unpacked_layers) [
  | inl discards ↦ (λ h. cc (rw discards at h), λ a. cc (a.keeps_layers, discards))
  | inr keeps ↦ elim (Bool-cases (is_empty cfg.config_path)) [
    | inl unset ↦ (λ h. cc (rw (keeps, unset) at h), λ a. cc (a.some_path, unset))
    | inr set ↦ elim (Bool-cases (has_path path (split_list cfg.config_path))) [
      | inl has ↦ (
        λ h. record {
          keeps_layers = keeps;
          some_path = set;
          lists = (has_path-Lists cfg.config_path path set).0 has;
        },
        λ a. rw (keeps, set, has) refl,
      )
      | inr lacks ↦ (
        λ h. cc (rw (keeps, set, lacks) at h),
        λ a. cc ((has_path-Lists cfg.config_path path set).1 a.lists, lacks),
      )
    ]
  ]
]

-- The runtime serves, and tells a configuration that is accepted.
pub record IsVerified (r : Runtime) (path : Str) : Type 0 where
  pub info : Map Str
  pub text : Str
  pub cfg : Config
  pub serves : r.is_serving ≡ ok true
  pub tells : r.status ≡ ok info
  pub has_config : lookup (ascii "config") info ≡ some text
  pub decoded : r.unmarshal_config text ≡ ok cfg
  pub accepts : Accepts cfg path

verify_serving-none :
    (r : Runtime) (path : Str) (serving : Result Bool)
    → verify_serving r path serving ≡ none
    → (serving ≡ ok true) × (verify_status r path r.status ≡ none)
verify_serving-none r path (err e) h = cc
verify_serving-none r path (ok false) h = cc
verify_serving-none r path (ok true) h = (refl, h)

verify_status-none :
    (r : Runtime) (path : Str) (status : Result (Map Str))
    → verify_status r path status ≡ none
    → (info : Map Str) × (status ≡ ok info) × (verify_status_response r info path ≡ none)
verify_status-none r path (err e) h = cc
verify_status-none r path (ok info) h = (info, refl, h)

verify_found-none :
    (r : Runtime) (path : Str) (found : Option Str)
    → verify_found r path found ≡ none
    → (text : Str) × (found ≡ some text) × (verify_decoded (r.unmarshal_config text) path ≡ none)
verify_found-none r path none h = cc
verify_found-none r path (some text) h = (text, refl, h)

verify_decoded-none :
    (path : Str) (decoded : Result Config)
    → verify_decoded decoded path ≡ none
    → (cfg : Config) × (decoded ≡ ok cfg) × (verify_config cfg path ≡ none)
verify_decoded-none path (err e) h = cc
verify_decoded-none path (ok cfg) h = (cfg, refl, h)

-- `Verify` ends with no error exactly if the runtime serves, and its status holds a configuration that
-- keeps unpacked layers and whose paths, between colons, list the path of the registries.
pub verify-IsVerified :
    (r : Runtime) (c : Containerd) → (verify (ok r) c ≡ none) ↔ IsVerified r c.registry_config_path
unfolding verify verify_status_response
verify-IsVerified r c = (
  λ h.
      let path = c.registry_config_path in
      let (serves, h1) = verify_serving-none r path r.is_serving h in
      let (info, tells, h2) = verify_status-none r path r.status h1 in
      let (text, has_config, h3) = verify_found-none r path (lookup (ascii "config") info) h2 in
      let (cfg, decoded, h4) = verify_decoded-none path (r.unmarshal_config text) h3 in
      record {
        info = info;
        text = text;
        cfg = cfg;
        serves = serves;
        tells = tells;
        has_config = has_config;
        decoded = decoded;
        accepts = (verify_config-Accepts cfg path).0 h4;
      },
  λ v.
      let path = c.registry_config_path in
      ap (verify_serving r path) v.serves
      ∙ ap (verify_status r path) v.tells
      ∙ ap (verify_found r path) v.has_config
      ∙ ap (λ d. verify_decoded d path) v.decoded
      ∙ (verify_config-Accepts v.cfg path).1 v.accepts,
)
