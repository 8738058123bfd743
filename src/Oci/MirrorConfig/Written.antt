-- ===== src/Oci/MirrorConfig/Written.antt =====
-- What `AddMirrorConfiguration` of pkg/oci/containerd.go writes.
use spegel.Base.{
  ◌≡◌, ◌≢◌, ◌∙◌, refl, ap, sym, subst, Str, ascii, str_eq, All, Bool, false, ◌||◌, inl, inr, Option,
  Option-cases, none, some, List, [], ◌∷◌, ◌++◌, Result, ok, err, Error, arith, if◌then◌else◌,
}
use spegel.Base.Maps.{Map, lookup, insert, lookup-insert}
use spegel.Base.Join.{IsName, path_of, path_join, path_join-names, path_dir}
use spegel.Oci.MirrorConfig.Files.{FileSystem, IsLawful, HostConfig, Toml}
use spegel.Oci.MirrorConfig.Backups.{write_all-Keeps}
use spegel.Oci.MirrorConfig.Keeping.{state_of, hosts_toml-IsName}
use spegel.Oci.MirrorConfig.{
  RegistryUrl, Exit, finished, failed, panicked, next, done, validate_registries, fresh_host_file,
  server_of, mirror_host, set_mirrors, get_host_file, write_marshalled, write_hosts,
  write_host_file, write_all, replace_config, add_mirror_configuration, capabilities_of,
}

next-finished :
    {S : Type 0} (x : Exit S) (f : S → Exit S) (t : S)
    → next x f ≡ finished t
    → (u : S) × (x ≡ finished u) × (f u ≡ finished t)
unfolding next
next-finished (finished u) f t e = (u, refl, e)
next-finished (failed _ u) f t e = cc
next-finished (panicked u) f t e = cc

done-finished :
    {S : Type 0} (r : Option Error × S) (t : S) → done r ≡ finished t → (r.0 ≡ none) × (r.1 ≡ t)
unfolding done
done-finished (none, s) t e = (refl, cc e)
done-finished (some x, s) t e = cc

-- Whether the host is one of the mirrors.
abbrev pub is_mirror : Str → List RegistryUrl → Bool
is_mirror k [] = false
is_mirror k (u ∷ us) = str_eq u.text k || is_mirror k us

-- The hosts hold each mirror with these capabilities, and no other.
pub record HoldsMirrors (capabilities : List Str) (mirrors : List RegistryUrl)
    (hosts : Map HostConfig) : Type 0 where
  pub lookup_lem :
      (k : Str)
      → lookup k hosts ≡ (if is_mirror k mirrors then some (mirror_host capabilities) else none)

set_mirrors-some :
    (capabilities : List Str) (mirrors : List RegistryUrl) (hosts : Map HostConfig)
    → (all : Map HostConfig) × (set_mirrors capabilities mirrors (some hosts) ≡ some (some all))
      × ((k : Str)
          → lookup k all
            ≡ (if is_mirror k mirrors then some (mirror_host capabilities) else lookup k hosts))
unfolding set_mirrors
set_mirrors-some capabilities [] hosts = (hosts, refl, λ k. refl)
set_mirrors-some capabilities (u ∷ us) hosts =
    let (all, e, found) =
      set_mirrors-some capabilities us (insert u.text (mirror_host capabilities) hosts) in
    (all, e, λ k. ground (arith, found k, lookup-insert u.text k (mirror_host capabilities) hosts))

module _ (fs : FileSystem) (toml : Toml) (config_path : Str) where
  -- The file of a registry in a directory.
  abbrev pub file_path : RegistryUrl → Str
  file_path u = path_join (config_path ∷ u.host ∷ ascii "hosts.toml" ∷ [])

  module _ (file : fs.State → Str → Option Str) (L : IsLawful fs file) where
    -- A file that is the document of the registry with the mirrors, and nothing else.
    abbrev pub Configured : List Str → List RegistryUrl → RegistryUrl → Str → fs.State → Type 0
    Configured capabilities mirrors u p t =
        (hosts : Map HostConfig) × (b : Str) × HoldsMirrors capabilities mirrors hosts
        × (toml.marshal (record { host_configs = some hosts; server = server_of u }) ≡ ok b)
        × (file t p ≡ some b)

    write_marshalled-finished :
        (u : RegistryUrl) (r : Result Str) (s t : fs.State)
        → write_marshalled fs toml config_path u r s ≡ finished t
        → (b : Str) × (r ≡ ok b) × (file t (file_path u) ≡ some b)
    unfolding write_marshalled
    write_marshalled-finished u (err e) s t h = cc
    write_marshalled-finished u (ok b) s t h =
        let (made, _, written) =
          next-finished (done (fs.mkdir_all (path_dir (file_path u)) s)) _ t h in
        let (no_error, same) = done-finished (fs.write_file (file_path u) b made) t written in
        (
          b,
          refl,
          subst (λ x. file x (file_path u) ≡ some b) same
              (L.file-written (file_path u) b made no_error),
        )

    write_host_file-finished :
        (capabilities : List Str) (mirrors : List RegistryUrl) (u : RegistryUrl) (s t : fs.State)
        → write_host_file fs toml config_path capabilities mirrors u
            (get_host_file fs toml config_path false u s)
            s
          ≡ finished t
        → Configured capabilities mirrors u (file_path u) t
    unfolding get_host_file lookup
    write_host_file-finished capabilities mirrors u s t h =
        let (all, e, found) = set_mirrors-some capabilities mirrors [] in
        let (b, marshalled, written) =
          write_marshalled-finished u
            (toml.marshal (record { host_configs = some all; server = server_of u })) s t
            (ap (λ x. write_hosts fs toml config_path u (fresh_host_file u) x s) (sym e) ∙ h) in
        (all, b, record { lookup_lem = found }, marshalled, written)

module _ (fs : FileSystem) (file : fs.State → Str → Option Str) (toml : Toml) (L : IsLawful fs file)
    (n : Str) (ns : List Str) (named : All IsName (n ∷ ns)) where
  -- The registries behind one do not write to its file.
  abbrev pub OtherHost : RegistryUrl → RegistryUrl → Type 0
  OtherHost u v = IsName v.host × (v.host ≢ u.host)

  write_all-writes :
      (capabilities : List Str) (mirrors before after : List RegistryUrl) (u : RegistryUrl)
      → (s t : fs.State) → IsName u.host
      → All (OtherHost u) after
      → write_all fs toml (path_of (n ∷ ns)) false capabilities mirrors (before ++ u ∷ after) s
        ≡ finished t
      → Configured fs toml
          (path_of (n ∷ ns))
          file
          L
          capabilities
          mirrors
          u
          (path_of ((n ∷ ns) ++ u.host ∷ ascii "hosts.toml" ∷ []))
          t
  unfolding write_all
  write_all-writes capabilities mirrors [] after u s t is_name others h =
      let (v, here, later) = next-finished _ _ t h in
      let (hosts, b, holds, marshalled, written) =
        write_host_file-finished fs toml (path_of (n ∷ ns)) file L capabilities mirrors u s v
          here in
      let kept =
        (write_all-Keeps fs file toml L n ns named u.host (ascii "hosts.toml" ∷ []) is_name false
          capabilities mirrors after v others).same in
      (
        hosts,
        b,
        holds,
        marshalled,
        ap (λ x. file (state_of x) (path_of ((n ∷ ns) ++ u.host ∷ ascii "hosts.toml" ∷ [])))
              (sym later)
            ∙ kept
            ∙ ap (file v) (
                sym (
                  path_join-names n ns (u.host ∷ ascii "hosts.toml" ∷ []) named
                    (is_name, (hosts_toml-IsName, tt))))
            ∙ written,
      )
  write_all-writes capabilities mirrors (w ∷ before) after u s t is_name others h =
      let (v, here, later) = next-finished _ _ t h in
      write_all-writes capabilities mirrors before after u v t is_name others later

  -- With a file system as it is documented, and a path that consists of names: when the
  -- configuration ends with no error, and is not to append to the backup, the file of a registry
  -- whose host is a name, if no later registry has the same host or one that is no name, is the
  -- document of its server and of the mirrors with the capabilities, and of no other hosts.
  pub add-Configured :
      (mirrors before after : List RegistryUrl) (u : RegistryUrl) (resolve_tags : Bool)
      → (s t : fs.State) → IsName u.host
      → All (OtherHost u) after
      → add_mirror_configuration fs toml
          (path_of (n ∷ ns))
          (before ++ u ∷ after)
          mirrors
          resolve_tags
          false
          s
        ≡ finished t
      → Configured fs toml
          (path_of (n ∷ ns))
          file
          L
          (capabilities_of resolve_tags)
          mirrors
          u
          (path_of ((n ∷ ns) ++ u.host ∷ ascii "hosts.toml" ∷ []))
          t
  unfolding add_mirror_configuration replace_config
  add-Configured mirrors before after u resolve_tags s t is_name others h =
      elim (Option-cases (validate_registries (before ++ u ∷ after))) [
        | inr (e, invalid) ↦ cc (rw (invalid, add_mirror_configuration) at h)
        | inl valid ↦
            let (made, _, h1) = next-finished _ _ t (rw (valid, add_mirror_configuration) at h) in
            let (kept, _, h2) = next-finished _ _ t h1 in
            let (cleared, _, h3) = next-finished _ _ t h2 in
            write_all-writes (capabilities_of resolve_tags) mirrors before after u cleared t is_name
              others h3
      ]
