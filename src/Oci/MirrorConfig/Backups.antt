-- ===== src/Oci/MirrorConfig/Backups.antt =====
-- What `AddMirrorConfiguration` of pkg/oci/containerd.go leaves alone.
use spegel.Base.{
  ◌≡◌, ◌≢◌, ◌∙◌, refl, ap, sym, Str, ascii, str_eq, str_eq_iff, All, All-imp, Bool, Bool-cases, inl,
  inr, Option, Option-cases, none, some, List, [], ◌∷◌, ◌++◌, Result, ok, err, Error,
}
use spegel.Base.Maps.{Map}
use spegel.Base.Join.{IsName, path_of, path_join, path_join-names, under, str_eq_of_ne}
use spegel.Base.Under.{path_of-ne, under-names}
use spegel.Oci.MirrorConfig.Files.{FileSystem, IsLawful, HostConfig, HostFile, Toml}
use spegel.Oci.MirrorConfig.{
  RegistryUrl, next, done, backup_dir, validate_registries, set_mirrors, backup_stated,
  backup_config, clear_all, clear_listed, clear_config, get_host_file, write_marshalled,
  write_hosts, write_host_file, write_all, replace_config, add_mirror_configuration,
  capabilities_of,
}
use spegel.Oci.MirrorConfig.Keeping.{
  state_of, backup_dir-IsName, hosts_toml-IsName, Keeps, next-Keeps, done-Keeps,
}

-- A host that is a name of a directory, and not the backup's.
pub record IsHostName (u : RegistryUrl) : Type 0 where
  pub name : IsName u.host
  pub no_backup : u.host ≢ backup_dir

module _ (fs : FileSystem) (file : fs.State → Str → Option Str) where
  module _ (toml : Toml) (L : IsLawful fs file) (n : Str) (ns : List Str)
      (named : All IsName (n ∷ ns)) where
    abbrev config_path : Str
    config_path = path_of (n ∷ ns)

    -- A file under another name than those that are removed.
    module _ (m : Str) (ms : List Str) (m_name : IsName m) where
      abbrev q : Str
      q = path_of ((n ∷ ns) ++ m ∷ ms)

      remove-Keeps :
          (name : Str) (s : fs.State)
          → IsName name
          → name ≢ m
          → Keeps fs file q s (done (fs.remove_all (path_join (config_path ∷ name ∷ [])) s))
      remove-Keeps name s is_name other = done-Keeps fs file q s _ (
          L.file-remove_all _ q s (
            ap (λ p. under p q) (path_join-names n ns (name ∷ []) named (is_name, tt))
            ∙ under-names (n ∷ ns) name m ms is_name.no_slash m_name.no_slash other))

      write_marshalled-Keeps :
          (u : RegistryUrl) (r : Result Str) (s : fs.State)
          → IsName u.host
          → u.host ≢ m
          → Keeps fs file q s (write_marshalled fs toml config_path u r s)
      unfolding write_marshalled
      write_marshalled-Keeps u (err e) s is_name other = record { same = refl }
      write_marshalled-Keeps u (ok b) s is_name other =
          next-Keeps fs file q s _ _ (done-Keeps fs file q s _ (L.file-mkdir_all _ q s)) (λ t.
            done-Keeps fs file q t _ (
              L.file-write_file _ b q t (
                str_eq_of_ne _ q (λ e.
                  path_of-ne (n ∷ ns) u.host m (ascii "hosts.toml" ∷ []) ms is_name.no_slash
                    m_name.no_slash other
                    (sym (
                        path_join-names n ns (u.host ∷ ascii "hosts.toml" ∷ []) named
                          (is_name, (hosts_toml-IsName, tt)))
                      ∙ e)))))

      write_hosts-Keeps :
          (u : RegistryUrl) (hf : HostFile) (hosts : Option (Option (Map HostConfig)))
          → (s : fs.State) → IsName u.host
          → u.host ≢ m
          → Keeps fs file q s (write_hosts fs toml config_path u hf hosts s)
      write_hosts-Keeps u hf none s is_name other = record { same = refl }
      write_hosts-Keeps u hf (some hosts) s is_name other =
          write_marshalled-Keeps u _ s is_name other

      write_host_file-Keeps :
          (capabilities : List Str) (mirrors : List RegistryUrl) (u : RegistryUrl)
          → (r : Result HostFile) (s : fs.State) → IsName u.host
          → u.host ≢ m
          → Keeps fs file q s (write_host_file fs toml config_path capabilities mirrors u r s)
      write_host_file-Keeps capabilities mirrors u (err e) s is_name other = record { same = refl }
      write_host_file-Keeps capabilities mirrors u (ok hf) s is_name other =
          write_hosts-Keeps u hf (set_mirrors capabilities mirrors hf.host_configs) s is_name other

      pub write_all-Keeps :
          (append : Bool) (capabilities : List Str) (mirrors us : List RegistryUrl)
          → (s : fs.State) → All (λ (u : RegistryUrl). IsName u.host × (u.host ≢ m)) us
          → Keeps fs file q s (write_all fs toml config_path append capabilities mirrors us s)
      unfolding write_all
      write_all-Keeps append capabilities mirrors [] s h = record { same = refl }
      write_all-Keeps append capabilities mirrors (u ∷ us) s (h, hs) =
          next-Keeps fs file q s _ _
            (write_host_file-Keeps capabilities mirrors u
              (get_host_file fs toml config_path append u s) s h.0 h.1)
            (λ t. write_all-Keeps append capabilities mirrors us t hs)

    -- A file of the backup.
    module _ (ms : List Str) where
      abbrev kept : Str
      kept = path_of ((n ∷ ns) ++ backup_dir ∷ ms)

      clear_all-Keeps :
          (names : List Str) (s : fs.State)
          → All IsName names
          → Keeps fs file kept s (clear_all fs toml config_path names s)
      unfolding clear_all
      clear_all-Keeps [] s h = record { same = refl }
      clear_all-Keeps (name ∷ names) s (h, hs) = elim (Bool-cases (str_eq name backup_dir)) [
        | inl backup ↦ rw backup (clear_all-Keeps names s hs)
        | inr other ↦ rw other (
            next-Keeps fs file kept s _ _
              (remove-Keeps backup_dir ms backup_dir-IsName name s h
                (λ e. cc (other, (str_eq_iff name backup_dir).1 e)))
              (λ t. clear_all-Keeps names t hs))
      ]

      clear_listed-Keeps :
          (r : Result (List Str)) (s : fs.State)
          → fs.read_dir config_path s ≡ r
          → Keeps fs file kept s (clear_listed fs toml config_path r s)
      clear_listed-Keeps (err e) s found = record { same = refl }
      clear_listed-Keeps (ok names) s found =
          clear_all-Keeps names s (L.read_dir-names config_path s names found)

      clear_config-Keeps :
          (s : fs.State) → Keeps fs file kept s (clear_config fs toml config_path s)
      unfolding clear_config
      clear_config-Keeps s = clear_listed-Keeps (fs.read_dir config_path s) s refl

      -- A backup directory that is there is not filled again.
      backup_config-Keeps :
          (s : fs.State)
          → fs.stat (path_join (config_path ∷ backup_dir ∷ [])) s ≡ none
          → Keeps fs file kept s (backup_config fs toml config_path s)
      unfolding backup_config backup_stated
      backup_config-Keeps s there = rw there (record { same = refl })

      replace_made-Keeps :
          (registries mirrors : List RegistryUrl) (resolve_tags append : Bool)
          → (s : fs.State) (r : Option Error × fs.State) → All IsHostName registries
          → file r.1 kept ≡ file s kept
          → fs.stat (path_join (config_path ∷ backup_dir ∷ [])) r.1 ≡ none
          → Keeps fs file kept s (
              next (done r) (λ made. next (backup_config fs toml config_path made) (λ t.
                next (clear_config fs toml config_path t) (
                  write_all fs toml config_path append
                    (capabilities_of resolve_tags)
                    mirrors
                    registries))))
      unfolding next done
      replace_made-Keeps registries mirrors resolve_tags append s (some e, t) hosts same there =
          record { same = same }
      replace_made-Keeps registries mirrors resolve_tags append s (none, made) hosts same there =
          let rest =
            next-Keeps fs file kept made (backup_config fs toml config_path made)
              (λ t. next (clear_config fs toml config_path t) (
                write_all fs toml config_path append (capabilities_of resolve_tags) mirrors
                  registries))
              (backup_config-Keeps made there)
              (λ t.
                next-Keeps fs file kept t (clear_config fs toml config_path t)
                  (write_all fs toml config_path append (capabilities_of resolve_tags) mirrors
                    registries)
                  (clear_config-Keeps t)
                  (λ u.
                    write_all-Keeps backup_dir ms backup_dir-IsName append
                      (capabilities_of resolve_tags) mirrors registries u
                      (All-imp IsHostName (λ r. IsName r.host × (r.host ≢ backup_dir)) registries
                        (λ r h. (h.name, h.no_backup)) hosts))) in
          record { same = rest.same ∙ same }

    -- With a file system as it is documented, and a path that consists of names: once the backup
    -- directory is there, no run of the configuration changes a file of it, however the run ends, if
    -- the hosts of the registries are names of directories and not the backup's.
    pub add-Keeps_backup :
        (registries mirrors : List RegistryUrl) (resolve_tags append_to_backup : Bool)
        (s : fs.State)
        → (ms : List Str) → All IsHostName registries
        → fs.stat (path_of ((n ∷ ns) ++ backup_dir ∷ [])) s ≡ none
        → file
            (state_of (
              add_mirror_configuration fs toml
                (path_of (n ∷ ns))
                registries
                mirrors
                resolve_tags
                append_to_backup
                s))
            (path_of ((n ∷ ns) ++ backup_dir ∷ ms))
          ≡ file s (path_of ((n ∷ ns) ++ backup_dir ∷ ms))
    unfolding add_mirror_configuration replace_config
    add-Keeps_backup registries mirrors resolve_tags append_to_backup s ms hosts there =
        elim (Option-cases (validate_registries registries)) [
          | inr (e, invalid) ↦ rw (invalid, add_mirror_configuration) refl
          | inl valid ↦
              rw (valid, add_mirror_configuration)
                (replace_made-Keeps ms registries mirrors resolve_tags append_to_backup s
                  (fs.mkdir_all config_path s) hosts (L.file-mkdir_all config_path (kept ms) s)
                  (L.stat-mkdir_all config_path _ s (
                    ap (λ p. fs.stat p s)
                      (path_join-names n ns (backup_dir ∷ []) named (backup_dir-IsName, tt))
                    ∙ there))).same
        ]
