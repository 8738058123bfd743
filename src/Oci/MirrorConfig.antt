-- ===== src/Oci/MirrorConfig.antt =====
-- The configuration of mirrors for containerd: `AddMirrorConfiguration` of pkg/oci/containerd.go.
pub mod Files
pub mod Validation
pub mod Keeping
pub mod Backups
pub mod Written
use spegel.Base.{
  Str, ascii, str_eq, is_empty, Bool, true, false, not, ◌&&◌, ◌||◌, Option, none, some, List, [],
  ◌∷◌, ◌++◌, map, Result, ok, err, Error, errorf, join, if◌then◌else◌,
}
use spegel.Base.Maps.{Map, insert}
use spegel.Base.Join.{path_join, path_dir}
use spegel.Oci.MirrorConfig.Files.{FileSystem, HostConfig, HostFile, Toml}

-- What the program reads of a `url.URL`; `text` is its `String()`.
pub record RegistryUrl : Type 0 where
  pub scheme : Str
  pub host : Str
  pub path : Str
  pub has_query : Bool
  pub has_user : Bool
  pub text : Str

abbrev pub backup_dir : Str
backup_dir = ascii "_backup"

-- How a function that changes the file system ends: without an error, with one, or by a panic.
pub data Exit (S : Type 0) : Type 0 where
  finished : S → Exit S
  failed : Error → S → Exit S
  panicked : S → Exit S

-- What comes behind `if err != nil { return err }`.
unfoldable pub next : {S : Type 0} → Exit S → (S → Exit S) → Exit S
next (finished s) f = f s
next (failed e s) f = failed e s
next (panicked s) f = panicked s

unfoldable pub done : {S : Type 0} → Option Error × S → Exit S
done (none, s) = finished s
done (some e, s) = failed e s

-- An error where a test holds.
unfoldable pub unless : Bool → Error → List Error
unless true e = []
unless false e = e ∷ []

unfoldable pub url_errors : RegistryUrl → List Error
url_errors u =
    unless (not (not (str_eq u.scheme (ascii "http")) && not (str_eq u.scheme (ascii "https"))))
      (errorf "invalid registry url scheme must be http or https: %s" (u.text ∷ []))
    ++ (unless (is_empty u.path)
          (errorf "invalid registry url path has to be empty: %s" (u.text ∷ []))
        ++ (unless (not u.has_query)
              (errorf "invalid registry url query has to be empty: %s" (u.text ∷ []))
            ++ unless (not u.has_user)
                (errorf "invalid registry url user has to be empty: %s" (u.text ∷ []))))

unfoldable pub all_errors : List RegistryUrl → List Error
unfolding url_errors
all_errors [] = []
all_errors (u ∷ us) = url_errors u ++ all_errors us

-- `validateRegistries`
unfoldable pub validate_registries : List RegistryUrl → Option Error
validate_registries urls = join (all_errors urls)

-- `https://registry-1.docker.io` stands for Docker Hub.
unfoldable pub server_of : RegistryUrl → Str
server_of u =
    if str_eq u.text (ascii "https://docker.io")
    then ascii "https://registry-1.docker.io"
    else u.text

abbrev pub fresh_host_file : RegistryUrl → HostFile
fresh_host_file u = record { host_configs = some []; server = server_of u }

unfoldable pub capabilities_of : Bool → List Str
capabilities_of resolve_tags =
    if resolve_tags then ascii "pull" ∷ ascii "resolve" ∷ [] else ascii "pull" ∷ []

abbrev pub mirror_host : List Str → HostConfig
mirror_host capabilities = record {
  ca = none;
  client = none;
  override_path = none;
  skip_verify = none;
  header = none;
  capabilities = capabilities;
}

-- The loop over the mirrors. An assignment to a map that is `nil` panics, which is `none`.
unfoldable pub set_mirrors :
    List Str → List RegistryUrl → Option (Map HostConfig) → Option (Option (Map HostConfig))
set_mirrors capabilities [] hosts = some hosts
set_mirrors capabilities (u ∷ us) none = none
set_mirrors capabilities (u ∷ us) (some hosts) =
    set_mirrors capabilities us (some (insert u.text (mirror_host capabilities) hosts))

module _ (fs : FileSystem) (toml : Toml) (config_path : Str) where
  -- The loop of `backupConfig`.
  unfoldable pub move_all : List Str → fs.State → Exit fs.State
  move_all [] s = finished s
  move_all (name ∷ names) s =
      next
        (done (
          fs.rename (path_join (config_path ∷ name ∷ []))
            (path_join (path_join (config_path ∷ backup_dir ∷ []) ∷ name ∷ [])) s))
        (move_all names)

  -- `backupConfig` behind the list of the files.
  unfoldable pub backup_listed : Result (List Str) → fs.State → Exit fs.State
  unfolding move_all
  backup_listed (err e) s = failed e s
  backup_listed (ok []) s = finished s
  backup_listed (ok (n ∷ ns)) s =
      next (done (fs.mkdir_all (path_join (config_path ∷ backup_dir ∷ [])) s)) (move_all (n ∷ ns))

  -- `backupConfig` behind the call of `Stat`.
  unfoldable pub backup_stated : Option Error → fs.State → Exit fs.State
  unfolding backup_listed
  backup_stated none s = finished s
  backup_stated (some e) s =
      if not (fs.is_not_exist e) then failed e s else backup_listed (fs.read_dir config_path s) s

  unfoldable pub backup_config : fs.State → Exit fs.State
  backup_config s = backup_stated (fs.stat (path_join (config_path ∷ backup_dir ∷ [])) s) s

  -- The loop of `clearConfig`.
  unfoldable pub clear_all : List Str → fs.State → Exit fs.State
  clear_all [] s = finished s
  clear_all (name ∷ names) s =
      let later = clear_all names in
      if str_eq name backup_dir
      then later s
      else next (done (fs.remove_all (path_join (config_path ∷ name ∷ [])) s)) later

  abbrev pub clear_listed : Result (List Str) → fs.State → Exit fs.State
  clear_listed (err e) s = failed e s
  clear_listed (ok names) s = clear_all names s

  unfoldable pub clear_config : fs.State → Exit fs.State
  clear_config s = clear_listed (fs.read_dir config_path s) s

  -- `getHostFile` behind the reading of the backup's file.
  unfoldable pub read_host_file : Result Str → RegistryUrl → Result HostFile
  read_host_file (ok b) u = toml.unmarshal b
  read_host_file (err e) u = if fs.is_not_found e then ok (fresh_host_file u) else err e

  -- `getHostFile`, without the flag for the log.
  unfoldable pub get_host_file : Bool → RegistryUrl → fs.State → Result HostFile
  unfolding read_host_file
  get_host_file append_to_backup u s =
      if append_to_backup
      then read_host_file
          (fs.read_file (path_join (config_path ∷ backup_dir ∷ u.host ∷ ascii "hosts.toml" ∷ [])) s)
          u
      else ok (fresh_host_file u)

  -- The round of a registry, behind the marshalling.
  unfoldable pub write_marshalled : RegistryUrl → Result Str → fs.State → Exit fs.State
  write_marshalled u (err e) s = failed e s
  write_marshalled u (ok b) s =
      let fp = path_join (config_path ∷ u.host ∷ ascii "hosts.toml" ∷ []) in
      next (done (fs.mkdir_all (path_dir fp) s)) (λ t. done (fs.write_file fp b t))

  -- The round of a registry, behind the loop over the mirrors.
  abbrev pub write_hosts :
      RegistryUrl → HostFile → Option (Option (Map HostConfig)) → fs.State → Exit fs.State
  write_hosts u hf none s = panicked s
  write_hosts u hf (some hosts) s =
      write_marshalled u (toml.marshal (record hf { host_configs = hosts })) s

  -- The round of a registry, behind `getHostFile`.
  abbrev pub write_host_file :
      List Str → List RegistryUrl → RegistryUrl → Result HostFile → fs.State → Exit fs.State
  write_host_file capabilities mirrors u (err e) s = failed e s
  write_host_file capabilities mirrors u (ok hf) s =
      write_hosts u hf (set_mirrors capabilities mirrors hf.host_configs) s

  unfoldable pub write_all :
      Bool → List Str → List RegistryUrl → List RegistryUrl → fs.State → Exit fs.State
  write_all append_to_backup capabilities mirrors [] s = finished s
  write_all append_to_backup capabilities mirrors (u ∷ us) s =
      next (write_host_file capabilities mirrors u (get_host_file append_to_backup u s) s)
        (write_all append_to_backup capabilities mirrors us)

  -- `AddMirrorConfiguration` behind `validateRegistries`.
  unfoldable pub replace_config :
      List RegistryUrl → List RegistryUrl → Bool → Bool → fs.State → Exit fs.State
  replace_config registries mirrors resolve_tags append_to_backup s =
      next (done (fs.mkdir_all config_path s)) (λ made. next (backup_config made) (λ kept.
        next (clear_config kept)
          (write_all append_to_backup (capabilities_of resolve_tags) mirrors registries)))

  unfoldable pub add_mirror_configuration :
      List RegistryUrl → List RegistryUrl → Bool → Bool → fs.State → Exit fs.State
  unfolding replace_config
  add_mirror_configuration registries mirrors resolve_tags append_to_backup s =
      elim (validate_registries registries) [
        | some e ↦ failed e s
        | none ↦ replace_config registries mirrors resolve_tags append_to_backup s
      ]
