-- ===== src/Tests/Config.antt =====
-- The theorems on the configuration of mirrors at a file system in memory.
use spegel.Base.{
  ◌≡◌, ◌≢◌, refl, Str, ascii, str_eq, str_eq_iff, has_prefix, cut, has_byte, All, true, false, none,
  List, [], ◌∷◌, ◌++◌, ok,
}
use spegel.Base.Maps.{Map, insert}
use spegel.Base.Join.{IsName, path_of, under, path_join}
use spegel.Base.Clean.{clean}
use spegel.Base.{join, cut_last}
use spegel.Base.Join.{path_dir}
use spegel.Oci.MirrorConfig.{
  capabilities_of, validate_registries, all_errors, unless, backup_config, backup_stated,
  clear_config, clear_all, get_host_file, server_of, set_mirrors, write_marshalled,
}
use spegel.Oci.MirrorConfig.Backups.{IsHostName, add-Keeps_backup}
use spegel.Oci.MirrorConfig.Keeping.{state_of}
use spegel.Oci.MirrorConfig.Written.{Configured, add-Configured}
use spegel.Oci.MirrorConfig.Files.{Toml}
use spegel.Oci.MirrorConfig.{
  RegistryUrl, finished, next, done, backup_dir, add_mirror_configuration, write_all,
}
use spegel.Tests.Memory.{
  is_name, is_name-IsName, outside, names_in, is_there, memory, contents, memory-IsLawful,
}

abbrev docker_io : RegistryUrl
docker_io = record {
  scheme = ascii "https";
  host = ascii "docker.io";
  path = [];
  has_query = false;
  has_user = false;
  text = ascii "https://docker.io";
}

abbrev ghcr_io : RegistryUrl
ghcr_io = record docker_io { host = ascii "ghcr.io"; text = ascii "https://ghcr.io" }

abbrev a_mirror : RegistryUrl
a_mirror = record docker_io { host = ascii "a:1"; text = ascii "http://a:1" }

-- A document is its server's name, and any text is a document without hosts.
abbrev pub plain_toml : Toml
plain_toml = record {
  marshal = λ hf. ok hf.server;
  unmarshal = λ b. ok (record { host_configs = none; server = b });
}

abbrev c_d : List Str
c_d = ascii "c" ∷ ascii "d" ∷ []

c_d-IsName : All IsName c_d
unfolding is_name has_byte str_eq
c_d-IsName = (is_name-IsName (ascii "c") refl, (is_name-IsName (ascii "d") refl, tt))

docker_io-IsName : IsName (ascii "docker.io")
unfolding is_name has_byte str_eq
docker_io-IsName = is_name-IsName (ascii "docker.io") refl

ghcr_io-IsName : IsName (ascii "ghcr.io")
unfolding is_name has_byte str_eq
ghcr_io-IsName = is_name-IsName (ascii "ghcr.io") refl

-- A configuration before, and a backup.
abbrev before_files : Map Str
before_files =
    (ascii "/c/d/_backup/ghcr.io/hosts.toml", ascii "old")
    ∷ (ascii "/c/d/ghcr.io/hosts.toml", ascii "stale")
    ∷ []

abbrev after_files : Map Str
after_files =
    (ascii "/c/d/_backup/ghcr.io/hosts.toml", ascii "old")
    ∷ (ascii "/c/d/docker.io/hosts.toml", ascii "https://registry-1.docker.io")
    ∷ (ascii "/c/d/ghcr.io/hosts.toml", ascii "https://ghcr.io")
    ∷ []

add_runs :
    add_mirror_configuration memory plain_toml
      (path_of c_d)
      (docker_io ∷ ghcr_io ∷ [])
      (a_mirror ∷ [])
      true
      false
      before_files
    ≡ finished after_files
unfolding add_mirror_configuration validate_registries join all_errors unless str_eq next done
    backup_config backup_stated is_there under path_join clean clear_config clear_all names_in
    has_byte cut has_prefix insert capabilities_of get_host_file server_of set_mirrors write_all
    write_marshalled path_dir cut_last outside
add_runs = refl

differ : (s t : Str) → str_eq s t ≡ false → s ≢ t
differ s t h e = cc (h, (str_eq_iff s t).1 e)

docker_io-IsHostName : IsHostName docker_io
unfolding str_eq
docker_io-IsHostName = record {
  name = docker_io-IsName;
  no_backup = differ (ascii "docker.io") backup_dir refl;
}

ghcr_io-IsHostName : IsHostName ghcr_io
unfolding str_eq
ghcr_io-IsHostName = record {
  name = ghcr_io-IsName;
  no_backup = differ (ascii "ghcr.io") backup_dir refl;
}

backup_there : memory.stat (path_of (c_d ++ backup_dir ∷ [])) before_files ≡ none
unfolding is_there under str_eq has_prefix
backup_there = refl

add-Keeps_backup_example :
    contents
      (state_of (
        add_mirror_configuration memory plain_toml
          (ascii "/c/d")
          (docker_io ∷ ghcr_io ∷ [])
          (a_mirror ∷ [])
          true
          true
          before_files))
      (ascii "/c/d/_backup/ghcr.io/hosts.toml")
    ≡ contents before_files (ascii "/c/d/_backup/ghcr.io/hosts.toml")
add-Keeps_backup_example =
    add-Keeps_backup memory contents plain_toml memory-IsLawful (ascii "c") (ascii "d" ∷ [])
      c_d-IsName (docker_io ∷ ghcr_io ∷ []) (a_mirror ∷ []) true true before_files
      (ascii "ghcr.io" ∷ ascii "hosts.toml" ∷ []) (docker_io-IsHostName, (ghcr_io-IsHostName, tt))
      backup_there

host_differs : ghcr_io.host ≢ docker_io.host
unfolding str_eq
host_differs = differ (ascii "ghcr.io") (ascii "docker.io") refl

add-Configured_example :
    Configured memory plain_toml
      (ascii "/c/d")
      contents
      memory-IsLawful
      (capabilities_of true)
      (a_mirror ∷ [])
      docker_io
      (ascii "/c/d/docker.io/hosts.toml")
      after_files
add-Configured_example =
    add-Configured memory contents plain_toml memory-IsLawful (ascii "c") (ascii "d" ∷ [])
      c_d-IsName (a_mirror ∷ []) [] (ghcr_io ∷ []) docker_io true before_files after_files
      docker_io-IsName ((ghcr_io-IsName, host_differs), tt) add_runs
