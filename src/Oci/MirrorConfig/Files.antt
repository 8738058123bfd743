-- ===== src/Oci/MirrorConfig/Files.antt =====
-- What pkg/oci/containerd.go uses of a file system (package afero) and of its documents (package
-- toml), which are parameters, and what is documented of the file system.
use spegel.Base.{◌≡◌, Str, str_eq, Bool, false, All, Option, none, some, List, Result, ok, Error}
use spegel.Base.Join.{IsName, under}
use spegel.Base.Maps.{Map}

pub record FileSystem : Type 1 where
  pub State : Type 0
  pub stat : Str → State → Option Error
  pub is_not_exist : Error → Bool
  pub mkdir_all : Str → State → Option Error × State
  pub read_dir : Str → State → Result (List Str)
  pub rename : Str → Str → State → Option Error × State
  pub remove_all : Str → State → Option Error × State
  pub read_file : Str → State → Result Str
  pub is_not_found : Error → Bool
  pub write_file : Str → Str → State → Option Error × State

-- The file system by the contents of its files: directories are no files, a file that is written
-- holds what was written, a directory that is made takes nothing away, and an operation, also one
-- that fails, leaves the files alone that are not under its path.
pub record IsLawful (fs : FileSystem) (file : fs.State → Str → Option Str) : Type 0 where
  pub file-mkdir_all : (p q : Str) (s : fs.State) → file (fs.mkdir_all p s).1 q ≡ file s q
  pub stat-mkdir_all :
      (p q : Str) (s : fs.State) → fs.stat q s ≡ none → fs.stat q (fs.mkdir_all p s).1 ≡ none
  pub file-written :
      (p b : Str) (s : fs.State)
      → (fs.write_file p b s).0 ≡ none
      → file (fs.write_file p b s).1 p ≡ some b
  pub file-write_file :
      (p b q : Str) (s : fs.State) → str_eq p q ≡ false → file (fs.write_file p b s).1 q ≡ file s q
  pub file-remove_all :
      (p q : Str) (s : fs.State) → under p q ≡ false → file (fs.remove_all p s).1 q ≡ file s q
  pub read_dir-names :
      (p : Str) (s : fs.State) (names : List Str) → fs.read_dir p s ≡ ok names → All IsName names

-- The values that the program only passes on are kept as text.
pub record HostConfig : Type 0 where
  pub ca : Option Str
  pub client : Option Str
  pub override_path : Option Bool
  pub skip_verify : Option Bool
  pub header : Option Str
  pub capabilities : List Str

-- A map that is `nil` is `none`.
pub record HostFile : Type 0 where
  pub host_configs : Option (Map HostConfig)
  pub server : Str

pub record Toml : Type 0 where
  pub marshal : HostFile → Result Str
  pub unmarshal : Str → Result HostFile
