-- ===== src/Oci/MirrorConfig/Keeping.antt =====
-- Steps of the functions of pkg/oci/containerd.go on files that leave a file as it was.
use spegel.Base.{◌≡◌, ◌∙◌, refl, Str, ascii, Option, none, some, Error}
use spegel.Base.Join.{IsName}
use spegel.Oci.MirrorConfig.Files.{FileSystem}
use spegel.Oci.MirrorConfig.{Exit, finished, failed, panicked, next, done, backup_dir}

-- The file system in the end, however the function ends.
abbrev pub state_of : {S : Type 0} → Exit S → S
state_of (finished s) = s
state_of (failed e s) = s
state_of (panicked s) = s

pub backup_dir-IsName : IsName backup_dir
backup_dir-IsName = record {
  no_slash = (refl, (refl, (refl, (refl, (refl, (refl, (refl, tt)))))));
  some_byte = λ e. cc;
  no_dot = λ e. cc;
  no_dots = λ e. cc;
}

pub hosts_toml-IsName : IsName (ascii "hosts.toml")
hosts_toml-IsName = record {
  no_slash = (refl, (refl, (refl, (refl, (refl, (refl, (refl, (refl, (refl, (refl, tt))))))))));
  some_byte = λ e. cc;
  no_dot = λ e. cc;
  no_dots = λ e. cc;
}

module _ (fs : FileSystem) (file : fs.State → Str → Option Str) where
  -- The file is as it was.
  pub record Keeps (q : Str) (s : fs.State) (x : Exit fs.State) : Type 0 where
    pub same : file (state_of x) q ≡ file s q

  pub next-Keeps :
      (q : Str) (s : fs.State) (x : Exit fs.State) (f : fs.State → Exit fs.State)
      → Keeps q s x
      → ((t : fs.State) → Keeps q t (f t))
      → Keeps q s (next x f)
  unfolding next
  next-Keeps q s (finished t) f h g = record { same = (g t).same ∙ h.same }
  next-Keeps q s (failed e t) f h g = record { same = h.same }
  next-Keeps q s (panicked t) f h g = record { same = h.same }

  pub done-Keeps :
      (q : Str) (s : fs.State) (r : Option Error × fs.State)
      → file r.1 q ≡ file s q
      → Keeps q s (done r)
  unfolding done
  done-Keeps q s (none, t) h = record { same = h }
  done-Keeps q s (some e, t) h = record { same = h }
