-- ===== src/Config.antt =====
-- internal/config/config.go: the configuration, and the secret that it loads or creates. The
-- environment's variables are arguments, the empty text for one that is not set; the parsing of a
-- duration and the joining of paths are Go's. The flags of the command line are left out: `addr` and
-- `data_dir` have the defaults that `Load` gives them, or what a flag says.
pub mod Secret
mod Tests
use debeasy.Base.{
  ℕ, Bool, true, false, not, ◌||◌, Option, none, some, List, [], ◌∷◌, ◌++◌, Result, ok, err,
  if◌then◌else◌, ltb, ◌==◌, is_empty, length, take,
}
use debeasy.Base.Text.{Text, codes, ◌≗◌}
use debeasy.Base.Int.{ℤ, pos, negsuc, leb_ℤ}
use debeasy.Base.Files.{Files, File, read, write}
use debeasy.Base.Hex.{hex_encode, hex_decode}

pub data ConfigError : Type 0 where
  mkdir_failed : Text → ConfigError
  bad_env_secret : ConfigError
  corrupt_secret : Text → ConfigError
  random_failed : Text → ConfigError
  write_secret : Text → ConfigError

-- How the disk refuses: a read, or a write after so many bytes.
pub record Disk : Type 0 where
  pub mkdir_fault : Option Text
  pub read_fault : Option Text
  pub write_fault : Option (ℕ × Text)

abbrev pub env_or : Text → Text → Text
env_or v def = if is_empty v then def else v

-- The key that a text of hexadecimal digits has, if it has 32 bytes.
abbrev pub sized : ConfigError → Option (List ℕ) → Result ConfigError (List ℕ)
sized e none = err e
sized e (some key) = if length key == 32 then ok key else err e

-- `os.WriteFile` with the permissions 0600 for a new file; an old one keeps its own.
abbrev mode_of : Option File → ℕ
mode_of none = 384
mode_of (some f) = f.mode

abbrev pub put_file : Files → Text → Text → Files
put_file files path content =
    write files path (record { content = content; mode = mode_of (read files path) })

abbrev pub written : Files → Text → List ℕ → Option (ℕ × Text) → Result ConfigError (List ℕ) × Files
written files path key none = (ok key, put_file files path (hex_encode key))
written files path key (some (n, e)) =
    (err (write_secret e), put_file files path (take n (hex_encode key)))

abbrev pub created :
    Disk → Files → Text → Result Text (List ℕ) → Result ConfigError (List ℕ) × Files
created disk files path (err e) = (err (random_failed e), files)
created disk files path (ok key) = written files path key disk.write_fault

abbrev pub unless_refused : Text → Option Text → Option Text
unless_refused content none = some content
unless_refused content (some e) = none

-- What `os.ReadFile` reads: nothing where there is no file, or where the disk refuses.
abbrev pub readable : Disk → Option File → Option Text
readable disk none = none
readable disk (some f) = unless_refused f.content disk.read_fault

abbrev pub from_file :
    Disk → Files → Text → Result Text (List ℕ) → Option Text → Result ConfigError (List ℕ) × Files
from_file disk files path random none = created disk files path random
from_file disk files path random (some content) =
    (sized (corrupt_secret path) (hex_decode content), files)

-- `loadOrCreateSecret`, with the 32 random bytes that are read if they are needed.
unfoldable pub load_or_create_secret :
    Disk → Text → Files → Text → Result Text (List ℕ) → Result ConfigError (List ℕ) × Files
load_or_create_secret disk env files path random =
    if is_empty env
    then from_file disk files path random (readable disk (read files path))
    else (sized bad_env_secret (hex_decode env), files)

-- `parseDurationOr`
abbrev positive_or : ℤ → Option ℤ → ℤ
positive_or def none = def
positive_or def (some d) = if leb_ℤ d (pos 0) then def else d

unfoldable pub parse_duration_or : (Text → Option ℤ) → Text → ℤ → ℤ
parse_duration_or parse s def = if is_empty s then def else positive_or def (parse s)

pub record Config : Type 0 where
  pub addr : Text
  pub data_dir : Text
  pub app_secret : List ℕ
  pub update_check_enabled : Bool
  pub update_check_interval : ℤ
  pub update_repo : Text

pub record Environment : Type 0 where
  pub addr : Text
  pub data_dir : Text
  pub app_secret : Text
  pub update_check : Text
  pub update_interval : Text
  pub update_repo : Text

-- `24*time.Hour`
abbrev day : ℤ
day = pos 86400000000000

abbrev default_data_dir : (Text → Text → Text) → Option Text → Text
default_data_dir join none = codes ".debeasy"
default_data_dir join (some home) = join home (codes ".debeasy")

abbrev configured :
    (Text → Option ℤ)
    → Environment
    → Text
    → Result ConfigError (List ℕ) × Files
    → Result ConfigError Config × Files
configured parse env dir (err e, files) = (err e, files)
configured parse env dir (ok key, files) = (
  ok (record {
    addr = env_or env.addr (codes ":8080");
    data_dir = dir;
    app_secret = key;
    update_check_enabled = not (env_or env.update_check (codes "1") ≗ codes "0");
    update_check_interval = parse_duration_or parse env.update_interval day;
    update_repo = env_or env.update_repo (codes "pfortini/debeasy");
  }),
  files,
)

-- `Load`; the directory itself is not among the files.
unfoldable pub load :
    (Text → Text → Text)
    → (Text → Option ℤ)
    → Disk
    → Environment
    → Option Text
    → Files
    → Result Text (List ℕ)
    → Result ConfigError Config × Files
load join parse disk env home files random =
    let dir = env_or env.data_dir (default_data_dir join home) in
    elim (disk.mkdir_fault) [
      | some e ↦ (err (mkdir_failed e), files)
      | none ↦
          configured parse env dir
            (load_or_create_secret disk env.app_secret files (join dir (codes "secret")) random)
    ]

unfoldable pub store_path : (Text → Text → Text) → Config → Text
store_path join c = join c.data_dir (codes "debeasy.sqlite")
