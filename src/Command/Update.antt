-- ===== src/Command/Update.antt =====
-- cmd/debeasy/update.go: `debeasy update`, which replaces the binary by the one of a release.
-- The network, the file system's own failures, the host and the restart of the service are a parameter,
-- `Outside`; each URL is fetched once. A fetch fails with the library's text, also for a URL that is
-- none. The headers of the requests are left out.
pub mod Swap
pub mod Frames
pub mod Ending
pub mod Safety
pub mod Progress
use debeasy.Base.{
  ℕ, Bool, true, false, not, ◌||◌, ◌&&◌, Option, none, some, List, [], ◌∷◌, ◌++◌, Result, ok, err,
  ◌>>=◌, map_err, if◌then◌else◌, ◌==◌, ◌/◌, is_empty, take,
}
use debeasy.Base.Text.{Text, codes, ◌≗◌}
use debeasy.Base.Files.{Files}
use debeasy.Command.Checksum.{
  FetchError, transport, github_status, http_status, no_tag_name, parse_checksum,
}

-- The options that tests and the command line set; the client and the restart are in `Outside`.
pub record UpdateOpts : Type 0 where
  pub repo : Text
  pub tag : Text
  pub check_only : Bool
  pub yes : Bool
  pub service : Text
  pub install_path : Text
  pub current_version : Text
  pub os : Text
  pub arch : Text
  pub api_base_url : Text
  pub download_base_url : Text

-- What an HTTP server answers; reading the body can end with an error after what has arrived.
pub record Reply : Type 0 where
  pub status_code : ℕ
  pub status : Text
  pub body : Text
  pub broken : Option Text

pub record Outside : Type 0 where
  -- `version.Version`, `runtime.GOOS`, `runtime.GOARCH`
  pub version : Text
  pub goos : Text
  pub goarch : Text
  pub get : Text → Result Text Reply
  -- the field `tag_name` of the JSON in the body, empty if there is none
  pub decode_tag : Reply → Result Text Text
  pub sha256_hex : Text → Text
  -- `os.Executable`, `filepath.EvalSymlinks`, `filepath.Dir`
  pub executable : Result Text Text
  pub eval_symlinks : Text → Result Text Text
  pub dir : Text → Text
  -- `os.CreateTemp` among the files: the name of a new one, or the library's error
  pub create_temp : Files → Text → Result Text Text
  -- where the disk refuses: a write after so many bytes, and the other calls
  pub write_fault : Option (ℕ × Text)
  pub sync_fault : Option Text
  pub close_fault : Option Text
  pub chmod_fault : Option Text
  pub rename_fault : Option Text
  pub remove_fault : Option Text
  -- what the user types
  pub input : Text
  pub restart : Text → Option Text

pub data UpdateError : Type 0 where
  unsupported_os : Text → UpdateError
  unsupported_arch : Text → UpdateError
  resolve_latest : FetchError → UpdateError
  locate_binary : Text → UpdateError
  cancelled : UpdateError
  create_temp_failed : Text → Text → UpdateError
  download_failed : FetchError → UpdateError
  sync_failed : Text → UpdateError
  close_failed : Text → UpdateError
  checksum_failed : FetchError → UpdateError
  sha256_mismatch : Text → Text → UpdateError
  chmod_failed : Text → UpdateError
  swap_failed : Text → Text → UpdateError

abbrev pub or_default : Text → Text → Text
or_default s t = if is_empty s then t else s

unfoldable pub asset_name : Text → Text → Result UpdateError Text
asset_name goos goarch =
    if not (goos ≗ codes "linux" || goos ≗ codes "darwin")
    then err (unsupported_os goos)
    else if not (goarch ≗ codes "amd64" || goarch ≗ codes "arm64")
    then err (unsupported_arch goarch)
    else ok (codes "debeasy-" ++ (goos ++ (codes "-" ++ goarch)))

-- `resp.StatusCode/100 != 2`
abbrev pub refused : Reply → Bool
refused r = not (r.status_code / 100 == 2)

abbrev pub download_url : UpdateOpts → Text → Text → Text
download_url o tag file =
    o.download_base_url
    ++ (codes "/" ++ (o.repo ++ (codes "/releases/download/" ++ (tag ++ (codes "/" ++ file)))))

module _ (w : Outside) where
  -- The start of `runUpdateWithOpts`.
  abbrev pub with_defaults : UpdateOpts → UpdateOpts
  with_defaults o = record o {
    api_base_url = or_default o.api_base_url (codes "https://api.github.com");
    download_base_url = or_default o.download_base_url (codes "https://github.com");
    os = or_default o.os w.goos;
    arch = or_default o.arch w.goarch;
  }

  unfoldable pub default_update_opts : UpdateOpts
  default_update_opts = record {
    repo = codes "pfortini/debeasy";
    tag = codes "latest";
    check_only = false;
    yes = false;
    service = codes "debeasy.service";
    install_path = [];
    current_version = w.version;
    os = w.goos;
    arch = w.goarch;
    api_base_url = codes "https://api.github.com";
    download_base_url = codes "https://github.com";
  }

  abbrev tag_of : Reply → Result FetchError Text
  tag_of r =
      if refused r
      then err (github_status r.status)
      else map_err transport (w.decode_tag r) >>= λ tag.
          if is_empty tag then err no_tag_name else ok tag

  unfoldable pub fetch_latest_tag : UpdateOpts → Result FetchError Text
  fetch_latest_tag o =
      map_err transport
        (w.get (o.api_base_url ++ (codes "/repos/" ++ (o.repo ++ codes "/releases/latest"))))
      >>= tag_of

  -- `io.ReadAll`
  abbrev read_all : Reply → Result FetchError Text
  read_all r = elim (r.broken) [ none ↦ ok r.body | some e ↦ err (transport e) ]

  abbrev checksum_of : Text → Text → Reply → Result FetchError Text
  checksum_of url asset r =
      if refused r
      then err (http_status r.status url)
      else read_all r >>= λ body. parse_checksum body asset

  unfoldable pub fetch_checksum : Text → Text → Result FetchError Text
  fetch_checksum url asset = map_err transport (w.get url) >>= checksum_of url asset

  abbrev latest_or : UpdateOpts → Result FetchError Text
  latest_or o = if is_empty o.tag || o.tag ≗ codes "latest" then fetch_latest_tag o else ok o.tag

  unfoldable pub target_tag : UpdateOpts → Result UpdateError Text
  target_tag o = map_err resolve_latest (latest_or o)

  -- The program's own path with its links resolved, where they can be.
  abbrev own_path : Result Text Text → Result UpdateError Text
  own_path (err e) = err (locate_binary e)
  own_path (ok p) = elim (w.eval_symlinks p) [ err e ↦ ok p | ok resolved ↦ ok resolved ]

  unfoldable pub binary_path : UpdateOpts → Result UpdateError Text
  binary_path o = if is_empty o.install_path then own_path w.executable else ok o.install_path
