-- ===== src/Command/Update/Swap.antt =====
-- cmd/debeasy/update.go: `downloadWithHash`, and the rest of `runUpdateWithOpts`, which changes files.
use debeasy.Base.{
  ℕ, Option, none, some, [], ◌∷◌, ◌++◌, Result, ok, err, ◌>>=◌, map_err, if◌then◌else◌, is_empty,
  take,
}
use debeasy.Base.Text.{Text, codes, ◌≗◌}
use debeasy.Base.Files.{Files, File, read, write, erase}
use debeasy.Command.Checksum.{FetchError, transport, http_status, read_yes}
use debeasy.Command.Update.{
  UpdateOpts, Reply, Outside, UpdateError, cancelled, create_temp_failed, download_failed,
  sync_failed, close_failed, checksum_failed, sha256_mismatch, chmod_failed, swap_failed,
  asset_name, refused, or_default, download_url, with_defaults, fetch_checksum, target_tag,
  binary_path,
}

-- How the command ends: its error if any, what it has printed, and the files.
pub record Run : Type 0 where
  pub result : Result {0, 0} UpdateError Unit
  pub out : Text
  pub files : Files

abbrev newline : Text
newline = 10 ∷ []

-- The error of a step, if it has one.
abbrev pub step : (Text → UpdateError) → Option Text → Result {0, 0} UpdateError Unit
step wrap none = ok tt
step wrap (some e) = err (wrap e)

-- `CreateTemp` opens with the permissions 0600.
abbrev pub temporary : Text → File
temporary content = record { content = content; mode = 384 }

-- `os.Chmod` and `os.Rename` where they succeed.
abbrev pub mode_set : Files → Text → ℕ → Option File → Files
mode_set files path mode none = files
mode_set files path mode (some f) = write files path (record f { mode = mode })

abbrev pub set_mode : Files → Text → ℕ → Files
set_mode files path mode = mode_set files path mode (read files path)

abbrev pub moved : Files → Text → Text → Option File → Files
moved files from to none = files
moved files from to (some f) = write (erase files from) to f

abbrev pub move : Files → Text → Text → Files
move files from to = moved files from to (read files from)

abbrev pub removed : Text → Files → Option Text → Files
removed tmp files none = erase files tmp
removed tmp files (some e) = files

module _ (w : Outside) where
  -- `io.Copy` into the file and the hash.
  abbrev pub copy_body :
      Text → Files → Text → Option (ℕ × Text) → Option Text → Result FetchError Text × Files
  copy_body tmp files body (some (n, e)) broken =
      (err (transport e), write files tmp (temporary (take n body)))
  copy_body tmp files body none (some e) = (err (transport e), write files tmp (temporary body))
  copy_body tmp files body none none = (ok (w.sha256_hex body), write files tmp (temporary body))

  abbrev pub download_reply :
      Text → Text → Files → Result Text Reply → Result FetchError Text × Files
  download_reply url tmp files (err e) = (err (transport e), files)
  download_reply url tmp files (ok r) =
      if refused r
      then (err (http_status r.status url), files)
      else copy_body tmp files r.body w.write_fault r.broken

  unfoldable pub download_with_hash : Text → Text → Files → Result FetchError Text × Files
  download_with_hash url tmp files = download_reply url tmp files (w.get url)

  -- The deferred clean-up; the error of `os.Remove` is ignored.
  abbrev pub discard : Text → Files → Files
  discard tmp files = removed tmp files w.remove_fault

  -- The download has the checksum of the release's list.
  abbrev pub same_sum : Text → Text → Result UpdateError Text
  same_sum got want = if got ≗ want then ok got else err (sha256_mismatch want got)

  abbrev pub verified : UpdateOpts → Text → Text → Result FetchError Text → Result UpdateError Text
  verified o tag asset sum = do
    got ← map_err download_failed sum
    _ ← step sync_failed w.sync_fault
    _ ← step close_failed w.close_fault
    want ←
        map_err checksum_failed
          (fetch_checksum w (download_url o tag (codes "checksums.txt")) asset)
    same_sum got want

  abbrev restart_text : Text → Option Text → Text
  restart_text service none = codes "restarted: " ++ (service ++ newline)
  restart_text service (some e) =
      codes "warning: restart "
      ++ (service
          ++ (codes " failed: "
              ++ (e
                  ++ (newline
                      ++ (codes
                            "binary is in place — restart manually with: sudo systemctl restart "
                          ++ (service ++ newline))))))

  -- The end, after the swap.
  abbrev pub finish : UpdateOpts → Text → Text → Files → Run
  finish o path out files =
      let installed = out ++ (codes "installed: " ++ (path ++ newline)) in
      let said =
        if is_empty o.service
        then codes "skipped service restart (--service=\"\")" ++ newline
        else restart_text o.service (w.restart o.service) in
      record { result = ok tt; out = installed ++ said; files = files }

  abbrev pub fail : UpdateError → Text → Text → Files → Run
  fail e tmp out files = record { result = err e; out = out; files = discard tmp files }

  abbrev pub renamed : UpdateOpts → Text → Text → Text → Files → Option Text → Run
  renamed o path tmp out files (some e) = fail (swap_failed path e) tmp out files
  renamed o path tmp out files none = finish o path out (move files tmp path)

  abbrev pub made_executable : UpdateOpts → Text → Text → Text → Files → Option Text → Run
  made_executable o path tmp out files (some e) = fail (chmod_failed e) tmp out files
  made_executable o path tmp out files none =
      renamed o path tmp out (set_mode files tmp 493) w.rename_fault

  -- After the download and the check of its sum.
  unfoldable pub swap : UpdateOpts → Text → Text → Text → Files → Result UpdateError Text → Run
  swap o path tmp out files (err e) = fail e tmp out files
  swap o path tmp out files (ok sum) =
      made_executable o path tmp (out ++ (codes "sha256 verified: " ++ (sum ++ newline))) files
        w.chmod_fault

  -- From `os.CreateTemp` on.
  abbrev pub in_temp : UpdateOpts → Text → Text → Text → Text → Files → Result Text Text → Run
  in_temp o asset tag path out files (err e) = record {
    result = err (create_temp_failed (w.dir path) e);
    out = out;
    files = files;
  }
  in_temp o asset tag path out files (ok tmp) =
      let url = download_url o tag asset in
      let said = out ++ (codes "downloading " ++ (url ++ newline)) in
      let (sum, files') = download_with_hash url tmp (write files tmp (temporary [])) in
      swap o path tmp said files' (verified o tag asset sum)

  unfoldable pub install : UpdateOpts → Text → Text → Text → Text → Files → Run
  install o asset tag path out files =
      in_temp o asset tag path out files (w.create_temp files (w.dir path))

  -- The question, unless `--yes` answers it.
  abbrev pub confirm : UpdateOpts → Text → Text → Text → Text → Files → Run
  confirm o asset tag path out files =
      let asked =
        out ++ (codes "replace " ++ (path ++ (codes " with " ++ (tag ++ codes "? [y/N] ")))) in
      if o.yes
      then install o asset tag path out files
      else if read_yes w.input
      then install o asset tag path asked files
      else record { result = err cancelled; out = asked; files = files }

  abbrev pub with_path : UpdateOpts → Text → Text → Text → Files → Result UpdateError Text → Run
  with_path o asset tag out files (err e) = record { result = err e; out = out; files = files }
  with_path o asset tag out files (ok path) = confirm o asset tag path out files

  abbrev pub with_tag : UpdateOpts → Text → Files → Result UpdateError Text → Run
  with_tag o asset files (err e) = record { result = err e; out = []; files = files }
  with_tag o asset files (ok tag) =
      let current = or_default o.current_version w.version in
      let said =
        codes "current: " ++ (current ++ (newline ++ (codes "latest:  " ++ (tag ++ newline)))) in
      if o.check_only
      then record { result = ok tt; out = said; files = files }
      else if tag ≗ current
      then record {
        result = ok tt;
        out = said ++ (codes "already up to date." ++ newline);
        files = files;
      }
      else with_path o asset tag said files (binary_path w o)

  abbrev pub with_asset : UpdateOpts → Files → Result UpdateError Text → Run
  with_asset o files (err e) = record { result = err e; out = []; files = files }
  with_asset o files (ok asset) = with_tag o asset files (target_tag w o)

  unfoldable pub run_update : UpdateOpts → Files → Run
  run_update o files = let o' = with_defaults w o in with_asset o' files (asset_name o'.os o'.arch)
