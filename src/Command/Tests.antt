-- ===== src/Command/Tests.antt =====
-- The theorems on the self-update at a concrete release.
use debeasy.Base.{
  true, false, Option, none, some, [], ◌∷◌, ◌++◌, Result, ok, err, if◌then◌else◌, ◌≡◌, refl, inl,
}
use debeasy.Base.Text.{
  Text, codes, ◌≗◌, is_space, trim_space, trim_left, trim_right, has_prefix, byte_length,
}
use debeasy.Base.Files.{Files, File, read}
use debeasy.Command.Checksum.{
  raw_lines, drop_cr, fields, word_split, parse_lines, parse_checksum, read_yes,
}
use debeasy.Command.Checksum.RoundTrip.{
  Entry, IsEntry, checksums, entry_of, parse_checksum-checksums,
}
use debeasy.Command.Update.{
  UpdateOpts, Reply, Outside, asset_name, with_defaults, fetch_checksum, fetch_latest_tag,
  target_tag, binary_path,
}
use debeasy.Command.Update.Swap.{run_update}
use debeasy.Command.Update.Ending.{CreatesNew}
use debeasy.Command.Update.Safety.{Outcome, run_update-Outcome}
use debeasy.Command.Update.Progress.{Undisturbed, Installed, run_update-Installed}

abbrev first_entry : Entry
first_entry = (codes "ab12", codes "debeasy-linux-amd64")

abbrev second_entry : Entry
second_entry = (codes "cd34", codes "debeasy-darwin-arm64")

first_IsEntry : IsEntry first_entry
unfolding is_space has_prefix byte_length
first_IsEntry = record {
  sum_IsWord = (refl, (refl, (refl, (refl, (refl, tt)))));
  name_IsWord = (
    refl,
    (
      refl,
      (
        refl,
        (
          refl,
          (
            refl,
            (
              refl,
              (
                refl,
                (
                  refl,
                  (
                    refl,
                    (
                      refl,
                      (
                        refl,
                        (refl, (refl, (refl, (refl, (refl, (refl, (refl, (refl, (refl, tt))))))))),
                      ),
                    ),
                  ),
                ),
              ),
            ),
          ),
        ),
      ),
    ),
  );
  unstarred = refl;
  short = refl;
}

second_IsEntry : IsEntry second_entry
unfolding is_space has_prefix byte_length
second_IsEntry = record {
  sum_IsWord = (refl, (refl, (refl, (refl, (refl, tt)))));
  name_IsWord = (
    refl,
    (
      refl,
      (
        refl,
        (
          refl,
          (
            refl,
            (
              refl,
              (
                refl,
                (
                  refl,
                  (
                    refl,
                    (
                      refl,
                      (
                        refl,
                        (
                          refl,
                          (
                            refl,
                            (refl, (refl, (refl, (refl, (refl, (refl, (refl, (refl, tt)))))))),
                          ),
                        ),
                      ),
                    ),
                  ),
                ),
              ),
            ),
          ),
        ),
      ),
    ),
  );
  unstarred = refl;
  short = refl;
}

parse_checksum-checksums_example :
    parse_checksum (checksums (first_entry ∷ second_entry ∷ [])) (codes "debeasy-darwin-arm64")
    ≡ entry_of (first_entry ∷ second_entry ∷ []) (codes "debeasy-darwin-arm64")
parse_checksum-checksums_example =
    parse_checksum-checksums (first_entry ∷ second_entry ∷ []) (codes "debeasy-darwin-arm64")
      (first_IsEntry, (second_IsEntry, tt))

first_line : read_yes (codes " Yes\r\nno") ≡ true
unfolding read_yes raw_lines drop_cr trim_space trim_left trim_right is_space byte_length ◌≗◌
first_line = refl

blank_line : read_yes (codes "\ny\n") ≡ false
unfolding read_yes raw_lines drop_cr trim_space trim_left trim_right is_space byte_length ◌≗◌
blank_line = refl

abbrev opts : UpdateOpts
opts = record {
  repo = codes "o/r";
  tag = codes "latest";
  check_only = false;
  yes = true;
  service = codes "debeasy.service";
  install_path = [];
  current_version = [];
  os = [];
  arch = [];
  api_base_url = [];
  download_base_url = codes "https://d";
}

abbrev answer : Text → Reply
answer body = record { status_code = 200; status = codes "200 OK"; body = body; broken = none }

abbrev list_url : Text
list_url = codes "https://d/o/r/releases/download/v2/checksums.txt"

abbrev served : Text → Result Text Reply
unfolding ◌≗◌
served url =
    if url ≗ list_url
    then ok (answer (codes "#bin *debeasy-linux-amd64\n"))
    else ok (answer (codes "bin"))

abbrev new_name : Option File → Result Text Text
new_name none = ok (codes "/usr/bin/.debeasy.new.1")
new_name (some f) = err (codes "exists")

abbrev outside : Outside
outside = record {
  version = codes "v1";
  goos = codes "linux";
  goarch = codes "amd64";
  get = served;
  decode_tag = λ r. ok (codes "v2");
  sha256_hex = λ content. codes "#" ++ content;
  executable = ok (codes "/usr/bin/debeasy");
  eval_symlinks = λ p. ok p;
  dir = λ p. codes "/usr/bin";
  create_temp = λ files d. new_name (read files (codes "/usr/bin/.debeasy.new.1"));
  write_fault = none;
  sync_fault = none;
  close_fault = none;
  chmod_fault = none;
  rename_fault = none;
  remove_fault = none;
  input = [];
  restart = λ service. some (codes "exit status 1");
}

abbrev disk : Files
disk = (codes "/usr/bin/debeasy", record { content = codes "old"; mode = 493 }) ∷ []

outside-CreatesNew : CreatesNew outside
outside-CreatesNew files d tmp h = go (read files (codes "/usr/bin/.debeasy.new.1")) refl h
  where
    go :
        (o : Option File)
        → read files (codes "/usr/bin/.debeasy.new.1") ≡ o
        → new_name o ≡ ok tmp
        → read files tmp ≡ none
    go none e k = cc
    go (some f) e k = cc

run_update-Outcome_example :
    Outcome outside (with_defaults outside opts) disk (run_update outside opts disk)
run_update-Outcome_example = run_update-Outcome outside opts disk outside-CreatesNew

undisturbed : Undisturbed outside (with_defaults outside opts) disk
unfolding asset_name fetch_latest_tag target_tag binary_path read ◌≗◌ fetch_checksum parse_checksum
    parse_lines raw_lines drop_cr fields word_split trim_space trim_left trim_right is_space
    byte_length
undisturbed = record {
  asset = codes "debeasy-linux-amd64";
  tag = codes "v2";
  path = codes "/usr/bin/debeasy";
  tmp = codes "/usr/bin/.debeasy.new.1";
  reply = answer (codes "bin");
  wanted = refl;
  agreed = inl refl;
  asset_eq = refl;
  tag_eq = refl;
  path_eq = refl;
  differs = refl;
  tmp_eq = refl;
  reply_eq = refl;
  accepted = refl;
  whole = refl;
  listed = refl;
  writes = refl;
  syncs = refl;
  closes = refl;
  chmods = refl;
  renames = refl;
}

run_update-Installed_example :
    Installed (codes "/usr/bin/debeasy") (codes "bin") (run_update outside opts disk)
unfolding undisturbed
run_update-Installed_example = run_update-Installed outside opts disk undisturbed
