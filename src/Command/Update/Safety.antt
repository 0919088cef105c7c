-- ===== src/Command/Update/Safety.antt =====
-- What `debeasy update` can leave behind: the files as they were, or the verified binary in place.
use debeasy.Base.{
  ℕ, false, Option, none, some, [], Result, ok, err, ◌≡◌, refl, sym, ap, ◌∙◌, ◌⊎◌, inl, inr,
  Bool-cases, if_cases, >>=-eq-ok, map_err, arith,
}
use debeasy.Base.Text.{Text, codes, ◌≗◌}
use debeasy.Base.Text.Laws.{≗_iff}
use debeasy.Base.Files.{Files, read, write, read-write}
use debeasy.Command.Checksum.{FetchError, read_yes}
use debeasy.Command.Update.{
  UpdateOpts, Reply, Outside, UpdateError, download_failed, sync_failed, close_failed,
  checksum_failed, refused, or_default, asset_name, download_url, with_defaults, fetch_checksum,
  target_tag, binary_path,
}
use debeasy.Command.Update.Swap.{
  Run, step, temporary, download_with_hash, verified, same_sum, install, run_update, copy_body,
  download_reply, with_asset, with_tag, with_path, in_temp,
}
use debeasy.Command.Update.Frames.{Frame, Frame-write, Frame-trans}
use debeasy.Command.Update.Ending.{Undone, Replaced, CreatesNew, Ending, swap-Ending}

-- A successful run without an update: the release is the installed one, or it was only asked for.
pub record Kept (o : UpdateOpts) (files : Files) (run : Run) : Type 0 where
  pub ended : run.result ≡ ok tt
  pub same : run.files ≡ files

-- The release that was asked for is in place of the binary.
pub record Updated (w : Outside) (o : UpdateOpts) (files : Files) (run : Run) : Type 0 where
  pub asset : Text
  pub tag : Text
  pub path : Text
  pub asset_eq : asset_name o.os o.arch ≡ ok asset
  pub tag_eq : target_tag w o ≡ ok tag
  pub path_eq : binary_path w o ≡ ok path
  pub replaced : Replaced w o asset tag path files run

abbrev pub Outcome : Outside → UpdateOpts → Files → Run → Type 0
Outcome w o files run = Kept o files run ⊎ (Undone w files run ⊎ Updated w o files run)

module _ (w : Outside) where
  -- What a download can do to the files: nothing, or something to its own file.
  abbrev Downloaded : Text → Files → Result FetchError Text × Files → Type 0
  Downloaded tmp files d =
      Frame files d.1 tmp
      × ((sum : Text)
          → d.0 ≡ ok sum
          → (c : Text) × (read d.1 tmp ≡ some (temporary c)) × (sum ≡ w.sha256_hex c))

  no_sum : {e : FetchError} (P : Text → Type 0) (sum : Text) → err e ≡ ok sum → P sum
  no_sum P sum h = cc

  ok_inj : {a b : Text} → ◌≡◌ {A = Result FetchError Text} (ok a) (ok b) → b ≡ a
  ok_inj h = cc

  copy_body-Downloaded :
      (tmp : Text) (files : Files) (body : Text) (fault : Option (ℕ × Text)) (broken : Option Text)
      → Downloaded tmp files (copy_body w tmp files body fault broken)
  copy_body-Downloaded tmp files body (some (n, e)) broken = (Frame-write files tmp _, no_sum _)
  copy_body-Downloaded tmp files body none (some e) = (Frame-write files tmp _, no_sum _)
  copy_body-Downloaded tmp files body none none =
      (Frame-write files tmp _, λ sum h. (body, read-write files tmp (temporary body), ok_inj h))

  download-Downloaded :
      (url tmp : Text) (files : Files) → Downloaded tmp files (download_with_hash w url tmp files)
  unfolding download_with_hash
  download-Downloaded url tmp files = go (w.get url)
    where
      go : (r : Result Text Reply) → Downloaded tmp files (download_reply w url tmp files r)
      go (err e) = (λ q h. refl, no_sum _)
      go (ok r) =
          if_cases (Downloaded tmp files) (refused r) (λ _. (λ q h. refl, no_sum _))
            (λ _. copy_body-Downloaded tmp files r.body w.write_fault r.broken)

  same_sum-ok : (got want s : Text) → same_sum w got want ≡ ok s → got ≡ want
  same_sum-ok got want s h = elim (Bool-cases (got ≗ want)) [
    | inl e ↦ (≗_iff got want).0 e
    | inr e ↦ absurd (differ e)
  ]
    where
      differ : (got ≗ want) ≡ false → ⊥
      differ e = ground (arith, e, h)

  map_err-ok :
      (f : FetchError → UpdateError) (r : Result FetchError Text) {a : Text}
      → map_err f r ≡ ok a
      → r ≡ ok a
  map_err-ok f (err e) h = cc
  map_err-ok f (ok b) h = cc

  module _ (o : UpdateOpts) (asset tag : Text) where
    -- A download that passes has the sum that the list names.
    verified-ok :
        (res : Result FetchError Text) (s : Text)
        → verified w o tag asset res ≡ ok s
        → (sum : Text) × (res ≡ ok sum)
          × (fetch_checksum w (download_url o tag (codes "checksums.txt")) asset ≡ ok sum)
    verified-ok res s h =
        let list = fetch_checksum w (download_url o tag (codes "checksums.txt")) asset in
        let (got, g, h1) = >>=-eq-ok (map_err download_failed res) _ h in
        let (_, _, h2) = >>=-eq-ok (step sync_failed w.sync_fault) _ h1 in
        let (_, _, h3) = >>=-eq-ok (step close_failed w.close_fault) _ h2 in
        let (want, l, h4) = >>=-eq-ok (map_err checksum_failed list) _ h3 in
        (
          got,
          map_err-ok _ res g,
          map_err-ok _ list l ∙ ap (λ x. ok x) (sym (same_sum-ok got want s h4)),
        )

    install-Ending :
        (path out : Text) (files : Files)
        → CreatesNew w
        → Ending w o asset tag path files (install w o asset tag path out files)
    unfolding install
    install-Ending path out files new =
        go (w.create_temp files (w.dir path)) (λ tmp h. new files (w.dir path) tmp h)
      where
        go :
            (r : Result Text Text)
            → ((tmp : Text) → r ≡ ok tmp → read files tmp ≡ none)
            → Ending w o asset tag path files (in_temp w o asset tag path out files r)
        go (err e) n = inl (record { failed = (_, refl); kept = λ q g k. k; cleaned = λ _ q. refl })
        go (ok tmp) n =
            let files0 = write files tmp (temporary []) in
            let url = download_url o tag asset in
            let down = download_with_hash w url tmp files0 in
            let (frame, sums) = download-Downloaded url tmp files0 in
            swap-Ending w o asset tag path files down.1 tmp _ (verified w o tag asset down.0)
              (Frame-trans files files0 down.1 tmp (Frame-write files tmp (temporary [])) frame)
              (n tmp refl)
              (λ s h.
                let (sum, e, list) = verified-ok down.0 s h in
                let (c, present, same) = sums sum e in (c, present, list ∙ ap (λ x. ok x) same))

  -- An early error.
  Undone-early :
      (files : Files) (e : UpdateError) (out : Text)
      → Undone w files (record { result = err e; out = out; files = files })
  Undone-early files e out = record { failed = (e, refl); kept = λ q g k. k; cleaned = λ _ q. refl }

  module _ (o : UpdateOpts) (files : Files) (new : CreatesNew w) where
    install-Outcome :
        (asset tag path out : Text)
        → asset_name o.os o.arch ≡ ok asset
        → target_tag w o ≡ ok tag
        → binary_path w o ≡ ok path
        → Outcome w o files (install w o asset tag path out files)
    install-Outcome asset tag path out a t p =
        elim (install-Ending o asset tag path out files new) [
          | inl u ↦ inr (inl u)
          | inr r ↦ inr (
              inr (record {
                asset = asset;
                tag = tag;
                path = path;
                asset_eq = a;
                tag_eq = t;
                path_eq = p;
                replaced = r;
              }))
        ]

    with_path-Outcome :
        (asset tag out : Text) (p : Result UpdateError Text)
        → asset_name o.os o.arch ≡ ok asset
        → target_tag w o ≡ ok tag
        → binary_path w o ≡ p
        → Outcome w o files (with_path w o asset tag out files p)
    with_path-Outcome asset tag out (err e) a t p = inr (inl (Undone-early files e out))
    with_path-Outcome asset tag out (ok path) a t p =
        if_cases (Outcome w o files) o.yes (λ _. install-Outcome asset tag path _ a t p)
          (λ _.
            if_cases (Outcome w o files) (read_yes w.input)
              (λ _. install-Outcome asset tag path _ a t p)
              (λ _. inr (inl (Undone-early files _ _))))

    with_tag-Outcome :
        (asset : Text) (t : Result UpdateError Text)
        → asset_name o.os o.arch ≡ ok asset
        → target_tag w o ≡ t
        → Outcome w o files (with_tag w o asset files t)
    with_tag-Outcome asset (err e) a t = inr (inl (Undone-early files e []))
    with_tag-Outcome asset (ok tag) a t =
        if_cases (Outcome w o files) o.check_only (λ _. inl (record { ended = refl; same = refl }))
          (λ _.
            if_cases (Outcome w o files) (tag ≗ or_default o.current_version w.version)
              (λ _. inl (record { ended = refl; same = refl }))
              (λ _. with_path-Outcome asset tag _ (binary_path w o) a t refl))

    with_asset-Outcome :
        (a : Result UpdateError Text)
        → asset_name o.os o.arch ≡ a
        → Outcome w o files (with_asset w o files a)
    with_asset-Outcome (err e) a = inr (inl (Undone-early files e []))
    with_asset-Outcome (ok asset) a = with_tag-Outcome asset (target_tag w o) a refl

  -- Where a temporary file is always a new one, a run ends in one of three ways: in success with all
  -- files untouched; in an error with every file that there was untouched, and no other one left if the
  -- temporary file could be removed; or in success with an executable file in place of the binary whose
  -- checksum is the one that the release lists for the asset, every other path as it was.
  pub run_update-Outcome :
      (o : UpdateOpts) (files : Files)
      → CreatesNew w
      → Outcome w (with_defaults w o) files (run_update w o files)
  unfolding run_update
  run_update-Outcome o files new =
      let o' = with_defaults w o in with_asset-Outcome o' files new (asset_name o'.os o'.arch) refl
