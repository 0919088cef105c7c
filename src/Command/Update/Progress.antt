-- ===== src/Command/Update/Progress.antt =====
-- An update that nothing prevents is carried out.
use debeasy.Base.{
  true, false, none, some, Result, ok, ◌≡◌, refl, ◌⊎◌, [], ◌∷◌, ◌++◌, inl, inr, if_cases, at, if_no,
  if_yes,
}
use debeasy.Base.Text.{Text, codes, ◌≗◌}
use debeasy.Base.Text.Laws.{≗_refl}
use debeasy.Base.Files.{Files, read, write, read-write}
use debeasy.Command.Checksum.{FetchError, read_yes}
use debeasy.Command.Update.{
  UpdateOpts, Reply, Outside, refused, or_default, asset_name, download_url, with_defaults,
  fetch_checksum, target_tag, binary_path,
}
use debeasy.Command.Update.Swap.{
  Run, temporary, set_mode, download_with_hash, copy_body, download_reply, verified, swap, renamed,
  made_executable, in_temp, install, confirm, with_path, with_tag, with_asset, run_update,
}
use debeasy.Command.Update.Frames.{read-set_mode, read-move}

-- The user agrees, the release exists and differs from the installed version, the server delivers it
-- whole, the disk takes it, and the list has its checksum.
pub record Undisturbed (w : Outside) (o : UpdateOpts) (files : Files) : Type 0 where
  pub asset : Text
  pub tag : Text
  pub path : Text
  pub tmp : Text
  pub reply : Reply
  pub wanted : o.check_only ≡ false
  pub agreed : (o.yes ≡ true) ⊎ (read_yes w.input ≡ true)
  pub asset_eq : asset_name o.os o.arch ≡ ok asset
  pub tag_eq : target_tag w o ≡ ok tag
  pub path_eq : binary_path w o ≡ ok path
  pub differs : (tag ≗ or_default o.current_version w.version) ≡ false
  pub tmp_eq : w.create_temp files (w.dir path) ≡ ok tmp
  pub reply_eq : w.get (download_url o tag asset) ≡ ok reply
  pub accepted : refused reply ≡ false
  pub whole : reply.broken ≡ none
  pub listed :
      fetch_checksum w (download_url o tag (codes "checksums.txt")) asset
      ≡ ok (w.sha256_hex reply.body)
  pub writes : w.write_fault ≡ none
  pub syncs : w.sync_fault ≡ none
  pub closes : w.close_fault ≡ none
  pub chmods : w.chmod_fault ≡ none
  pub renames : w.rename_fault ≡ none

abbrev pub Installed : Text → Text → Run → Type 0
Installed path content run =
    (run.result ≡ ok tt) × (read run.files path ≡ some (record { content = content; mode = 493 }))

module _ (w : Outside) (o : UpdateOpts) (files : Files) (u : Undisturbed w o files) where
  abbrev Goal : Run → Type 0
  Goal = Installed u.path u.reply.body

  abbrev arrived : Files
  arrived = write (write files u.tmp (temporary [])) u.tmp (temporary u.reply.body)

  swapped : (out : Text) → Goal (swap w o u.path u.tmp out arrived (ok (w.sha256_hex u.reply.body)))
  unfolding swap
  swapped out =
      let c = temporary u.reply.body in
      let exec = set_mode arrived u.tmp 493 in
      let set =
        read-set_mode arrived u.tmp 493 c (read-write (write files u.tmp (temporary [])) u.tmp c) in
      at Goal (made_executable w o u.path u.tmp _ arrived) u.chmods (
        at Goal (renamed w o u.path u.tmp _ exec) u.renames
          (refl, read-move exec u.tmp u.path (record c { mode = 493 }) set))

  downloaded :
      download_with_hash w (download_url o u.tag u.asset) u.tmp (write files u.tmp (temporary []))
      ≡ (ok (w.sha256_hex u.reply.body), arrived)
  unfolding download_with_hash
  downloaded =
      let url = download_url o u.tag u.asset in
      let files0 = write files u.tmp (temporary []) in
      let Is : Result FetchError Text × Files → Type 0 =
        λ d. d ≡ (ok (w.sha256_hex u.reply.body), arrived) in
      at Is (download_reply w url u.tmp files0) u.reply_eq (
        if_no Is _ u.accepted (
          at Is (λ fault. copy_body w u.tmp files0 u.reply.body fault u.reply.broken) u.writes
            (at Is (copy_body w u.tmp files0 u.reply.body none) u.whole refl)))

  passed :
      verified w o u.tag u.asset (ok (w.sha256_hex u.reply.body)) ≡ ok (w.sha256_hex u.reply.body)
  passed = simp (u.syncs, u.closes, u.listed, ≗_refl (w.sha256_hex u.reply.body)) refl

  installed : (out : Text) → Goal (install w o u.asset u.tag u.path out files)
  unfolding install
  installed out =
      let said = out ++ (codes "downloading " ++ (download_url o u.tag u.asset ++ (10 ∷ []))) in
      at Goal (in_temp w o u.asset u.tag u.path out files) u.tmp_eq (
        at Goal (λ d. swap w o u.path u.tmp said d.1 (verified w o u.tag u.asset d.0)) downloaded
          (at Goal (swap w o u.path u.tmp _ arrived) passed (swapped _)))

  confirmed : (out : Text) → Goal (confirm w o u.asset u.tag u.path out files)
  confirmed out = elim (u.agreed) [
    | inl e ↦ if_yes Goal _ e (installed _)
    | inr e ↦ if_cases Goal o.yes (λ _. installed _) (λ _. if_yes Goal _ e (installed _))
  ]

  updated : Goal (with_asset w o files (asset_name o.os o.arch))
  updated = at Goal (with_asset w o files) u.asset_eq (
      at Goal (with_tag w o u.asset files) u.tag_eq (
        if_no Goal _ u.wanted (
          if_no Goal _ u.differs
            (at Goal (with_path w o u.asset u.tag _ files) u.path_eq (confirmed _)))))

-- Where nothing prevents the update, it succeeds, and the binary's path has the release's bytes as an
-- executable file, whatever the restart of the service says.
pub run_update-Installed :
    (w : Outside) (o : UpdateOpts) (files : Files) (u : Undisturbed w (with_defaults w o) files)
    → Installed u.path u.reply.body (run_update w o files)
unfolding run_update
run_update-Installed w o files u = updated w (with_defaults w o) files u
