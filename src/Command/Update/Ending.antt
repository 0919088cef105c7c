-- ===== src/Command/Update/Ending.antt =====
-- The two ways in which the swap of the binary ends: the files as they were, or the verified binary in
-- place.
use debeasy.Base.{Option, none, some, Result, ok, err, ◌≡◌, refl, sym, ap, ◌∙◌, ◌≢◌, ◌⊎◌, inl, inr}
use debeasy.Base.Text.{Text, codes}
use debeasy.Base.Files.{Files, File, read}
use debeasy.Command.Update.{UpdateOpts, Outside, UpdateError, download_url, fetch_checksum}
use debeasy.Command.Update.Swap.{
  Run, temporary, set_mode, move, removed, discard, swap, renamed, made_executable,
}
use debeasy.Command.Update.Frames.{
  Frame, Frame-trans, Frame-set_mode, read-set_mode, read-move, move_from, move_other, same_or,
  erased,
}

-- An error, and every file as it was; if the temporary file could be removed, there is no other either.
pub record Undone (w : Outside) (files : Files) (run : Run) : Type 0 where
  pub failed : (e : UpdateError) × (run.result ≡ err e)
  pub kept : (q : Text) (g : File) → read files q ≡ some g → read run.files q ≡ some g
  pub cleaned : w.remove_fault ≡ none → (q : Text) → read run.files q ≡ read files q

-- Success, with an executable file at the path whose content has the asset's checksum in the
-- release's list, and every other file as it was.
pub record Replaced (w : Outside) (o : UpdateOpts) (asset tag path : Text) (files : Files)
    (run : Run) : Type 0 where
  pub done : run.result ≡ ok tt
  pub binary : File
  pub in_place : read run.files path ≡ some binary
  pub executable_mode : binary.mode ≡ 493
  pub authentic :
      fetch_checksum w (download_url o tag (codes "checksums.txt")) asset
      ≡ ok (w.sha256_hex binary.content)
  pub others : (q : Text) → q ≢ path → read run.files q ≡ read files q

-- `os.CreateTemp` opens with O_EXCL.
abbrev pub CreatesNew : Outside → Type 0
CreatesNew w =
    (files : Files) (d tmp : Text) → w.create_temp files d ≡ ok tmp → read files tmp ≡ none

some_elsewhere :
    (files : Files) (q tmp : Text) (g : File)
    → read files tmp ≡ none
    → read files q ≡ some g
    → q ≢ tmp
some_elsewhere files q tmp g n h e = differ (sym n ∙ ap (read files) (sym e) ∙ h)
  where
    differ : none ≡ some g → ⊥
    differ k = cc

module _ (w : Outside) where
  Undone-fail :
      (files files' : Files) (tmp out : Text) (e : UpdateError)
      → Frame files files' tmp
      → read files tmp ≡ none
      → Undone w files (record { result = err e; out = out; files = discard w tmp files' })
  Undone-fail files files' tmp out e h n = record {
    failed = (e, refl);
    kept = λ q g k. kept_by w.remove_fault q g k;
    cleaned = λ none_fault q. rw none_fault (erased files files' tmp h n q);
  }
    where
      kept_by :
          (o : Option Text) (q : Text) (g : File)
          → read files q ≡ some g
          → read (removed tmp files' o) q ≡ some g
      kept_by none q g k = erased files files' tmp h n q ∙ k
      kept_by (some e) q g k = h q (some_elsewhere files q tmp g n k) ∙ k

  module _ (o : UpdateOpts) (asset tag path : Text) where
    -- The download in the temporary file has the checksum of the list.
    abbrev pub Authentic : Files → Text → Result UpdateError Text → Type 0
    Authentic files' tmp res =
        (sum : Text)
        → res ≡ ok sum
        → (c : Text) × (read files' tmp ≡ some (temporary c))
          × (fetch_checksum w (download_url o tag (codes "checksums.txt")) asset
              ≡ ok (w.sha256_hex c))

    abbrev pub Ending : Files → Run → Type 0
    Ending files run = Undone w files run ⊎ Replaced w o asset tag path files run

    Replaced-finish :
        (files files' : Files) (tmp : Text) (run : Run) (c : Text)
        → Frame files files' tmp
        → read files tmp ≡ none
        → read files' tmp ≡ some (temporary c)
        → fetch_checksum w (download_url o tag (codes "checksums.txt")) asset ≡ ok (w.sha256_hex c)
        → run.result ≡ ok tt
        → run.files ≡ move (set_mode files' tmp 493) tmp path
        → Replaced w o asset tag path files run
    Replaced-finish files files' tmp run c h n k sum r e =
        let f : File = record { content = c; mode = 493 } in
        let set = read-set_mode files' tmp 493 (temporary c) k in
        record {
          done = r;
          binary = f;
          in_place = rw e (read-move (set_mode files' tmp 493) tmp path f set);
          executable_mode = refl;
          authentic = sum;
          others = λ q m. rw e (other q m (same_or q tmp) set);
        }
      where
        other :
            (q : Text)
            → q ≢ path
            → (q ≡ tmp) ⊎ (q ≢ tmp)
            → read (set_mode files' tmp 493) tmp ≡ some (record { content = c; mode = 493 })
            → read (move (set_mode files' tmp 493) tmp path) q ≡ read files q
        other q m (inl i) set = rw i (
            move_from (set_mode files' tmp 493) tmp path (record { content = c; mode = 493 })
              (λ j. m (i ∙ j)) set
            ∙ sym n)
        other q m (inr i) set =
            move_other (set_mode files' tmp 493) tmp path q (record { content = c; mode = 493 }) i m
              set
            ∙ Frame-set_mode files' tmp 493 q i
            ∙ h q i

    renamed-Ending :
        (files files' : Files) (tmp out c : Text) (fault : Option Text)
        → Frame files files' tmp
        → read files tmp ≡ none
        → read files' tmp ≡ some (temporary c)
        → fetch_checksum w (download_url o tag (codes "checksums.txt")) asset ≡ ok (w.sha256_hex c)
        → Ending files (renamed w o path tmp out (set_mode files' tmp 493) fault)
    renamed-Ending files files' tmp out c (some e) h n k sum =
        let files'' = set_mode files' tmp 493 in
        inl (
          Undone-fail files files'' tmp out _
            (Frame-trans files files' files'' tmp h (Frame-set_mode files' tmp 493)) n)
    renamed-Ending files files' tmp out c none h n k sum =
        inr (Replaced-finish files files' tmp _ c h n k sum refl refl)

    pub swap-Ending :
        (files files' : Files) (tmp out : Text) (res : Result UpdateError Text)
        → Frame files files' tmp
        → read files tmp ≡ none
        → Authentic files' tmp res
        → Ending files (swap w o path tmp out files' res)
    unfolding swap
    swap-Ending files files' tmp out (err e) h n a = inl (Undone-fail files files' tmp out e h n)
    swap-Ending files files' tmp out (ok sum) h n a = go w.chmod_fault _
      where
        go :
            (fault : Option Text) (out : Text)
            → Ending files (made_executable w o path tmp out files' fault)
        go (some e) out = inl (Undone-fail files files' tmp out _ h n)
        go none out =
            let (c, k, list) = a sum refl in
            renamed-Ending files files' tmp out c w.rename_fault h n k list
