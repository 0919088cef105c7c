-- ===== src/Command/Update/Frames.antt =====
-- What the steps of `debeasy update` on its temporary file leave alone.
use debeasy.Base.{
  ℕ, Bool, true, false, Option, none, some, ◌≡◌, refl, sym, ◌∙◌, ◌≢◌, ◌⊎◌, inl, inr, Bool-cases,
}
use debeasy.Base.Text.{Text, ◌≗◌}
use debeasy.Base.Text.Laws.{≗_iff}
use debeasy.Base.Files.{
  Files, File, read, write, erase, read-erase, read-erase_other, read-write, read-write_other,
}
use debeasy.Command.Update.Swap.{mode_set, set_mode, move}

-- The other paths read as before.
abbrev pub Frame : Files → Files → Text → Type 0
Frame files files' path = (q : Text) → q ≢ path → read files' q ≡ read files q

pub Frame-write : (files : Files) (path : Text) (f : File) → Frame files (write files path f) path
Frame-write files path f q h = read-write_other files path q f h

pub Frame-trans : (a b c : Files) (path : Text) → Frame a b path → Frame b c path → Frame a c path
Frame-trans a b c path h k q e = k q e ∙ h q e

pub Frame-set_mode :
    (files : Files) (path : Text) (mode : ℕ) → Frame files (set_mode files path mode) path
Frame-set_mode files path mode q h = go (read files path)
  where
    go : (o : Option File) → read (mode_set files path mode o) q ≡ read files q
    go none = refl
    go (some f) = read-write_other files path q (record f { mode = mode }) h

pub read-set_mode :
    (files : Files) (path : Text) (mode : ℕ) (f : File)
    → read files path ≡ some f
    → read (set_mode files path mode) path ≡ some (record f { mode = mode })
read-set_mode files path mode f h =
    rw (set_mode, h) (read-write files path (record f { mode = mode }))

pub read-move :
    (files : Files) (from to : Text) (f : File)
    → read files from ≡ some f
    → read (move files from to) to ≡ some f
read-move files from to f h = rw (move, h) (read-write (erase files from) to f)

pub move_from :
    (files : Files) (from to : Text) (f : File)
    → from ≢ to
    → read files from ≡ some f
    → read (move files from to) from ≡ none
move_from files from to f n h =
    rw (move, h) (read-write_other (erase files from) to from f n ∙ read-erase files from)

pub move_other :
    (files : Files) (from to q : Text) (f : File)
    → q ≢ from
    → q ≢ to
    → read files from ≡ some f
    → read (move files from to) q ≡ read files q
move_other files from to q f n m h =
    rw (move, h) (read-write_other (erase files from) to q f m ∙ read-erase_other files from q n)

-- Either path, by the test.
pub same_or : (p q : Text) → (p ≡ q) ⊎ (p ≢ q)
same_or p q = elim (Bool-cases (p ≗ q)) [
  | inl e ↦ inl ((≗_iff p q).0 e)
  | inr e ↦ inr (λ k. differ e ((≗_iff p q).1 k))
]
  where
    differ : {b : Bool} → b ≡ false → b ≡ true → ⊥
    differ e k = cc

pub erased :
    (files files' : Files) (tmp : Text)
    → Frame files files' tmp
    → read files tmp ≡ none
    → (q : Text) → read (erase files' tmp) q ≡ read files q
erased files files' tmp h n q = elim (same_or q tmp) [
  | inl e ↦ rw e (read-erase files' tmp ∙ sym n)
  | inr k ↦ read-erase_other files' tmp q k ∙ h q k
]
