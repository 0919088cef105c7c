-- ===== src/Config/Secret.antt =====
-- What the secret of internal/config/config.go promises.
use debeasy.Base.{
  ℕ, ◌≡◌, refl, sym, ap, ◌∙◌, Option, none, some, List, [], Result, ok, err, length, All, at,
}
use debeasy.Base.Text.{Text}
use debeasy.Base.Files.{Files, File, read, read-write}
use debeasy.Base.Hex.{hex_encode, hex_decode, IsByte, hex_decode-hex_encode}
use debeasy.Config.{
  ConfigError, corrupt_secret, Disk, sized, mode_of, written, created, readable, unless_refused,
  from_file, load_or_create_secret,
}

-- The random source gives 32 bytes.
abbrev pub IsKey : List ℕ → Type 0
IsKey key = (length key ≡ 32) × All IsByte key

-- Each later start without the variable reads the key, and changes nothing.
abbrev pub Kept : Text → List ℕ → Files → Type 0
Kept path key files =
    (disk : Disk) (random : Result Text (List ℕ))
    → disk.read_fault ≡ none
    → load_or_create_secret disk [] files path random ≡ (ok key, files)

loaded_from :
    (files' : Files) (path : Text) (f : File) (key : List ℕ)
    → read files' path ≡ some f
    → sized (corrupt_secret path) (hex_decode f.content) ≡ ok key
    → Kept path key files'
unfolding load_or_create_secret
loaded_from files' path f key h k disk random up =
    let Is : Result ConfigError (List ℕ) × Files → Type 0 = λ q. q ≡ (ok key, files') in
    at Is (λ o. from_file disk files' path random (readable disk o)) h
      (at Is (λ o. from_file disk files' path random (unless_refused f.content o)) up
        (ap (λ r. (r, files')) k))

sized-key :
    (e : ConfigError) (key : List ℕ) → IsKey key → sized e (hex_decode (hex_encode key)) ≡ ok key
sized-key e key (n, bytes) = rw (hex_decode-hex_encode key bytes, n) refl

-- A secret that was just written.
written-Kept :
    (files files' : Files) (path : Text) (k key : List ℕ) (fault : Option (ℕ × Text))
    → IsKey k
    → written files path k fault ≡ (ok key, files')
    → Kept path key files'
written-Kept files files' path k key (some (n, e)) i h = cc
written-Kept files files' path k key none i h =
    let same : ok k ≡ ok key = ap (λ q. q.0) h in
    let f : File = record { content = hex_encode k; mode = mode_of (read files path) } in
    loaded_from files' path f key (ap (λ q. read q.1 path) (sym h) ∙ read-write files path f)
      (sized-key (corrupt_secret path) k i ∙ same)

created-Kept :
    (disk : Disk) (files files' : Files) (path : Text) (key : List ℕ)
    (random : Result Text (List ℕ))
    → ((k : List ℕ) → random ≡ ok k → IsKey k)
    → created disk files path random ≡ (ok key, files')
    → Kept path key files'
created-Kept disk files files' path key (err e) i h = cc
created-Kept disk files files' path key (ok k) i h =
    written-Kept files files' path k key disk.write_fault (i k refl) h

file-Kept :
    (disk : Disk) (files files' : Files) (path : Text) (key : List ℕ)
    (random : Result Text (List ℕ)) (o : Option File)
    → ((k : List ℕ) → random ≡ ok k → IsKey k)
    → read files path ≡ o
    → from_file disk files path random (readable disk o) ≡ (ok key, files')
    → Kept path key files'
file-Kept disk files files' path key random none i e h =
    created-Kept disk files files' path key random i h
file-Kept disk files files' path key random (some f) i e h = go disk.read_fault h
  where
    go :
        (fault : Option Text)
        → from_file disk files path random (unless_refused f.content fault) ≡ (ok key, files')
        → Kept path key files'
    go (some x) k = created-Kept disk files files' path key random i k
    go none k =
        loaded_from files' path f key (ap (λ q. read q.1 path) (sym k) ∙ e) (ap (λ q. q.0) k)

-- The secret that a start without the variable ends up with, read or created, is the one that every
-- later start reads, and no later start writes the file, as long as it can be read; the random source
-- gives 32 bytes.
pub load_or_create_secret-Kept :
    (disk : Disk) (files files' : Files) (path : Text) (key : List ℕ)
    (random : Result Text (List ℕ))
    → ((k : List ℕ) → random ≡ ok k → IsKey k)
    → load_or_create_secret disk [] files path random ≡ (ok key, files')
    → Kept path key files'
load_or_create_secret-Kept disk files files' path key random i h =
    file-Kept disk files files' path key random (read files path) i refl
      (unfold load_or_create_secret in h)
