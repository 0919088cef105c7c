-- ===== src/Config/Tests.antt =====
-- The secret at a concrete key.
use debeasy.Base.{ℕ, zero, suc, arith, ◌≡◌, refl, none, List, [], ◌∷◌, Result, ok, All}
use debeasy.Base.Text.{Text, codes}
use debeasy.Base.Files.{Files, read, erase}
use debeasy.Base.Hex.{IsByte, hex_encode}
use debeasy.Config.{Disk, put_file, load_or_create_secret}
use debeasy.Config.Secret.{IsKey, Kept, load_or_create_secret-Kept}

-- Thirty-two times the byte 7.
abbrev sevens : ℕ → List ℕ
sevens zero = []
sevens (suc n) = 7 ∷ sevens n

sevens_bytes : (n : ℕ) → All IsByte (sevens n)
sevens_bytes zero = tt
sevens_bytes (suc n) = (omega arith, sevens_bytes n)

abbrev key : List ℕ
key = sevens 32

abbrev sound_disk : Disk
sound_disk = record { mkdir_fault = none; read_fault = none; write_fault = none }

abbrev secret_path : Text
secret_path = codes "secret"

abbrev after : Files
after = put_file [] secret_path (hex_encode key)

key-IsKey : (k : List ℕ) → ◌≡◌ {A = Result Text (List ℕ)} (ok key) (ok k) → IsKey k
key-IsKey k h = let same : key ≡ k = cc in rw (← same) (refl, sevens_bytes 32)

load_or_create_secret-Kept_example : Kept secret_path key after
unfolding load_or_create_secret read erase hex_encode
load_or_create_secret-Kept_example =
    load_or_create_secret-Kept sound_disk [] after secret_path key (ok key) key-IsKey refl
