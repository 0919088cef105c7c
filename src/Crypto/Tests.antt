-- ===== src/Crypto/Tests.antt =====
-- The theorem on sealing, and a cipher to apply theorems to.
use debeasy.Base.{◌≡◌, refl, some, arith}
use debeasy.Base.Text.{codes}
use debeasy.Crypto.{Aead, keyring_seal, keyring_open, keyring_open-seal}

-- A cipher with nonces of one byte that hides nothing.
abbrev pub plain_cipher : Aead
plain_cipher = record {
  nonce_size = 1;
  has_nonce = omega arith;
  seal = λ nonce plaintext. plaintext;
  open_sealed = λ nonce sealed. some sealed;
  opens = λ nonce plaintext. refl;
}

keyring_open-seal_example : keyring_open plain_cipher (codes "!secret") ≡ some (codes "secret")
unfolding keyring_seal
keyring_open-seal_example =
    keyring_open-seal plain_cipher (codes "secret") (codes "!") (codes "!secret") refl refl
