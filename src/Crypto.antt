-- ===== src/Crypto.antt =====
-- internal/crypto/keyring.go: sealing of stored passwords. The AES-GCM cipher of the Go library is
-- the parameter `Aead`; the nonce that the system's random source gives is an argument, an error if
-- the source fails. The derivation of the key by SHA-256 is part of that parameter.
pub mod Tests
use debeasy.Base.{
  ℕ, ◌<◌, false, ◌≡◌, refl, ◌∙◌, List, [], ◌∷◌, ◌++◌, Option, none, some, Result, ok, err, ◌>>=◌,
  if◌then◌else◌, length, take, drop, ltb, arith, ap, length-append, Bool-cases, inl, inr, >>=-eq-ok,
}
use debeasy.Base.Text.{Text}

-- Authenticated encryption under nonces of a fixed, positive size: what was sealed under a nonce opens under that nonce.
pub record Aead : Type 0 where
  pub nonce_size : ℕ
  pub has_nonce : 0 < nonce_size
  pub seal : Text → Text → Text
  pub open_sealed : Text → Text → Option Text
  pub opens : (nonce plaintext : Text) → open_sealed nonce (seal nonce plaintext) ≡ some plaintext

module _ (aead : Aead) where
  open aead use {nonce_size}

  -- The nonce, of the cipher's size, and the sealed text behind it.
  unfoldable pub keyring_seal : Text → Result Text Text → Result Text Text
  keyring_seal plaintext random = do nonce ← random; ok (nonce ++ aead.seal nonce plaintext)

  unfoldable pub keyring_open : Text → Option Text
  keyring_open ciphertext =
      if ltb (length ciphertext) nonce_size
      then none
      else aead.open_sealed (take nonce_size ciphertext) (drop nonce_size ciphertext)

take-append : (xs ys : Text) → take (length xs) (xs ++ ys) ≡ xs
take-append [] ys = refl
take-append (x ∷ xs) ys = ap (λ l. x ∷ l) (take-append xs ys)

drop-append : (xs ys : Text) → drop (length xs) (xs ++ ys) ≡ ys
drop-append [] ys = refl
drop-append (x ∷ xs) ys = drop-append xs ys

-- What `Seal` makes of a text, with a nonce of the right size, `Open` turns back into the text.
pub keyring_open-seal :
    (aead : Aead) (plaintext nonce sealed : Text)
    → length nonce ≡ aead.nonce_size
    → keyring_seal aead plaintext (ok nonce) ≡ ok sealed
    → keyring_open aead sealed ≡ some plaintext
unfolding keyring_seal keyring_open
keyring_open-seal aead plaintext nonce sealed size made =
    let body = aead.seal nonce plaintext in
    let shape : sealed ≡ nonce ++ body = cc in
    rw (shape, ← size, long_enough nonce body, take-append nonce body, drop-append nonce body)
      (aead.opens nonce plaintext)
  where
    long_enough : (xs ys : Text) → ltb (length (xs ++ ys)) (length xs) ≡ false
    long_enough xs ys = ground (arith, length-append xs ys)
