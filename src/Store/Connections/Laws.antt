-- ===== src/Store/Connections/Laws.antt =====
-- What saved connections promise: internal/store/connections.go.

use debeasy.Base.{
  ℕ, ◌<◌, ◌≡◌, ◌≢◌, refl, sym, ap, ◌∙◌, false, [], ◌∷◌, ◌++◌, Option, none, some, Result, ok, err,
  arith, is_empty, length, if◌then◌else◌, All, Result-cases, inl, inr, ltb,
}
use debeasy.Base.Text.{Text, trim_space}
use debeasy.Crypto.{Aead, keyring_seal, keyring_open-seal}
use debeasy.Store.{Store, Error, crypto}
use debeasy.Store.Connections.{Connection, seal_password, open_password}

-- A nonce of the cipher's size was drawn, or none could be.
abbrev pub HasSize : Aead → Result Text Text → Type 0
HasSize aead (ok nonce) = length nonce ≡ aead.nonce_size
HasSize aead (err e) = Unit

sealed_ne_nil :
    (aead : Aead) (plaintext nonce sealed : Text)
    → length nonce ≡ aead.nonce_size
    → keyring_seal aead plaintext (ok nonce) ≡ ok sealed
    → is_empty sealed ≡ false
unfolding keyring_seal
sealed_ne_nil aead plaintext [] sealed size h =
    let pos = aead.has_nonce in absurd (omega (arith, pos, size))
sealed_ne_nil aead plaintext (n ∷ nonce) sealed size h =
    let shape : sealed ≡ n ∷ nonce ++ aead.seal (n ∷ nonce) plaintext = cc in rw shape refl

-- The password column, from the outcome of the sealing.
abbrev column : Result Text Text → Result Error (Option Text)
column (ok sealed) = ok (some sealed)
column (err e) = err (crypto e)

seal_password-cons :
    (aead : Aead) (c : ℕ) (p : Text) (nonce : Result Text Text)
    → seal_password (some aead) (c ∷ p) nonce ≡ column (keyring_seal aead (c ∷ p) nonce)
unfolding seal_password
seal_password-cons aead c p nonce = ground arith

-- A password that is sealed for the table is opened when the row is read.
pub open-seal_password :
    (aead : Aead) (password : Text) (nonce : Result Text Text) (enc : Option Text)
    → HasSize aead nonce
    → seal_password (some aead) password nonce ≡ ok enc
    → open_password (some aead) enc ≡ password
unfolding seal_password open_password
open-seal_password aead [] nonce none size h = refl
open-seal_password aead [] nonce (some e) size h = cc
open-seal_password aead (c ∷ p) (err e) enc size h = unfold keyring_seal in cc
open-seal_password aead (c ∷ p) (ok nonce) enc size h =
    elim (Result-cases (keyring_seal aead (c ∷ p) (ok nonce))) [
      | inr (e, g) ↦
          absurd
            (err-ne-ok (sym (ap column g) ∙ (sym (seal_password-cons aead c p (ok nonce)) ∙ h)))
      | inl (sealed, g) ↦
          let shape : enc ≡ some sealed =
            ok-injective (sym h ∙ (seal_password-cons aead c p (ok nonce) ∙ ap column g)) in
          rw
            (
              shape,
              sealed_ne_nil aead (c ∷ p) nonce sealed size g,
              keyring_open-seal aead (c ∷ p) nonce sealed size g,
            )
            refl
    ]
  where
    err-ne-ok : {e : Text} → ◌≢◌ {A = Result Error (Option Text)} (err (crypto e)) (ok enc)
    err-ne-ok h = cc

    ok-injective : {a b : Option Text} → ◌≡◌ {A = Result Error (Option Text)} (ok a) (ok b) → a ≡ b
    ok-injective h = cc

-- The ids in use are below the counter.
abbrev pub IsFresh : Store → Type 0
IsFresh s = All (λ r. r.id < s.next_connection) s.connections

abbrev creator : ℕ → Option ℕ
creator created_by = if ltb 0 created_by then some created_by else none

-- What a read of the new row gives back.
abbrev pub saved_as : Connection → ℕ → ℕ → Connection
saved_as c id created_by = record c {
  id = id;
  name = trim_space c.name;
  created_by = creator created_by;
}
