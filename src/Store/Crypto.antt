-- ===== src/Store/Crypto.antt =====
-- Credentials at rest (store/crypto.rs): the master key in the OS keychain, and blobs of a nonce and
-- a ciphertext. Bytes are numbers. The cipher, the JSON codec and the keychain are not this
-- program's: they are arguments. Random bytes (a new key, a nonce) are inputs.
use zca_desktop.Common.{
  split_prefix, ℕ, ◌≡◌, ap, Bool, true, false, Option, none, some, List, ◌++◌, if◌then◌else◌, ltb,
  eqb, length, take, drop, Result, ok, err, ◌>>=◌, Result-cases, Option-cases, inl, inr, arith,
  ok-injective, length-append,
}

abbrev pub Bytes : Type 0
Bytes = List ℕ

abbrev pub key_len : ℕ
key_len = 32

abbrev pub nonce_len : ℕ
nonce_len = 12

pub data CryptoError : Type 0 where
  keychain bad_key encrypt decrypt serde : CryptoError

-- AES-256-GCM by key, nonce and text, and the JSON of the credentials.
pub record Primitives (C : Type 0) : Type 0 where
  pub gcm_encrypt : Bytes → Bytes → Bytes → Option Bytes
  pub gcm_decrypt : Bytes → Bytes → Bytes → Option Bytes
  pub to_vec : C → Option Bytes
  pub from_slice : Bytes → Option C

-- What the libraries promise: the same key and nonce open what they sealed, and JSON is read back.
pub record IsRoundTrip {C : Type 0} (p : Primitives C) : Type 0 where
  pub opens :
      (key nonce text sealed : Bytes)
      → p.gcm_encrypt key nonce text ≡ some sealed
      → p.gcm_decrypt key nonce sealed ≡ some text
  pub reads_back : (c : C) (json : Bytes) → p.to_vec c ≡ some json → p.from_slice json ≡ some c

-- The keychain's entry. An entry that cannot be reached fails, and one may refuse to be written.
pub data Entry : Type 0 where
  no_entry : (writable : Bool) → Entry
  secret : Bytes → Entry
  unreachable : Entry

unfoldable pub master_key : Entry → Bytes → Result CryptoError Bytes × Entry
master_key (secret bytes) fresh =
    (if eqb (length bytes) key_len then ok bytes else err bad_key, secret bytes)
master_key (no_entry true) fresh = (ok fresh, secret fresh)
master_key (no_entry false) fresh = (err keychain, no_entry false)
master_key unreachable fresh = (err keychain, unreachable)

module _ {C : Type 0} (p : Primitives C) where
  unfoldable pub seal : Bytes → Bytes → Bytes → Result CryptoError Bytes
  seal key nonce plaintext = elim (p.gcm_encrypt key nonce plaintext) [
    | none ↦ err encrypt
    | some ciphertext ↦ ok (nonce ++ ciphertext)
  ]

  unfoldable pub unseal : Bytes → Bytes → Result CryptoError Bytes
  unseal key blob =
      if ltb (length blob) nonce_len
      then err decrypt
      else elim (p.gcm_decrypt key (take nonce_len blob) (drop nonce_len blob)) [
        | none ↦ err decrypt
        | some plaintext ↦ ok plaintext
      ]

  abbrev pub or_serde {ℓ} : {A : Type ℓ} → Option A → Result CryptoError A
  or_serde none = err serde
  or_serde (some a) = ok a

  unfoldable pub encrypt_credentials : Entry → Bytes → Bytes → C → Result CryptoError Bytes × Entry
  encrypt_credentials entry fresh nonce credentials =
      let (found, entry') = master_key entry fresh in
      (
        (do key ← found; plaintext ← or_serde (p.to_vec credentials); seal key nonce plaintext),
        entry',
      )

  unfoldable pub decrypt_credentials : Entry → Bytes → Bytes → Result CryptoError C × Entry
  decrypt_credentials entry fresh blob =
      let (found, entry') = master_key entry fresh in
      ((do key ← found; plaintext ← unseal key blob; or_serde (p.from_slice plaintext)), entry')

module _ {C : Type 0} (p : Primitives C) (rt : IsRoundTrip p) where
  -- What `seal` writes under a nonce of twelve bytes, `open` reads back with the same key, for a
  -- cipher that opens what it sealed.
  pub unseal-seal :
      (key nonce plaintext : Bytes) {blob : Bytes}
      → length nonce ≡ nonce_len
      → seal p key nonce plaintext ≡ ok blob
      → unseal p key blob ≡ ok plaintext
  unfolding seal unseal
  unseal-seal key nonce plaintext h sealed =
      elim (Option-cases (p.gcm_encrypt key nonce plaintext)) [
        | inl fails ↦ absurd (cc (rw (fails, seal) at sealed))
        | inr (ciphertext, e) ↦
            let blob_eq = ok-injective (rw (e, seal) at sealed) in
            let parts = split_prefix nonce_len nonce ciphertext h in
            rw (← blob_eq) (
              ground (
                arith,
                length-append nonce ciphertext,
                parts.0,
                parts.1,
                rt.opens key nonce plaintext ciphertext e,
              ))
      ]

  pub master_key-again :
      (entry : Entry) (fresh other key : Bytes) {entry' : Entry}
      → length fresh ≡ key_len
      → master_key entry fresh ≡ (ok key, entry')
      → master_key entry' other ≡ (ok key, entry')
  unfolding master_key
  master_key-again (secret bytes) fresh other key h e = ground arith
  master_key-again (no_entry true) fresh other key h e = ground arith
  master_key-again (no_entry false) fresh other key h e = cc
  master_key-again unreachable fresh other key h e = cc

  -- Credentials that were encrypted decrypt to themselves with the keychain as the encryption left
  -- it, also when that was the first use and made the key, whatever random bytes come later. (The
  -- cipher and the JSON codec read back what they wrote; a new key has thirty-two bytes and a
  -- nonce twelve.)
  pub decrypt-encrypt :
      (entry entry' : Entry) (fresh other nonce : Bytes) (c : C) {blob : Bytes}
      → length fresh ≡ key_len
      → length nonce ≡ nonce_len
      → encrypt_credentials p entry fresh nonce c ≡ (ok blob, entry')
      → decrypt_credentials p entry' other blob ≡ (ok c, entry')
  unfolding encrypt_credentials decrypt_credentials
  decrypt-encrypt entry entry' fresh other nonce c {blob} hf hn e =
      elim (Result-cases (master_key entry fresh).0) [
        | inr (bad, eb) ↦ absurd (cc (rw eb at (ap (λ r. r.0) e)))
        | inl (key, ek) ↦ elim (Option-cases (p.to_vec c)) [
          | inl fails ↦ absurd (cc (rw (ek, fails) at (ap (λ r. r.0) e)))
          | inr (json, ej) ↦
              let sealed : seal p key nonce json ≡ ok blob = rw (ek, ej) at (ap (λ r. r.0) e) in
              let again =
                master_key-again entry fresh other key {entry' = entry'} hf
                  (ground (arith, ek, e)) in
              ground (arith, again, unseal-seal key nonce json hn sealed, rt.reads_back c json ej)
        ]
      ]

  -- A successful encryption leaves a keychain that later uses read and do not change.
  pub encrypt-keeps :
      (entry entry' : Entry) (fresh other nonce : Bytes) (c : C) {blob : Bytes}
      → length fresh ≡ key_len
      → encrypt_credentials p entry fresh nonce c ≡ (ok blob, entry')
      → (master_key entry' other).1 ≡ entry'
  unfolding encrypt_credentials
  encrypt-keeps entry entry' fresh other nonce c {blob} hf e =
      elim (Result-cases (master_key entry fresh).0) [
        | inr (bad, eb) ↦ absurd (cc (rw eb at (ap (λ r. r.0) e)))
        | inl (key, ek) ↦
            ap (λ r. r.1)
              (master_key-again entry fresh other key {entry' = entry'} hf (ground (arith, ek, e)))
      ]
