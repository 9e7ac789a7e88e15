-- ===== src/Server/Keys.antt =====
-- The server's keys (crypto.rs): a user's data key is sealed twice, under the recovery key and under
-- the server's master key.
use zca_desktop.Common.{
  ℕ, ◌≡◌, String, none, some, length, if◌then◌else◌, eqb, Result, ok, err, ◌>>=◌, arith, not, Bool,
  inl, inr, Option-cases,
}
use zca_desktop.Server.{AppError, crypto, Bytes, Library}

abbrev pub key_len : ℕ
key_len = 32

abbrev pub nonce_len : ℕ
nonce_len = 12

-- What AES-GCM promises: the same key and nonce open what they sealed.
abbrev pub Opens : Library → Type 0
Opens lib =
    (key nonce text sealed : Bytes)
    → lib.gcm_encrypt key nonce text ≡ some sealed
    → lib.gcm_decrypt key nonce sealed ≡ some text

module _ (lib : Library) where
  unfoldable pub token_hash : String → String
  token_hash token = lib.sha256_hex token

  unfoldable pub hash_recovery_key : String → String → Result AppError String
  hash_recovery_key recovery_key salt = elim (lib.hash_password recovery_key salt) [
    | none ↦ err crypto
    | some h ↦ ok h
  ]

  unfoldable pub verify_recovery_key : String → String → Bool
  verify_recovery_key hash recovery_key = lib.verify_password hash recovery_key

  unfoldable pub derive_recovery_key : String → Bytes
  derive_recovery_key recovery_key = lib.hkdf recovery_key "zca-cloud:recovery-key-wrap:v1"

  unfoldable pub derive_server_key : String → Bytes
  derive_server_key seed = lib.hkdf seed "zca-cloud:server-key-wrap:v1"

  -- The nonce and the ciphertext.
  unfoldable pub seal : Bytes → Bytes → Bytes → Result AppError (Bytes × Bytes)
  seal key nonce plaintext = elim (lib.gcm_encrypt key nonce plaintext) [
    | none ↦ err crypto
    | some ciphertext ↦ ok (nonce, ciphertext)
  ]

  unfoldable pub open_sealed : Bytes → Bytes → Bytes → Result AppError Bytes
  open_sealed key nonce ciphertext =
      if not (eqb (length nonce) nonce_len)
      then err crypto
      else elim (lib.gcm_decrypt key nonce ciphertext) [ none ↦ err crypto | some text ↦ ok text ]

  unfoldable pub wrap_data_key : String → Bytes → Bytes → Result AppError (Bytes × Bytes)
  wrap_data_key recovery_key nonce data_key = seal (derive_recovery_key recovery_key) nonce data_key

  unfoldable pub wrap_data_key_for_server : String → Bytes → Bytes → Result AppError (Bytes × Bytes)
  wrap_data_key_for_server seed nonce data_key = seal (derive_server_key seed) nonce data_key

  -- `try_into` of a slice to an array of 32 bytes
  abbrev pub exact_key : Bytes → Result AppError Bytes
  exact_key text = if eqb (length text) key_len then ok text else err crypto

  unfoldable pub unwrap_data_key : String → Bytes → Bytes → Result AppError Bytes
  unwrap_data_key recovery_key nonce wrapped =
      open_sealed (derive_recovery_key recovery_key) nonce wrapped >>= exact_key

  unfoldable pub unwrap_data_key_for_server : String → Bytes → Bytes → Result AppError Bytes
  unwrap_data_key_for_server seed nonce wrapped =
      open_sealed (derive_server_key seed) nonce wrapped >>= exact_key

  pub open_sealed-seal :
      (key nonce text : Bytes) {n c : Bytes}
      → Opens lib
      → length nonce ≡ nonce_len
      → seal key nonce text ≡ ok (n, c)
      → open_sealed key n c ≡ ok text
  unfolding seal open_sealed
  open_sealed-seal key nonce text {n} {c} opens hn h =
      elim (Option-cases (lib.gcm_encrypt key nonce text)) [
        | inl fails ↦ absurd (cc (rw (fails, seal) at h))
        | inr (sealed, e) ↦ ground (arith, e, opens key nonce text sealed e)
      ]

  -- A data key of 32 bytes that was wrapped under a recovery key unwraps with that recovery key.
  pub unwrap-wrap :
      (recovery_key : String) (nonce data_key : Bytes) {n c : Bytes}
      → Opens lib
      → length nonce ≡ nonce_len
      → length data_key ≡ key_len
      → wrap_data_key recovery_key nonce data_key ≡ ok (n, c)
      → unwrap_data_key recovery_key n c ≡ ok data_key
  unfolding wrap_data_key unwrap_data_key
  unwrap-wrap recovery_key nonce data_key opens hn hk h =
      rw (open_sealed-seal (derive_recovery_key recovery_key) nonce data_key opens hn h)
        (ground arith)

  -- The same under the server's master key.
  pub unwrap-wrap_for_server :
      (seed : String) (nonce data_key : Bytes) {n c : Bytes}
      → Opens lib
      → length nonce ≡ nonce_len
      → length data_key ≡ key_len
      → wrap_data_key_for_server seed nonce data_key ≡ ok (n, c)
      → unwrap_data_key_for_server seed n c ≡ ok data_key
  unfolding wrap_data_key_for_server unwrap_data_key_for_server
  unwrap-wrap_for_server seed nonce data_key opens hn hk h =
      rw (open_sealed-seal (derive_server_key seed) nonce data_key opens hn h) (ground arith)
