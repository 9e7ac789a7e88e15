-- ===== src/Store/Restore/Saved.antt =====
-- `load_accounts` after `save_account` (store/db.rs).
use zca_desktop.Common.{
  ◌≡◌, refl, ◌∙◌, ap, Option, none, some, String, ℤ, ==_refl, text_equality, Result, ok, err,
  ok-injective, length, arith,
}
use zca_desktop.Common.Table.{find, upsert, find-upsert, merged, find-key}
use zca_desktop.Types.{AccountId, AccountProfile}
use zca_desktop.Store.{Db, AccountRow, CredentialRow, account_key, credential_key}
use zca_desktop.Store.Crypto.{
  Bytes, Primitives, IsRoundTrip, Entry, CryptoError, master_key, encrypt_credentials,
  decrypt_credentials, key_len, nonce_len, decrypt-encrypt, encrypt-keeps,
}
use zca_desktop.Store.Accounts.{
  SavedAccount, new_account, merge_account, new_credential, merge_credential, store_account,
  save_account, saved_account, store_sealed, load_accounts,
}
use zca_desktop.Store.Restore.{saved_key, find-load_rows}

-- The profile and state of a saved account.
abbrev pub AccountIs : {C : Type 0} → SavedAccount C → AccountProfile → C → String → Type 0
AccountIs s profile credentials state =
    (s.profile ≡ profile) × (s.credentials ≡ credentials) × (s.state ≡ state)

store_sealed-ok :
    (db : Db) (profile : AccountProfile) (now : ℤ) (sealed : Result CryptoError Bytes) {db' : Db}
    → store_sealed db profile now sealed ≡ ok db'
    → (blob : Bytes) × (sealed ≡ ok blob) × (store_account db profile blob now ≡ db')
unfolding store_sealed
store_sealed-ok db profile now (ok blob) h = (blob, refl, ok-injective h)
store_sealed-ok db profile now (err e) h = absurd (cc h)

merged-blob :
    (account : AccountId) (blob : Bytes) (now : ℤ) (o : Option CredentialRow)
    → (merged
        (new_credential account blob now)
        (merge_credential (new_credential account blob now))
        o).enc_blob
      ≡ blob
unfolding new_credential merge_credential
merged-blob account blob now none = refl
merged-blob account blob now (some c) = refl

module _ {C : Type 0} (p : Primitives C) where
  merged-AccountIs :
      (profile : AccountProfile) (credentials : C) (now : ℤ) (o : Option AccountRow)
      → ((r : AccountRow) → o ≡ some r → r.account_id ≡ profile.account_id)
      → AccountIs
          (saved_account p
            (merged (new_account profile now) (merge_account (new_account profile now)) o)
            credentials)
          profile
          credentials
          "active"
  unfolding saved_account new_account merge_account
  merged-AccountIs profile credentials now none same = (refl, refl, refl)
  merged-AccountIs profile credentials now (some r) same = (rw (same r refl) refl, refl, refl)

  load-stored :
      (db : Db) (entry : Entry) (other : Bytes) (profile : AccountProfile) (blob : Bytes)
      (credentials : C) (now : ℤ)
      → (master_key entry other).1 ≡ entry
      → (decrypt_credentials p entry other blob).0 ≡ ok credentials
      → (s : SavedAccount C) × (find saved_key profile.account_id
            (load_accounts p (store_account db profile blob now) entry other).0
          ≡ some s)
        × AccountIs s profile credentials "active"
  unfolding load_accounts store_account
  load-stored db entry other profile blob credentials now stable opened =
      let a = profile.account_id in
      let account = new_account profile now in
      let credential = new_credential a blob now in
      let known = find account_key a db.accounts in
      let sealed = find credential_key a db.credentials in
      let stored : find account_key a
            (upsert account_key account (merge_account account) db.accounts)
          ≡ some (merged account (merge_account account) known) =
        unfold new_account merge_account in
        find-upsert account_key account (merge_account account) (λ x h. h) a db.accounts
        ∙ rw (==_refl a) refl in
      let kept : find credential_key a
            (upsert credential_key credential (merge_credential credential) db.credentials)
          ≡ some (merged credential (merge_credential credential) sealed) =
        unfold new_credential merge_credential in
        find-upsert credential_key credential (merge_credential credential) (λ x h. h) a
          db.credentials
        ∙ rw (==_refl a) refl in
      (
        saved_account p (merged account (merge_account account) known) credentials,
        find-load_rows p entry other
            (upsert credential_key credential (merge_credential credential) db.credentials)
            (upsert account_key account (merge_account account) db.accounts) a
            (merged account (merge_account account) known)
            (merged credential (merge_credential credential) sealed) credentials stable stored kept
            (rw (merged-blob a blob now sealed) opened),
        merged-AccountIs profile credentials now known
            (λ r h. find-key account_key a db.accounts h),
      )

module _ {C : Type 0} (p : Primitives C) (rt : IsRoundTrip p) where
  -- A login whose save succeeded is restored: with the keychain as the save left it, loading finds
  -- the account under its id, with the profile and credentials saved last, and active, whether the
  -- account was new, known, or had been marked as needing a new login. (The cipher and the JSON
  -- codec read back what they wrote; a new key has thirty-two bytes and a nonce twelve.)
  pub load-save :
      (db db' : Db) (entry entry' : Entry) (fresh other nonce : Bytes) (profile : AccountProfile)
      (credentials : C) (now : ℤ)
      → length fresh ≡ key_len
      → length nonce ≡ nonce_len
      → save_account p db entry fresh nonce profile credentials now ≡ (ok db', entry')
      → (s : SavedAccount C) × (find saved_key profile.account_id
            (load_accounts p db' entry' other).0
          ≡ some s)
        × AccountIs s profile credentials "active"
  unfolding save_account
  load-save db db' entry entry' fresh other nonce profile credentials now hf hn saved =
      let (blob, sealed, stored) =
        store_sealed-ok db profile now (encrypt_credentials p entry fresh nonce credentials).0
          (ap (λ r. r.0) saved) in
      let encrypted : encrypt_credentials p entry fresh nonce credentials ≡ (ok blob, entry') =
        ground (arith, sealed, ap (λ r. r.1) saved) in
      rw (← stored) (
        load-stored p db entry' other profile blob credentials now
          (encrypt-keeps p rt entry entry' fresh other nonce credentials hf encrypted)
          (ap (λ r. r.0)
            (decrypt-encrypt p rt entry entry' fresh other nonce credentials hf hn encrypted)))
