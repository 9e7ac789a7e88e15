-- ===== src/Store/Accounts.antt =====
-- Saved accounts (store/db.rs): profiles with their encrypted credentials. The keychain's entry is
-- threaded through, since the first use makes the key.
use zca_desktop.Common.{
  String, Option, none, some, List, [], ◌∷◌, ℤ, text_equality, Result, ok, err,
}
use zca_desktop.Common.Table.{find, upsert, update, delete}
use zca_desktop.Types.{AccountId, AccountProfile}
use zca_desktop.Store.{
  Db, AccountRow, CredentialRow, StoreError, crypto, account_key, credential_key,
}
use zca_desktop.Store.Crypto.{
  Bytes, Primitives, Entry, CryptoError, encrypt_credentials, decrypt_credentials,
}

pub record SavedAccount (C : Type 0) : Type 0 where
  pub profile : AccountProfile
  pub credentials : C
  pub state : String

unfoldable pub new_account : AccountProfile → ℤ → AccountRow
new_account profile now = record {
  account_id = profile.account_id;
  display_name = profile.display_name;
  avatar = profile.avatar;
  state = "active";
  added_at = now;
  last_login_at = some now;
}

unfoldable pub merge_account : AccountRow → AccountRow → AccountRow
merge_account excluded r = record r {
  display_name = excluded.display_name;
  avatar = excluded.avatar;
  state = "active";
  last_login_at = excluded.last_login_at;
}

unfoldable pub new_credential : AccountId → Bytes → ℤ → CredentialRow
new_credential account blob now = record { account_id = account; enc_blob = blob; updated_at = now }

unfoldable pub merge_credential : CredentialRow → CredentialRow → CredentialRow
merge_credential excluded r = record r {
  enc_blob = excluded.enc_blob;
  updated_at = excluded.updated_at;
}

-- The two INSERTs of `save_account`.
unfoldable pub store_account : Db → AccountProfile → Bytes → ℤ → Db
store_account db profile blob now =
    let account = new_account profile now in
    let credential = new_credential profile.account_id blob now in
    record db {
      accounts = upsert account_key account (merge_account account) db.accounts;
      credentials = upsert credential_key credential (merge_credential credential) db.credentials;
    }

unfoldable pub mark_reauth : AccountRow → AccountRow
mark_reauth r = record r { state = "reauth-needed" }

unfoldable pub mark_reauth_needed : Db → AccountId → Db
mark_reauth_needed db account = record db {
  accounts = update account_key account mark_reauth db.accounts;
}

-- The credentials go with the account by ON DELETE CASCADE; foreign keys are switched on by `open`.
unfoldable pub delete_account : Db → AccountId → Db
delete_account db account = record db {
  accounts = delete account_key account db.accounts;
  credentials = delete credential_key account db.credentials;
}

-- `crypto::encrypt_credentials(credentials)?`, then the INSERTs.
unfoldable pub store_sealed :
    Db → AccountProfile → ℤ → Result CryptoError Bytes → Result StoreError Db
store_sealed db profile now (ok blob) = ok (store_account db profile blob now)
store_sealed db profile now (err e) = err crypto

module _ {C : Type 0} (p : Primitives C) where
  unfoldable pub save_account :
      Db → Entry → Bytes → Bytes → AccountProfile → C → ℤ → Result StoreError Db × Entry
  save_account db entry fresh nonce profile credentials now =
      let (sealed, entry') = encrypt_credentials p entry fresh nonce credentials in
      (store_sealed db profile now sealed, entry')

  unfoldable pub saved_account : AccountRow → C → SavedAccount C
  saved_account r credentials = record {
    profile = record {
      account_id = r.account_id;
      display_name = r.display_name;
      avatar = r.avatar;
    };
    credentials = credentials;
    state = r.state;
  }

  unfoldable pub opened_account : AccountRow → Result CryptoError C → Option (SavedAccount C)
  opened_account r (ok creds) = some (saved_account r creds)
  opened_account r (err e) = none

  -- One row of the JOIN: an account with no ciphertext, or with one that does not decrypt, is skipped.
  unfoldable pub load_one :
      Entry → Bytes → AccountRow → Option CredentialRow → Option (SavedAccount C) × Entry
  load_one entry fresh r none = (none, entry)
  load_one entry fresh r (some c) =
      let (opened, entry') = decrypt_credentials p entry fresh c.enc_blob in
      (opened_account r opened, entry')

  abbrev pub push : Option (SavedAccount C) → List (SavedAccount C) → List (SavedAccount C)
  push none out = out
  push (some s) out = s ∷ out

  unfoldable pub load_rows :
      Entry → Bytes → List CredentialRow → List AccountRow → List (SavedAccount C) × Entry
  load_rows entry fresh credentials [] = ([], entry)
  load_rows entry fresh credentials (r ∷ rows) =
      let (one, entry') = load_one entry fresh r (find credential_key r.account_id credentials) in
      let (rest, entry'') = load_rows entry' fresh credentials rows in (push one rest, entry'')

  unfoldable pub load_accounts : Db → Entry → Bytes → List (SavedAccount C) × Entry
  load_accounts db entry fresh = load_rows entry fresh db.credentials db.accounts
