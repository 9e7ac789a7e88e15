-- ===== src/Server/Hosted/Linking.antt =====
-- Storing a linked account (`run_qr_flow` of sessions.rs, from the login's answer to its verdict),
-- and opening what was stored (`restore_one_account`). The credentials' type and JSON are serde's.
pub mod Stored
pub mod Reopened
use zca_desktop.Common.{
  ℕ, refl, String, Option, none, some, Result, ok, err, ok_or, number_equality, if◌then◌else◌,
}
use zca_desktop.Common.Map
use zca_desktop.Server.{AppError, bad_request, crypto, Bytes, Db, Library}
use zca_desktop.Server.Handler.{Handler, ◌>>=◌, ◌>>◌, return, lift, Reads, bind-Reads}
use zca_desktop.Server.Keys.{seal, open_sealed, unwrap_data_key_for_server}
use zca_desktop.Server.Devices.{user_secrets}
use zca_desktop.Server.Accounts.{
  AccountView, AccountCredential, upsert_account_credentials, mark_account_active,
}
use zca_desktop.Server.Hosted.{HostedSessionManager, online, upsert_session}
use zca_desktop.Server.Hosted.Qr.{
  HostedProfile, Verdict, login_failed, store_failed, linked, conclude,
}
use zca_desktop.Server.Hosted.Qr.Flows.{write}

-- The data key of a user, as the server opens it.
unfoldable pub data_key_for_user : Library → String → ℕ → Handler Bytes
data_key_for_user lib seed user = do
  secrets ← user_secrets user
  lift
      (unwrap_data_key_for_server lib seed secrets.server_key_nonce secrets.server_wrapped_data_key)

pub data_key_for_user-Reads :
    (lib : Library) (seed : String) (user : ℕ) (s : Db) → Reads (data_key_for_user lib seed user) s
unfolding data_key_for_user user_secrets
data_key_for_user-Reads lib seed user s = bind-Reads (user_secrets user) _ s refl (λ u. refl)

module _ {Credentials : Type 0} (lib : Library) (seed : String)
    (to_vec : Credentials → Option Bytes) (from_slice : Bytes → Option Credentials) where
  -- The steps that store the account; `id` is the id of a new row, and `nonce` the nonce drawn.
  unfoldable pub store_account : ℕ → ℕ → ℕ → Bytes → Credentials → HostedProfile → Handler ℕ
  store_account now id user nonce credentials profile = do
    data_key ← data_key_for_user lib seed user
    credentials_json ← lift (ok_or (to_vec credentials) crypto)
    sealed ← lift (seal lib data_key nonce credentials_json)
    account ←
        upsert_account_credentials now id user profile.account_id profile.display_name
          profile.avatar sealed.1 sealed.0
    mark_account_active now account.id none
    return account.id

  -- What a restart does with the row: the credentials to log in with.
  unfoldable pub open_credentials : AccountCredential → Handler Credentials
  open_credentials account = do
    data_key ← data_key_for_user lib seed account.user_id
    plaintext ← lift (open_sealed lib data_key account.credentials_nonce account.enc_credentials)
    lift (ok_or (from_slice plaintext) crypto)
