-- ===== src/Server/Hosted/Restoring.antt =====
-- The restart of the hosted sessions (`restore_active_sessions` of sessions.rs): each active account
-- is opened, logged in and listened to; one that fails is marked, and the others go on.
pub mod Outcomes
pub mod Listed
pub mod Each
pub mod Independent
use zca_desktop.Common.{ℕ, ◌+◌, String, Option, none, some, List, [], ◌∷◌, Result, ok, err}
use zca_desktop.Server.{AppError, bad_request, Bytes, Db, Library}
use zca_desktop.Server.Handler.{Handler, ◌>>=◌, ◌>>◌, return, lift}
use zca_desktop.Server.Accounts.{
  AccountCredential, credentials_in, mark_account_active, set_account_state,
}
use zca_desktop.Server.Hosted.{HostedSessionManager, online, upsert_session}
use zca_desktop.Server.Hosted.Linking.{open_credentials}

-- What a restart takes from outside: the server's seed, the crates, serde, zca-rust's login and
-- listener, and the texts of errors.
pub record Outside : Type 1 where
  pub Credentials : Type 0
  pub library : Library
  pub seed : String
  pub to_vec : Credentials → Option Bytes
  pub from_slice : Bytes → Option Credentials
  pub login : Credentials → Result String ℕ
  pub start_message_listener : ℕ → Result String ℕ
  pub to_string : AppError → String
  pub restore_login_failed : String → String
  pub restore_listener_failed : String → String

abbrev bad : {A : Type 0} → (String → String) → Result String A → Result AppError A
bad say (ok a) = ok a
bad say (err e) = err (bad_request (say e))

module _ (o : Outside) where
  -- The API handle and the listener of the session to insert.
  unfoldable pub restore_one_account : ℕ → AccountCredential → Handler (ℕ × ℕ)
  restore_one_account now account = do
    credentials ← open_credentials o.library o.seed o.to_vec o.from_slice account
    api ← lift (bad o.restore_login_failed (o.login credentials))
    listener ← lift (bad o.restore_listener_failed (o.start_message_listener api))
    mark_account_active now account.id none
    return (api, listener)

  -- What one account adds: to the count, to the sessions and to the tables.
  unfoldable pub settle :
      ℕ
      → AccountCredential
      → HostedSessionManager
      → Result AppError (ℕ × ℕ) × Db
      → ℕ × HostedSessionManager × Db
  settle now account m (ok (api, listener), s) =
      (1, upsert_session account.id online api listener m, s)
  settle now account m (err e, s) =
      (0, m, (set_account_state now account.id "reauth-needed" (some (o.to_string e)) s).1)

  unfoldable pub restore_each :
      ℕ → List AccountCredential → HostedSessionManager → Db → ℕ × HostedSessionManager × Db
  restore_each now [] m s = (0, m, s)
  restore_each now (account ∷ accounts) m s =
      let (n, m', s') = settle now account m (restore_one_account now account s) in
      let (rest, m'', s'') = restore_each now accounts m' s' in (n + rest, m'', s'')

  unfoldable pub restore_active_sessions :
      ℕ → HostedSessionManager → Db → ℕ × HostedSessionManager × Db
  restore_active_sessions now m s = restore_each now (credentials_in "active" s.cloud_accounts) m s
