-- ===== src/Startup.antt =====
-- Logging in and restoring sessions (`login_and_listen`, `restore_sessions` of
-- apps/desktop/src-tauri/src/command/mod.rs): where the Zalo layer, the session manager and the store
-- meet. What the Zalo layer answers is an argument; the bridge that a login starts is
-- `persist_incoming`, and runs later.
pub mod Restoring
mod Tests
use zca_desktop.Common.{
  ℕ, Bool, Option, none, some, List, [], ◌∷◌, ℤ, text_equality, map_option, is_some, if◌then◌else◌,
  Result, ok, err,
}
use zca_desktop.Types.{AccountId, AccountProfile}
use zca_desktop.Session.Manager.{SessionManager, insert}
use zca_desktop.Store.{Db}
use zca_desktop.Store.Crypto.{Bytes, Primitives, Entry}
use zca_desktop.Store.Accounts.{SavedAccount, save_account, load_accounts, mark_reauth_needed}
use zca_desktop.Store.Persist.{or_unchanged}

-- Logging in with credentials, the profile of a handle, and starting its listener.
pub record Zalo (C H : Type 0) : Type 0 where
  pub login_with : C → Option H
  pub profile_of : H → AccountProfile
  pub start_message_listener : H → Option ℕ

-- The state that the commands share: the store if it could be opened, the keychain's entry, and the
-- sessions.
pub record Desktop (H : Type 0) : Type 0 where
  pub store : Option Db
  pub entry : Entry
  pub manager : SessionManager H

pub data LoginError : Type 0 where
  login_failed listener_failed : LoginError

-- The random bytes and the clock of a save.
pub record Draw : Type 0 where
  pub fresh_key : Bytes
  pub nonce : Bytes
  pub now : ℤ

module _ {C H : Type 0} (p : Primitives C) (z : Zalo C H) where
  -- Saving the account and its credentials; a failure is logged and dropped.
  unfoldable pub persist_login : Desktop H → Draw → AccountProfile → C → Desktop H
  persist_login d draw profile credentials = elim d.store [
    | none ↦ d
    | some db ↦
        let (saved, entry) =
          save_account p db d.entry draw.fresh_key draw.nonce profile credentials draw.now in
        record d { store = some (or_unchanged db saved); entry = entry }
  ]

  -- The listener is started and the session replaces that of the account.
  unfoldable pub listen : Desktop H → H → Option ℕ → Result LoginError AccountProfile × Desktop H
  listen d api none = (err listener_failed, d)
  listen d api (some listener) = (
    ok (z.profile_of api),
    record d { manager = insert d.manager (z.profile_of api).account_id api listener },
  )

  unfoldable pub after_login :
      Desktop H → Draw → C → Bool → Option H → Result LoginError AccountProfile × Desktop H
  after_login d draw credentials save_cred none = (err login_failed, d)
  after_login d draw credentials save_cred (some api) =
      listen (if save_cred then persist_login d draw (z.profile_of api) credentials else d) api
        (z.start_message_listener api)

  unfoldable pub login_and_listen :
      Desktop H → Draw → C → Bool → Result LoginError AccountProfile × Desktop H
  login_and_listen d draw credentials save_cred =
      after_login d draw credentials save_cred (z.login_with credentials)

  -- What becomes of one saved account: its profile if it is restored.
  unfoldable pub restored_or_marked :
      AccountId → Result LoginError AccountProfile × Desktop H → Option AccountProfile × Desktop H
  restored_or_marked account (ok profile, d) = (some profile, d)
  restored_or_marked account (err e, d) =
      (none, record d { store = map_option (λ db. mark_reauth_needed db account) d.store })

  abbrev pub push_profile : Option AccountProfile → List AccountProfile → List AccountProfile
  push_profile none restored = restored
  push_profile (some profile) restored = profile ∷ restored

  -- The loop over the saved accounts; nothing is saved again.
  unfoldable pub restore_all :
      Draw → List (SavedAccount C) → Desktop H → List AccountProfile × Desktop H
  restore_all draw [] d = ([], d)
  restore_all draw (s ∷ saved) d =
      let (one, d1) =
        restored_or_marked s.profile.account_id
          (login_and_listen d draw s.credentials Bool.false) in
      let (rest, d2) = restore_all draw saved d1 in (push_profile one rest, d2)

  unfoldable pub restore_sessions : Draw → Desktop H → List AccountProfile × Desktop H
  restore_sessions draw d = elim d.store [
    | none ↦ ([], d)
    | some db ↦
        let (saved, entry) = load_accounts p db d.entry draw.fresh_key in
        restore_all draw saved (record d { entry = entry })
  ]
