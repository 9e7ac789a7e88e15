-- ===== src/Server/Hosted/Restoring/Outcomes.antt =====
-- The answer of `restore_one_account` (sessions.rs), apart from the tables.
use zca_desktop.Common.{
  ℕ, ◌≡◌, refl, ap, ◌∙◌, String, Bool, true, false, Option, none, some, if◌then◌else◌, is_some,
  map_option, Result, ok, err, ok_or, ◌>>=◌, ◌==◌, number_equality,
}
use zca_desktop.Common.Table.{find, find-update, update}
use zca_desktop.Server.{AppError, not_found, crypto, Db, UserRow, user_id}
use zca_desktop.Server.Handler
use zca_desktop.Server.Handler.{bind-through}
use zca_desktop.Server.Keys.{open_sealed, unwrap_data_key_for_server}
use zca_desktop.Server.Devices.{user_secrets}
use zca_desktop.Server.Accounts.{
  account_id, AccountCredential, in_state, update_account_state, set_hosted_session_state,
  mark_account_active,
}
use zca_desktop.Server.Hosted.Linking.{data_key_for_user, open_credentials}
use zca_desktop.Server.Hosted.Restoring.{Outside, bad, restore_one_account}

-- The state of an account in the table.
abbrev pub account_state : ℕ → Db → Option String
account_state i s = map_option (λ r. r.state) (find account_id i s.cloud_accounts)

abbrev pub HasRow : ℕ → Db → Type 0
HasRow i s = is_some (find account_id i s.cloud_accounts) ≡ true

pub still :
    {A : Type 0} (f : A → A) (x : Option A)
    → is_some x ≡ true
    → (b : Bool) → is_some (if b then map_option f x else x) ≡ true
still f none h b = absurd (cc h)
still f (some a) h true = refl
still f (some a) h false = refl

module _ (o : Outside) (now : ℕ) where
  -- The credentials of an account, by the row of its user.
  opened : AccountCredential → Option UserRow → Result AppError o.Credentials
  opened a found =
      (ok_or found not_found >>= λ u.
      unwrap_data_key_for_server o.library o.seed u.server_key_nonce u.server_wrapped_data_key)
      >>= λ key. open_sealed o.library key a.credentials_nonce a.enc_credentials >>= λ plaintext.
          ok_or (o.from_slice plaintext) crypto

  -- The answer for an account, by the row of its user, but for the row of the account.
  pub attempt : AccountCredential → Option UserRow → Result AppError (ℕ × ℕ)
  attempt a found = opened a found >>= λ credentials.
      bad o.restore_login_failed (o.login credentials) >>= λ api.
      bad o.restore_listener_failed (o.start_message_listener api) >>= λ listener.
      ok (api, listener)

  unfoldable pub finish :
      AccountCredential → Db → Result AppError (ℕ × ℕ) → Result AppError (ℕ × ℕ) × Db
  finish a s (ok v) = (ok v, (mark_account_active now a.id none s).1)
  finish a s (err e) = (err e, s)

  mark_active-ok :
      (a : AccountCredential) (v : ℕ × ℕ) (s : Db)
      → HasRow a.id s
      → Handler.◌>>◌ (mark_account_active now a.id none) (Handler.return v) s ≡ finish a s (ok v)
  unfolding finish mark_account_active update_account_state set_hosted_session_state in_state
  mark_active-ok a v s row = rw there refl
    where
      there :
          is_some
            (find account_id a.id (update account_id a.id (in_state now "active") s.cloud_accounts))
          ≡ true
      there =
          ap is_some
            (find-update account_id a.id (in_state now "active") (λ r. refl) a.id s.cloud_accounts)
          ∙ still (in_state now "active") (find account_id a.id s.cloud_accounts) row (a.id == a.id)

  user_secrets-eq :
      (user : ℕ) (s : Db) → user_secrets user s ≡ (ok_or (find user_id user s.users) not_found, s)
  unfolding user_secrets
  user_secrets-eq user s = of_found (find user_id user s.users)
    where
      of_found :
          (x : Option UserRow)
          → ◌≡◌ {A = Result AppError UserRow × Db}
              (elim x [ none ↦ err not_found | some u ↦ ok u ], s)
              (ok_or x not_found, s)
      of_found none = refl
      of_found (some u) = refl

  open-eq :
      (a : AccountCredential) (s : Db)
      → open_credentials o.library o.seed o.to_vec o.from_slice a s
        ≡ (opened a (find user_id a.user_id s.users), s)
  unfolding open_credentials data_key_for_user opened
  open-eq a s =
      bind-through pure (data_key_for_user o.library o.seed a.user_id) _ s (λ e. refl)
        (bind-through pure (user_secrets a.user_id) _ s (λ e. refl) (user_secrets-eq a.user_id s)
          (λ u. refl))
        (λ key.
          bind-through pure
            (Handler.lift (open_sealed o.library key a.credentials_nonce a.enc_credentials))
            (λ p. Handler.lift (ok_or (o.from_slice p) crypto)) s
            {g = λ p. ok_or (o.from_slice p) crypto} (λ e. refl) refl (λ p. refl))
    where
      pure : {A : Type 0} → Result AppError A → Result AppError A × Db
      pure r = (r, s)

  pub restore_one-eq :
      (a : AccountCredential) (s : Db)
      → HasRow a.id s
      → restore_one_account o now a s ≡ finish a s (attempt a (find user_id a.user_id s.users))
  unfolding restore_one_account attempt finish
  restore_one-eq a s row =
      bind-through (finish a s) (open_credentials o.library o.seed o.to_vec o.from_slice a)
        (λ c.
          Handler.◌>>=◌ (Handler.lift (bad o.restore_login_failed (o.login c))) (λ api.
            Handler.◌>>=◌ (Handler.lift (listening api)) (λ listener. done (api, listener))))
        s (λ e. refl) (open-eq a s)
        (λ c.
          bind-through (finish a s) (Handler.lift (bad o.restore_login_failed (o.login c)))
            (λ api. Handler.◌>>=◌ (Handler.lift (listening api)) (λ listener. done (api, listener)))
            s {g = λ api. listening api >>= λ listener. ok (api, listener)} (λ e. refl) refl
            (λ api.
              bind-through (finish a s) (Handler.lift (listening api))
                (λ listener. done (api, listener)) s {g = λ listener. ok (api, listener)}
                (λ e. refl) refl (λ listener. mark_active-ok a (api, listener) s row)))
    where
      listening : ℕ → Result AppError ℕ
      listening api = bad o.restore_listener_failed (o.start_message_listener api)

      done : ℕ × ℕ → Handler.Handler (ℕ × ℕ)
      done v = Handler.◌>>◌ (mark_account_active now a.id none) (Handler.return v)
