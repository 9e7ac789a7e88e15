-- ===== src/Server/Hosted/Linking/Reopened.antt =====
-- What linking an account stores (sessions.rs), as a restart finds it.
use zca_desktop.Common.{
  ℕ, ◌≡◌, refl, sym, ap, ◌∙◌, String, Option, none, some, length, ok, ok_or, text_equality,
  number_equality, pair_equality, Option-cases, inl, inr, arith, ok-injective, subst,
}
use zca_desktop.Common.Table.{find}
use zca_desktop.Server.{crypto, Bytes, Db, Library, user_id}
use zca_desktop.Server.Handler.{bind-ok, lift}
use zca_desktop.Server.Keys.{Opens, nonce_len, seal, open_sealed, open_sealed-seal}
use zca_desktop.Server.Devices.{user_secrets}
use zca_desktop.Server.Accounts.{
  upsert_account_credentials, AccountCredential, credentials_in, mark_account_active,
}
use zca_desktop.Server.Hosted.Qr.{HostedProfile}
use zca_desktop.Server.Hosted.Linking.{data_key_for_user, store_account, open_credentials}
use zca_desktop.Server.Hosted.Linking.Stored.{
  credential_key, find-credentials, Stored, upsert-Stored, mark-Stored,
}

module _ {Credentials : Type 0} (lib : Library) (seed : String)
    (to_vec : Credentials → Option Bytes) (from_slice : Bytes → Option Credentials) where
  -- A data key that was opened once, by the users that are there, is opened again.
  data_key-ok :
      (user : ℕ) (s t u : Db) (key : Bytes)
      → data_key_for_user lib seed user s ≡ (ok key, t)
      → u.users ≡ s.users
      → (t ≡ s) × (data_key_for_user lib seed user u ≡ (ok key, u))
  unfolding data_key_for_user user_secrets
  data_key-ok user s t u key h same = elim (Option-cases (find user_id user s.users)) [
    | inl missing ↦ absurd (cc (ap (λ r. r.0) (rw (missing, data_key_for_user, user_secrets) at h)))
    | inr (x, there) ↦
        let there' : find user_id user u.users ≡ some x = rw same there in
        let e = rw (there, data_key_for_user, user_secrets) at h in
        (
          sym (ap (λ r. r.1) e),
          rw (there', data_key_for_user, user_secrets) (ground (arith, ap (λ r. r.0) e)),
        )
  ]

  open-ok :
      (credentials : Credentials) (c : AccountCredential) (t : Db) (key json : Bytes)
      → data_key_for_user lib seed c.user_id t ≡ (ok key, t)
      → open_sealed lib key c.credentials_nonce c.enc_credentials ≡ ok json
      → from_slice json ≡ some credentials
      → (open_credentials lib seed to_vec from_slice c t).0 ≡ ok credentials
  unfolding open_credentials
  open-ok credentials c t key json e opened parsed = rw (e, opened, parsed) refl

  ok_or-ok : {A : Type 0} {a : A} (o : Option A) → ok_or o crypto ≡ ok a → o ≡ some a
  ok_or-ok none e = absurd (cc e)
  ok_or-ok (some b) e = cc

  -- An account whose linking was stored without a failure is in the list of a restart, under its
  -- user and Zalo id, with the id answered, and the restart opens the credentials that were given.
  pub open-store :
      (now id user : ℕ) (nonce : Bytes) (credentials : Credentials) (profile : HostedProfile)
      (s t : Db) (account : ℕ)
      → Opens lib
      → length nonce ≡ nonce_len
      → ((c : Credentials) (json : Bytes) → to_vec c ≡ some json → from_slice json ≡ some c)
      → store_account lib seed to_vec from_slice now id user nonce credentials profile s
        ≡ (ok account, t)
      → (c : AccountCredential) × (find credential_key
            (user, profile.account_id)
            (credentials_in "active" t.cloud_accounts)
          ≡ some c)
        × (c.id ≡ account)
        × ((open_credentials lib seed to_vec from_slice c t).0 ≡ ok credentials)
  unfolding store_account
  open-store now id user nonce credentials profile s t account opens len parses h =
      let zalo = profile.account_id in
      let b1 = bind-ok (data_key_for_user lib seed user) _ s h in
      let b2 = bind-ok (lift (ok_or (to_vec credentials) crypto)) _ b1.middle b1.then in
      let b3 = bind-ok (lift (seal lib b1.value nonce b2.value)) _ b2.middle b2.then in
      let b4 =
        bind-ok
          (upsert_account_credentials now id user zalo profile.display_name profile.avatar
            b3.value.1 b3.value.0)
          _ b3.middle b3.then in
      let b5 = bind-ok (mark_account_active now b4.value.id none) _ b4.middle b4.then in
      let stored =
        upsert-Stored now id user zalo profile.display_name profile.avatar b3.value.1 b3.value.0
          b3.middle b4.middle b4.value b4.first in
      let marked =
        mark-Stored now user zalo b4.value.id b4.value.id b3.value.1 b3.value.0 b4.middle b5.middle
          b5.value b5.first stored.0 in
      let users : t.users ≡ s.users =
        ap (λ r. r.1.users) (sym b5.then)
        ∙ marked.1
        ∙ stored.1
        ∙ ap (λ r. r.1.users) (sym b3.first)
        ∙ ap (λ r. r.1.users) (sym b2.first)
        ∙ ap (λ d. d.users) (data_key-ok user s b1.middle s b1.value b1.first refl).0 in
      let found : Stored user zalo b4.value.id b3.value.1 b3.value.0 t =
        subst (Stored user zalo b4.value.id b3.value.1 b3.value.0) (ap (λ r. r.1) b5.then)
          marked.0 in
      (
        _,
        find-credentials (user, zalo) t.cloud_accounts found.is_found found.is_active
            found.is_credential,
        ok-injective (ap (λ r. r.0) b5.then),
        open-ok credentials _ t b1.value b2.value
            (data_key-ok user s b1.middle t b1.value b1.first users).1
            (open_sealed-seal lib b1.value nonce b2.value opens len (ap (λ r. r.0) b3.first))
            (parses credentials b2.value (ok_or-ok (to_vec credentials) (ap (λ r. r.0) b2.first))),
      )
