-- ===== src/Server/Devices/Users.antt =====
-- `get_or_create_user` (db.rs) for an address that has no user.
use zca_desktop.Common.{
  ℕ, ◌≡◌, refl, sym, ap, ◌∙◌, String, Bool, true, none, some, List, [], ◌∷◌, ◌++◌, ◌==◌, ==_refl,
  text_equality, Bool-cases, inl, inr, Option, ok, Result-cases, ok-injective,
}
use zca_desktop.Common.Table.{find}
use zca_desktop.Server.{Bytes, Db, UserRow, Library, user_email}
use zca_desktop.Server.Keys.{hash_recovery_key}
use zca_desktop.Server.Devices.{user_id_by_email, insert_user, get_or_create_user}

-- The user of an address, by the row that is stored.
abbrev pub user_of : String → Db → Option UserRow
user_of email s = find user_email email s.users

find-append :
    (email : String) (users : List UserRow) (u : UserRow)
    → find user_email email users ≡ none
    → u.email ≡ email
    → find user_email email (users ++ u ∷ []) ≡ some u
unfolding find
find-append email [] u h same = rw (same, ==_refl email) refl
find-append email (x ∷ users) u h same = elim (Bool-cases (x.email == email)) [
  | inl here ↦ absurd (cc (rw here at h))
  | inr other ↦ rw other (find-append email users u (rw other at h) same)
]

pub no_user : (email : String) (s : Db) → user_of email s ≡ none → user_id_by_email email s ≡ none
unfolding user_id_by_email
no_user email s h = rw (h, user_id_by_email) refl

pub get_or_create_user-new :
    (lib : Library) (id : ℕ) (salt email key : String) (w n sw : Bytes) (s t : Db) (r : ℕ × Bool)
    → user_of email s ≡ none
    → get_or_create_user lib id salt email key w n sw s ≡ (ok r, t)
    → (u : UserRow) × (user_of email t ≡ some u)
      × (u.id ≡ r.0)
      × (r.1 ≡ true)
      × (u.wrapped_data_key ≡ w)
      × (u.server_key_nonce ≡ n)
      × (u.server_wrapped_data_key ≡ sw)
unfolding get_or_create_user insert_user
get_or_create_user-new lib id salt email key w n sw s t r fresh h =
    elim (Result-cases (hash_recovery_key lib key salt)) [
      | inr (e, bad) ↦
          absurd (cc (ap (λ x. x.0) (rw (no_user email s fresh, bad, get_or_create_user) at h)))
      | inl (hash, good) ↦
          let e = rw (no_user email s fresh, good, get_or_create_user) at h in
          let u : UserRow = record {
            id = id;
            email = email;
            recovery_key_hash = hash;
            wrapped_data_key = w;
            server_key_nonce = n;
            server_wrapped_data_key = sw;
          } in
          let who = ok-injective (ap (λ x. x.0) e) in
          (
            u,
            ap (λ x. user_of email x.1) (sym e) ∙ find-append email s.users u fresh refl,
            ap (λ x. x.0) who,
            ap (λ x. x.1) (sym who),
            refl,
            refl,
            refl,
          )
    ]
