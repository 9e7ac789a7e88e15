-- ===== src/Server/Hosted/Linking/Stored.antt =====
-- The row of a linked account (db.rs), from the statement that stores it to the list of a restart.
use zca_desktop.Common.{
  ℕ, ◌≡◌, refl, sym, ap, ◌∙◌, String, Bool, true, false, Option, none, some, List, [], ◌∷◌,
  if◌then◌else◌, is_some, map_option, ok, ◌==◌, ==_refl, text_equality, number_equality,
  pair_equality, Bool-cases, inl, inr, arith, ok-injective, subst,
}
use zca_desktop.Common.Table.{find, find-key, find-upsert, update, merged}
use zca_desktop.Server.{Bytes, Db, CloudAccountRow, user_id}
use zca_desktop.Server.Accounts.{
  account_id, zalo_key, account_view, new_account, relinked, upsert_account_credentials,
  AccountView, AccountCredential, credential_of, credentials_in, in_state, update_account_state,
  set_hosted_session_state, mark_account_active,
}

abbrev pub credential_key : AccountCredential → ℕ × String
credential_key c = (c.user_id, c.zalo_account_id)

credential_of-key :
    (r : CloudAccountRow) (c : AccountCredential)
    → credential_of r ≡ some c
    → credential_key c ≡ zalo_key r
unfolding credential_of
credential_of-key r c h = ground (arith, h)

-- An active row with credentials is in the list under its key.
pub find-credentials :
    (k : ℕ × String) (rows : List CloudAccountRow) {r : CloudAccountRow} {c : AccountCredential}
    → find zalo_key k rows ≡ some r
    → r.state ≡ "active"
    → credential_of r ≡ some c
    → find credential_key k (credentials_in "active" rows) ≡ some c
unfolding find credentials_in credential_of
find-credentials k [] h active has = absurd (cc h)
find-credentials k (x ∷ rows) {r} {c} h active has = elim (Bool-cases (zalo_key x == k)) [
  | inl same ↦
      let e : x ≡ r = found (rw same at h) in
      let has' : credential_of x ≡ some c = rw e has in
      let key : (credential_key c == k) ≡ true =
        subst (λ q. (q == k) ≡ true) (sym (credential_of-key x c has')) same in
      rw (ap (λ y. y.state) e, active, ==_refl {A = String} "active", has', key) refl
  | inr other ↦
      let rest = find-credentials k rows (rw other at h) active has in
      skip rest other (credential_of x) refl (x.state == "active")
]
  where
    found : {y z : CloudAccountRow} → some y ≡ some z → y ≡ z
    found e = cc

    skip :
        find credential_key k (credentials_in "active" rows) ≡ some c
        → (zalo_key x == k) ≡ false
        → (o : Option AccountCredential) → credential_of x ≡ o
        → (b : Bool)
        → find credential_key k (
            if b
            then elim o [
              | none ↦ credentials_in "active" rows
              | some c' ↦ c' ∷ credentials_in "active" rows
            ]
            else credentials_in "active" rows)
          ≡ some c
    skip rest other o e false = rest
    skip rest other none e true = rest
    skip rest other (some c') e true =
        rw (subst (λ q. (q == k) ≡ false) (sym (credential_of-key x c' e)) other) rest

-- A change by id that keeps the key, as a search by the key sees it.
find-update_id :
    (k : ℕ × String) (i : ℕ) (f : CloudAccountRow → CloudAccountRow) (rows : List CloudAccountRow)
    → ((r : CloudAccountRow) → zalo_key (f r) ≡ zalo_key r)
    → find zalo_key k (update account_id i f rows)
      ≡ map_option (λ r. if r.id == i then f r else r) (find zalo_key k rows)
unfolding find update
find-update_id k i f [] keeps = refl
find-update_id k i f (x ∷ rows) keeps = ground (arith, find-update_id k i f rows keeps, keeps x)

-- The row that is stored for the account, with the credentials to restore.
pub record Stored (user : ℕ) (zalo : String) (id : ℕ) (enc nonce : Bytes) (t : Db) : Type 0 where
  pub row : CloudAccountRow
  pub is_found : find zalo_key (user, zalo) t.cloud_accounts ≡ some row
  pub is_active : row.state ≡ "active"
  pub is_credential :
      credential_of row
      ≡ some (record {
        id = id;
        user_id = user;
        zalo_account_id = zalo;
        enc_credentials = enc;
        credentials_nonce = nonce;
      })

pub upsert-Stored :
    (now id user : ℕ) (zalo : String) (name avatar : Option String) (enc nonce : Bytes) (s t : Db)
    (view : AccountView)
    → upsert_account_credentials now id user zalo name avatar enc nonce s ≡ (ok view, t)
    → Stored user zalo view.id enc nonce t × (t.users ≡ s.users)
unfolding upsert_account_credentials account_view new_account relinked credential_of
upsert-Stored now id user zalo name avatar enc nonce s t view h =
    elim (Bool-cases (is_some (find user_id user s.users))) [
      | inr missing ↦ absurd (cc (ap (λ r. r.0) (rw missing at h)))
      | inl there ↦
          let e = rw there at h in
          (
            of_row (find zalo_key (user, zalo) s.cloud_accounts) refl
                (ok-injective (ap (λ r. r.0) e))
                (ap (λ r. find zalo_key (user, zalo) r.1.cloud_accounts) (sym e)
                  ∙ find-upsert zalo_key new relink (λ x same. same) (user, zalo) s.cloud_accounts
                  ∙ rw (==_refl {A = ℕ × String} (user, zalo)) refl),
            ap (λ r. r.1.users) (sym e),
          )
    ]
  where
    new : CloudAccountRow
    new = new_account now id user zalo name avatar enc nonce

    relink : CloudAccountRow → CloudAccountRow
    relink = relinked now name avatar enc nonce

    of_row :
        (o : Option CloudAccountRow)
        → find zalo_key (user, zalo) s.cloud_accounts ≡ o
        → account_view (merged new relink o) ≡ view
        → find zalo_key (user, zalo) t.cloud_accounts ≡ some (merged new relink o)
        → Stored user zalo view.id enc nonce t
    of_row none e v found = record {
      row = new;
      is_found = found;
      is_active = refl;
      is_credential = rw (← ap (λ w. w.id) v) refl;
    }
    of_row (some x) e v found =
        let key = find-key zalo_key (user, zalo) s.cloud_accounts e in
        record {
          row = relink x;
          is_found = found;
          is_active = refl;
          is_credential = rw (← ap (λ w. w.id) v) (
              ap
                (λ k. some (record {
                  id = x.id;
                  user_id = k.0;
                  zalo_account_id = k.1;
                  enc_credentials = enc;
                  credentials_nonce = nonce;
                }))
                key);
        }

pub mark-Stored :
    (now user : ℕ) (zalo : String) (id i : ℕ) (enc nonce : Bytes) (s t : Db) (u : Unit {0})
    → mark_account_active now i none s ≡ (ok u, t)
    → Stored user zalo id enc nonce s
    → Stored user zalo id enc nonce t × (t.users ≡ s.users)
unfolding mark_account_active update_account_state set_hosted_session_state in_state credential_of
mark-Stored now user zalo id i enc nonce s t u h stored =
    elim (Bool-cases (is_some (find account_id i marked))) [
      | inr missing ↦ absurd (cc (ap (λ r. r.0) (rw missing at h)))
      | inl there ↦
          let e = rw there at h in
          (
            record {
              row = if stored.row.id == i then in_state now "active" stored.row else stored.row;
              is_found =
                  ap (λ r. find zalo_key (user, zalo) r.1.cloud_accounts) (sym e)
                  ∙ find-update_id (user, zalo) i (in_state now "active") s.cloud_accounts
                      (λ r. refl)
                  ∙ rw stored.is_found refl;
              is_active = active (stored.row.id == i);
              is_credential = same (stored.row.id == i) ∙ stored.is_credential;
            },
            ap (λ r. r.1.users) (sym e),
          )
    ]
  where
    marked : List CloudAccountRow
    marked = update account_id i (in_state now "active") s.cloud_accounts

    active :
        (b : Bool) → (if b then in_state now "active" stored.row else stored.row).state ≡ "active"
    active true = refl
    active false = stored.is_active

    same :
        (b : Bool)
        → credential_of (if b then in_state now "active" stored.row else stored.row)
          ≡ credential_of stored.row
    same true = refl
    same false = refl
