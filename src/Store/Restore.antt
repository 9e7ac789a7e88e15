-- ===== src/Store/Restore.antt =====
-- `load_accounts` and `delete_account` (store/db.rs), by account.
pub mod Saved
use zca_desktop.Common.{
  ◌≡◌, refl, ◌∙◌, ap, true, false, Option, none, some, String, List, [], ◌∷◌, ℤ, if◌then◌else◌,
  ◌==◌, ==_refl, eq_of_==, text_equality, Bool-cases, Result, ok, err, ok-injective, inl, inr,
  length, arith,
}
use zca_desktop.Common.Table.{find, upsert, find-upsert, find-delete, merged, find-key}
use zca_desktop.Types.{AccountId, AccountProfile}
use zca_desktop.Store.{Db, AccountRow, CredentialRow, account_key, credential_key}
use zca_desktop.Store.Crypto.{
  Bytes, Primitives, IsRoundTrip, Entry, CryptoError, master_key, encrypt_credentials,
  decrypt_credentials, key_len, nonce_len, decrypt-encrypt, encrypt-keeps,
}
use zca_desktop.Store.Accounts.{
  SavedAccount, new_account, merge_account, new_credential, merge_credential, store_account,
  delete_account, save_account, saved_account, opened_account, store_sealed, load_one, push,
  load_rows, load_accounts,
}

abbrev pub saved_key : {C : Type 0} → SavedAccount C → AccountId
saved_key s = s.profile.account_id

module _ {C : Type 0} (p : Primitives C) where
  load_one-keeps :
      (entry : Entry) (fresh : Bytes) (r : AccountRow) (o : Option CredentialRow)
      → (master_key entry fresh).1 ≡ entry
      → (load_one p entry fresh r o).1 ≡ entry
  unfolding load_one decrypt_credentials
  load_one-keeps entry fresh r none stable = refl
  load_one-keeps entry fresh r (some c) stable = stable

  find-push_opened :
      (r : AccountRow) (opened : Result CryptoError C) (a : AccountId)
      (rest : List (SavedAccount C))
      → (r.account_id == a) ≡ false
      → find saved_key a (push p (opened_account p r opened) rest) ≡ find saved_key a rest
  unfolding opened_account saved_account find
  find-push_opened r (ok v) a rest other = rw other refl
  find-push_opened r (err e) a rest other = refl

  find-push :
      (entry : Entry) (fresh : Bytes) (r : AccountRow) (o : Option CredentialRow) (a : AccountId)
      (rest : List (SavedAccount C))
      → (r.account_id == a) ≡ false
      → find saved_key a (push p (load_one p entry fresh r o).0 rest) ≡ find saved_key a rest
  unfolding load_one
  find-push entry fresh r none a rest other = refl
  find-push entry fresh r (some c) a rest other =
      find-push_opened r (decrypt_credentials p entry fresh c.enc_blob).0 a rest other

  find-push_ok :
      (r : AccountRow) (opened : Result CryptoError C) (v : C) (a : AccountId)
      (rest : List (SavedAccount C))
      → (r.account_id == a) ≡ true
      → opened ≡ ok v
      → find saved_key a (push p (opened_account p r opened) rest) ≡ some (saved_account p r v)
  unfolding opened_account find
  find-push_ok r (ok w) v a rest same e =
      unfold saved_account in rw same (ap (λ c. some (saved_account p r c)) (ok-injective e))
  find-push_ok r (err x) v a rest same e = absurd (cc e)

  load-skip :
      (entry : Entry) (fresh : Bytes) (credentials : List CredentialRow) (r : AccountRow)
      (rows : List AccountRow) (a : AccountId)
      → (master_key entry fresh).1 ≡ entry
      → (r.account_id == a) ≡ false
      → find saved_key a (load_rows p entry fresh credentials (r ∷ rows)).0
        ≡ find saved_key a (load_rows p entry fresh credentials rows).0
  unfolding load_rows
  load-skip entry fresh credentials r rows a stable other =
      find-push entry fresh r (find credential_key r.account_id credentials) a _ other
      ∙ ap (λ e. find saved_key a (load_rows p e fresh credentials rows).0)
          (load_one-keeps entry fresh r (find credential_key r.account_id credentials) stable)

  load-hit :
      (entry : Entry) (fresh : Bytes) (credentials : List CredentialRow) (r : AccountRow)
      (rows : List AccountRow) (a : AccountId) (c : CredentialRow) (v : C)
      → (r.account_id == a) ≡ true
      → find credential_key a credentials ≡ some c
      → (decrypt_credentials p entry fresh c.enc_blob).0 ≡ ok v
      → find saved_key a (load_rows p entry fresh credentials (r ∷ rows)).0
        ≡ some (saved_account p r v)
  unfolding load_rows
  load-hit entry fresh credentials r rows a c v same there opened =
      let here : find credential_key r.account_id credentials ≡ some c =
        rw (eq_of_== r.account_id a same) there in
      rw here (
        unfold load_one in
        find-push_ok r (decrypt_credentials p entry fresh c.enc_blob).0 v a _ same opened)

  pub find-load_rows :
      (entry : Entry) (fresh : Bytes) (credentials : List CredentialRow) (rows : List AccountRow)
      (a : AccountId) (r : AccountRow) (c : CredentialRow) (v : C)
      → (master_key entry fresh).1 ≡ entry
      → find account_key a rows ≡ some r
      → find credential_key a credentials ≡ some c
      → (decrypt_credentials p entry fresh c.enc_blob).0 ≡ ok v
      → find saved_key a (load_rows p entry fresh credentials rows).0 ≡ some (saved_account p r v)
  unfolding find
  find-load_rows entry fresh credentials [] a r c v stable here there opened = absurd (cc here)
  find-load_rows entry fresh credentials (x ∷ rows) a r c v stable here there opened =
      elim (Bool-cases (x.account_id == a)) [
        | inl same ↦
            load-hit entry fresh credentials x rows a c v same there opened
            ∙ ap (λ y. some (saved_account p y v)) (ground arith)
        | inr other ↦
            load-skip entry fresh credentials x rows a stable other
            ∙ find-load_rows entry fresh credentials rows a r c v stable (rw other at here) there
                opened
      ]

  find-load_rows-none :
      (entry : Entry) (fresh : Bytes) (credentials : List CredentialRow) (rows : List AccountRow)
      (a : AccountId)
      → (master_key entry fresh).1 ≡ entry
      → find account_key a rows ≡ none
      → find saved_key a (load_rows p entry fresh credentials rows).0 ≡ none
  unfolding find
  find-load_rows-none entry fresh credentials [] a stable gone = unfold find load_rows in refl
  find-load_rows-none entry fresh credentials (x ∷ rows) a stable gone =
      elim (Bool-cases (x.account_id == a)) [
        | inl same ↦ absurd (cc (rw same at gone))
        | inr other ↦
            load-skip entry fresh credentials x rows a stable other
            ∙ find-load_rows-none entry fresh credentials rows a stable (rw other at gone)
      ]

  -- With a keychain that loading leaves as it is: a deleted account is not restored, and its
  -- ciphertext is gone with it; every other account's row and ciphertext stay.
  pub delete_account_lem :
      (db : Db) (a b : AccountId) (entry : Entry) (fresh : Bytes)
      → (master_key entry fresh).1 ≡ entry
      → (find saved_key a (load_accounts p (delete_account db a) entry fresh).0 ≡ none)
        × (find credential_key a (delete_account db a).credentials ≡ none)
        × (find account_key b (delete_account db a).accounts
            ≡ (if a == b then none else find account_key b db.accounts))
        × (find credential_key b (delete_account db a).credentials
            ≡ (if a == b then none else find credential_key b db.credentials))
  unfolding delete_account load_accounts
  delete_account_lem db a b entry fresh stable = (
    find-load_rows-none entry fresh _ _ a stable
        (find-delete account_key a a db.accounts ∙ rw (==_refl a) refl),
    find-delete credential_key a a db.credentials ∙ rw (==_refl a) refl,
    find-delete account_key a b db.accounts,
    find-delete credential_key a b db.credentials,
  )
