-- ===== src/Store/Tests/Accounts.antt =====
-- The theorems of accounts and ciphertexts at concrete inputs.
use zca_desktop.Common.{
  ◌≡◌, refl, true, none, some, [], ◌∷◌, ◌++◌, pos, text_equality, integer_equality, pair_equality,
  ok,
}
use zca_desktop.Common.Table.{find}
use zca_desktop.Store.{Db, empty, account_key, credential_key}
use zca_desktop.Store.Crypto.{Bytes, seal, no_entry, secret, master_key, encrypt_credentials}
use zca_desktop.Store.Accounts.{
  SavedAccount, store_account, store_sealed, save_account, delete_account, load_accounts,
}
use zca_desktop.Store.Restore.{saved_key, delete_account_lem}
use zca_desktop.Store.Restore.Saved.{AccountIs, load-save}
use zca_desktop.Store.Tests.Samples.{an, cipher, cipher-IsRoundTrip, zeros}

encrypted :
    encrypt_credentials cipher (no_entry true) (zeros 32) (zeros 12) (5 ∷ [])
    ≡ (ok (zeros 12 ++ 5 ∷ []), secret (zeros 32))
unfolding encrypt_credentials master_key seal
encrypted = refl

abbrev with_account : Db
with_account = store_account empty an (zeros 12 ++ 5 ∷ []) (pos 1)

saved :
    save_account cipher empty (no_entry true) (zeros 32) (zeros 12) an (5 ∷ []) (pos 1)
    ≡ (ok with_account, secret (zeros 32))
unfolding save_account encrypt_credentials master_key seal store_sealed
saved = refl

load-save_example :
    (s : SavedAccount Bytes) × (find saved_key "an"
        (load_accounts cipher with_account (secret (zeros 32)) []).0
      ≡ some s)
    × AccountIs s an (5 ∷ []) "active"
load-save_example =
    load-save cipher cipher-IsRoundTrip empty with_account (no_entry true) (secret (zeros 32))
      (zeros 32) [] (zeros 12) an (5 ∷ []) (pos 1) refl refl saved

delete_account_lem_example :
    (find saved_key "an"
        (load_accounts cipher (delete_account with_account "an") (secret (zeros 32)) []).0
      ≡ none)
    × (find credential_key "an" (delete_account with_account "an").credentials ≡ none)
    × (find account_key "binh" (delete_account with_account "an").accounts
        ≡ find account_key "binh" with_account.accounts)
    × (find credential_key "binh" (delete_account with_account "an").credentials
        ≡ find credential_key "binh" with_account.credentials)
delete_account_lem_example =
    delete_account_lem cipher with_account "an" "binh" (secret (zeros 32)) []
      (unfold master_key in refl)
