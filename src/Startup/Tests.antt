-- ===== src/Startup/Tests.antt =====
-- The restoring of sessions at a concrete input.
use zca_desktop.Common.{
  ℕ, zero, suc, ◌≡◌, refl, ◌||◌, String, Option, none, some, [], ◌∷◌, pos, text_equality,
  if◌then◌else◌, any, map_option, is_some,
}
use zca_desktop.Common.Table.{find}
use zca_desktop.Types.{AccountProfile}
use zca_desktop.Session.Manager.{with_send_interval, get}
use zca_desktop.Store.{Db, empty, account_key}
use zca_desktop.Store.Crypto.{Bytes, Primitives, secret}
use zca_desktop.Store.Accounts.{store_account, load_accounts, mark_reauth}
use zca_desktop.Startup.{Zalo, Desktop, Draw, restore_sessions}
use zca_desktop.Startup.Restoring.{
  account_row, all_online, is_lost, is_online_as, restore_sessions_lem,
}

abbrev profile : String → AccountProfile
profile account = record { account_id = account; display_name = none; avatar = none }

abbrev plain : Primitives Bytes
plain = record {
  gcm_encrypt = λ key nonce text. some text;
  gcm_decrypt = λ key nonce sealed. some sealed;
  to_vec = λ c. some c;
  from_slice = λ b. some b;
}

-- Logs in with one number, and refuses the rest.
abbrev accept_one : Bytes → Option String
accept_one (c ∷ []) = some "an"
accept_one [] = none
accept_one (c ∷ d ∷ rest) = none

abbrev zalo : Zalo Bytes String
zalo = record {
  login_with = accept_one;
  profile_of = profile;
  start_message_listener = λ api. some 4;
}

abbrev zeros : ℕ → Bytes
zeros zero = []
zeros (suc n) = 0 ∷ zeros n

abbrev sealed : Bytes → Bytes
sealed c = 0 ∷ 0 ∷ 0 ∷ 0 ∷ 0 ∷ 0 ∷ 0 ∷ 0 ∷ 0 ∷ 0 ∷ 0 ∷ 0 ∷ c

-- Two saved accounts, of which one logs in.
abbrev saved_db : Db
saved_db =
    store_account (store_account empty (profile "an") (sealed (7 ∷ [])) (pos 1)) (profile "binh")
      (sealed []) (pos 2)

abbrev desktop : Desktop String
desktop = record {
  store = some saved_db;
  entry = secret (zeros 32);
  manager = with_send_interval 800;
}

abbrev draw : Draw
draw = record { fresh_key = []; nonce = []; now = pos 3 }

restore_sessions_lem_example :
    let saved = (load_accounts plain saved_db (secret (zeros 32)) []).0 in
    let (restored, after) = restore_sessions plain zalo draw desktop in
    (restored ≡ all_online plain zalo saved)
    × (account_row "binh" after ≡ (
        if any (is_lost plain zalo "binh") saved
        then map_option mark_reauth (find account_key "binh" saved_db.accounts)
        else find account_key "binh" saved_db.accounts))
    × (is_some (get after.manager "an")
        ≡ (is_some (get desktop.manager "an") || any (is_online_as plain zalo "an") saved))
restore_sessions_lem_example =
    restore_sessions_lem plain zalo draw desktop saved_db "binh" "an" refl
