-- ===== src/Server/Hosted/Tests.antt =====
-- The theorems on hosted sessions at concrete inputs, with crates that leave texts as they are.
use zca_desktop.Server.Samples.{plain, plain-Opens, zeros, with_an}
use zca_desktop.Common.{
  ℕ, zero, suc, ◌+◌, ◌≡◌, refl, sym, ap, String, Option, none, some, List, [], ◌∷◌, ◌++◌, map, ok,
  err, length, text_equality, number_equality, pair_equality, codes, arith,
}
use zca_desktop.Common.Map
use zca_desktop.Common.Map.{Map}
use zca_desktop.Common.Table.{find, upsert, update}
use zca_desktop.Session.Throttle.{new}
use zca_desktop.Server.{Bytes, Db}
use zca_desktop.Server.Keys.{seal, open_sealed, unwrap_data_key_for_server}
use zca_desktop.Server.Devices.{user_secrets}
use zca_desktop.Server.Accounts.{
  AccountCredential, credentials_in, upsert_account_credentials, account_view, new_account,
  mark_account_active, update_account_state, set_hosted_session_state, in_state, new_hosted_session,
  stamped,
}
use zca_desktop.Server.Hosted.{QrFlowStatus, new_flow, state, default_manager}
use zca_desktop.Server.Hosted.Throttling.{waits, desktop_waits, waits-eq}
use zca_desktop.Server.Hosted.Qr.{
  HostedProfile, generated, success, trace, store_failed, linked, late_success,
}
use zca_desktop.Common.{select}
use zca_desktop.Server.Hosted.Qr.{HostedQrEvent}
use zca_desktop.Server.Hosted.Qr.Flows.{Move, event, verdict, moves, moves-verdict, own}
use zca_desktop.Server.Hosted.Linking.{data_key_for_user, store_account, open_credentials}
use zca_desktop.Server.Hosted.Linking.Stored.{credential_key}
use zca_desktop.Server.Hosted.Linking.Reopened.{open-store}
use zca_desktop.Server.Hosted.Restoring.{Outside, restore_active_sessions}
use zca_desktop.Server.Hosted.Restoring.Outcomes.{account_state}
use zca_desktop.Server.Hosted.Restoring.Listed.{credential_id}
use zca_desktop.Server.Hosted.Restoring.Independent.{state_after, live_after, restored-each}

abbrev profile : HostedProfile
profile = record { account_id = "z1"; display_name = some "An"; avatar = none }

abbrev json : Bytes → Option Bytes
json b = some b

abbrev linked_db : Db
linked_db = (store_account plain "seed" json json 10 1 7 (zeros 12) (5 ∷ []) profile with_an).1

stored :
    store_account plain "seed" json json 10 1 7 (zeros 12) (5 ∷ []) profile with_an
    ≡ (ok 1, linked_db)
unfolding store_account data_key_for_user user_secrets find unwrap_data_key_for_server open_sealed
    seal upsert_account_credentials account_view new_account upsert mark_account_active
    update_account_state set_hosted_session_state update in_state new_hosted_session stamped
stored = refl

open-store_example :
    (c : AccountCredential) × (find credential_key
        (7, "z1")
        (credentials_in "active" linked_db.cloud_accounts)
      ≡ some c)
    × (c.id ≡ 1)
    × ((open_credentials plain "seed" json json c linked_db).0 ≡ ok (5 ∷ []))
open-store_example =
    open-store plain "seed" json json 10 1 7 (zeros 12) (5 ∷ []) profile with_an linked_db 1
      plain-Opens refl (λ c j e. sym e) stored

-- Two accounts, of which the first one's login answers.
abbrev outside : Outside
outside = record {
  Credentials = Bytes;
  library = plain;
  seed = "seed";
  to_vec = json;
  from_slice = json;
  login = λ c. elim c [ [] ↦ err "refused" | x ∷ xs ↦ ok x ];
  start_message_listener = λ api. ok (api + 1);
  to_string = λ e. "failed";
  restore_login_failed = λ e. e;
  restore_listener_failed = λ e. e;
}

abbrev two_linked : Db
two_linked = record with_an {
  cloud_accounts =
      new_account 10 1 7 "z1" none none (5 ∷ []) (zeros 12)
      ∷ new_account 10 2 7 "z2" none none [] (zeros 12)
      ∷ [];
}

restored-each_example :
    let (n, m', t) = restore_active_sessions outside 20 default_manager two_linked in
    let listed = find credential_id 2 (credentials_in "active" two_linked.cloud_accounts) in
    (account_state 2 t ≡ state_after outside 20 two_linked listed (account_state 2 two_linked))
    × (state 2 m' ≡ live_after outside 20 two_linked listed (state 2 default_manager))
restored-each_example =
    restored-each outside 20 default_manager two_linked 2
      (unfold find new_account in (refl, (refl, tt)))

late_success_example :
    let end =
      trace (generated "qr" ∷ []) store_failed ([] ++ success profile ∷ []) (new_flow 3 7) in
    (end.state ≡ "success")
    × (end.account_id ≡ none)
    × (end.error ≡ some "failed to store linked account")
late_success_example = late_success (generated "qr" ∷ []) [] profile 3 7

abbrev flows : Map ℕ QrFlowStatus
flows = (3, new_flow 3 7) ∷ (4, new_flow 4 8) ∷ []

abbrev interleaved : List Move
interleaved = event 3 (generated "a") ∷ event 4 (generated "b") ∷ verdict 3 (linked 1) ∷ []

own-interleaved :
    own 3 interleaved
    ≡ map (event 3) (generated "a" ∷ []) ++ verdict 3 (linked 1) ∷ (map (event 3) [] ++ [])
unfolding own select
own-interleaved = refl

moves-verdict_example :
    (end : QrFlowStatus) × (Map.get 3 (moves interleaved flows) ≡ some end)
    × (end.account_id ≡ some 1)
    × (end.error ≡ none)
    × (end.user_id ≡ 7)
    × (◌≡◌ {A = List HostedQrEvent} [] [] → end.state ≡ "success")
moves-verdict_example =
    moves-verdict 3 7 interleaved flows (generated "a" ∷ []) [] (linked 1)
      (unfold Map.get find in refl) own-interleaved

-- Ids in strokes.
spell : ℕ → String
spell zero = String.[]
spell (suc n) = String.◌∷◌ "i" (spell n)

length-spell : (n : ℕ) → length (codes (spell n)) ≡ n
unfolding spell
length-spell zero = refl
length-spell (suc n) = ap suc (length-spell n)

spell-injective : (a b : ℕ) → spell a ≡ spell b → a ≡ b
spell-injective a b e =
    let lengths : length (codes (spell a)) ≡ length (codes (spell b)) =
      ap (λ s. length (codes s)) e in
    grind (arith, length-spell a, length-spell b, lengths)

waits-eq_example :
    waits (record { interval = 800; next_allowed = [] }) ((1, 100) ∷ (1, 200) ∷ [])
    ≡ desktop_waits (new 800) (map (λ (c : ℕ × ℕ). (spell c.0, c.1)) ((1, 100) ∷ (1, 200) ∷ []))
waits-eq_example = waits-eq spell spell-injective 800 ((1, 100) ∷ (1, 200) ∷ [])
