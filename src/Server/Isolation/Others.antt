-- ===== src/Server/Isolation/Others.antt =====
-- Histories of calls (db.rs), as a user sees them who makes none of them.
use zca_desktop.Common.{ℕ, ◌≡◌, refl, ◌∙◌, ◌≢◌, List, [], ◌∷◌, All}
use zca_desktop.Server.{Db, UserRow, empty}
use zca_desktop.Server.Conversations.{
  update_message, update_message_rich, with_rich, struck, mark_message_deleted, with_sender_avatar,
  update_message_sender_avatar,
}
use zca_desktop.Server.Isolation.{
  Call, link, unlink, set_state, converse, name, store, enrich, strike, picture, keep, perform, run,
  caller, IsHomed, IsInPlace, visible,
}
use zca_desktop.Server.Isolation.Kept.{perform-IsInPlace, run-IsInPlace}
use zca_desktop.Server.Isolation.Untouched.{
  message-visible, link-visible, converse-visible, store-visible, state-visible, keep-visible,
  name-visible,
}
use zca_desktop.Server.Isolation.Unlinking.{unlink-visible}

module _ (owner home : ℕ → ℕ) (user : ℕ) where
  perform-visible :
      (c : Call) (s : Db)
      → IsHomed owner home c
      → caller owner home c ≢ user
      → IsInPlace owner home s
      → visible user (perform c s) ≡ visible user s
  unfolding perform update_message_rich mark_message_deleted update_message_sender_avatar
      update_message with_rich struck with_sender_avatar
  perform-visible (link now id v zalo display_name avatar enc nonce) s homed apart h =
      link-visible owner home user v apart now id zalo display_name avatar enc nonce s
  perform-visible (unlink v account) s homed apart h =
      unlink-visible owner home user v apart account s h
  perform-visible (set_state now account state last_error) s homed apart h =
      state-visible owner home user (owner account) apart now account state last_error s refl h
  perform-visible (converse now id v account thread kind title avatar) s homed apart h =
      converse-visible owner home user v apart now id account thread kind title avatar s homed.0 h
  perform-visible (name v account thread title avatar) s homed apart h =
      name-visible owner home user v apart account thread title avatar s
  perform-visible (store now id v account conversation message) s homed apart h =
      store-visible owner home user v apart now id account conversation message s homed.0 h
  perform-visible (enrich v account msg_id enc nonce) s homed apart h =
      message-visible owner home user v apart account msg_id (with_rich enc nonce) s (λ m. refl)
  perform-visible (strike v account msg_id) s homed apart h =
      message-visible owner home user v apart account msg_id struck s (λ m. refl)
  perform-visible (picture v account msg_id avatar) s homed apart h =
      message-visible owner home user v apart account msg_id (with_sender_avatar avatar) s
        (λ m. refl)
  perform-visible (keep now id v req object_key enc nonce) s homed apart h =
      keep-visible owner home user v apart now id req object_key enc nonce s

  run-visible :
      (calls : List Call) (s : Db)
      → All (IsHomed owner home) calls
      → All (λ c. caller owner home c ≢ user) calls
      → IsInPlace owner home s
      → visible user (run s calls) ≡ visible user s
  unfolding run
  run-visible [] s homed apart h = refl
  run-visible (c ∷ calls) s homed apart h =
      run-visible calls (perform c s) homed.1 apart.1 (perform-IsInPlace owner home c s homed.0 h)
      ∙ perform-visible c s homed.0 apart.0 h

abbrev pub with_users : List UserRow → Db
with_users users = record empty { users = users }

-- From tables with any users and nothing else, after any history of homed calls, a further history of homed calls by other users leaves what a
-- user sees as it was: the user's accounts, conversations, messages and files. A homed call stores
-- a conversation under the account, and a message under the account and conversation, of its user.
pub run-isolated :
    (owner home : ℕ → ℕ) (user : ℕ) (users : List UserRow) (before calls : List Call)
    → All (IsHomed owner home) before
    → All (IsHomed owner home) calls
    → All (λ c. caller owner home c ≢ user) calls
    → visible user (run (run (with_users users) before) calls)
      ≡ visible user (run (with_users users) before)
run-isolated owner home user users before calls early homed apart =
    run-visible owner home user calls (run (with_users users) before) homed apart
      (run-IsInPlace owner home before (with_users users) early (tt, tt, tt))
