-- ===== src/Server/Isolation/Kept.antt =====
-- The calls keep every row in its place.
use zca_desktop.Common.{
  text_equality, number_equality, pair_equality, ℕ, ◌≡◌, String, Option, ◌||◌, not, List, [], ◌∷◌,
  All, Bool-cases, inl, inr, is_some, ◌&&◌,
}
use zca_desktop.Common.Table.{find}
use zca_desktop.Common.Table.Selecting.{All-select, All-update, All-upsert, All-delete}
use zca_desktop.Server.{Bytes, Db, MessageRow, user_id}
use zca_desktop.Server.Accounts.{
  account_id, owner_key, zalo_key, new_account, relinked, upsert_account_credentials, in_state,
  update_account_state, set_hosted_session_state, set_account_state, delete_account,
}
use zca_desktop.Server.Conversations.{
  thread_key, thread_owner, message_key, message_owner, conversation_id, new_conversation,
  refreshed, NewMessage, upsert_conversation, named, update_conversation_metadata, new_message,
  seen_again, insert_message_ciphertext, update_message, update_message_rich, with_rich, struck,
  mark_message_deleted, with_sender_avatar, update_message_sender_avatar,
}
use zca_desktop.Server.Files.{insert_file, file_object, has_references, FileInitRequest}
use zca_desktop.Server.Isolation.{
  Call, link, unlink, set_state, converse, name, store, enrich, strike, picture, keep, perform, run,
  IsHomed, IsInPlace, AccountInPlace, ConversationInPlace, MessageInPlace,
}

module _ (owner home : ℕ → ℕ) where
  session-IsInPlace :
      (now account : ℕ) (state : String) (last_error : Option String) (s : Db)
      → IsInPlace owner home s
      → IsInPlace owner home (set_hosted_session_state now account state last_error s).1
  unfolding set_hosted_session_state
  session-IsInPlace now account state last_error s h =
      elim (Bool-cases (is_some (find account_id account s.cloud_accounts))) [
        | inl there ↦ rw there h
        | inr missing ↦ rw missing h
      ]

  message-IsInPlace :
      (user account : ℕ) (msg_id : String) (f : MessageRow → MessageRow) (s : Db)
      → ((m : MessageRow) → MessageInPlace owner home m → MessageInPlace owner home (f m))
      → IsInPlace owner home s
      → IsInPlace owner home (update_message user account msg_id f s).1
  unfolding update_message
  message-IsInPlace user account msg_id f s keeps (accounts, conversations, messages) =
      (accounts, conversations, All-update message_owner f keeps _ _ messages)

  link-IsInPlace :
      (now id user : ℕ) (zalo : String) (display_name avatar : Option String) (enc nonce : Bytes)
      (s : Db)
      → owner id ≡ user
      → IsInPlace owner home s
      → IsInPlace owner home
          (upsert_account_credentials now id user zalo display_name avatar enc nonce s).1
  unfolding upsert_account_credentials new_account relinked
  link-IsInPlace now id user zalo display_name avatar enc nonce s homed h =
      elim (Bool-cases (is_some (find user_id user s.users))) [
        | inr missing ↦ rw missing h
        | inl there ↦ rw there (
          All-upsert zalo_key {P = AccountInPlace owner home} _ (λ r k. k) _ _ homed h.0,
          h.1,
          h.2,
        )
      ]

  converse-IsInPlace :
      (now id user account : ℕ) (thread kind : String) (title avatar : Option String) (s : Db)
      → owner account ≡ user
      → home id ≡ account
      → IsInPlace owner home s
      → IsInPlace owner home (upsert_conversation now id user account thread kind title avatar s).1
  unfolding upsert_conversation new_conversation refreshed
  converse-IsInPlace now id user account thread kind title avatar s owned at h =
      elim (Bool-cases (is_some (find account_id account s.cloud_accounts))) [
        | inr missing ↦ rw missing h
        | inl there ↦ rw there (
          h.0,
          All-upsert thread_key {P = ConversationInPlace owner home} _ (λ c k. k) _ _ (owned, at)
              h.1,
          h.2,
        )
      ]

  store-IsInPlace :
      (now id user account conversation : ℕ) (m : NewMessage) (s : Db)
      → owner account ≡ user
      → home conversation ≡ account
      → IsInPlace owner home s
      → IsInPlace owner home (insert_message_ciphertext now id user account conversation m s).1
  unfolding insert_message_ciphertext new_message seen_again
  store-IsInPlace now id user account conversation m s owned at h =
      elim (Bool-cases (
        is_some (find account_id account s.cloud_accounts)
        && is_some (find conversation_id conversation s.conversations))) [
          | inr missing ↦ rw missing h
          | inl there ↦ rw there (
            h.0,
            h.1,
            All-upsert message_key {P = MessageInPlace owner home} _ (λ r k. k) _ _ (owned, at) h.2,
          )
        ]

  unlink-IsInPlace :
      (user account : ℕ) (s : Db)
      → IsInPlace owner home s
      → IsInPlace owner home (delete_account user account s).1
  unfolding delete_account
  unlink-IsInPlace user account s h =
      elim (Bool-cases (is_some (find owner_key (user, account) s.cloud_accounts))) [
        | inr missing ↦ rw missing h
        | inl there ↦ rw there (
          All-delete owner_key (AccountInPlace owner home) _ _ h.0,
          All-select (ConversationInPlace owner home) _ _ h.1,
          All-select (MessageInPlace owner home) _ _ h.2,
        )
      ]

  keep-IsInPlace :
      (now id user : ℕ) (req : FileInitRequest) (object_key : String) (enc nonce : Bytes) (s : Db)
      → IsInPlace owner home s
      → IsInPlace owner home (insert_file now id user req object_key enc nonce s).1
  unfolding insert_file
  keep-IsInPlace now id user req object_key enc nonce s h =
      elim (Bool-cases
        (is_some (find file_object object_key s.files) || not (has_references req s))) [
          | inl fails ↦ rw fails h
          | inr fine ↦ rw fine h
        ]

  pub perform-IsInPlace :
      (c : Call) (s : Db)
      → IsHomed owner home c
      → IsInPlace owner home s
      → IsInPlace owner home (perform c s)
  unfolding perform
  perform-IsInPlace (link now id user zalo display_name avatar enc nonce) s homed h =
      link-IsInPlace now id user zalo display_name avatar enc nonce s homed h
  perform-IsInPlace (unlink user account) s homed h = unlink-IsInPlace user account s h
  perform-IsInPlace (set_state now account state last_error) s homed h =
      unfold set_account_state update_account_state in_state in
      session-IsInPlace now account state last_error _
        (All-update account_id {P = AccountInPlace owner home} _ (λ r k. k) _ _ h.0, h.1, h.2)
  perform-IsInPlace (converse now id user account thread kind title avatar) s homed h =
      converse-IsInPlace now id user account thread kind title avatar s homed.0 homed.1 h
  perform-IsInPlace (name user account thread title avatar) s homed h =
      unfold update_conversation_metadata named in
      (h.0, All-update thread_owner {P = ConversationInPlace owner home} _ (λ c k. k) _ _ h.1, h.2)
  perform-IsInPlace (store now id user account conversation message) s homed h =
      store-IsInPlace now id user account conversation message s homed.0 homed.1 h
  perform-IsInPlace (enrich user account msg_id enc nonce) s homed h =
      unfold update_message_rich with_rich in message-IsInPlace user account msg_id _ s (λ m k. k) h
  perform-IsInPlace (strike user account msg_id) s homed h =
      unfold mark_message_deleted struck in message-IsInPlace user account msg_id _ s (λ m k. k) h
  perform-IsInPlace (picture user account msg_id avatar) s homed h =
      unfold update_message_sender_avatar update_message with_sender_avatar in
      (h.0, h.1, All-update message_owner {P = MessageInPlace owner home} _ (λ m k. k) _ _ h.2)
  perform-IsInPlace (keep now id user req object_key enc nonce) s homed h =
      keep-IsInPlace now id user req object_key enc nonce s h

  pub run-IsInPlace :
      (calls : List Call) (s : Db)
      → All (IsHomed owner home) calls
      → IsInPlace owner home s
      → IsInPlace owner home (run s calls)
  unfolding run
  run-IsInPlace [] s homed h = h
  run-IsInPlace (c ∷ calls) s homed h =
      run-IsInPlace calls (perform c s) homed.1 (perform-IsInPlace c s homed.0 h)
