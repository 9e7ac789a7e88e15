-- ===== src/Server/Isolation.antt =====
-- One user's data against another's calls (db.rs): histories of the statements on accounts,
-- conversations, messages and files, each made for a user or for an account.
pub mod Kept
pub mod Untouched
pub mod Unlinking
pub mod Others
mod Tests
use zca_desktop.Common.{
  ℕ, String, ◌≡◌, ◌==◌, number_equality, Option, List, [], ◌∷◌, map, select, All,
}
use zca_desktop.Server.{Bytes, Db, CloudAccountRow, ConversationRow, MessageRow, FileRow}
use zca_desktop.Server.Accounts.{upsert_account_credentials, delete_account, set_account_state}
use zca_desktop.Server.Conversations.{
  upsert_conversation, update_conversation_metadata, NewMessage, insert_message_ciphertext,
  update_message_rich, mark_message_deleted, update_message_sender_avatar,
}
use zca_desktop.Server.Files.{FileInitRequest, FileView, file_view, insert_file}

-- The statements that change these tables, with their arguments.
pub data Call : Type 0 where
  link :
      (now id user : ℕ) (zalo : String) (display_name avatar : Option String) (enc nonce : Bytes)
      → Call
  unlink : (user account : ℕ) → Call
  set_state : (now account : ℕ) (state : String) (last_error : Option String) → Call
  converse : (now id user account : ℕ) (thread kind : String) (title avatar : Option String) → Call
  name : (user account : ℕ) (thread : String) (title avatar : Option String) → Call
  store : (now id user account conversation : ℕ) (message : NewMessage) → Call
  enrich : (user account : ℕ) (msg_id : String) (enc nonce : Bytes) → Call
  strike : (user account : ℕ) (msg_id : String) → Call
  picture : (user account : ℕ) (msg_id avatar : String) → Call
  keep : (now id user : ℕ) (req : FileInitRequest) (object_key : String) (enc nonce : Bytes) → Call

unfoldable pub perform : Call → Db → Db
perform (link now id user zalo display_name avatar enc nonce) s =
    (upsert_account_credentials now id user zalo display_name avatar enc nonce s).1
perform (unlink user account) s = (delete_account user account s).1
perform (set_state now account state last_error) s =
    (set_account_state now account state last_error s).1
perform (converse now id user account thread kind title avatar) s =
    (upsert_conversation now id user account thread kind title avatar s).1
perform (name user account thread title avatar) s =
    (update_conversation_metadata user account thread title avatar s).1
perform (store now id user account conversation message) s =
    (insert_message_ciphertext now id user account conversation message s).1
perform (enrich user account msg_id enc nonce) s =
    (update_message_rich user account msg_id enc nonce s).1
perform (strike user account msg_id) s = (mark_message_deleted user account msg_id s).1
perform (picture user account msg_id avatar) s =
    (update_message_sender_avatar user account msg_id avatar s).1
perform (keep now id user req object_key enc nonce) s =
    (insert_file now id user req object_key enc nonce s).1

unfoldable pub run : Db → List Call → Db
run s [] = s
run s (c ∷ calls) = run (perform c s) calls

-- Whose an account is, by its id, and whose account a conversation is of.
module _ (owner home : ℕ → ℕ) where
  -- The user that a call is made for.
  abbrev pub caller : Call → ℕ
  caller (link now id user zalo display_name avatar enc nonce) = user
  caller (unlink user account) = user
  caller (set_state now account state last_error) = owner account
  caller (converse now id user account thread kind title avatar) = user
  caller (name user account thread title avatar) = user
  caller (store now id user account conversation message) = user
  caller (enrich user account msg_id enc nonce) = user
  caller (strike user account msg_id) = user
  caller (picture user account msg_id avatar) = user
  caller (keep now id user req object_key enc nonce) = user

  -- A session stores under its own account and user, and an id is never given out again to others.
  abbrev pub IsHomed : Call → Type 0
  IsHomed (link now id user zalo display_name avatar enc nonce) = owner id ≡ user
  IsHomed (converse now id user account thread kind title avatar) =
      (owner account ≡ user) × (home id ≡ account)
  IsHomed (store now id user account conversation message) =
      (owner account ≡ user) × (home conversation ≡ account)
  IsHomed _ = Unit

  abbrev pub AccountInPlace : CloudAccountRow → Type 0
  AccountInPlace r = owner r.id ≡ r.user_id

  abbrev pub ConversationInPlace : ConversationRow → Type 0
  ConversationInPlace c = (owner c.account_id ≡ c.user_id) × (home c.id ≡ c.account_id)

  abbrev pub MessageInPlace : MessageRow → Type 0
  MessageInPlace m = (owner m.account_id ≡ m.user_id) × (home m.conversation_id ≡ m.account_id)

  -- Every row is its account's owner's.
  abbrev pub IsInPlace : Db → Type 0
  IsInPlace s =
      All AccountInPlace s.cloud_accounts
      × All ConversationInPlace s.conversations
      × All MessageInPlace s.messages

-- What the queries of a user can see.
pub record Visible : Type 0 where
  pub cloud_accounts : List CloudAccountRow
  pub conversations : List ConversationRow
  pub messages : List MessageRow
  pub files : List FileView

abbrev pub visible : ℕ → Db → Visible
visible user s = record {
  cloud_accounts = select (λ r. r.user_id == user) s.cloud_accounts;
  conversations = select (λ c. c.user_id == user) s.conversations;
  messages = select (λ m. m.user_id == user) s.messages;
  files = map file_view (select (λ f. f.user_id == user) s.files);
}
