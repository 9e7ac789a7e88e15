-- ===== src/Server/Conversations.antt =====
-- Conversations, messages and files (db.rs): what a hosted session stores, and what a device reads.
use zca_desktop.Common.{
  ℕ, String, Bool, true, false, not, ◌&&◌, Option, none, some, List, if◌then◌else◌, ◌==◌,
  text_equality, number_equality, pair_equality, is_some, or_else, select, take, ltb, ℤ, pos,
  negsuc, neg_ℤ, ok, err,
}
use zca_desktop.Common.Table.{find, upsert, update, merged}
use zca_desktop.Common.Table.Order.{order_by}
use zca_desktop.Server.{AppError, Bytes, Db, ConversationRow, MessageRow}
use zca_desktop.Server.Handler.{Handler, ◌>>=◌, return}
use zca_desktop.Server.Accounts.{account_id}

-- UNIQUE(account_id, thread_id)
abbrev pub thread_key : ConversationRow → ℕ × String
thread_key c = (c.account_id, c.thread_id)

-- user_id = $1 AND account_id = $2 AND thread_id = $3
abbrev pub thread_owner : ConversationRow → ℕ × (ℕ × String)
thread_owner c = (c.user_id, thread_key c)

abbrev pub conversation_id : ConversationRow → ℕ
conversation_id c = c.id

-- UNIQUE(account_id, msg_id)
abbrev pub message_key : MessageRow → ℕ × String
message_key m = (m.account_id, m.msg_id)

-- user_id = $1 AND account_id = $2 AND msg_id = $3
abbrev pub message_owner : MessageRow → ℕ × (ℕ × String)
message_owner m = (m.user_id, message_key m)

unfoldable pub new_conversation :
    ℕ → ℕ → ℕ → ℕ → String → String → Option String → Option String → ConversationRow
new_conversation now id user account thread kind title avatar = record {
  id = id;
  user_id = user;
  account_id = account;
  thread_id = thread;
  kind = kind;
  title = title;
  avatar = avatar;
  last_at = some now;
  unread = 0;
}

unfoldable pub refreshed :
    ℕ → String → Option String → Option String → ConversationRow → ConversationRow
refreshed now kind title avatar c = record c {
  kind = kind;
  title = or_else title c.title;
  avatar = or_else avatar c.avatar;
  last_at = some now;
}

-- `id` is the id that the database makes for a new row.
unfoldable pub upsert_conversation :
    ℕ → ℕ → ℕ → ℕ → String → String → Option String → Option String → Handler ℕ
upsert_conversation now id user account thread kind title avatar s =
    let row = new_conversation now id user account thread kind title avatar in
    let refresh = refreshed now kind title avatar in
    if is_some (find account_id account s.cloud_accounts)
    then (
      ok (conversation_id (merged row refresh (find thread_key (account, thread) s.conversations))),
      record s { conversations = upsert thread_key row refresh s.conversations },
    )
    else (err AppError.db, s)

unfoldable pub named : Option String → Option String → ConversationRow → ConversationRow
named title avatar c = record c { title = or_else title c.title; avatar = or_else avatar c.avatar }

unfoldable pub update_conversation_metadata :
    ℕ → ℕ → String → Option String → Option String → Handler (Unit {0})
update_conversation_metadata user account thread title avatar s = (
  ok tt,
  record s {
    conversations =
        update thread_owner (user, (account, thread)) (named title avatar) s.conversations;
  },
)

-- COALESCE(last_at, '-infinity') DESC
unfoldable pub last_active_first : ConversationRow → ℤ
last_active_first c = elim c.last_at [ none ↦ pos 1 | some t ↦ neg_ℤ (pos t) ]

unfoldable pub is_listed : ℕ → Option ℕ → ConversationRow → Bool
is_listed user none c = c.user_id == user && not (c.thread_id == "")
is_listed user (some account) c =
    c.user_id == user && (c.account_id == account && not (c.thread_id == ""))

unfoldable pub list_conversations : ℕ → Option ℕ → Db → List ConversationRow
list_conversations user account s =
    order_by last_active_first (select (is_listed user account) s.conversations)

-- A message to store; ciphertexts and nonces are made by the caller.
pub record NewMessage : Type 0 where
  pub msg_id : String
  pub from_id : Option String
  pub from_name : Option String
  pub from_avatar : Option String
  pub enc_body : Option Bytes
  pub body_nonce : Option Bytes
  pub enc_rich : Option Bytes
  pub rich_nonce : Option Bytes
  pub outgoing : Bool
  pub kind : String
  pub z_ts : Option String

unfoldable pub new_message : ℕ → ℕ → ℕ → ℕ → ℕ → NewMessage → MessageRow
new_message now id user account conversation m = record {
  id = id;
  user_id = user;
  account_id = account;
  conversation_id = conversation;
  msg_id = m.msg_id;
  from_id = m.from_id;
  from_name = m.from_name;
  from_avatar = m.from_avatar;
  enc_body = m.enc_body;
  body_nonce = m.body_nonce;
  enc_rich = m.enc_rich;
  rich_nonce = m.rich_nonce;
  outgoing = m.outgoing;
  kind = m.kind;
  z_ts = m.z_ts;
  observed_at = now;
  deleted = false;
}

unfoldable pub seen_again : NewMessage → MessageRow → MessageRow
seen_again m r = record r {
  from_avatar = or_else m.from_avatar r.from_avatar;
  enc_rich = or_else m.enc_rich r.enc_rich;
  rich_nonce = or_else m.rich_nonce r.rich_nonce;
}

unfoldable pub insert_message_ciphertext : ℕ → ℕ → ℕ → ℕ → ℕ → NewMessage → Handler ℕ
insert_message_ciphertext now id user account conversation m s =
    let row = new_message now id user account conversation m in
    if is_some (find account_id account s.cloud_accounts)
      && is_some (find conversation_id conversation s.conversations)
    then (
      ok (elim (find message_key (account, m.msg_id) s.messages) [ none ↦ id | some r ↦ r.id ]),
      record s { messages = upsert message_key row (seen_again m) s.messages },
    )
    else (err AppError.db, s)

-- `limit.clamp(1, 500)`
unfoldable pub clamp_limit : ℤ → ℕ
clamp_limit (pos n) = if ltb n 1 then 1 else if ltb 500 n then 500 else n
clamp_limit (negsuc n) = 1

unfoldable pub last_observed_first : MessageRow → ℤ
last_observed_first m = neg_ℤ (pos m.observed_at)

unfoldable pub list_messages : ℕ → ℕ → ℤ → Db → List MessageRow
list_messages user conversation limit s = take (clamp_limit limit) (
    order_by last_observed_first
      (select (λ m. m.user_id == user && (m.conversation_id == conversation)) s.messages))

-- UPDATE messages … WHERE the message is the user's; tells whether a row was changed.
unfoldable pub update_message : ℕ → ℕ → String → (MessageRow → MessageRow) → Handler Bool
update_message user account msg_id f s = (
  ok (is_some (find message_owner (user, (account, msg_id)) s.messages)),
  record s { messages = update message_owner (user, (account, msg_id)) f s.messages },
)

unfoldable pub with_rich : Bytes → Bytes → MessageRow → MessageRow
with_rich enc nonce m = record m { enc_rich = some enc; rich_nonce = some nonce }

unfoldable pub update_message_rich : ℕ → ℕ → String → Bytes → Bytes → Handler Bool
update_message_rich user account msg_id enc nonce =
    update_message user account msg_id (with_rich enc nonce)

-- The two columns, of a message that is there.
unfoldable pub message_rich_ciphertext :
    ℕ → ℕ → String → Handler (Option (Option Bytes × Option Bytes))
message_rich_ciphertext user account msg_id s = (
  ok (elim (find message_owner (user, (account, msg_id)) s.messages) [
    | none ↦ none
    | some m ↦ some (m.enc_rich, m.rich_nonce)
  ]),
  s,
)

unfoldable pub struck : MessageRow → MessageRow
struck m = record m { deleted = true }

unfoldable pub mark_message_deleted : ℕ → ℕ → String → Handler Bool
mark_message_deleted user account msg_id = update_message user account msg_id struck

unfoldable pub with_sender_avatar : String → MessageRow → MessageRow
with_sender_avatar avatar m = record m { from_avatar = some avatar }

unfoldable pub update_message_sender_avatar : ℕ → ℕ → String → String → Handler (Unit {0})
update_message_sender_avatar user account msg_id avatar =
    update_message user account msg_id (with_sender_avatar avatar) >>= λ changed. return tt
