-- ===== src/Store/Messages.antt =====
-- Saving messages (store/db.rs): echo reconciliation, the message's row, its thread's row.
use zca_desktop.Common.{
  ℕ, ◌+◌, String, Bool, false, not, ◌&&◌, Option, none, some, ℤ, pos, if◌then◌else◌, leb, ◌==◌,
  text_equality, integer_equality, pair_equality, is_some, or_else, unwrap_or, distance, max_ℤ, any,
  Result, ok, err, ◌>>=◌,
}
use zca_desktop.Common.Table.{find, insert_or_ignore, upsert}
use zca_desktop.Types.{AccountId, Sticker, QuoteRef, LinkPreview}
use zca_desktop.Store.{Db, MessageRow, ThreadRow, StoreError, json, message_key, thread_key}

-- `serde_json` on the two payloads that a message row keeps as text.
pub record Json : Type 0 where
  pub quote_to_string : QuoteRef → Option String
  pub quote_from_str : String → Option QuoteRef
  pub link_to_string : LinkPreview → Option String
  pub link_from_str : String → Option LinkPreview

-- The arguments of `save_message_with_rich`.
pub record TextMessage : Type 0 where
  pub account_id : AccountId
  pub thread_id : String
  pub kind : String
  pub msg_id : String
  pub from_id : Option String
  pub from_name : Option String
  pub body : Option String
  pub outgoing : Bool
  pub ts : Option ℤ
  pub thread_title : Option String
  pub thread_avatar : Option String
  pub bump_unread : Bool
  pub quote : Option QuoteRef
  pub link : Option LinkPreview

-- The arguments of `save_sticker_message_with_rich`.
pub record StickerMessage : Type 0 where
  pub account_id : AccountId
  pub thread_id : String
  pub kind : String
  pub msg_id : String
  pub from_id : Option String
  pub from_name : Option String
  pub sticker : Sticker
  pub outgoing : Bool
  pub ts : Option ℤ
  pub thread_title : Option String
  pub thread_avatar : Option String
  pub bump_unread : Bool
  pub quote : Option QuoteRef

abbrev pub echo_window_ms : ℕ
echo_window_ms = 15000

-- `quote.map(serde_json::to_string).transpose()?`
unfoldable pub transpose_json {ℓ} :
    {A : Type ℓ} → (A → Option String) → Option A → Result StoreError (Option String)
transpose_json to_string none = ok none
transpose_json to_string (some a) = elim (to_string a) [ some s ↦ ok (some s) | none ↦ err json ]

-- The rows that the echo query of a text counts.
unfoldable pub is_text_echo : TextMessage → String → ℤ → MessageRow → Bool
is_text_echo m text stamp r =
    r.account_id == m.account_id
    && r.thread_id == m.thread_id
    && r.outgoing
    && elim r.body [ none ↦ false | some body ↦ body == text ]
    && not (r.msg_id == m.msg_id)
    && leb (distance (unwrap_or r.ts (pos 0)) stamp) echo_window_ms

unfoldable pub has_text_echo : Db → TextMessage → Bool
has_text_echo db m = m.outgoing && elim m.body [
  | none ↦ false
  | some text ↦ elim m.ts [
    | none ↦ false
    | some stamp ↦ any (is_text_echo m text stamp) db.messages
  ]
]

-- The rows that the echo query of a sticker counts.
unfoldable pub is_sticker_echo : StickerMessage → ℤ → MessageRow → Bool
is_sticker_echo m stamp r =
    r.account_id == m.account_id
    && r.thread_id == m.thread_id
    && r.outgoing
    && r.kind == "sticker"
    && elim r.sticker_id [ none ↦ false | some id ↦ id == m.sticker.id ]
    && not (r.msg_id == m.msg_id)
    && leb (distance (unwrap_or r.ts (pos 0)) stamp) echo_window_ms

unfoldable pub has_sticker_echo : Db → StickerMessage → Bool
has_sticker_echo db m =
    m.outgoing
    && elim m.ts [ none ↦ false | some stamp ↦ any (is_sticker_echo m stamp) db.messages ]

-- The row that the INSERT into `threads` proposes.
unfoldable pub new_thread :
    AccountId → String → String → Option String → Option String → Option ℤ → Bool → ThreadRow
new_thread account thread kind title avatar ts bump_unread = record {
  account_id = account;
  thread_id = thread;
  kind = kind;
  title = title;
  avatar = avatar;
  last_at = ts;
  unread = if bump_unread then 1 else 0;
}

-- ON CONFLICT(account_id, thread_id) DO UPDATE
unfoldable pub merge_thread : ThreadRow → ThreadRow → ThreadRow
merge_thread excluded r = record r {
  kind = excluded.kind;
  title = or_else excluded.title r.title;
  avatar = or_else excluded.avatar r.avatar;
  last_at = some (max_ℤ (unwrap_or excluded.last_at (pos 0)) (unwrap_or r.last_at (pos 0)));
  unread = r.unread + excluded.unread;
}

-- The INSERT of a message; the thread is touched only if the message is new.
unfoldable pub insert_message : Db → MessageRow → ThreadRow → Db
insert_message db row thread =
    if is_some (find message_key (message_key row) db.messages) then db else record db {
      messages = insert_or_ignore message_key row db.messages;
      threads = upsert thread_key thread (merge_thread thread) db.threads;
    }

unfoldable pub text_row : TextMessage → Option String → Option String → MessageRow
text_row m quote_json link_json = record {
  account_id = m.account_id;
  thread_id = m.thread_id;
  msg_id = m.msg_id;
  from_id = m.from_id;
  from_name = m.from_name;
  body = m.body;
  outgoing = m.outgoing;
  kind = "text";
  ts = m.ts;
  sticker_id = none;
  sticker_cat_id = none;
  sticker_type = none;
  sticker_url = none;
  quote_json = quote_json;
  link_json = link_json;
  reaction_icon = none;
  deleted = false;
}

unfoldable pub sticker_row : StickerMessage → Option String → MessageRow
sticker_row m quote_json = record {
  account_id = m.account_id;
  thread_id = m.thread_id;
  msg_id = m.msg_id;
  from_id = m.from_id;
  from_name = m.from_name;
  body = some "[Sticker]";
  outgoing = m.outgoing;
  kind = "sticker";
  ts = m.ts;
  sticker_id = some m.sticker.id;
  sticker_cat_id = some m.sticker.cat_id;
  sticker_type = some m.sticker.sticker_type;
  sticker_url = some m.sticker.url;
  quote_json = quote_json;
  link_json = none;
  reaction_icon = none;
  deleted = false;
}

module _ (j : Json) where
  unfoldable pub save_message_with_rich : Db → TextMessage → Result StoreError Db
  save_message_with_rich db m = do
    quote_json ← transpose_json j.quote_to_string m.quote
    link_json ← transpose_json j.link_to_string m.link
    ok (
        if has_text_echo db m
        then db
        else insert_message db (text_row m quote_json link_json) (
            new_thread m.account_id m.thread_id m.kind m.thread_title m.thread_avatar m.ts
              m.bump_unread))

  -- `save_message`: no quote and no link.
  unfoldable pub save_message : Db → TextMessage → Result StoreError Db
  unfolding save_message_with_rich
  save_message db m = save_message_with_rich db (record m { quote = none; link = none })

  unfoldable pub save_sticker_message_with_rich : Db → StickerMessage → Result StoreError Db
  save_sticker_message_with_rich db m = do
    quote_json ← transpose_json j.quote_to_string m.quote
    ok (
        if has_sticker_echo db m
        then db
        else insert_message db (sticker_row m quote_json) (
            new_thread m.account_id m.thread_id m.kind m.thread_title m.thread_avatar m.ts
              m.bump_unread))

  -- `save_sticker_message`: no quote.
  unfoldable pub save_sticker_message : Db → StickerMessage → Result StoreError Db
  unfolding save_sticker_message_with_rich
  save_sticker_message db m = save_sticker_message_with_rich db (record m { quote = none })
