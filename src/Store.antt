-- ===== src/Store.antt =====
-- The desktop's local store (apps/desktop/src-tauri/src/store/): its tables as lists of rows with
-- their primary keys. SQL statements run one at a time under the connection's lock, and the
-- database itself does not fail; what the program's own code refuses is an error value. Columns of
-- 64-bit integers are unbounded, and the order of rows that an ORDER BY leaves open is that of
-- insertion.
pub mod Messages
pub mod Accounts
pub mod Restore
pub mod Crypto
pub mod Edits
pub mod Loading
pub mod RecentStickers
pub mod Persist
pub mod Saving
pub mod Dedup
pub mod Recall
pub mod Identities
pub mod Unread
pub mod Incoming
pub mod History
mod Tests
use zca_desktop.Common.{
  ℕ, String, Bool, Option, List, [], ℤ, text_equality, integer_equality, pair_equality,
}
use zca_desktop.Types.{AccountId}

pub record AccountRow : Type 0 where
  pub account_id : AccountId
  pub display_name : Option String
  pub avatar : Option String
  pub state : String
  pub added_at : ℤ
  pub last_login_at : Option ℤ

-- The blob is a list of bytes.
pub record CredentialRow : Type 0 where
  pub account_id : AccountId
  pub enc_blob : List ℕ
  pub updated_at : ℤ

pub record ThreadRow : Type 0 where
  pub account_id : AccountId
  pub thread_id : String
  pub kind : String
  pub title : Option String
  pub avatar : Option String
  pub last_at : Option ℤ
  pub unread : ℕ

pub record MessageRow : Type 0 where
  pub account_id : AccountId
  pub thread_id : String
  pub msg_id : String
  pub from_id : Option String
  pub from_name : Option String
  pub body : Option String
  pub outgoing : Bool
  pub kind : String
  pub ts : Option ℤ
  pub sticker_id : Option ℤ
  pub sticker_cat_id : Option ℤ
  pub sticker_type : Option ℤ
  pub sticker_url : Option String
  pub quote_json : Option String
  pub link_json : Option String
  pub reaction_icon : Option String
  pub deleted : Bool

pub record RecentStickerRow : Type 0 where
  pub account_id : AccountId
  pub sticker_id : ℤ
  pub cat_id : ℤ
  pub sticker_type : ℤ
  pub url : String
  pub used_at : ℤ

pub record AttachmentRow : Type 0 where
  pub account_id : AccountId
  pub msg_id : String
  pub kind : Option String
  pub url : Option String
  pub local_path : Option String
  pub filename : Option String
  pub size : Option ℤ
  pub meta : Option String

pub record Db : Type 0 where
  pub accounts : List AccountRow
  pub credentials : List CredentialRow
  pub threads : List ThreadRow
  pub messages : List MessageRow
  pub attachments : List AttachmentRow
  pub recent_stickers : List RecentStickerRow

-- The tables right after the schema is created.
abbrev pub empty : Db
empty = record {
  accounts = [];
  credentials = [];
  threads = [];
  messages = [];
  attachments = [];
  recent_stickers = [];
}

abbrev pub account_key : AccountRow → AccountId
account_key r = r.account_id

abbrev pub credential_key : CredentialRow → AccountId
credential_key r = r.account_id

abbrev pub thread_key : ThreadRow → AccountId × String
thread_key r = (r.account_id, r.thread_id)

abbrev pub message_key : MessageRow → AccountId × String
message_key r = (r.account_id, r.msg_id)

abbrev pub recent_key : RecentStickerRow → AccountId × ℤ
recent_key r = (r.account_id, r.sticker_id)

pub data StoreError : Type 0 where
  db crypto json : StoreError
