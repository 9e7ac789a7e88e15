-- ===== src/Types.antt =====
-- The desktop's `types` layer (apps/desktop/src-tauri/src/types/): the data that the other layers
-- exchange. Signed 64-bit fields are unbounded integers, and texts are native strings.
use zca_desktop.Common.{String, Bool, Option, ℤ, ℕ}

abbrev pub AccountId : Type 0
AccountId = String

pub data ThreadKind : Type 0 where
  user group : ThreadKind

pub record Sticker : Type 0 where
  pub id : ℤ
  pub cat_id : ℤ
  pub sticker_type : ℤ
  pub url : String

pub record LinkPreview : Type 0 where
  pub href : String
  pub title : Option String
  pub description : Option String
  pub thumb : Option String

-- The message that a reply quotes, as it came in.
pub record QuoteRef : Type 0 where
  pub owner_id : String
  pub from_d : String
  pub global_msg_id : ℤ
  pub cli_msg_id : ℤ
  pub msg : String
  pub cli_msg_type : ℤ
  pub ts : ℤ

-- The message that a reply quotes, as the UI sends it.
pub record QuoteInput : Type 0 where
  pub content : String
  pub msg_type : String
  pub uid_from : String
  pub msg_id : String
  pub cli_msg_id : String
  pub ts : ℤ
  pub ttl : ℤ

pub record ReactionEvent : Type 0 where
  pub thread_id : String
  pub msg_id : String
  pub uid_from : String
  pub d_name : Option String
  pub icon : String
  pub is_self : Bool
  pub is_group : Bool

pub record UndoEvent : Type 0 where
  pub thread_id : String
  pub msg_id : String
  pub cli_msg_id : String
  pub is_self : Bool
  pub is_group : Bool

pub record IncomingMessage : Type 0 where
  pub account_id : AccountId
  pub thread_id : String
  pub thread_kind : ThreadKind
  pub from_id : String
  pub from_name : Option String
  pub text : Option String
  pub sticker : Option Sticker
  pub reaction : Option ReactionEvent
  pub quote : Option QuoteRef
  pub link : Option LinkPreview
  pub undo : Option UndoEvent
  pub msg_id : String
  pub timestamp : String
  pub is_self : Bool

pub record AccountProfile : Type 0 where
  pub account_id : AccountId
  pub display_name : Option String
  pub avatar : Option String

pub record StoredThread : Type 0 where
  pub account_id : AccountId
  pub thread_id : String
  pub kind : ThreadKind
  pub title : Option String
  pub avatar : Option String
  pub last_at : Option ℤ
  pub unread : ℕ

pub record StoredMessage : Type 0 where
  pub account_id : AccountId
  pub thread_id : String
  pub msg_id : String
  pub from_id : Option String
  pub from_name : Option String
  pub body : Option String
  pub sticker : Option Sticker
  pub quote : Option QuoteRef
  pub link : Option LinkPreview
  pub reaction_icon : Option String
  pub deleted : Bool
  pub outgoing : Bool
  pub ts : Option ℤ

pub record ThreadIdentity : Type 0 where
  pub thread_id : String
  pub title : Option String
  pub avatar : Option String
