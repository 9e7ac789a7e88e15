-- ===== src/Server/Rows.antt =====
-- The rows of the server's tables (apps/server/migrations/, and the structs of db.rs), without the
-- columns that nothing reads. An id is a number.
use zca_desktop.Common.{ℕ, String, Bool, Option, List}

abbrev pub Bytes : Type 0
Bytes = List ℕ

pub record UserRow : Type 0 where
  pub id : ℕ
  pub email : String
  pub recovery_key_hash : String
  pub wrapped_data_key : Bytes
  pub server_key_nonce : Bytes
  pub server_wrapped_data_key : Bytes

pub record MagicLinkRow : Type 0 where
  pub email : String
  pub token_hash : String
  pub expires_at : ℕ
  pub used_at : Option ℕ
  pub created_at : ℕ

pub record DeviceRow : Type 0 where
  pub id : ℕ
  pub user_id : ℕ
  pub name : String
  pub token_hash : String
  pub revoked_at : Option ℕ
  pub created_at : ℕ
  pub last_seen_at : Option ℕ

-- An audit event, without its `meta`.
pub record AuditEvent : Type 0 where
  pub user_id : Option ℕ
  pub device_id : Option ℕ
  pub event_kind : String
  pub subject_id : Option ℕ

pub record CloudAccountRow : Type 0 where
  pub id : ℕ
  pub user_id : ℕ
  pub zalo_account_id : String
  pub display_name : Option String
  pub avatar : Option String
  pub state : String
  pub enc_credentials : Option Bytes
  pub credentials_nonce : Option Bytes
  pub updated_at : ℕ

pub record HostedSessionRow : Type 0 where
  pub account_id : ℕ
  pub state : String
  pub generation : ℕ
  pub started_at : Option ℕ
  pub stopped_at : Option ℕ
  pub last_error : Option String

pub record ConversationRow : Type 0 where
  pub id : ℕ
  pub user_id : ℕ
  pub account_id : ℕ
  pub thread_id : String
  pub kind : String
  pub title : Option String
  pub avatar : Option String
  pub last_at : Option ℕ
  pub unread : ℕ

pub record MessageRow : Type 0 where
  pub id : ℕ
  pub user_id : ℕ
  pub account_id : ℕ
  pub conversation_id : ℕ
  pub msg_id : String
  pub from_id : Option String
  pub from_name : Option String
  pub from_avatar : Option String
  pub enc_body : Option Bytes
  pub body_nonce : Option Bytes
  pub enc_rich : Option Bytes
  pub rich_nonce : Option Bytes
  pub outgoing : Bool
  pub kind : String
  pub z_ts : Option String
  pub observed_at : ℕ
  pub deleted : Bool

pub record FileRow : Type 0 where
  pub id : ℕ
  pub user_id : ℕ
  pub account_id : Option ℕ
  pub conversation_id : Option ℕ
  pub message_id : Option ℕ
  pub object_key : String
  pub filename : Option String
  pub mime : Option String
  pub size_bytes : ℕ
  pub content_sha256 : String
  pub enc_file_key : Bytes
  pub file_key_nonce : Bytes
  pub created_at : ℕ

pub record OauthLoginStateRow : Type 0 where
  pub state_hash : String
  pub provider : String
  pub device_name : String
  pub platform : Option String
  pub expires_at : ℕ
  pub used_at : Option ℕ

pub record OauthIdentityRow : Type 0 where
  pub provider : String
  pub provider_subject : String
  pub user_id : ℕ
  pub email : String
  pub email_verified : Bool

pub record OauthDesktopCodeRow : Type 0 where
  pub code_hash : String
  pub user_id : Option ℕ
  pub provider : String
  pub provider_subject : String
  pub email : String
  pub email_verified : Bool
  pub device_name : String
  pub expires_at : ℕ
  pub used_at : Option ℕ
