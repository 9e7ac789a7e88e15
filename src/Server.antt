-- ===== src/Server.antt =====
-- The cloud server (apps/server/src/: db.rs, routes.rs, auth.rs, crypto.rs, sessions.rs): its tables,
-- with ids and instants as numbers. A handler takes the tables to a result and the tables after it,
-- failed or not. SQL statements run one at a time and do not fail, but for a UNIQUE column or a
-- reference to an account or a conversation that is not there. What is random (ids, tokens, keys,
-- nonces, salts) is an input.
mod Rows
pub mod Handler
pub mod Text
pub mod Keys
pub mod Links
pub mod Devices
pub mod Login
pub mod Accounts
pub mod Conversations
pub mod Files
pub mod Isolation
pub mod Hosted
pub mod Realtime
pub mod Oauth
mod Samples
mod Tests
use zca_desktop.Common.{ℕ, String, Bool, Option, List, []}
pub use Rows.*

pub data AppError : Type 0 where
  bad_request : String → AppError
  unauthorized forbidden recovery_key_required recovery_key_invalid not_found : AppError
  service_unavailable : String → AppError
  rate_limited : String → AppError
  crypto db : AppError

pub record Db : Type 0 where
  pub users : List UserRow
  pub magic_links : List MagicLinkRow
  pub devices : List DeviceRow
  pub audit_events : List AuditEvent
  pub cloud_accounts : List CloudAccountRow
  pub hosted_sessions : List HostedSessionRow
  pub conversations : List ConversationRow
  pub messages : List MessageRow
  pub files : List FileRow
  pub oauth_login_states : List OauthLoginStateRow
  pub oauth_user_identities : List OauthIdentityRow
  pub oauth_desktop_codes : List OauthDesktopCodeRow

abbrev pub empty : Db
empty = record {
  users = [];
  magic_links = [];
  devices = [];
  audit_events = [];
  cloud_accounts = [];
  hosted_sessions = [];
  conversations = [];
  messages = [];
  files = [];
  oauth_login_states = [];
  oauth_user_identities = [];
  oauth_desktop_codes = [];
}

abbrev pub user_email : UserRow → String
user_email r = r.email

abbrev pub user_id : UserRow → ℕ
user_id r = r.id

abbrev pub link_hash : MagicLinkRow → String
link_hash r = r.token_hash

abbrev pub device_hash : DeviceRow → String
device_hash r = r.token_hash

-- The crates that the server calls: SHA-256 in hex, Argon2 (by salt; and a stored hash against a
-- password), HKDF by input and purpose, AES-256-GCM by key, nonce and text, and the lower-casing
-- of Unicode texts.
pub record Library : Type 0 where
  pub sha256_hex : String → String
  pub hash_password : String → String → Option String
  pub verify_password : String → String → Bool
  pub hkdf : String → String → Bytes
  pub gcm_encrypt : Bytes → Bytes → Bytes → Option Bytes
  pub gcm_decrypt : Bytes → Bytes → Bytes → Option Bytes
  pub to_lowercase : String → String
