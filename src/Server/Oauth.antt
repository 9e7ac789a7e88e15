-- ===== src/Server/Oauth.antt =====
-- Logging a device in through an OAuth provider (routes.rs, with the OAuth tables of db.rs). The
-- provider's answer is an input; a state and a code are used once, before they expire.
pub mod Codes
pub mod Verify
mod Tests
use zca_desktop.Common.{
  ℕ, ◌+◌, String, Bool, true, false, not, ◌&&◌, Option, none, some, List, [], ◌∷◌, if◌then◌else◌,
  ltb, ◌==◌, text_equality, pair_equality, is_some, unwrap_or, codes, ◌++◌, Result, ok, err, ensure,
}
use zca_desktop.Common.Table.{find, insert_or_ignore, update, upsert}
use zca_desktop.Server.{
  AppError, bad_request, not_found, unauthorized, forbidden, Bytes, Db, Library, OauthLoginStateRow,
  OauthIdentityRow, OauthDesktopCodeRow,
}
use zca_desktop.Server.Handler.{Handler, ◌>>=◌, ◌>>◌, return, throw, lift, insert_audit_event}
use zca_desktop.Server.Text.{trim, normalize_email, validate_device_name}
use zca_desktop.Server.Keys.{token_hash, wrap_data_key, wrap_data_key_for_server}
use zca_desktop.Server.Devices.{insert_device, user_id_by_email, get_or_create_user}
use zca_desktop.Server.Login.{MagicLinkVerifyResponse, Fresh, new_recovery_key}

abbrev pub state_key : OauthLoginStateRow → String
state_key r = r.state_hash

abbrev pub code_key : OauthDesktopCodeRow → String
code_key r = r.code_hash

-- PRIMARY KEY(provider, provider_subject)
abbrev pub identity_key : OauthIdentityRow → String × String
identity_key r = (r.provider, r.provider_subject)

unfoldable pub insert_oauth_login_state :
    String → String → String → Option String → ℕ → Handler (Unit {0})
insert_oauth_login_state hash provider device_name platform expires_at s =
    if is_some (find state_key hash s.oauth_login_states) then (err AppError.db, s) else (
      ok tt,
      record s {
        oauth_login_states =
            s.oauth_login_states
            ++ record {
              state_hash = hash;
              provider = provider;
              device_name = device_name;
              platform = platform;
              expires_at = expires_at;
              used_at = none;
            }
              ∷ [];
      },
    )

-- provider = $2 AND used_at IS NULL AND expires_at > now(), of the row with the hash
unfoldable pub is_open_state : ℕ → String → OauthLoginStateRow → Bool
is_open_state now provider r =
    r.provider == provider && (not (is_some r.used_at) && ltb now r.expires_at)

unfoldable pub use_state : ℕ → String → OauthLoginStateRow → OauthLoginStateRow
use_state now provider r =
    if is_open_state now provider r then record r { used_at = some now } else r

unfoldable pub consume_oauth_login_state : ℕ → String → String → Handler (String × Option String)
consume_oauth_login_state now hash provider s = (
  elim (find state_key hash s.oauth_login_states) [
    | none ↦ err unauthorized
    | some r ↦
        if is_open_state now provider r then ok (r.device_name, r.platform) else err unauthorized
  ],
  record s {
    oauth_login_states = update state_key hash (use_state now provider) s.oauth_login_states;
  },
)

unfoldable pub user_id_by_oauth_identity : String → String → Db → Option ℕ
user_id_by_oauth_identity provider subject s =
    elim (find identity_key (provider, subject) s.oauth_user_identities) [
      | none ↦ none
      | some r ↦ some r.user_id
    ]

unfoldable pub upsert_oauth_identity : String → String → ℕ → String → Bool → Handler (Unit {0})
upsert_oauth_identity provider subject user email email_verified s =
    let row : OauthIdentityRow = record {
      provider = provider;
      provider_subject = subject;
      user_id = user;
      email = email;
      email_verified = email_verified;
    } in
    (
      ok tt,
      record s {
        oauth_user_identities = upsert identity_key row (λ r. row) s.oauth_user_identities;
      },
    )

unfoldable pub insert_oauth_desktop_code : OauthDesktopCodeRow → Handler (Unit {0})
insert_oauth_desktop_code code s =
    if is_some (find code_key code.code_hash s.oauth_desktop_codes) then (err AppError.db, s) else (
      ok tt,
      record s { oauth_desktop_codes = insert_or_ignore code_key code s.oauth_desktop_codes },
    )

-- used_at IS NULL AND expires_at > now()
unfoldable pub is_open_code : ℕ → OauthDesktopCodeRow → Bool
is_open_code now r = not (is_some r.used_at) && ltb now r.expires_at

unfoldable pub use_code : ℕ → OauthDesktopCodeRow → OauthDesktopCodeRow
use_code now r = if is_open_code now r then record r { used_at = some now } else r

unfoldable pub consume_oauth_desktop_code : ℕ → String → Handler OauthDesktopCodeRow
consume_oauth_desktop_code now hash s = (
  elim (find code_key hash s.oauth_desktop_codes) [
    | none ↦ err unauthorized
    | some r ↦ if is_open_code now r then ok r else err unauthorized
  ],
  record s { oauth_desktop_codes = update code_key hash (use_code now) s.oauth_desktop_codes },
)

pub record OauthProfile : Type 0 where
  pub subject : String
  pub email : String
  pub email_verified : Bool

unfoldable pub oauth_existing_user_id : String → OauthProfile → String → Db → Option ℕ
oauth_existing_user_id provider profile email s =
    elim (user_id_by_oauth_identity provider profile.subject s) [
      | some user ↦ some user
      | none ↦ user_id_by_email email s
    ]

-- The code that a callback issues: 5 minutes, in seconds.
unfoldable pub issue_code :
    Library → ℕ → String → OauthProfile → String → String → String → Handler (Unit {0})
issue_code lib now provider profile email device_name desktop_code s =
    let user = oauth_existing_user_id provider profile email s in
    (do
      insert_oauth_desktop_code (record {
        code_hash = token_hash lib desktop_code;
        user_id = user;
        provider = provider;
        provider_subject = profile.subject;
        email = email;
        email_verified = profile.email_verified;
        device_name = device_name;
        expires_at = now + 300;
        used_at = none;
      })
      insert_audit_event user none "oauth_login_completed" none)
      s

-- `oauth_callback`, with the provider's answer for the query's code; the answer is the code and the
-- platform that the landing page gets.
-- `OAuthProvider::parse` and `slug`
unfoldable pub parse_provider : String → Result AppError String
parse_provider provider =
    if provider == "google"
    then ok "google"
    else if provider == "github"
    then ok "github"
    else err not_found

unfoldable pub oauth_callback :
    Library
    → ℕ
    → String
    → String
    → Result AppError OauthProfile
    → String
    → Handler (String × Option String)
oauth_callback lib now provider_path oauth_state fetched desktop_code = do
  provider ← lift (parse_provider provider_path)
  started ← consume_oauth_login_state now (token_hash lib oauth_state) provider
  profile ← lift fetched
  email ← lift (normalize_email lib profile.email)
  lift (ensure profile.email_verified forbidden)
  issue_code lib now provider profile email started.0 desktop_code
  return (desktop_code, started.1)

unfoldable pub oauth_new_user : Library → String → String → Fresh → Handler (ℕ × Option String)
oauth_new_user lib seed email fresh = do
  wrapped ← lift (wrap_data_key lib (new_recovery_key fresh) fresh.wrap_nonce fresh.data_key)
  server ← lift (wrap_data_key_for_server lib seed fresh.server_key_nonce fresh.data_key)
  created ←
      get_or_create_user lib fresh.user_id fresh.salt email (new_recovery_key fresh)
        (wrapped.0 ++ wrapped.1) server.0 server.1
  return (created.0, if created.1 then some (new_recovery_key fresh) else none)

unfoldable pub claimed_user : OauthDesktopCodeRow → String → Db → Option ℕ
claimed_user claimed email s = elim claimed.user_id [
  | some user ↦ some user
  | none ↦ elim (user_id_by_oauth_identity claimed.provider claimed.provider_subject s) [
    | some user ↦ some user
    | none ↦ user_id_by_email email s
  ]
]

unfoldable pub oauth_device_user_id :
    Library → String → OauthDesktopCodeRow → String → Fresh → Handler (ℕ × Option String)
oauth_device_user_id lib seed claimed email fresh s = elim (claimed_user claimed email s) [
  | some user ↦ (ok (user, none), s)
  | none ↦ oauth_new_user lib seed email fresh s
]

unfoldable pub oauth_register :
    Library → ℕ → OauthDesktopCodeRow → ℕ × Option String → Fresh → Handler MagicLinkVerifyResponse
oauth_register lib now claimed who fresh = do
  name ← lift (validate_device_name claimed.device_name)
  device ← insert_device now fresh.device_id who.0 name (token_hash lib fresh.device_token)
  insert_audit_event (some who.0) (some device) "oauth_device_registered" (some device)
  return (record {
    user_id = who.0;
    device_id = device;
    device_token = fresh.device_token;
    recovery_key = who.1;
  })

-- A code that is consumed.
unfoldable pub oauth_claimed :
    Library → String → ℕ → Fresh → OauthDesktopCodeRow → Handler MagicLinkVerifyResponse
oauth_claimed lib seed now fresh claimed = do
  lift (ensure claimed.email_verified forbidden)
  email ← lift (normalize_email lib claimed.email)
  who ← oauth_device_user_id lib seed claimed email fresh
  upsert_oauth_identity claimed.provider claimed.provider_subject who.0 email claimed.email_verified
  oauth_register lib now claimed who fresh

unfoldable pub verify_oauth_desktop_code :
    Library → String → ℕ → String → Fresh → Handler MagicLinkVerifyResponse
verify_oauth_desktop_code lib seed now raw fresh = do
  lift (ensure (not (trim raw == "")) (bad_request "code is required"))
  claimed ← consume_oauth_desktop_code now (token_hash lib (trim raw))
  oauth_claimed lib seed now fresh claimed
