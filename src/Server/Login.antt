-- ===== src/Server/Login.antt =====
-- Logging a device in (routes.rs): with a magic link, and from a device that is logged in.
pub mod Admission
pub mod Verify
pub mod NewUser
use Prim.Native.String.{◌++◌ as concat}
use zca_desktop.Common.{
  ℕ, String, Bool, true, false, not, ◌&&◌, Option, none, some, List, ◌++◌, if◌then◌else◌, Result,
  ok, err,
}
use zca_desktop.Server.{
  AppError, unauthorized, forbidden, recovery_key_required, recovery_key_invalid, Bytes, Db,
  Library,
}
use zca_desktop.Server.Handler.{Handler, ◌>>=◌, ◌>>◌, return, throw, lift, insert_audit_event}
use zca_desktop.Server.Text.{normalize_email, validate_device_name}
use zca_desktop.Server.Keys.{
  token_hash, verify_recovery_key, wrap_data_key, wrap_data_key_for_server,
}
use zca_desktop.Server.Links.{magic_link_is_valid, consume_magic_link}
use zca_desktop.Server.Devices.{
  AuthDevice, insert_device, user_id_by_email, user_secrets, get_or_create_user,
}

pub record MagicLinkVerifyRequest : Type 0 where
  pub email : String
  pub token : String
  pub device_name : String
  pub recovery_key : Option String

pub record MagicLinkVerifyResponse : Type 0 where
  pub user_id : ℕ
  pub device_id : ℕ
  pub device_token : String
  pub recovery_key : Option String

-- What a login draws at random, and the ids that the database makes.
pub record Fresh : Type 0 where
  pub recovery_token : String
  pub data_key : Bytes
  pub wrap_nonce : Bytes
  pub server_key_nonce : Bytes
  pub salt : String
  pub user_id : ℕ
  pub device_id : ℕ
  pub device_token : String

-- `format!("zca-recovery-{}", …)`
unfoldable pub new_recovery_key : Fresh → String
new_recovery_key fresh = concat "zca-recovery-" fresh.recovery_token

-- What the tuple of `verify_magic_link` says of the user: (user_id, created, recovery_key, consumed).
pub record Admitted : Type 0 where
  pub user_id : ℕ
  pub created : Bool
  pub recovery_key : String
  pub consumed : Bool

pub record DeviceRegisterResponse : Type 0 where
  pub device_id : ℕ
  pub device_token : String

-- Writes an audit event, and fails with `e`.
unfoldable pub refuse : {A : Type 0} → Option ℕ → Option ℕ → String → AppError → Handler A
refuse user device kind e = do insert_audit_event user device kind none; throw e

-- `let _ = consume_magic_link(…)`: a failure is dropped.
unfoldable pub try_consume : ℕ → String → String → Handler (Unit {0})
try_consume now email hash s = (ok tt, (consume_magic_link now email hash s).1)

unfoldable pub check_link : ℕ → String → String → Handler (Unit {0})
check_link now email hash s =
    if magic_link_is_valid now email hash s
    then (ok tt, s)
    else refuse none none "magic_link_verify_failed" unauthorized s

-- The user is known: the recovery key is asked for and checked.
unfoldable pub admit_known : Library → ℕ → String → String → ℕ → Option String → Handler Admitted
admit_known lib now email hash user none =
    refuse (some user) none "device_recovery_key_required" recovery_key_required
admit_known lib now email hash user (some provided) = do
  secrets ← user_secrets user
  if verify_recovery_key lib secrets.recovery_key_hash provided
      then return (record { user_id = user; created = false; recovery_key = ""; consumed = false })
      else (do
        try_consume now email hash
        refuse (some user) none "device_recovery_key_failed" recovery_key_invalid)

-- The user is new: the data key is wrapped twice, the link is used, the user is created.
unfoldable pub admit_new : Library → String → ℕ → String → String → Fresh → Handler Admitted
admit_new lib seed now email hash fresh = do
  wrapped ← lift (wrap_data_key lib (new_recovery_key fresh) fresh.wrap_nonce fresh.data_key)
  server_wrapped ← lift (wrap_data_key_for_server lib seed fresh.server_key_nonce fresh.data_key)
  consume_magic_link now email hash
  user ←
      get_or_create_user lib fresh.user_id fresh.salt email (new_recovery_key fresh)
        (wrapped.0 ++ wrapped.1) server_wrapped.0 server_wrapped.1
  return (record {
    user_id = user.0;
    created = user.1;
    recovery_key = new_recovery_key fresh;
    consumed = true;
  })

unfoldable pub admit :
    Library → String → ℕ → String → String → Option String → Fresh → Option ℕ → Handler Admitted
admit lib seed now email hash key fresh (some user) = admit_known lib now email hash user key
admit lib seed now email hash key fresh none = admit_new lib seed now email hash fresh

-- The link is used now if it was not used for a new user.
unfoldable pub consume_unless : Bool → ℕ → String → String → Handler (Unit {0})
consume_unless true now email hash = return tt
consume_unless false now email hash = consume_magic_link now email hash

unfoldable pub register : Library → ℕ → String → Fresh → Admitted → Handler MagicLinkVerifyResponse
register lib now name fresh a = do
  device ← insert_device now fresh.device_id a.user_id name (token_hash lib fresh.device_token)
  insert_audit_event (some a.user_id) (some device) "magic_link_verified_device_registered"
      (some device)
  return (record {
    user_id = a.user_id;
    device_id = device;
    device_token = fresh.device_token;
    recovery_key = if a.created then some a.recovery_key else none;
  })

-- From the link on, once the address and the device's name are read.
unfoldable pub log_in :
    Library
    → String
    → ℕ
    → String
    → String
    → String
    → Option String
    → Fresh
    → Handler MagicLinkVerifyResponse
log_in lib seed now email hash name key fresh = do
  check_link now email hash
  a ← (λ s. admit lib seed now email hash key fresh (user_id_by_email email s) s)
  consume_unless (not (not a.created && not a.consumed)) now email hash
  register lib now name fresh a

unfoldable pub verify_magic_link :
    Library → String → ℕ → MagicLinkVerifyRequest → Fresh → Handler MagicLinkVerifyResponse
verify_magic_link lib seed now req fresh = do
  email ← lift (normalize_email lib req.email)
  name ← lift (validate_device_name req.device_name)
  log_in lib seed now email (token_hash lib req.token) name req.recovery_key fresh

-- `POST /devices/register`, by an authenticated device.
unfoldable pub register_device :
    Library → ℕ → AuthDevice → String → String → Fresh → Handler DeviceRegisterResponse
register_device lib now auth raw key fresh = do
  name ← lift (validate_device_name raw)
  secrets ← user_secrets auth.user_id
  if verify_recovery_key lib secrets.recovery_key_hash key
      then (do
        device ←
            insert_device now fresh.device_id secrets.id name (token_hash lib fresh.device_token)
        insert_audit_event (some secrets.id) (some device) "device_registered" (some device)
        return (record { device_id = device; device_token = fresh.device_token }))
      else refuse (some auth.user_id) (some auth.device_id) "device_register_recovery_key_failed"
          forbidden
