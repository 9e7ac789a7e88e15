-- ===== src/Server/Devices.antt =====
-- Devices and users (db.rs): a device authenticates by the hash of its token until it is revoked.
pub mod Revoking
pub mod Users
use zca_desktop.Common.{
  ℕ, String, Bool, true, false, not, ◌&&◌, Option, none, some, List, [], ◌∷◌, ◌++◌, if◌then◌else◌,
  ◌==◌, text_equality, number_equality, is_some, any, map, Result, ok, err,
}
use zca_desktop.Common.Table.{find, insert_or_ignore, update}
use zca_desktop.Server.{
  AppError, unauthorized, not_found, Bytes, Db, UserRow, DeviceRow, Library, user_email, user_id,
  device_hash,
}
use zca_desktop.Server.Handler.{Handler, ◌>>=◌, return, throw, lift, insert_audit_event, ◌>>◌}
use zca_desktop.Server.Keys.{hash_recovery_key}

pub record AuthDevice : Type 0 where
  pub user_id : ℕ
  pub device_id : ℕ

unfoldable pub new_device : ℕ → ℕ → ℕ → String → String → DeviceRow
new_device now id user name hash = record {
  id = id;
  user_id = user;
  name = name;
  token_hash = hash;
  revoked_at = none;
  created_at = now;
  last_seen_at = some now;
}

-- `id` is the id that the database makes.
unfoldable pub insert_device : ℕ → ℕ → ℕ → String → String → Handler ℕ
insert_device now id user name hash s =
    if is_some (find device_hash hash s.devices) then (err AppError.db, s) else (
      ok id,
      record s {
        devices = insert_or_ignore device_hash (new_device now id user name hash) s.devices;
      },
    )

unfoldable pub seen : ℕ → DeviceRow → DeviceRow
seen now r = if is_some r.revoked_at then r else record r { last_seen_at = some now }

unfoldable pub auth_device : ℕ → String → Handler AuthDevice
auth_device now hash s = (
  elim (find device_hash hash s.devices) [
    | none ↦ err unauthorized
    | some r ↦
        if is_some r.revoked_at
        then err unauthorized
        else ok (record { user_id = r.user_id; device_id = r.id })
  ],
  record s { devices = update device_hash hash (seen now) s.devices },
)

unfoldable pub is_device_of : ℕ → ℕ → DeviceRow → Bool
is_device_of user device r = r.user_id == user && r.id == device

unfoldable pub revoked : ℕ → ℕ → ℕ → DeviceRow → DeviceRow
revoked now user device r =
    if is_device_of user device r then record r { revoked_at = some now } else r

unfoldable pub revoke_device : ℕ → ℕ → ℕ → Handler (Unit {0})
revoke_device now user device s = (
  if any (is_device_of user device) s.devices then ok tt else err not_found,
  record s { devices = map (revoked now user device) s.devices },
)

-- `DELETE /devices/:id` of routes.rs, by an authenticated device.
unfoldable pub revoke_device_handler : ℕ → AuthDevice → ℕ → Handler (Unit {0})
revoke_device_handler now auth device = do
  revoke_device now auth.user_id device
  insert_audit_event (some auth.user_id) (some auth.device_id) "device_revoked" (some device)

unfoldable pub user_id_by_email : String → Db → Option ℕ
user_id_by_email email s = elim (find user_email email s.users) [ none ↦ none | some u ↦ some u.id ]

unfoldable pub user_secrets : ℕ → Handler UserRow
user_secrets user s = (elim (find user_id user s.users) [ none ↦ err not_found | some u ↦ ok u ], s)

-- The INSERT into `users`.
unfoldable pub insert_user : ℕ → String → String → Bytes → Bytes → Bytes → Handler (ℕ × Bool)
insert_user id email hash wrapped nonce server_wrapped s = (
  ok (id, true),
  record s {
    users =
        s.users
        ++ record {
          id = id;
          email = email;
          recovery_key_hash = hash;
          wrapped_data_key = wrapped;
          server_key_nonce = nonce;
          server_wrapped_data_key = server_wrapped;
        }
          ∷ [];
  },
)

-- A new user gets `id`; the flag tells whether there was none.
unfoldable pub get_or_create_user :
    Library → ℕ → String → String → String → Bytes → Bytes → Bytes → Handler (ℕ × Bool)
get_or_create_user lib id salt email recovery_key wrapped nonce server_wrapped s =
    elim (user_id_by_email email s) [
      | some user ↦ (ok (user, false), s)
      | none ↦
          (do
            hash ← lift (hash_recovery_key lib recovery_key salt)
            insert_user id email hash wrapped nonce server_wrapped)
            s
    ]
