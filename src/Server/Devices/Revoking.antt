-- ===== src/Server/Devices/Revoking.antt =====
-- `revoke_device` (db.rs), as `auth_device` sees it.
use zca_desktop.Common.{
  ℕ, ◌≡◌, refl, String, false, ◌&&◌, Option, List, [], ◌∷◌, if◌then◌else◌, ◌==◌, text_equality,
  number_equality, map_option, any, map, Result, ok, err, arith,
}
use zca_desktop.Common.Table.{find, find-map}
use zca_desktop.Server.{AppError, unauthorized, not_found, Db, DeviceRow, device_hash}
use zca_desktop.Server.Devices.{AuthDevice, auth_device, is_device_of, revoked, revoke_device}

revoked-none :
    (now user device : ℕ) (rows : List DeviceRow)
    → any (is_device_of user device) rows ≡ false
    → map (revoked now user device) rows ≡ rows
unfolding any revoked
revoked-none now user device [] h = refl
revoked-none now user device (r ∷ rows) h = ground (arith, revoked-none now user device rows)

-- What becomes of an authentication once the device of the user is revoked.
abbrev pub unless_revoked : ℕ → ℕ → Result AppError AuthDevice → Result AppError AuthDevice
unless_revoked user device (err e) = err e
unless_revoked user device (ok d) =
    if d.user_id == user && d.device_id == device then err unauthorized else ok d

-- A device that is not the user's is not revoked: the call fails, and the tables stay.
pub revoke_device-foreign :
    (now user device : ℕ) (s : Db)
    → any (is_device_of user device) s.devices ≡ false
    → revoke_device now user device s ≡ (err not_found, s)
unfolding revoke_device
revoke_device-foreign now user device s none_of =
    rw (none_of, revoked-none now user device s.devices none_of) refl

-- After a revocation a token authenticates as it did before, but for the token of the device
-- revoked, which is refused.
pub revoke_device_lem :
    (now at user device : ℕ) (hash : String) (s : Db)
    → (auth_device at hash (revoke_device now user device s).1).0
      ≡ unless_revoked user device (auth_device at hash s).0
unfolding revoke_device
revoke_device_lem now at user device hash s = found (find device_hash hash s.devices) refl
  where
    after :
        find device_hash hash (map (revoked now user device) s.devices)
        ≡ map_option (revoked now user device) (find device_hash hash s.devices)
    after =
        find-map device_hash (revoked now user device) (λ x. unfold revoked in ground arith) hash
          s.devices

    found :
        (o : Option DeviceRow)
        → find device_hash hash s.devices ≡ o
        → (auth_device at hash (record s { devices = map (revoked now user device) s.devices })).0
          ≡ unless_revoked user device (auth_device at hash s).0
    found o e = unfold auth_device revoked is_device_of in ground (arith, after, e)
