-- ===== src/Cloud/Tokens.antt =====
-- The device token (apps/desktop/src-tauri/src/command/cloud.rs): it stays in the keychain, and the
-- webview gets a sentinel for it. A locked keychain fails every access; `to_vec` and `from_slice` are
-- serde_json's on `StoredCloudDeviceSession`.
pub mod Stashed
use zca_desktop.Common.{
  ℕ, String, Bool, true, false, not, ◌&&◌, ◌||◌, Option, none, some, List, [], ◌∷◌, if◌then◌else◌,
  map_option, ok_or, Text, codes, starts_with, trim_text, same_text, Result, ok, err, ◌>>=◌,
}
use zca_desktop.Common.Map
use zca_desktop.Common.Map.{Map}
use zca_desktop.Redact.{Value, string, scalar, object, Fields, no_fields, field}
use zca_desktop.Callback.{is_empty, trim_slashes}
use zca_desktop.Cloud.{CloudError, CloudClient, with_token}
use zca_desktop.Cloud.Json.{text_list_equality, get, as_str, replace}

abbrev pub keychain_sentinel : Text
keychain_sentinel = codes "__keychain__"

-- The keychain's entries of the service, by base URL.
pub record Keyring : Type 0 where
  pub entries : Map Text (List ℕ)
  pub locked : Bool

unfoldable pub normalized_base_url : Text → Result String Text
normalized_base_url base_url =
    let base = trim_slashes (trim_text base_url) in
    if starts_with (codes "http://") base || starts_with (codes "https://") base
    then ok base
    else err "cloud base_url must start with http:// or https://"

-- `get_secret`: none where there is no entry.
unfoldable pub get_secret : Text → Keyring → Result String (Option (List ℕ))
get_secret base k =
    if k.locked then err "cloud keychain access failed" else ok (Map.get base k.entries)

unfoldable pub set_secret : Text → List ℕ → Keyring → Result String Keyring
set_secret base secret k =
    if k.locked
    then err "cloud keychain access failed"
    else ok (record k { entries = Map.put base secret k.entries })

unfoldable pub delete_credential : Text → Keyring → Result String Keyring
delete_credential base k =
    if k.locked
    then err "cloud keychain access failed"
    else ok (record k { entries = Map.remove base k.entries })

unfoldable pub shows_session : Text → Value
shows_session base = object (
    field (codes "baseUrl") (string base)
      (field (codes "hasDeviceToken") (scalar (codes "true")) no_fields))

unfoldable pub cloud_clear_device_session : Text → Keyring → Result String Keyring
cloud_clear_device_session base_url k =
    normalized_base_url base_url >>= λ base. delete_credential base k

unfoldable pub device_token_in : Value → Option Text
device_token_in resp = elim (get (codes "deviceToken") resp) [ none ↦ none | some v ↦ as_str v ]

unfoldable pub redacted : Value → Value
redacted resp = replace (codes "deviceToken") (string keychain_sentinel) resp

module _ (to_vec : Text → Option (List ℕ)) (from_slice : List ℕ → Option Text) where
  unfoldable pub save_cloud_device_token : Text → Text → Keyring → Result String Keyring
  save_cloud_device_token base_url device_token k = normalized_base_url base_url >>= λ base.
      ok_or (to_vec device_token) "cloud session serialization failed" >>= λ bytes.
      set_secret base bytes k

  unfoldable pub stored_token : Option (List ℕ) → Result String (Option Text)
  stored_token none = ok none
  stored_token (some bytes) = elim (from_slice bytes) [
    | none ↦ err "cloud session keychain entry is malformed"
    | some token ↦ ok (some token)
  ]

  unfoldable pub load_cloud_device_token : Text → Keyring → Result String (Option Text)
  load_cloud_device_token base_url k =
      normalized_base_url base_url >>= λ base. get_secret base k >>= stored_token

  unfoldable pub resolve_device_token : Text → Text → Keyring → Result String Text
  resolve_device_token base_url device_token k =
      let token = trim_text device_token in
      if not (is_empty token) && not (same_text token keychain_sentinel)
      then ok token
      else load_cloud_device_token base_url k >>= λ stored.
          ok_or stored "cloud device session not found"

  -- `say` words the client's errors.
  unfoldable pub authed_client :
      (CloudError → String) → Text → Text → Keyring → Result String CloudClient
  authed_client say base_url device_token k =
      resolve_device_token base_url device_token k >>= λ token. elim (with_token base_url token) [
        | ok client ↦ ok client
        | err e ↦ err (say e)
      ]

  -- The response for the webview, and the keychain after.
  unfoldable pub stash_token_and_redact : Text → Value → Keyring → Result String (Value × Keyring)
  stash_token_and_redact base_url resp k = elim (device_token_in resp) [
    | none ↦ ok (redacted resp, k)
    | some token ↦ save_cloud_device_token base_url token k >>= λ k'. ok (redacted resp, k')
  ]

  unfoldable pub cloud_load_device_session : Text → Keyring → Result String (Option Value)
  cloud_load_device_session base_url k = normalized_base_url base_url >>= λ base.
      load_cloud_device_token base k >>= λ stored.
      ok (map_option (λ token. shows_session base) stored)
