-- ===== src/Server/Files/Blobs.antt =====
-- The contents of files (routes.rs: `init_file`, `upload_file_blob`, `download_file_blob`, and
-- storage.rs). The object store holds bytes by key; `digest` is SHA-256 in hex, and `print` writes an
-- id. The handlers of contents only read the tables.
pub mod Stored
mod Tests
use zca_desktop.Common.{
  ℕ, ◌+◌, String, Bool, true, false, not, ◌&&◌, ◌||◌, Option, none, some, List, [], ◌∷◌, ◌++◌, ◌==◌,
  if◌then◌else◌, text_equality, number_equality, eqb, leb, ltb, all, codes, byte_len, length, take,
  drop, ℤ, pos, negsuc, Result, ok, err, ensure, ok_or,
}
use zca_desktop.Common as Results
use zca_desktop.Common.Map
use zca_desktop.Common.Map.{Map}
use zca_desktop.Server.{
  AppError, bad_request, not_found, service_unavailable, crypto, Bytes, Db, UserRow, FileRow,
  Library,
}
use zca_desktop.Server.Handler.{Handler, ◌>>=◌, ◌>>◌, return, lift}
use zca_desktop.Server.Keys.{seal, open_sealed, unwrap_data_key_for_server, exact_key, nonce_len}
use zca_desktop.Server.Devices.{user_secrets}
use zca_desktop.Server.Files.{FileInitRequest, FileView, insert_file, file_secret}
use zca_desktop.Server.Hosted.Linking.{data_key_for_user}

-- What the object store holds, by key.
abbrev pub Objects : Type 0
Objects = Map String Bytes

abbrev is_lower_hex : ℕ → Bool
is_lower_hex c = leb 48 c && leb c 57 || leb 97 c && leb c 102

unfoldable pub is_lower_hex_sha256 : String → Bool
is_lower_hex_sha256 value = eqb (byte_len (codes value)) 64 && all is_lower_hex (codes value)

unfoldable pub object_body_len : ℕ → ℕ
object_body_len plaintext_len = plaintext_len + 12 + 16

-- `size` is the size that the request gives; `key_id` is the id in the object's key, and `id` the
-- row's.
unfoldable pub init_file :
    Library
    → String
    → (ℕ → ℕ → String → String)
    → ℕ
    → ℕ
    → ℕ
    → ℕ
    → ℤ
    → FileInitRequest
    → Bytes
    → Bytes
    → Handler FileView
init_file lib seed object_key now id key_id user (negsuc n) req file_key nonce =
    lift (err (bad_request "valid size_bytes and content_sha256 are required"))
init_file lib seed object_key now id key_id user (pos n) req file_key nonce = do
  lift (
      ensure (is_lower_hex_sha256 req.content_sha256)
        (bad_request "valid size_bytes and content_sha256 are required"))
  data_key ← data_key_for_user lib seed user
  sealed ← lift (seal lib data_key nonce file_key)
  insert_file now id user (record req { size_bytes = n })
      (object_key user key_id req.content_sha256) sealed.1 sealed.0

-- The key of a file's contents.
unfoldable pub file_key_of : Library → String → ℕ → FileRow → Handler Bytes
file_key_of lib seed user secret = do
  data_key ← data_key_for_user lib seed user
  file_key ← lift (open_sealed lib data_key secret.file_key_nonce secret.enc_file_key)
  lift (exact_key lib file_key)

unfoldable pub matches : (Bytes → String) → FileRow → Bytes → Result AppError (Unit {0})
matches digest secret body =
    Results.◌>>=◌
      (ensure (length body == secret.size_bytes) (bad_request "file size does not match metadata"))
      (λ u.
        ensure (digest body == secret.content_sha256)
          (bad_request "file content_sha256 does not match metadata"))

-- The bytes that hold a text sealed: the nonce, and the ciphertext.
unfoldable pub encrypted_object_body : Library → Bytes → Bytes → Bytes → Result AppError Bytes
encrypted_object_body lib file_key nonce bytes =
    Results.◌>>=◌ (seal lib file_key nonce bytes) (λ sealed. ok (sealed.0 ++ sealed.1))

-- The object that an upload puts: its key and its bytes.
unfoldable pub object_of :
    Library → String → (Bytes → String) → ℕ → ℕ → Bytes → Bytes → Handler (String × Bytes)
object_of lib seed digest user file nonce body = do
  secret ← file_secret user file
  lift (matches digest secret body)
  file_key ← file_key_of lib seed user secret
  object ← lift (encrypted_object_body lib file_key nonce body)
  return (secret.object_key, object)

abbrev pub put_object :
    Bool → ℕ → Result AppError (String × Bytes) → Objects → Result AppError ℕ × Objects
put_object up n (err e) objects = (err e, objects)
put_object false n (ok object) objects =
    (err (service_unavailable "object storage unavailable"), objects)
put_object true n (ok object) objects = (ok n, Map.put object.0 object.1 objects)

-- The length that it tells, and the objects after; `up` is whether the store takes the object.
unfoldable pub upload_file_blob :
    Library
    → String
    → (Bytes → String)
    → Bool
    → ℕ
    → ℕ
    → Bytes
    → Bytes
    → Db
    → Objects
    → Result AppError ℕ × Objects
upload_file_blob lib seed digest up user file nonce body s objects =
    put_object up (object_body_len (length body))
      (object_of lib seed digest user file nonce body s).0 objects

unfoldable pub opened : Library → Bytes → Bytes → Result AppError Bytes
opened lib file_key object =
    if ltb (length object) 12
    then err crypto
    else open_sealed lib file_key (take 12 object) (drop 12 object)

-- `arrives` is whether the body of the object can be read.
unfoldable pub decrypt_file_blob : Library → String → Objects → Bool → ℕ → FileRow → Handler Bytes
decrypt_file_blob lib seed objects arrives user secret = do
  file_key ← file_key_of lib seed user secret
  object ← lift (ok_or (Map.get secret.object_key objects) not_found)
  lift (ensure arrives (service_unavailable "object storage unavailable"))
  lift (opened lib file_key object)

unfoldable pub download_file_blob : Library → String → Objects → Bool → ℕ → ℕ → Handler Bytes
download_file_blob lib seed objects arrives user file = do
  secret ← file_secret user file
  decrypt_file_blob lib seed objects arrives user secret
