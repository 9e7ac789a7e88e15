-- ===== src/Server/Realtime/Mirror.antt =====
-- Copying a message's media to the object store (`mirror_hosted_media` of sessions.rs). The web is
-- an argument: the parser of URLs, the resolver, and what a GET without redirects answers.
pub mod Bounds
pub mod Copied
use Prim.Native.String
use zca_desktop.Common.{
  ℕ, String, Bool, true, false, not, ◌&&◌, ◌||◌, Option, none, some, List, [], ◌∷◌, ◌==◌, is_some,
  if◌then◌else◌, text_equality, ltb, length, codes, trim_text, ℤ, pos, Result, ok, err, ensure,
  ◌>>=◌, ◌>>◌,
}
use zca_desktop.Common.Map
use zca_desktop.Callback.{is_empty}
use zca_desktop.Server.{AppError, bad_request, Bytes, Db, Library}
use zca_desktop.Server.Keys.{seal}
use zca_desktop.Server.Files.{FileInitRequest, FileView, insert_file}
use zca_desktop.Server.Files.Blobs.{Objects, encrypted_object_body}
use zca_desktop.Server.Hosted.Addresses.{MediaUrl, Names, ensure_public_host}
use zca_desktop.Server.Realtime.{RichFile, MessageRichPayload}

-- A response; its body may fail to arrive.
pub record MediaResponse : Type 0 where
  pub success : Bool
  pub status : String
  pub content_length : Option ℕ
  pub body : Result String Bytes

pub record Web : Type 0 where
  pub parse_url : String → Option (String × MediaUrl)
  pub names : Names
  pub get : MediaUrl → Result String MediaResponse
  pub max_bytes : ℕ

abbrev pub is_blank : String → Bool
is_blank s = is_empty (trim_text (codes s))

unfoldable pub mirrorable_media_url : Web → String → Option MediaUrl
mirrorable_media_url web href = elim (web.parse_url href) [
  | none ↦ none
  | some (scheme, url) ↦ if scheme == "http" || scheme == "https" then some url else none
]

-- Longer than the limit.
abbrev pub is_over : Web → Option ℕ → Bool
is_over web none = false
is_over web (some n) = ltb web.max_bytes n

unfoldable pub read_media : Web → MediaResponse → Result AppError Bytes
read_media web response =
    ensure response.success
      (bad_request (String.◌++◌ "media fetch failed with status " response.status))
    >> ensure (not (is_over web response.content_length)) (bad_request "media exceeds mirror limit")
    >> elim response.body [
      | err e ↦ err (bad_request (String.◌++◌ "media read failed: " e))
      | ok bytes ↦
          if ltb web.max_bytes (length bytes)
          then err (bad_request "media exceeds mirror limit")
          else ok bytes
    ]

unfoldable pub fetch_remote_media : Web → MediaUrl → Result AppError Bytes
fetch_remote_media web url = ensure_public_host web.names url >> elim (web.get url) [
  | err e ↦ err (bad_request (String.◌++◌ "media fetch failed: " e))
  | ok response ↦ read_media web response
]

-- What is drawn for a copy: the file's key, the nonces under which it and the contents are sealed,
-- the id in the object's key and the row's id.
pub record FileDraws : Type 0 where
  pub file_key : Bytes
  pub file_key_nonce : Bytes
  pub object_nonce : Bytes
  pub file_id_for_key : ℕ
  pub row_id : ℕ

-- Where a copy belongs: `user_id` of `account_id`, in a message of a conversation.
pub record MirrorPlace : Type 0 where
  pub user_id : ℕ
  pub account_id : ℕ
  pub conversation_id : ℕ
  pub message_id : ℕ
  pub data_key : Bytes

-- A copy that is ready to be put.
pub record Prepared : Type 0 where
  pub object_key : String
  pub object_body : Bytes
  pub request : FileInitRequest
  pub enc_file_key : Bytes

-- The URL that a file's bytes are at, if they are to be copied.
unfoldable pub mirrorable : Web → RichFile → Option MediaUrl
mirrorable web file = if is_some file.id then none else elim file.href [
  | none ↦ none
  | some href ↦ if is_blank href then none else mirrorable_media_url web href
]

module _ (lib : Library) (digest : Bytes → String) (object_key : ℕ → ℕ → String → String)
    (web : Web) (place : MirrorPlace) (draws : FileDraws) where
  unfoldable pub prepare : RichFile → MediaUrl → Result AppError Prepared
  prepare file url = fetch_remote_media web url >>= λ bytes.
      seal lib place.data_key draws.file_key_nonce draws.file_key >>= λ sealed_key.
      encrypted_object_body lib draws.file_key draws.object_nonce bytes >>= λ body. ok (record {
        object_key = object_key place.user_id draws.file_id_for_key (digest bytes);
        object_body = body;
        request = record {
          account_id = some place.account_id;
          conversation_id = some place.conversation_id;
          message_id = some place.message_id;
          filename = file.filename;
          mime = file.mime;
          size_bytes = length bytes;
          content_sha256 = digest bytes;
        };
        enc_file_key = sealed_key.1;
      })

  -- The file with the id of its copy, which `print` writes; none where nothing was copied.
  abbrev pub with_copy :
      (ℕ → String) → RichFile → Result AppError FileView → Result AppError (Option RichFile)
  with_copy print file (err e) = err e
  with_copy print file (ok view) =
      ok (some (record file { id = some (print view.id); size_bytes = pos view.size_bytes }))

  -- `up` is whether the object store takes the object, and what it says where it does not.
  unfoldable pub copy :
      (ℕ → String)
      → ℕ
      → Result String (Unit {0})
      → RichFile
      → Prepared
      → Db
      → Objects
      → Result AppError (Option RichFile) × Db × Objects
  copy print now (err e) file p s objects =
      (err (bad_request (String.◌++◌ "object upload failed: " e)), s, objects)
  copy print now (ok u) file p s objects =
      let (r, t) =
        insert_file now draws.row_id place.user_id p.request p.object_key p.enc_file_key
          draws.file_key_nonce s in
      (with_copy print file r, t, Map.put p.object_key p.object_body objects)

  unfoldable pub mirror_rich_file :
      (ℕ → String)
      → ℕ
      → Result String (Unit {0})
      → RichFile
      → Db
      → Objects
      → Result AppError (Option RichFile) × Db × Objects
  mirror_rich_file print now up file s objects = elim (mirrorable web file) [
    | none ↦ (ok none, s, objects)
    | some url ↦ elim (prepare file url) [
      | err e ↦ (err e, s, objects)
      | ok p ↦ copy print now up file p s objects
    ]
  ]

  unfoldable pub mirror_hosted_media :
      (ℕ → String)
      → ℕ
      → Result String (Unit {0})
      → MessageRichPayload
      → Db
      → Objects
      → Result AppError (Option RichFile) × Db × Objects
  mirror_hosted_media print now up rich s objects = elim rich.file [
    | none ↦ (ok none, s, objects)
    | some file ↦ mirror_rich_file print now up file s objects
  ]
