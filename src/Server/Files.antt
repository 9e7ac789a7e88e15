-- ===== src/Server/Files.antt =====
-- Files (db.rs): what the object store holds, by its key, and the key that opens it.
pub mod Blobs
use zca_desktop.Common.{
  ℕ, String, Bool, true, not, ◌&&◌, ◌||◌, Option, none, some, List, [], ◌∷◌, ◌++◌, if◌then◌else◌,
  text_equality, number_equality, pair_equality, is_some, ok, err,
}
use zca_desktop.Common.Table.{find}
use zca_desktop.Server.{AppError, not_found, Bytes, Db, FileRow, MessageRow}
use zca_desktop.Server.Handler.{Handler}
use zca_desktop.Server.Accounts.{account_id}
use zca_desktop.Server.Conversations.{conversation_id}

pub record FileInitRequest : Type 0 where
  pub account_id : Option ℕ
  pub conversation_id : Option ℕ
  pub message_id : Option ℕ
  pub filename : Option String
  pub mime : Option String
  pub size_bytes : ℕ
  pub content_sha256 : String

pub record FileView : Type 0 where
  pub id : ℕ
  pub object_key : String
  pub filename : Option String
  pub mime : Option String
  pub size_bytes : ℕ
  pub content_sha256 : String
  pub created_at : ℕ

abbrev message_id : MessageRow → ℕ
message_id m = m.id

-- user_id = $1 AND id = $2
abbrev pub file_owner : FileRow → ℕ × ℕ
file_owner f = (f.user_id, f.id)

abbrev pub file_object : FileRow → String
file_object f = f.object_key

unfoldable pub file_view : FileRow → FileView
file_view f = record {
  id = f.id;
  object_key = f.object_key;
  filename = f.filename;
  mime = f.mime;
  size_bytes = f.size_bytes;
  content_sha256 = f.content_sha256;
  created_at = f.created_at;
}

unfoldable pub new_file : ℕ → ℕ → ℕ → FileInitRequest → String → Bytes → Bytes → FileRow
new_file now id user req object_key enc_key nonce = record {
  id = id;
  user_id = user;
  account_id = req.account_id;
  conversation_id = req.conversation_id;
  message_id = req.message_id;
  object_key = object_key;
  filename = req.filename;
  mime = req.mime;
  size_bytes = req.size_bytes;
  content_sha256 = req.content_sha256;
  enc_file_key = enc_key;
  file_key_nonce = nonce;
  created_at = now;
}

-- A reference that is given has a row.
unfoldable pub refers {ℓ} : {A : Type ℓ} → (A → ℕ) → Option ℕ → List A → Bool
refers key none rows = true
refers key (some i) rows = is_some (find key i rows)

unfoldable pub has_references : FileInitRequest → Db → Bool
has_references req s =
    refers account_id req.account_id s.cloud_accounts
    && (refers conversation_id req.conversation_id s.conversations
        && refers message_id req.message_id s.messages)

-- `object_key` is UNIQUE.
unfoldable pub insert_file : ℕ → ℕ → ℕ → FileInitRequest → String → Bytes → Bytes → Handler FileView
insert_file now id user req object_key enc_key nonce s =
    if is_some (find file_object object_key s.files) || not (has_references req s)
    then (err AppError.db, s)
    else (
      ok (file_view (new_file now id user req object_key enc_key nonce)),
      record s { files = s.files ++ new_file now id user req object_key enc_key nonce ∷ [] },
    )

unfoldable pub get_file : ℕ → ℕ → Handler FileView
get_file user file s = (
  elim (find file_owner (user, file) s.files) [ none ↦ err not_found | some f ↦ ok (file_view f) ],
  s,
)

-- The whole row: object, key and nonce.
unfoldable pub file_secret : ℕ → ℕ → Handler FileRow
file_secret user file s =
    (elim (find file_owner (user, file) s.files) [ none ↦ err not_found | some f ↦ ok f ], s)
