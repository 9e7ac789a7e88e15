-- ===== src/Server/Realtime/Persisting.antt =====
-- Storing a message or a reaction that arrives (`persist_hosted_message` and
-- `persist_hosted_reaction` of sessions.rs), and what a device is shown of a stored message
-- (`list_messages` of routes.rs, for each row).
pub mod Sealed
mod Rows
pub mod Message
pub mod Reaction
use zca_desktop.Common as Results
use zca_desktop.Common.{
  ℕ, String, Bool, true, false, not, ◌&&◌, Option, none, some, List, if◌then◌else◌, ◌==◌,
  text_equality, or_else, unwrap_or, Result, ok, err, ok_or,
}
use zca_desktop.Server.{AppError, crypto, Bytes, Db, MessageRow, Library}
use zca_desktop.Server.Handler.{Handler, ◌>>=◌, ◌>>◌, return, lift}
use zca_desktop.Server.Keys.{seal, open_sealed}
use zca_desktop.Server.Conversations.{
  NewMessage, upsert_conversation, insert_message_ciphertext, update_message_rich,
  message_rich_ciphertext,
}
use zca_desktop.Server.Files.Blobs.{Objects}
use zca_desktop.Server.Hosted.Linking.{data_key_for_user}
use zca_desktop.Server.Realtime.{
  RichSticker, RichQuote, RichLink, RichFile, MessageRichPayload, default_rich, is_empty,
  HostedIncomingMessage, HostedReactionEvent, HostedThreadMetadata, Codec, message_kind,
}
use zca_desktop.Server.Realtime.Mirror.{Web, FileDraws, MirrorPlace, is_blank, mirror_hosted_media}

-- What the server calls: `thread_metadata` is zca-rust's, by thread and kind, none where it fails.
pub record Services : Type 0 where
  pub lib : Library
  pub seed : String
  pub codec : Codec
  pub digest : Bytes → String
  pub object_key : ℕ → ℕ → String → String
  pub print : ℕ → String
  pub web : Web
  pub thread_metadata : String → String → Option HostedThreadMetadata

-- What is drawn for a message: ids, nonces, and what the object store answers to a copy.
pub record MessageDraws : Type 0 where
  pub conversation_id : ℕ
  pub message_id : ℕ
  pub body_nonce : Bytes
  pub rich_nonce : Bytes
  pub mirrored_nonce : Bytes
  pub file : FileDraws
  pub up : Result String (Unit {0})

abbrev pub RichCiphertext : Type 0
RichCiphertext = Option Bytes × Option Bytes

abbrev pub no_metadata : HostedThreadMetadata
no_metadata = record { title = none; avatar = none }

-- The nonce and the ciphertext of a text that is there.
unfoldable pub encrypt_optional :
    Library → Bytes → Bytes → Option Bytes → Result AppError RichCiphertext
encrypt_optional lib data_key nonce none = ok (none, none)
encrypt_optional lib data_key nonce (some plaintext) =
    Results.◌>>=◌ (seal lib data_key nonce plaintext) (λ sealed. ok (some sealed.0, some sealed.1))

unfoldable pub encrypted_rich :
    Library → Codec → Bytes → Bytes → Option MessageRichPayload → Result AppError RichCiphertext
encrypted_rich lib codec data_key nonce none = ok (none, none)
encrypted_rich lib codec data_key nonce (some rich) =
    if is_empty rich
    then ok (none, none)
    else Results.◌>>=◌ (ok_or (codec.to_vec rich) crypto)
        (λ json. encrypt_optional lib data_key nonce (some json))

-- What a pair of columns holds; none unless both are there.
unfoldable pub open_columns :
    Library → Bytes → Option Bytes → Option Bytes → Result AppError (Option Bytes)
open_columns lib data_key (some ciphertext) (some nonce) =
    Results.◌>>=◌ (open_sealed lib data_key nonce ciphertext) (λ text. ok (some text))
open_columns lib data_key _ _ = ok none

-- What `f` reads of a text that is there.
unfoldable pub read_as :
    {A : Type 0} → (Bytes → Option A) → Option Bytes → Result AppError (Option A)
read_as f none = ok none
read_as f (some text) = elim (f text) [ none ↦ err crypto | some a ↦ ok (some a) ]

unfoldable pub body_of : Library → Codec → Bytes → MessageRow → Result AppError (Option String)
body_of lib codec data_key row =
    Results.◌>>=◌ (open_columns lib data_key row.enc_body row.body_nonce) (read_as codec.from_utf8)

unfoldable pub rich_of :
    Library → Codec → Bytes → MessageRow → Result AppError (Option MessageRichPayload)
rich_of lib codec data_key row =
    Results.◌>>=◌ (open_columns lib data_key row.enc_rich row.rich_nonce) (read_as codec.from_slice)

-- The rich payload that a reaction is added to; one that cannot be read is given up.
unfoldable pub existing_rich :
    Library
    → Codec
    → Bytes
    → Option (Option Bytes × Option Bytes)
    → Result AppError MessageRichPayload
existing_rich lib codec data_key (some (some ciphertext, some nonce)) =
    Results.◌>>=◌ (open_sealed lib data_key nonce ciphertext)
      (λ plaintext. ok (unwrap_or (codec.from_slice plaintext) default_rich))
existing_rich lib codec data_key _ = ok default_rich

unfoldable pub store_rich : ℕ → ℕ → String → RichCiphertext → Handler (Unit {0})
store_rich user account msg_id (some nonce, some ciphertext) =
    update_message_rich user account msg_id ciphertext nonce >> return tt
store_rich user account msg_id _ = return tt

unfoldable pub persist_hosted_reaction :
    Services → ℕ → ℕ → HostedReactionEvent → Bytes → Handler (Unit {0})
persist_hosted_reaction o user account reaction nonce = do
  data_key ← data_key_for_user o.lib o.seed user
  existing ← message_rich_ciphertext user account reaction.msg_id
  rich ← lift (existing_rich o.lib o.codec data_key existing)
  sealed ← lift (
      encrypted_rich o.lib o.codec data_key nonce
        (some (record rich { reaction_icon = some reaction.icon })))
  store_rich user account reaction.msg_id sealed

-- The sender's page, of a message of another in a group.
unfoldable pub sender_metadata : Services → HostedIncomingMessage → HostedThreadMetadata
sender_metadata o m =
    if m.kind == "group" && not m.outgoing
    then elim m.from_id [
      | none ↦ no_metadata
      | some from ↦
          if is_blank from
          then no_metadata
          else unwrap_or (o.thread_metadata from "user") no_metadata
    ]
    else no_metadata

-- The rows of the conversation and of the message, with the ciphertexts given.
unfoldable pub store_rows :
    Services
    → ℕ
    → ℕ
    → ℕ
    → MessageDraws
    → HostedIncomingMessage
    → Bytes
    → RichCiphertext
    → RichCiphertext
    → Handler MirrorPlace
store_rows o now user account draws m data_key body rich =
    let metadata = unwrap_or (o.thread_metadata m.thread_id m.kind) no_metadata in
    do
      conversation ←
          upsert_conversation now draws.conversation_id user account m.thread_id m.kind
            (or_else metadata.title m.from_name) metadata.avatar
      stored ← insert_message_ciphertext now draws.message_id user account conversation (record {
        msg_id = m.msg_id;
        from_id = m.from_id;
        from_name = m.from_name;
        from_avatar = (sender_metadata o m).avatar;
        enc_body = body.1;
        body_nonce = body.0;
        enc_rich = rich.1;
        rich_nonce = rich.0;
        outgoing = m.outgoing;
        kind = message_kind m;
        z_ts = m.timestamp;
      })
      return (record {
        user_id = user;
        account_id = account;
        conversation_id = conversation;
        message_id = stored;
        data_key = data_key;
      })

unfoldable pub store_under :
    Services → ℕ → ℕ → ℕ → MessageDraws → HostedIncomingMessage → Bytes → Handler MirrorPlace
store_under o now user account draws m data_key = do
  body ← lift (
      encrypt_optional o.lib data_key draws.body_nonce (Results.map_option o.codec.as_bytes m.text))
  rich ← lift (encrypted_rich o.lib o.codec data_key draws.rich_nonce m.rich)
  store_rows o now user account draws m data_key body rich

-- The message and its conversation are stored.
unfoldable pub store_message :
    Services → ℕ → ℕ → ℕ → MessageDraws → HostedIncomingMessage → Handler MirrorPlace
store_message o now user account draws m =
    data_key_for_user o.lib o.seed user >>= store_under o now user account draws m

-- The rich payload is stored again with the file that was copied.
unfoldable pub store_mirrored :
    Services → MessageDraws → String → MirrorPlace → MessageRichPayload → Handler (Unit {0})
store_mirrored o draws msg_id place rich = do
  sealed ← lift (encrypted_rich o.lib o.codec place.data_key draws.mirrored_nonce (some rich))
  store_rich place.user_id place.account_id msg_id sealed

-- After the mirror: a copy is noted in the message, and a failure is dropped.
unfoldable pub note_copy :
    Services
    → MessageDraws
    → String
    → MirrorPlace
    → MessageRichPayload
    → Result AppError (Option RichFile)
    → Handler (Unit {0})
note_copy o draws msg_id place rich (ok (some file)) =
    store_mirrored o draws msg_id place (record rich { file = some file })
note_copy o draws msg_id place rich _ = return tt

-- The media of a message that is stored.
unfoldable pub mirror_message :
    Services
    → ℕ
    → MessageDraws
    → HostedIncomingMessage
    → MirrorPlace
    → Db
    → Objects
    → Result AppError (Unit {0}) × Db × Objects
mirror_message o now draws m place s objects = elim m.rich [
  | none ↦ (ok tt, s, objects)
  | some rich ↦
      let (mirrored, t, objects') =
        mirror_hosted_media o.lib o.digest o.object_key o.web place draws.file o.print now draws.up
          rich s objects in
      let (r, u) = note_copy o draws m.msg_id place rich mirrored t in (r, u, objects')
]

unfoldable pub persist_hosted_message :
    Services
    → ℕ
    → ℕ
    → ℕ
    → MessageDraws
    → HostedIncomingMessage
    → Db
    → Objects
    → Result AppError (Unit {0}) × Db × Objects
persist_hosted_message o now user account draws m s objects =
    if is_blank m.thread_id
    then (ok tt, s, objects)
    else let (stored, t) = store_message o now user account draws m s in
      elim stored [
        | err e ↦ (err e, t, objects)
        | ok place ↦ mirror_message o now draws m place t objects
      ]
