-- ===== src/Server/Realtime.antt =====
-- What the server does with an account's realtime events (`handle_hosted_realtime_event` of
-- sessions.rs): it stores them and tells the user's devices. zca-rust, the network, JSON and UTF-8
-- are arguments; a log entry is left out, and so is the payload's text.
pub mod Mirror
pub mod Persisting
pub mod Handling
pub mod Events
pub mod Uploads
mod Samples
mod Tests
use zca_desktop.Common.{
  ℕ, String, Bool, true, false, not, ◌&&◌, Option, none, some, List, ℤ, is_some, ◌≡◌, if◌then◌else◌,
}
use zca_desktop.Redact.{Value}
use zca_desktop.Server.{Bytes}

pub record RichSticker : Type 0 where
  pub id : ℤ
  pub cat_id : ℤ
  pub sticker_type : ℤ
  pub url : String

pub record RichQuote : Type 0 where
  pub owner_id : String
  pub from_d : String
  pub global_msg_id : ℤ
  pub cli_msg_id : ℤ
  pub msg : String
  pub cli_msg_type : ℤ
  pub ts : ℤ

pub record RichLink : Type 0 where
  pub href : String
  pub title : Option String
  pub description : Option String
  pub thumb : Option String

pub record RichFile : Type 0 where
  pub id : Option String
  pub filename : Option String
  pub mime : Option String
  pub size_bytes : ℤ
  pub href : Option String
  pub thumb : Option String
  pub media_kind : Option String

pub record MessageRichPayload : Type 0 where
  pub sticker : Option RichSticker
  pub quote : Option RichQuote
  pub link : Option RichLink
  pub file : Option RichFile
  pub reaction_icon : Option String
  pub raw : Option Value

abbrev pub default_rich : MessageRichPayload
default_rich = record {
  sticker = none;
  quote = none;
  link = none;
  file = none;
  reaction_icon = none;
  raw = none;
}

unfoldable pub is_empty : MessageRichPayload → Bool
is_empty r =
    not (is_some r.sticker)
    && (not (is_some r.quote)
        && (not (is_some r.link)
            && (not (is_some r.file) && (not (is_some r.reaction_icon) && not (is_some r.raw)))))

pub record HostedIncomingMessage : Type 0 where
  pub thread_id : String
  pub kind : String
  pub msg_id : String
  pub from_id : Option String
  pub from_name : Option String
  pub text : Option String
  pub rich : Option MessageRichPayload
  pub outgoing : Bool
  pub timestamp : Option String

pub record HostedReactionEvent : Type 0 where
  pub thread_id : String
  pub msg_id : String
  pub icon : String
  pub from_id : Option String
  pub from_name : Option String
  pub outgoing : Bool
  pub is_group : Bool

pub record HostedUndoEvent : Type 0 where
  pub thread_id : String
  pub msg_id : String
  pub cli_msg_id : String
  pub outgoing : Bool
  pub is_group : Bool

pub record HostedUploadEvent : Type 0 where
  pub file_id : String
  pub file_url : String

pub data HostedRealtimeEvent : Type 0 where
  message : HostedIncomingMessage → HostedRealtimeEvent
  reaction : HostedReactionEvent → HostedRealtimeEvent
  undo : HostedUndoEvent → HostedRealtimeEvent
  upload : HostedUploadEvent → HostedRealtimeEvent

pub record HostedThreadMetadata : Type 0 where
  pub title : Option String
  pub avatar : Option String

-- UTF-8 and serde_json on rich payloads.
pub record Codec : Type 0 where
  pub as_bytes : String → Bytes
  pub from_utf8 : Bytes → Option String
  pub to_vec : MessageRichPayload → Option Bytes
  pub from_slice : Bytes → Option MessageRichPayload

-- The bytes of a text are read back as the text.
abbrev pub ReadsText : Codec → Option String → Type 0
ReadsText c none = Unit
ReadsText c (some s) = c.from_utf8 (c.as_bytes s) ≡ some s

-- The JSON of a payload is read back as the payload.
abbrev pub ReadsRich : Codec → Option MessageRichPayload → Type 0
ReadsRich c none = Unit
ReadsRich c (some r) = (b : Bytes) → c.to_vec r ≡ some b → c.from_slice b ≡ some r

-- What is written of a message is read back, also after the copy of its file is noted in it.
pub record ReadsBack (c : Codec) (m : HostedIncomingMessage) : Type 0 where
  pub text : ReadsText c m.text
  pub rich : ReadsRich c m.rich
  pub noted :
      (r : MessageRichPayload) (original : RichFile) (id : String) (size : ℤ)
      → m.rich ≡ some r
      → r.file ≡ some original
      → ReadsRich c
          (some (record r { file = some (record original { id = some id; size_bytes = size }) }))

unfoldable pub message_kind : HostedIncomingMessage → String
message_kind incoming = elim incoming.rich [
  | none ↦ "text"
  | some rich ↦
      if is_some rich.sticker
      then "sticker"
      else if is_some rich.link
      then "link"
      else if is_some rich.file
      then "file"
      else "text"
]
