-- ===== src/Server/Realtime/Events.antt =====
-- What the server makes of the events of zca-rust (zalo_host.rs): a message's rich payload, by the type
-- that Zalo gives it, and the events that its session handles. The records are the fields of
-- zca-rust's types that are read; serde_json, the parser and the printer of numbers are arguments.
pub mod Kinds
mod Tests
use Prim.Native.String
use zca_desktop.Common.{
  String, Bool, true, false, not, ◌&&◌, ◌||◌, Option, none, some, List, [], ◌∷◌, if◌then◌else◌,
  ◌==◌, text_equality, codes, map, map_option, or_else, unwrap_or, is_some, Text,
  to_ascii_lowercase, ℤ, pos, integer_equality,
}
use zca_desktop.Callback.{is_empty}
use zca_desktop.Redact.{Value, string, scalar, contains}
use zca_desktop.Cloud.Json.{get}
use zca_desktop.Server.Text.{trim}
use zca_desktop.Server.Realtime as Realtime
use zca_desktop.Server.Realtime.{
  RichSticker, RichQuote, RichLink, RichFile, MessageRichPayload, HostedIncomingMessage,
  HostedReactionEvent, HostedUndoEvent, HostedUploadEvent, HostedRealtimeEvent,
}
use zca_desktop.Server.Realtime.Mirror.{is_blank}

pub record Attachment : Type 0 where
  pub title : String
  pub description : String
  pub href : String
  pub thumb : String
  pub attachment_type : String

-- `Other` is whatever else a message's content may be.
pub data Content (Other : Type 0) : Type 0 where
  text : String → Content Other
  attachment : Attachment → Content Other
  other : Other → Content Other

pub record Message (Other : Type 0) : Type 0 where
  pub is_group : Bool
  pub thread_id : String
  pub msg_id : String
  pub uid_from : String
  pub d_name : String
  pub msg_type : String
  pub content : Content Other
  pub quote : Option RichQuote
  pub ts : String
  pub is_self : Bool

pub data Reactions : Type 0 where
  heart like haha wow cry angry kiss tears_of_joy shit rose broken_heart dislike : Reactions
  love confused wink sun birthday bomb fine peace thanks punch others : Reactions

-- `r_msg` is the ids of the messages that the reaction is to.
pub record Reaction : Type 0 where
  pub thread_id : String
  pub msg_id : String
  pub r_msg : List String
  pub r_icon : Reactions
  pub uid_from : String
  pub d_name : Option String
  pub is_self : Bool
  pub is_group : Bool

pub record Undo : Type 0 where
  pub thread_id : String
  pub global_msg_id : ℤ
  pub cli_msg_id : ℤ
  pub is_self : Bool
  pub is_group : Bool

pub data ListenerEvent (Other : Type 0) : Type 0 where
  message_event : Message Other → ListenerEvent Other
  reaction_event : Reaction → ListenerEvent Other
  undo_event : Undo → ListenerEvent Other
  upload_event : HostedUploadEvent → ListenerEvent Other
  another_event : ListenerEvent Other

unfoldable pub non_empty : String → Option String
non_empty s = if is_blank s then none else some (trim s)

unfoldable pub link_from_content : {Other : Type 0} → String → Content Other → Option RichLink
link_from_content msg_type (attachment att) =
    if not (msg_type == "chat.link") || is_blank att.href
    then none
    else some (record {
      href = att.href;
      title = non_empty att.title;
      description = non_empty att.description;
      thumb = non_empty att.thumb;
    })
link_from_content msg_type _ = none

-- `raw.contains(…)` of any of the words
abbrev pub has_any : List String → Text → Bool
has_any [] raw = false
has_any (word ∷ words) raw = contains (codes word) raw || has_any words raw

unfoldable pub media_kind : String → String → Option String
media_kind msg_type attachment_type =
    let raw =
      map to_ascii_lowercase (codes (if is_blank msg_type then attachment_type else msg_type)) in
    if has_any ("photo" ∷ "image" ∷ "picture" ∷ []) raw
    then some "image"
    else if has_any ("video" ∷ []) raw
    then some "video"
    else if has_any ("audio" ∷ "voice" ∷ []) raw
    then some "audio"
    else if has_any ("file" ∷ "attach" ∷ []) raw
    then some "file"
    else none

unfoldable pub file_from_content : {Other : Type 0} → String → Content Other → Option RichFile
file_from_content msg_type (attachment att) =
    if msg_type == "chat.link" || msg_type == "chat.sticker"
    then none
    else if is_blank att.href && (is_blank att.title && is_blank att.thumb)
    then none
    else some (record {
      id = none;
      filename = non_empty att.title;
      mime = none;
      size_bytes = pos 0;
      href = non_empty att.href;
      thumb = non_empty att.thumb;
      media_kind = media_kind msg_type att.attachment_type;
    })
file_from_content msg_type _ = none

unfoldable pub message_text : {Other : Type 0} → Content Other → Option String
message_text (text s) = some s
message_text _ = none

unfoldable pub reaction_icon : Reactions → String
reaction_icon Reactions.heart = "❤\u{fe0f}"
reaction_icon Reactions.like = "👍"
reaction_icon Reactions.haha = "😆"
reaction_icon Reactions.wow = "😮"
reaction_icon Reactions.cry = "😢"
reaction_icon Reactions.angry = "😠"
reaction_icon Reactions.kiss = "😘"
reaction_icon Reactions.tears_of_joy = "😂"
reaction_icon Reactions.shit = "💩"
reaction_icon Reactions.rose = "🌹"
reaction_icon Reactions.broken_heart = "💔"
reaction_icon Reactions.dislike = "👎"
reaction_icon Reactions.love = "😍"
reaction_icon Reactions.confused = "😕"
reaction_icon Reactions.wink = "😉"
reaction_icon Reactions.sun = "☀\u{fe0f}"
reaction_icon Reactions.birthday = "🎂"
reaction_icon Reactions.bomb = "💣"
reaction_icon Reactions.fine = "👌"
reaction_icon Reactions.peace = "✌\u{fe0f}"
reaction_icon Reactions.thanks = "🙏"
reaction_icon Reactions.punch = "👊"
reaction_icon Reactions.others = "👍"

-- The first message that the reaction is to, unless its id is blank.
unfoldable pub reacted_to : Reaction → String
reacted_to reaction = elim reaction.r_msg [
  | [] ↦ reaction.msg_id
  | id ∷ ids ↦ if is_blank id then reaction.msg_id else id
]

unfoldable pub to_reaction_event : Reaction → HostedReactionEvent
to_reaction_event reaction = record {
  thread_id = reaction.thread_id;
  msg_id = reacted_to reaction;
  icon = reaction_icon reaction.r_icon;
  from_id = some reaction.uid_from;
  from_name = elim reaction.d_name [ none ↦ none | some name ↦ non_empty name ];
  outgoing = reaction.is_self;
  is_group = reaction.is_group;
}

module _ {Other : Type 0} (to_value : Content Other → Option Value) (parse : Text → Option ℤ)
    (print : ℤ → String) where
  -- `as_i64`, or what a text parses to; a scalar is what it prints.
  unfoldable pub as_i64 : Value → Option ℤ
  as_i64 (scalar printed) = parse printed
  as_i64 (string s) = parse s
  as_i64 _ = none

  unfoldable pub number_at : String → Value → Option ℤ
  number_at key value = elim (get (codes key) value) [ none ↦ none | some v ↦ as_i64 v ]

  unfoldable pub sticker_image_url : ℤ → String
  sticker_image_url id =
      String.◌++◌ "https://zalo-api.zadn.vn/api/emoticon/sticker/webpc?eid="
        (String.◌++◌ (print id) "&size=130")

  unfoldable pub sticker_of : Value → Option RichSticker
  sticker_of value = elim (number_at "id" value) [
    | none ↦ none
    | some id ↦
        if id == pos 0
        then none
        else some (record {
          id = id;
          cat_id = unwrap_or (number_at "catId" value) (pos 0);
          sticker_type = unwrap_or (number_at "type" value) (pos 0);
          url = sticker_image_url id;
        })
  ]

  unfoldable pub sticker_from_content : String → Content Other → Option RichSticker
  sticker_from_content msg_type content =
      if not (msg_type == "chat.sticker")
      then none
      else elim (to_value content) [ none ↦ none | some value ↦ sticker_of value ]

  unfoldable pub rich_from_parts :
      String → Content Other → Option RichQuote → Option MessageRichPayload
  rich_from_parts msg_type content quote =
      let rich : MessageRichPayload = record {
        sticker = sticker_from_content msg_type content;
        quote = quote;
        link = link_from_content msg_type content;
        file = file_from_content msg_type content;
        reaction_icon = none;
        raw = none;
      } in
      if Realtime.is_empty rich then none else some rich

  unfoldable pub to_incoming_message : Message Other → HostedIncomingMessage
  to_incoming_message m = record {
    thread_id = m.thread_id;
    kind = if m.is_group then "group" else "user";
    msg_id = m.msg_id;
    from_id = some m.uid_from;
    from_name = non_empty m.d_name;
    text = message_text m.content;
    rich = rich_from_parts m.msg_type m.content m.quote;
    outgoing = m.is_self;
    timestamp = some m.ts;
  }

  unfoldable pub to_undo_event : Undo → HostedUndoEvent
  to_undo_event undo = record {
    thread_id = undo.thread_id;
    msg_id = print undo.global_msg_id;
    cli_msg_id = print undo.cli_msg_id;
    outgoing = undo.is_self;
    is_group = undo.is_group;
  }

  -- What the listener's task sends to the session.
  unfoldable pub incoming : ListenerEvent Other → Option HostedRealtimeEvent
  incoming (message_event m) = some (HostedRealtimeEvent.message (to_incoming_message m))
  incoming (reaction_event x) = some (HostedRealtimeEvent.reaction (to_reaction_event x))
  incoming (undo_event x) = some (HostedRealtimeEvent.undo (to_undo_event x))
  incoming (upload_event x) = some (HostedRealtimeEvent.upload x)
  incoming another_event = none
