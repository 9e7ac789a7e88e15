-- ===== src/Server/Realtime/Events/Tests.antt =====
-- The theorem on the kinds of messages at a concrete input.
use zca_desktop.Common.{
  starts_with, to_ascii_lowercase, ◌≡◌, refl, true, false, none, text_equality, number_equality,
  pair_equality, is_whitespace, drop_while, drop_end, trim_text,
}
use zca_desktop.Server.Realtime.{message_kind, is_empty, HostedIncomingMessage}
use zca_desktop.Redact.{Value, contains}
use zca_desktop.Server.Realtime.Persisting.Sealed.{shown_rich}
use zca_desktop.Server.Realtime.Events.{
  Message, attachment, non_empty, link_from_content, media_kind, file_from_content,
  sticker_from_content, rich_from_parts, to_incoming_message,
}
use zca_desktop.Server.Realtime.Events.Kinds.{kind_of_type, to_incoming_message-kind}

-- A photo, in a group.
abbrev photo : Message Value
photo = record {
  is_group = true;
  thread_id = "thread";
  msg_id = "m2";
  uid_from = "peer";
  d_name = "Tuan";
  msg_type = "chat.photo";
  content = attachment (record {
    title = "a.jpg";
    description = "";
    href = "https://photos.example/a";
    thumb = "";
    attachment_type = "";
  });
  quote = none;
  ts = "1";
  is_self = false;
}

abbrev photo_incoming : HostedIncomingMessage
photo_incoming = to_incoming_message {Other = Value} (λ c. none) (λ s. none) (λ n. "") photo

photo_is_file : message_kind photo_incoming ≡ "file"
unfolding message_kind to_incoming_message rich_from_parts sticker_from_content link_from_content
    file_from_content non_empty media_kind is_empty trim_text drop_end drop_while is_whitespace
    contains starts_with to_ascii_lowercase
photo_is_file = refl

to_incoming_message-kind_example :
    (message_kind photo_incoming
      ≡ kind_of_type {Other = Value} (λ c. none) (λ s. none) "chat.photo" photo.content)
    × (shown_rich photo_incoming.rich ≡ photo_incoming.rich)
to_incoming_message-kind_example =
    to_incoming_message-kind {Other = Value} (λ c. none) (λ s. none) (λ n. "") photo
