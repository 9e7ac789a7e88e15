-- ===== src/Server/Realtime/Samples.antt =====
-- A session of one account for the tests: a sticker that arrives, a heart on it, and a web of one
-- host.
use zca_desktop.Common.{
  String, ℤ, false, ◌==◌, ◌&&◌, integer_equality, ℕ, true, false, none, some, List, [], ◌∷◌, ok,
  if◌then◌else◌, text_equality, number_equality, pair_equality, pos, codes, Option, is_some,
}
use zca_desktop.Server.{Bytes, Db, MessageRow}
use zca_desktop.Server.Samples.{plain, zeros, with_an}
use zca_desktop.Server.Accounts.{new_account}
use zca_desktop.Server.Hosted.Addresses.{v4}
use zca_desktop.Server.Realtime.{
  RichFile, MessageRichPayload, default_rich, HostedIncomingMessage, HostedReactionEvent, message,
  reaction, Codec,
}
use zca_desktop.Server.Realtime.Mirror.{Web}
use zca_desktop.Server.Realtime.Persisting.{Services, MessageDraws}
use zca_desktop.Server.Realtime.Persisting.Reaction.{with_icon}
use zca_desktop.Server.Realtime.Handling.{World, Context, Turn, handles, reads}

abbrev pub sticker_rich : MessageRichPayload
sticker_rich = record default_rich {
  sticker = some (record { id = pos 1; cat_id = pos 2; sticker_type = pos 3; url = "u" });
}

abbrev pub iconed : MessageRichPayload
iconed = with_icon "heart" sticker_rich

abbrev pub read_rich : Bytes → Option MessageRichPayload
read_rich [] = some sticker_rich
read_rich (x ∷ b) = some iconed

-- A codec of the payloads of the tests: no payload with a file is written.
abbrev pub codec : Codec
codec = record {
  as_bytes = codes;
  from_utf8 = λ b. some "hello";
  to_vec =
      λ r. if is_some r.file then none else some (if is_some r.reaction_icon then 1 ∷ [] else []);
  from_slice = read_rich;
}

abbrev pub web : Web
web = record {
  parse_url = λ s. some ("https", record { text = s; host = some "media.example"; port = none });
  names = record {
    parse = λ host. none;
    lookup_host = λ host port. some (v4 (record { a = 8; b = 8; c = 8; d = 8 }) ∷ []);
  };
  get = λ s.
      ok (record {
        success = true;
        status = "200";
        content_length = some 2;
        body = ok (1 ∷ 2 ∷ []);
      });
  max_bytes = 4;
}

abbrev pub services : Services
services = record {
  lib = plain;
  seed = "seed";
  codec = codec;
  digest = λ b. "digest";
  object_key = λ user id digest. "object";
  print = λ n. "";
  web = web;
  thread_metadata = λ thread kind. none;
}

abbrev pub draws : MessageDraws
draws = record {
  conversation_id = 20;
  message_id = 30;
  body_nonce = zeros 12;
  rich_nonce = zeros 12;
  mirrored_nonce = zeros 12;
  file = record {
    file_key = zeros 32;
    file_key_nonce = zeros 12;
    object_nonce = zeros 12;
    file_id_for_key = 40;
    row_id = 41;
  };
  up = ok tt;
}

abbrev pub with_account : Db
with_account = record with_an { cloud_accounts = new_account 1 10 7 "own" none none [] [] ∷ [] }

abbrev pub incoming : HostedIncomingMessage
incoming = record {
  thread_id = "thread";
  kind = "user";
  msg_id = "m1";
  from_id = some "peer";
  from_name = none;
  text = some "hello";
  rich = some sticker_rich;
  outgoing = false;
  timestamp = none;
}

abbrev pub row_with_sticker : MessageRow
row_with_sticker = record {
  id = 30;
  user_id = 7;
  account_id = 10;
  conversation_id = 20;
  msg_id = "m1";
  from_id = none;
  from_name = none;
  from_avatar = none;
  enc_body = none;
  body_nonce = none;
  enc_rich = some [];
  rich_nonce = some (zeros 12);
  outgoing = false;
  kind = "sticker";
  z_ts = none;
  observed_at = 5;
  deleted = false;
}

abbrev pub with_sticker : Db
with_sticker = record with_account { messages = row_with_sticker ∷ [] }

abbrev pub heart : HostedReactionEvent
heart = record {
  thread_id = "thread";
  msg_id = "m1";
  icon = "heart";
  from_id = some "peer";
  from_name = none;
  outgoing = false;
  is_group = false;
}

abbrev pub session_of : ℕ → ℕ → Context
session_of user account = record {
  user_id = user;
  account_id = account;
  now = 5;
  draws = draws;
  reaction_nonce = zeros 12;
}

-- A turn of each of three events of two users, the second of a user that the tables do not have, and two
-- reads of the stream.
abbrev pub turns : List Turn
turns =
    handles (session_of 7 10) (message incoming)
    ∷ reads
    ∷ handles (session_of 8 11) (reaction heart)
    ∷ handles (session_of 7 10) (reaction heart)
    ∷ reads
    ∷ []

abbrev pub world : World
world = record {
  db = with_account;
  objects = [];
  upload_file_urls = [];
  device = record { pending = []; lagged = false };
}

-- A photo that arrives as a file, and what is noted of a copy of it.
abbrev pub photo_file : RichFile
photo_file = record {
  id = none;
  filename = none;
  mime = none;
  size_bytes = pos 0;
  href = some "https://media.example/a";
  thumb = none;
  media_kind = some "image";
}

abbrev pub photo_rich : MessageRichPayload
photo_rich = record default_rich { file = some photo_file }

abbrev pub noted_photo : String → ℤ → MessageRichPayload
noted_photo id size = record photo_rich {
  file = some (record photo_file { id = some id; size_bytes = size });
}

abbrev pub read_photo : Bytes → Option MessageRichPayload
read_photo [] = some photo_rich
read_photo (x ∷ b) = some (noted_photo "" (pos 2))

abbrev pub write_file : RichFile → Option Bytes
write_file f = elim f.id [
  | none ↦ some []
  | some id ↦ if id == "" && f.size_bytes == pos 2 then some (1 ∷ []) else none
]

-- A codec of the photo, before and after a copy of two bytes is noted.
abbrev pub photo_services : Services
photo_services = record services {
  codec = record {
    as_bytes = codes;
    from_utf8 = λ b. some "hello";
    to_vec = λ r. elim r.file [ none ↦ none | some f ↦ write_file f ];
    from_slice = read_photo;
  };
}

abbrev pub photo : HostedIncomingMessage
photo = record incoming { rich = some photo_rich }
