-- ===== src/Store/Persist.antt =====
-- `persist_incoming` (command/mod.rs): how an event of the listener reaches the store. A failure of
-- the store is logged and dropped.
use zca_desktop.Common.{not, none, some, ℤ, Result, ok, err, String}
use zca_desktop.Types.{IncomingMessage, ThreadKind, user, group, Sticker}
use zca_desktop.Store.{Db, StoreError}
use zca_desktop.Store.Messages.{
  Json, TextMessage, StickerMessage, save_message_with_rich, save_sticker_message_with_rich,
}
use zca_desktop.Store.Edits.{apply_reaction, mark_message_deleted}

unfoldable pub kind_to_str : ThreadKind → String
kind_to_str group = "group"
kind_to_str user = "user"

-- `now` is the receive time, in milliseconds.
unfoldable pub incoming_text : IncomingMessage → ℤ → TextMessage
unfolding kind_to_str
incoming_text msg now = record {
  account_id = msg.account_id;
  thread_id = msg.thread_id;
  kind = kind_to_str msg.thread_kind;
  msg_id = msg.msg_id;
  from_id = some msg.from_id;
  from_name = msg.from_name;
  body = msg.text;
  outgoing = msg.is_self;
  ts = some now;
  thread_title = msg.from_name;
  thread_avatar = none;
  bump_unread = not msg.is_self;
  quote = msg.quote;
  link = msg.link;
}

unfoldable pub incoming_sticker : IncomingMessage → Sticker → ℤ → StickerMessage
unfolding kind_to_str
incoming_sticker msg sticker now = record {
  account_id = msg.account_id;
  thread_id = msg.thread_id;
  kind = kind_to_str msg.thread_kind;
  msg_id = msg.msg_id;
  from_id = some msg.from_id;
  from_name = msg.from_name;
  sticker = sticker;
  outgoing = msg.is_self;
  ts = some now;
  thread_title = msg.from_name;
  thread_avatar = none;
  bump_unread = not msg.is_self;
  quote = msg.quote;
}

-- The error is logged, and the database is as it was.
abbrev pub or_unchanged : Db → Result StoreError Db → Db
or_unchanged db (ok db') = db'
or_unchanged db (err e) = db

unfoldable pub persist_incoming : Json → Db → ℤ → IncomingMessage → Db
unfolding incoming_text incoming_sticker
persist_incoming j db now msg = elim msg.reaction [
  | some reaction ↦ (apply_reaction db msg.account_id reaction.msg_id reaction.icon).0
  | none ↦ elim msg.undo [
    | some undo ↦ (mark_message_deleted db msg.account_id undo.msg_id).0
    | none ↦ elim msg.sticker [
      | some sticker ↦
          or_unchanged db (save_sticker_message_with_rich j db (incoming_sticker msg sticker now))
      | none ↦ or_unchanged db (save_message_with_rich j db (incoming_text msg now))
    ]
  ]
]
