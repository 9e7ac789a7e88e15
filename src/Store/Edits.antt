-- ===== src/Store/Edits.antt =====
-- Changes of stored rows (store/db.rs): identities of threads, read marks, reactions, recalls, and
-- the metadata of attachments.
use zca_desktop.Common.{
  ℕ, ◌+◌, String, Bool, true, ◌&&◌, not, Option, none, some, List, [], ◌∷◌, ◌++◌, ℤ, ◌==◌,
  text_equality, pair_equality, is_some, or_else, if◌then◌else◌,
}
use zca_desktop.Common.Table.{find, update}
use zca_desktop.Types.{AccountId, ThreadIdentity}
use zca_desktop.Store.{Db, MessageRow, ThreadRow, AttachmentRow, message_key, thread_key}

-- `filter(|s| !s.is_empty())`
unfoldable pub non_empty : Option String → Option String
non_empty none = none
non_empty (some s) = if s == "" then none else some s

-- The UPDATE of one identity.
unfoldable pub fill_identity : Option String → Option String → ThreadRow → ThreadRow
fill_identity title avatar r = record r {
  title = or_else title r.title;
  avatar = or_else avatar r.avatar;
}

-- One round of the loop, with the number of rows updated so far.
unfoldable pub backfill_one : AccountId → ThreadIdentity → Db × ℕ → Db × ℕ
backfill_one account id (db, updated) =
    let title = non_empty id.title in
    let avatar = non_empty id.avatar in
    if not (is_some title) && not (is_some avatar) then (db, updated) else (
      record db {
        threads = update thread_key (account, id.thread_id) (fill_identity title avatar) db.threads;
      },
      updated + (if is_some (find thread_key (account, id.thread_id) db.threads) then 1 else 0),
    )

unfoldable pub backfill_from : AccountId → List ThreadIdentity → Db × ℕ → Db × ℕ
backfill_from account [] s = s
backfill_from account (id ∷ ids) s = backfill_from account ids (backfill_one account id s)

-- The database afterwards, and the number of rows updated.
unfoldable pub backfill_thread_identities : Db → AccountId → List ThreadIdentity → Db × ℕ
backfill_thread_identities db account ids = backfill_from account ids (db, 0)

unfoldable pub mark_read : ThreadRow → ThreadRow
mark_read r = record r { unread = 0 }

unfoldable pub clear_unread : Db → AccountId → String → Db
clear_unread db account thread = record db {
  threads = update thread_key (account, thread) mark_read db.threads;
}

unfoldable pub set_reaction : String → MessageRow → MessageRow
set_reaction icon r = record r { reaction_icon = some icon }

unfoldable pub apply_reaction : Db → AccountId → String → String → Db × Bool
apply_reaction db account msg_id icon = (
  record db { messages = update message_key (account, msg_id) (set_reaction icon) db.messages },
  is_some (find message_key (account, msg_id) db.messages),
)

unfoldable pub recall : MessageRow → MessageRow
recall r = record r {
  deleted = true;
  body = none;
  sticker_id = none;
  sticker_cat_id = none;
  sticker_type = none;
  sticker_url = none;
  link_json = none;
}

unfoldable pub mark_message_deleted : Db → AccountId → String → Db × Bool
mark_message_deleted db account msg_id = (
  record db { messages = update message_key (account, msg_id) recall db.messages },
  is_some (find message_key (account, msg_id) db.messages),
)

unfoldable pub save_attachment :
    Db
    → AccountId
    → String
    → Option String
    → Option String
    → Option String
    → Option ℤ
    → Option String
    → Db
save_attachment db account msg_id kind url filename size meta = record db {
  attachments = db.attachments ++ row ∷ [];
}
  where
    row : AttachmentRow
    row = record {
      account_id = account;
      msg_id = msg_id;
      kind = kind;
      url = url;
      local_path = none;
      filename = filename;
      size = size;
      meta = meta;
    }
