-- ===== src/Store/Saving.antt =====
-- The ways that `save_message_with_rich` and `save_sticker_message_with_rich` (store/db.rs) end.
use zca_desktop.Common.{
  ◌≡◌, refl, String, Bool, true, false, ◌||◌, none, some, any, if◌then◌else◌, ◌==◌, text_equality,
  pair_equality, Option-cases, is_ok, ok-injective, sym, subst, ◌>>=◌, Result, ok, inl, inr, ◌∙◌,
  arith,
}
use zca_desktop.Common.Table.{
  find, insert_or_ignore, upsert, merged, find-insert_new, find-upsert, any-insert_new,
}
use zca_desktop.Types.{AccountId}
use zca_desktop.Store.{Db, MessageRow, ThreadRow, StoreError, message_key, thread_key}
use zca_desktop.Store.Messages.{
  Json, TextMessage, StickerMessage, transpose_json, has_text_echo, has_sticker_echo,
  insert_message, merge_thread, new_thread, text_row, sticker_row, save_message_with_rich,
  save_sticker_message_with_rich,
}

-- The tables after an INSERT of a new message, by lookup.
pub record Inserted (db db' : Db) (row : MessageRow) (thread : ThreadRow) : Type 0 where
  pub message_at :
      (k : AccountId × String)
      → find message_key k db'.messages
        ≡ (if message_key row == k then some row else find message_key k db.messages)
  pub thread_at :
      (k : AccountId × String)
      → find thread_key k db'.threads ≡ (
          if thread_key thread == k
          then some (merged thread (merge_thread thread) (find thread_key k db.threads))
          else find thread_key k db.threads)
  pub any_message : (p : MessageRow → Bool) → any p db'.messages ≡ (any p db.messages || p row)
  pub accounts_kept : db'.accounts ≡ db.accounts
  pub credentials_kept : db'.credentials ≡ db.credentials
  pub stickers_kept : db'.recent_stickers ≡ db.recent_stickers

pub insert_message-new :
    (db : Db) (row : MessageRow) (thread : ThreadRow)
    → find message_key (message_key row) db.messages ≡ none
    → insert_message db row thread ≡ record db {
      messages = insert_or_ignore message_key row db.messages;
      threads = upsert thread_key thread (merge_thread thread) db.threads;
    }
unfolding insert_message
insert_message-new db row thread fresh = rw (fresh, insert_message)

pub insert_message-old :
    (db : Db) (row : MessageRow) (thread : ThreadRow) {old : MessageRow}
    → find message_key (message_key row) db.messages ≡ some old
    → insert_message db row thread ≡ db
unfolding insert_message
insert_message-old db row thread there = rw (there, insert_message)

merge_thread-key : (thread r : ThreadRow) → thread_key (merge_thread thread r) ≡ thread_key r
unfolding merge_thread
merge_thread-key thread r = refl

pub insert_message-Inserted :
    (db : Db) (row : MessageRow) (thread : ThreadRow)
    → find message_key (message_key row) db.messages ≡ none
    → Inserted db (insert_message db row thread) row thread
insert_message-Inserted db row thread fresh = rw (insert_message-new db row thread fresh) (record {
  message_at = λ k. find-insert_new message_key k row db.messages fresh;
  thread_at = λ k.
      find-upsert thread_key thread (merge_thread thread) (λ x h. merge_thread-key thread x ∙ h) k
        db.threads;
  any_message = λ p. any-insert_new message_key p row db.messages fresh;
  accounts_kept = refl;
  credentials_kept = refl;
  stickers_kept = refl;
})

-- The ways a save ends: an echo is skipped, a known id is ignored, and all else is inserted.
pub data Saved (db : Db) (echo : Bool) (row : MessageRow) (thread : ThreadRow) : Db → Type 0 where
  skipped_echo : echo ≡ true → Saved db echo row thread db
  known_id :
      {old : MessageRow}
      → echo ≡ false
      → find message_key (message_key row) db.messages ≡ some old
      → Saved db echo row thread db
  inserted :
      {db' : Db}
      → echo ≡ false
      → find message_key (message_key row) db.messages ≡ none
      → Inserted db db' row thread
      → Saved db echo row thread db'

-- What a save leaves, once the payloads have serialised.
abbrev pub saving : Db → Bool → MessageRow → ThreadRow → Db
saving db echo row thread = if echo then db else insert_message db row thread

pub saving-Saved :
    (db : Db) (echo : Bool) (row : MessageRow) (thread : ThreadRow)
    → Saved db echo row thread (saving db echo row thread)
saving-Saved db true row thread = skipped_echo refl
saving-Saved db false row thread =
    elim (Option-cases (find message_key (message_key row) db.messages)) [
      | inl fresh ↦ inserted refl fresh (insert_message-Inserted db row thread fresh)
      | inr (old, there) ↦ rw (insert_message-old db row thread there) (known_id refl there)
    ]

-- The row that a text message is stored as, if its payloads serialise.
abbrev pub text_row_of : Json → TextMessage → Result StoreError MessageRow
text_row_of j m = do
  quote_json ← transpose_json j.quote_to_string m.quote
  link_json ← transpose_json j.link_to_string m.link
  ok (text_row m quote_json link_json)

abbrev pub text_thread_of : TextMessage → ThreadRow
text_thread_of m =
    new_thread m.account_id m.thread_id m.kind m.thread_title m.thread_avatar m.ts m.bump_unread

abbrev pub sticker_row_of : Json → StickerMessage → Result StoreError MessageRow
sticker_row_of j m = do
  quote_json ← transpose_json j.quote_to_string m.quote
  ok (sticker_row m quote_json)

abbrev pub sticker_thread_of : StickerMessage → ThreadRow
sticker_thread_of m =
    new_thread m.account_id m.thread_id m.kind m.thread_title m.thread_avatar m.ts m.bump_unread

module _ (j : Json) where
  pub save_text-eq :
      (db : Db) (m : TextMessage) {row : MessageRow}
      → text_row_of j m ≡ ok row
      → save_message_with_rich j db m ≡ ok (saving db (has_text_echo db m) row (text_thread_of m))
  unfolding save_message_with_rich
  save_text-eq db m h = ground arith

  pub save_sticker-eq :
      (db : Db) (m : StickerMessage) {row : MessageRow}
      → sticker_row_of j m ≡ ok row
      → save_sticker_message_with_rich j db m
        ≡ ok (saving db (has_sticker_echo db m) row (sticker_thread_of m))
  unfolding save_sticker_message_with_rich
  save_sticker-eq db m h = ground arith

  -- Saving a sticker message whose quote serialises succeeds, and the tables afterwards are those
  -- of one of three cases: an echo or a message id already stored changes nothing, and anything
  -- else adds the message's row, and adds or merges its thread's row, and changes no other row.
  pub save_sticker-Saved :
      (db : Db) (m : StickerMessage) {row : MessageRow}
      → sticker_row_of j m ≡ ok row
      → (db' : Db) × (save_sticker_message_with_rich j db m ≡ ok db')
        × Saved db (has_sticker_echo db m) row (sticker_thread_of m) db'
  save_sticker-Saved db m {row} h =
      let echo = has_sticker_echo db m in
      (
        saving db echo row (sticker_thread_of m),
        save_sticker-eq db m h,
        saving-Saved db echo row (sticker_thread_of m),
      )

  -- Saving a text message succeeds exactly if its quote and its link serialise.
  pub save_text_fails :
      (db : Db) (m : TextMessage) → is_ok (save_message_with_rich j db m) ≡ is_ok (text_row_of j m)
  unfolding save_message_with_rich
  save_text_fails db m = ground arith

  -- So whatever a successful save returns is one of the three cases.
  pub save_text-cases :
      (db : Db) (m : TextMessage) {db' : Db} {row : MessageRow}
      → text_row_of j m ≡ ok row
      → save_message_with_rich j db m ≡ ok db'
      → Saved db (has_text_echo db m) row (text_thread_of m) db'
  save_text-cases db m {row = row} h saved =
      let echo = has_text_echo db m in
      subst (Saved db echo row (text_thread_of m))
        (ok-injective (sym (save_text-eq db m h) ∙ saved))
        (saving-Saved db echo row (text_thread_of m))

  pub save_sticker-cases :
      (db : Db) (m : StickerMessage) {db' : Db} {row : MessageRow}
      → sticker_row_of j m ≡ ok row
      → save_sticker_message_with_rich j db m ≡ ok db'
      → Saved db (has_sticker_echo db m) row (sticker_thread_of m) db'
  save_sticker-cases db m {row = row} h saved =
      let echo = has_sticker_echo db m in
      subst (Saved db echo row (sticker_thread_of m))
        (ok-injective (sym (save_sticker-eq db m h) ∙ saved))
        (saving-Saved db echo row (sticker_thread_of m))
