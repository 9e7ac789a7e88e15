-- ===== src/Store/Recall.antt =====
-- `apply_reaction`, `mark_message_deleted` (store/db.rs), and what is loaded and saved after
-- them.
use zca_desktop.Common.{
  ◌≡◌, refl, sym, ◌∙◌, String, true, none, some, if◌then◌else◌, ◌==◌, ==_refl, text_equality,
  pair_equality, is_some, map_option, ok, inl, inr, ap, arith, Option-cases,
}
use zca_desktop.Common.Table.{find, find-update}
use zca_desktop.Types.{AccountId, StoredMessage}
use zca_desktop.Store.{Db, MessageRow, message_key}
use zca_desktop.Store.Messages.{Json, TextMessage, has_text_echo, save_message_with_rich}
use zca_desktop.Store.Edits.{apply_reaction, mark_message_deleted, recall, set_reaction}
use zca_desktop.Store.Loading.{stored_message, json_col, stored_sticker}
use zca_desktop.Store.Saving.{text_row_of, text_thread_of, save_text-eq}
use zca_desktop.Store.Dedup.{saving-known, text_row-msg_id}

-- A recall answers whether the message is stored; it blanks that message's row and changes no other
-- row of the messages, no thread and no account.
pub mark_message_deleted_lem :
    (db : Db) (a : AccountId) (id : String) (k : AccountId × String)
    → let (db', found) = mark_message_deleted db a id in
      (found ≡ is_some (find message_key (a, id) db.messages))
      × (find message_key k db'.messages ≡ (
          if (a, id) == k
          then map_option recall (find message_key k db.messages)
          else find message_key k db.messages))
      × (db'.threads ≡ db.threads)
      × (db'.accounts ≡ db.accounts)
unfolding mark_message_deleted
mark_message_deleted_lem db a id k = (
  refl,
  find-update message_key (a, id) recall (λ x. unfold recall in refl) k db.messages,
  refl,
  refl,
)

-- A reaction answers whether the message is stored, and sets the icon of that message alone.
pub apply_reaction_lem :
    (db : Db) (a : AccountId) (id icon : String) (k : AccountId × String)
    → let (db', found) = apply_reaction db a id icon in
      (found ≡ is_some (find message_key (a, id) db.messages))
      × (find message_key k db'.messages ≡ (
          if (a, id) == k
          then map_option (set_reaction icon) (find message_key k db.messages)
          else find message_key k db.messages))
      × (db'.threads ≡ db.threads)
      × (db'.accounts ≡ db.accounts)
unfolding apply_reaction
apply_reaction_lem db a id icon k = (
  refl,
  find-update message_key (a, id) (set_reaction icon) (λ x. unfold set_reaction in refl) k
      db.messages,
  refl,
  refl,
)

-- What the UI can still learn of a recalled message: that it is recalled, and no content.
pub record ShowsNothing (m : StoredMessage) : Type 0 where
  pub flagged : m.deleted ≡ true
  pub no_body : m.body ≡ none
  pub no_sticker : m.sticker ≡ none
  pub no_link : m.link ≡ none

-- Whatever was stored, a message loaded from a recalled row shows no text, sticker or link.
pub recalled-ShowsNothing :
    (j : Json) (a : AccountId) (r : MessageRow) {m : StoredMessage}
    → stored_message j a (recall r) ≡ ok m
    → ShowsNothing m
unfolding stored_message recall json_col stored_sticker
recalled-ShowsNothing j a r h = ground arith

-- A stored message that was recalled does not come back: a redelivery under its id, with payloads
-- that serialise, changes nothing after the recall.
pub recalled_stays_recalled :
    (j : Json) (db : Db) (m : TextMessage) {row : MessageRow}
    → text_row_of j m ≡ ok row
    → (mark_message_deleted db m.account_id m.msg_id).1 ≡ true
    → let db' = (mark_message_deleted db m.account_id m.msg_id).0 in
      save_message_with_rich j db' m ≡ ok db'
recalled_stays_recalled j db m {row} h found =
    let db' = (mark_message_deleted db m.account_id m.msg_id).0 in
    let r = text_row-msg_id j m h in
    elim (Option-cases (find message_key (m.account_id, m.msg_id) db.messages)) [
      | inl missing ↦ absurd (cc (found_iff, missing))
      | inr (old, there) ↦
          let stored : find message_key (message_key row) db'.messages ≡ some (recall old) =
            rw (r.0, r.2) (after old there) in
          save_text-eq j db' m h
          ∙ ap ok (saving-known db' (has_text_echo db' m) row (text_thread_of m) stored)
    ]
  where
    found_iff : is_some (find message_key (m.account_id, m.msg_id) db.messages) ≡ true
    found_iff =
        sym (mark_message_deleted_lem db m.account_id m.msg_id (m.account_id, m.msg_id)).0 ∙ found

    after :
        (old : MessageRow)
        → find message_key (m.account_id, m.msg_id) db.messages ≡ some old
        → find message_key
            (m.account_id, m.msg_id)
            (mark_message_deleted db m.account_id m.msg_id).0.messages
          ≡ some (recall old)
    after old there =
        (mark_message_deleted_lem db m.account_id m.msg_id (m.account_id, m.msg_id)).1
        ∙ rw (there, ==_refl m.account_id, ==_refl m.msg_id) refl
