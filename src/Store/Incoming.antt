-- ===== src/Store/Incoming.antt =====
-- `persist_incoming` (command/mod.rs) and the unread counters.
use zca_desktop.Common.{
  ◌+◌, ◌≡◌, refl, ◌∙◌, String, Bool, true, ◌&&◌, ℤ, if◌then◌else◌, ◌==◌, text_equality,
  pair_equality, err, Option-cases, Result-cases, inl, inr, arith,
}
use zca_desktop.Types.{AccountId, IncomingMessage, Sticker}
use zca_desktop.Store.{Db, MessageRow, ThreadRow, StoreError, thread_key}
use zca_desktop.Store.Messages.{
  Json, has_text_echo, has_sticker_echo, new_thread, TextMessage, StickerMessage,
  save_message_with_rich, save_sticker_message_with_rich,
}
use zca_desktop.Store.Edits.{apply_reaction, mark_message_deleted}
use zca_desktop.Store.Persist.{incoming_text, incoming_sticker, or_unchanged, persist_incoming}
use zca_desktop.Store.Saving.{
  saving, saving-Saved, text_row_of, text_thread_of, sticker_row_of, sticker_thread_of,
  save_text-eq, save_sticker-eq,
}
use zca_desktop.Store.Unread.{unread_of, stores, Saved-unread}

-- A save with a thread row that counts nothing leaves every badge.
saving-unread :
    (db : Db) (echo : Bool) (row : MessageRow) (thread : ThreadRow) (k : AccountId × String)
    → thread.unread ≡ 0
    → unread_of (saving db echo row thread) k ≡ unread_of db k
saving-unread db echo row thread k silent =
    Saved-unread db echo row thread k (saving-Saved db echo row thread)
    ∙ counts_nothing (stores db echo row && (thread_key thread == k))
  where
    counts_nothing : (b : Bool) → unread_of db k + (if b then thread.unread else 0) ≡ unread_of db k
    counts_nothing b = ground (arith, silent)

module _ (j : Json) where
  own_text :
      (db : Db) (now : ℤ) (msg : IncomingMessage) (k : AccountId × String)
      → msg.is_self ≡ true
      → unread_of (or_unchanged db (save_message_with_rich j db (incoming_text msg now))) k
        ≡ unread_of db k
  own_text db now msg k own = elim (Result-cases (text_row_of j m)) [
    | inl (row, h) ↦
        rw (save_text-eq j db m h)
          (saving-unread db (has_text_echo db m) row (text_thread_of m) k silent)
    | inr (e, h) ↦ rw (refused e h) refl
  ]
    where
      m : TextMessage
      m = incoming_text msg now

      silent : (text_thread_of m).unread ≡ 0
      silent = unfold incoming_text new_thread in rw own refl

      refused : (e : StoreError) → text_row_of j m ≡ err e → save_message_with_rich j db m ≡ err e
      refused e h = unfold save_message_with_rich in ground arith

  own_sticker :
      (db : Db) (now : ℤ) (msg : IncomingMessage) (sticker : Sticker) (k : AccountId × String)
      → msg.is_self ≡ true
      → unread_of
          (or_unchanged db (save_sticker_message_with_rich j db (incoming_sticker msg sticker now)))
          k
        ≡ unread_of db k
  own_sticker db now msg sticker k own = elim (Result-cases (sticker_row_of j m)) [
    | inl (row, h) ↦
        rw (save_sticker-eq j db m h)
          (saving-unread db (has_sticker_echo db m) row (sticker_thread_of m) k silent)
    | inr (e, h) ↦ rw (refused e h) refl
  ]
    where
      m : StickerMessage
      m = incoming_sticker msg sticker now

      silent : (sticker_thread_of m).unread ≡ 0
      silent = unfold incoming_sticker new_thread in rw own refl

      refused :
          (e : StoreError)
          → sticker_row_of j m ≡ err e
          → save_sticker_message_with_rich j db m ≡ err e
      refused e h = unfold save_sticker_message_with_rich in ground arith

  edits-unread :
      (db : Db) (a : AccountId) (id icon : String) (k : AccountId × String)
      → (unread_of (apply_reaction db a id icon).0 k ≡ unread_of db k)
        × (unread_of (mark_message_deleted db a id).0 k ≡ unread_of db k)
  unfolding unread_of apply_reaction mark_message_deleted
  edits-unread db a id icon k = (refl, refl)

  -- Whatever event of the account's own doing comes in (a text, a sticker, a reaction or a recall),
  -- and whether or not the store takes it, no unread counter of any thread moves.
  pub own_event-unread :
      (db : Db) (now : ℤ) (msg : IncomingMessage) (k : AccountId × String)
      → msg.is_self ≡ true
      → unread_of (persist_incoming j db now msg) k ≡ unread_of db k
  unfolding persist_incoming
  own_event-unread db now msg k own = elim (Option-cases msg.reaction) [
    | inr (r, er) ↦ rw er (edits-unread db msg.account_id r.msg_id r.icon k).0
    | inl er ↦ elim (Option-cases msg.undo) [
      | inr (u, eu) ↦ rw (er, eu) (edits-unread db msg.account_id u.msg_id "" k).1
      | inl eu ↦ elim (Option-cases msg.sticker) [
        | inr (s, es) ↦ rw (er, eu, es) (own_sticker db now msg s k own)
        | inl es ↦ rw (er, eu, es) (own_text db now msg k own)
      ]
    ]
  ]
