-- ===== src/Store/Dedup.antt =====
-- Repeated saves (`save_message_with_rich`, `save_sticker_message_with_rich` of store/db.rs):
-- redelivery and the listener's echo.
use zca_desktop.Common.{
  ◌≤◌, ◌≡◌, refl, String, Bool, true, false, ◌||◌, none, some, ℤ, any, ==_refl, text_equality,
  pair_equality, le→leb, distance, ok, ◌>>=◌, Result-cases, Bool-cases, Option-cases, inl, inr, ap,
  ◌≢◌, arith, ◌∙◌,
}
use text.Mathlib.TextEquality.{eq_iff}
use zca_desktop.Common.Table.{find}
use zca_desktop.Store.{Db, MessageRow, ThreadRow, message_key}
use zca_desktop.Store.Messages.{
  Json, TextMessage, StickerMessage, echo_window_ms, is_text_echo, has_text_echo, has_sticker_echo,
  text_row, save_message_with_rich, save_sticker_message_with_rich, insert_message,
}
use zca_desktop.Store.Saving.{
  Inserted, saving, insert_message-old, insert_message-Inserted, text_row_of, text_thread_of,
  sticker_row_of, sticker_thread_of, save_text-eq, save_sticker-eq,
}

-- Once a row is stored under the key, saving it again changes nothing, echo or not.
pub saving-known :
    (db : Db) (echo : Bool) (row : MessageRow) (thread : ThreadRow) {old : MessageRow}
    → find message_key (message_key row) db.messages ≡ some old
    → saving db echo row thread ≡ db
saving-known db true row thread there = refl
saving-known db false row thread there = insert_message-old db row thread there

key_after :
    {db db' : Db} {row : MessageRow} {thread : ThreadRow}
    → Inserted db db' row thread
    → find message_key (message_key row) db'.messages ≡ some row
key_after {row = row} i = i.message_at (message_key row) ∙ rw (==_refl (message_key row)) refl

saving_twice :
    (echo : Db → Bool) (db : Db) (row : MessageRow) (thread : ThreadRow)
    → let db' = saving db (echo db) row thread in saving db' (echo db') row thread ≡ db'
saving_twice echo db row thread = elim (Bool-cases (echo db)) [
  | inl skip ↦ rw skip (rw skip)
  | inr go ↦ elim (Option-cases (find message_key (message_key row) db.messages)) [
    | inl fresh ↦ rw go (
        saving-known _ (echo (insert_message db row thread)) row thread
          (key_after (insert_message-Inserted db row thread fresh)))
    | inr (old, there) ↦ rw go (
        rw (insert_message-old db row thread there)
          (rw go (insert_message-old db row thread there)))
  ]
]

-- What is stored of a text, and the messages that the echo query would find it for.
abbrev SameText : TextMessage → TextMessage → Type 0
SameText m n =
    (n.account_id ≡ m.account_id)
    × (n.thread_id ≡ m.thread_id)
    × (n.body ≡ m.body)
    × (m.outgoing ≡ true)
    × (n.outgoing ≡ true)
    × (n.msg_id ≢ m.msg_id)

pub text_row-msg_id :
    (j : Json) (m : TextMessage) {row : MessageRow}
    → text_row_of j m ≡ ok row
    → (row.account_id ≡ m.account_id)
      × (row.thread_id ≡ m.thread_id)
      × (row.msg_id ≡ m.msg_id)
      × (row.body ≡ m.body)
      × (row.outgoing ≡ m.outgoing)
      × (row.ts ≡ m.ts)
unfolding text_row
text_row-msg_id j m h = ground arith

module _ (j : Json) where
  -- Saving a text message again right after it was saved changes nothing, and fails only if the
  -- first save failed.
  pub save_text_twice :
      (db : Db) (m : TextMessage)
      → (save_message_with_rich j db m >>= λ db'. save_message_with_rich j db' m)
        ≡ save_message_with_rich j db m
  save_text_twice db m = elim (Result-cases (text_row_of j m)) [
    | inl (row, h) ↦ rw (save_text-eq j db m h) (
        save_text-eq j _ m h
        ∙ ap ok (saving_twice (λ d. has_text_echo d m) db row (text_thread_of m)))
    | inr (e, h) ↦ unfold save_message_with_rich in ground arith
  ]

  -- Saving a sticker message again right after it was saved changes nothing, and fails only if the
  -- first save failed.
  pub save_sticker_twice :
      (db : Db) (m : StickerMessage)
      → (save_sticker_message_with_rich j db m >>= λ db'. save_sticker_message_with_rich j db' m)
        ≡ save_sticker_message_with_rich j db m
  save_sticker_twice db m = elim (Result-cases (sticker_row_of j m)) [
    | inl (row, h) ↦ rw (save_sticker-eq j db m h) (
        save_sticker-eq j _ m h
        ∙ ap ok (saving_twice (λ d. has_sticker_echo d m) db row (sticker_thread_of m)))
    | inr (e, h) ↦ unfold save_sticker_message_with_rich in ground arith
  ]

  is_text_echo_of_row :
      (m n : TextMessage) (text : String) (sent echoed : ℤ) {row : MessageRow}
      → text_row_of j m ≡ ok row
      → SameText m n
      → m.body ≡ some text
      → m.ts ≡ some sent
      → distance sent echoed ≤ echo_window_ms
      → is_text_echo n text echoed row ≡ true
  unfolding is_text_echo
  is_text_echo_of_row m n text sent echoed {row} h same body at near =
      let r = text_row-msg_id j m h in
      ground (
        arith,
        eq_iff row.account_id n.account_id,
        eq_iff row.thread_id n.thread_id,
        eq_iff row.msg_id n.msg_id,
        eq_iff text text,
        le→leb (distance sent echoed) echo_window_ms near,
      )

  has_text_echo_of_any :
      (db : Db) (n : TextMessage) (text : String) (echoed : ℤ)
      → n.outgoing ≡ true
      → n.body ≡ some text
      → n.ts ≡ some echoed
      → any (is_text_echo n text echoed) db.messages ≡ true
      → has_text_echo db n ≡ true
  unfolding has_text_echo
  has_text_echo_of_any db n text echoed o b t h = rw (o, b, t) h

  -- Once an outgoing text that is no echo and has a new id is saved, the listener's copy of it
  -- (same account, thread and body, outgoing, another id, stamped at most 15 seconds away) is
  -- skipped: the store stays as the first save left it. The payloads of both serialise.
  pub echo_skipped :
      (db : Db) (m n : TextMessage) (text : String) (sent echoed : ℤ) {row copy : MessageRow}
      → text_row_of j m ≡ ok row
      → text_row_of j n ≡ ok copy
      → SameText m n
      → m.body ≡ some text
      → m.ts ≡ some sent
      → n.ts ≡ some echoed
      → distance sent echoed ≤ echo_window_ms
      → has_text_echo db m ≡ false
      → find message_key (m.account_id, m.msg_id) db.messages ≡ none
      → (save_message_with_rich j db m >>= λ db'. save_message_with_rich j db' n)
        ≡ save_message_with_rich j db m
  echo_skipped db m n text sent echoed {row} {copy} h hn same body at at' near first fresh =
      let thread = text_thread_of m in
      let r = text_row-msg_id j m h in
      let new : find message_key (message_key row) db.messages ≡ none = rw (r.0, r.2) fresh in
      let db' = insert_message db row thread in
      let i = insert_message-Inserted db row thread new in
      let found : any (is_text_echo n text echoed) db'.messages ≡ true =
        i.any_message (is_text_echo n text echoed)
        ∙ rw (is_text_echo_of_row m n text sent echoed h same body at near) (or_true _) in
      let skip = has_text_echo_of_any db' n text echoed same.4 (same.2 ∙ body) at' found in
      rw (save_text-eq j db m h, first) (save_text-eq j db' n hn ∙ rw skip refl)
    where
      or_true : (b : Bool) → (b || true) ≡ true
      or_true b = ground arith
