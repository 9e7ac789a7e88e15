-- ===== src/Store/History.antt =====
-- `load_recent_messages` (store/db.rs) after a save, and under its limit.
use zca_desktop.Common.{
  ◌≡◌, refl, ◌∙◌, String, false, Option, none, some, List, [], ◌∷◌, ℤ, sym, subst, ok-injective,
  ◌≤ℤ◌, ◌==◌, ==_refl, text_equality, pair_equality, select, All, ok, Result-cases, Option-cases,
  inl, inr, arith, ◌++◌, pos, negsuc,
}
use mathlib.Core.List.{Perm, append-nil}
use zca_desktop.Common.{take-append-drop}
use zca_desktop.Common.Table.{find}
use zca_desktop.Common.Table.Order.{
  order_by, limit_rows, beyond_limit, order_by-perm, order_by-IsOrdered, take-le-drop, IsOrdered,
}
use zca_desktop.Types.{AccountId, StoredMessage, QuoteRef, LinkPreview}
use zca_desktop.Store.{Db, MessageRow, message_key}
use zca_desktop.Store.Messages.{
  Json, TextMessage, has_text_echo, text_row, transpose_json, save_message_with_rich,
  insert_message,
}
use zca_desktop.Store.Loading.{stored_message, json_col, stored_sticker, oldest_first, recent_rows}
use zca_desktop.Store.Saving.{insert_message-Inserted, text_row_of, text_thread_of, save_text-eq}
use zca_desktop.Store.Dedup.{text_row-msg_id}

-- What `serde_json` promises of the payloads: what it writes, it reads back.
pub record IsRoundTrip (j : Json) : Type 0 where
  pub quote_back :
      (q : QuoteRef) (s : String) → j.quote_to_string q ≡ some s → j.quote_from_str s ≡ some q
  pub link_back :
      (l : LinkPreview) (s : String) → j.link_to_string l ≡ some s → j.link_from_str s ≡ some l

-- A text message as the UI sees it after a restart.
abbrev pub shown_text : TextMessage → StoredMessage
shown_text m = record {
  account_id = m.account_id;
  thread_id = m.thread_id;
  msg_id = m.msg_id;
  from_id = m.from_id;
  from_name = m.from_name;
  body = m.body;
  sticker = none;
  quote = m.quote;
  link = m.link;
  reaction_icon = none;
  deleted = false;
  outgoing = m.outgoing;
  ts = m.ts;
}

transpose_back {ℓ} :
    {A : Type ℓ} (to_string : A → Option String) (from_str : String → Option A)
    → ((a : A) (s : String) → to_string a ≡ some s → from_str s ≡ some a)
    → (o : Option A) (col : Option String) → transpose_json to_string o ≡ ok col
    → json_col from_str col ≡ ok o
unfolding transpose_json json_col
transpose_back to_string from_str back none col h = ground arith
transpose_back to_string from_str back (some a) col h = elim (Option-cases (to_string a)) [
  | inl fails ↦ absurd (cc (rw (fails, transpose_json) at h))
  | inr (s, e) ↦ ground (arith, back a s e)
]

text_row-loads :
    (j : Json)
    → IsRoundTrip j
    → (m : TextMessage) (row : MessageRow) → text_row_of j m ≡ ok row
    → stored_message j m.account_id row ≡ ok (shown_text m)
unfolding stored_message stored_sticker text_row
text_row-loads j rt m row h = elim (Result-cases (transpose_json j.quote_to_string m.quote)) [
  | inr (e, fails) ↦ absurd (cc (rw fails at h))
  | inl (q, eq) ↦ elim (Result-cases (transpose_json j.link_to_string m.link)) [
    | inr (e, fails) ↦ absurd (cc (rw (eq, fails) at h))
    | inl (l, el) ↦ rw (sym (ok-injective (rw (eq, el) at h))) (
        rw
          (
            transpose_back j.quote_to_string j.quote_from_str rt.quote_back m.quote q eq,
            transpose_back j.link_to_string j.link_from_str rt.link_back m.link l el,
          )
          refl)
  ]
]

module _ (j : Json) where
  -- A new text message that is no echo and whose payloads serialise, once saved, is found under
  -- its id and loads as it was saved, quote and link included, if the JSON codec reads back what
  -- it writes.
  pub save_then_load :
      (db : Db) (m : TextMessage) {row : MessageRow}
      → IsRoundTrip j
      → text_row_of j m ≡ ok row
      → has_text_echo db m ≡ false
      → find message_key (m.account_id, m.msg_id) db.messages ≡ none
      → (db' : Db) × (r : MessageRow) × (save_message_with_rich j db m ≡ ok db')
        × (find message_key (m.account_id, m.msg_id) db'.messages ≡ some r)
        × (stored_message j m.account_id r ≡ ok (shown_text m))
  save_then_load db m {row} rt h first fresh =
      let thread = text_thread_of m in
      let r = text_row-msg_id j m h in
      let new : find message_key (message_key row) db.messages ≡ none = rw (r.0, r.2) fresh in
      let key : message_key row ≡ (m.account_id, m.msg_id) = ground arith in
      let stored : find message_key (message_key row) (insert_message db row thread).messages
          ≡ some row =
        (insert_message-Inserted db row thread new).message_at (message_key row)
        ∙ rw (==_refl row.account_id, ==_refl row.msg_id) refl in
      (
        insert_message db row thread,
        row,
        save_text-eq j db m h ∙ rw first refl,
        subst (λ k. find message_key k (insert_message db row thread).messages ≡ some row) key
            stored,
        text_row-loads j rt m row h,
      )

-- The rows of the account that a limit leaves out.
unfoldable pub left_out : Db → AccountId → ℤ → List MessageRow
left_out db account limit =
    beyond_limit limit (order_by oldest_first (select (λ r. r.account_id == account) db.messages))

limit-split :
    (limit : ℤ) (rows : List MessageRow) → limit_rows limit rows ++ beyond_limit limit rows ≡ rows
unfolding limit_rows beyond_limit
limit-split (pos n) rows = take-append-drop n rows
limit-split (negsuc n) rows = append-nil rows

limit-le :
    (limit : ℤ) (rows : List MessageRow)
    → IsOrdered oldest_first rows
    → All
        (λ x. All (λ y. oldest_first x ≤ℤ oldest_first y) (beyond_limit limit rows))
        (limit_rows limit rows)
unfolding limit_rows beyond_limit
limit-le (pos n) rows o = take-le-drop oldest_first n rows o
limit-le (negsuc n) rows o = all_tt rows
  where
    all_tt :
        (rows : List MessageRow) → All (λ x. All (λ y. oldest_first x ≤ℤ oldest_first y) []) rows
    all_tt [] = tt
    all_tt (x ∷ rows) = (tt, all_tt rows)

-- The rows that `load_recent_messages` reads and those that its limit leaves out are together the
-- account's rows, and every row read is stamped at or before every row left out: beyond the limit it
-- is the newest messages that are missing.
pub recent_rows-are_oldest :
    (db : Db) (account : AccountId) (limit : ℤ)
    → Perm
        (recent_rows db account limit ++ left_out db account limit)
        (select (λ r. r.account_id == account) db.messages)
      × All
          (λ x. All (λ y. oldest_first x ≤ℤ oldest_first y) (left_out db account limit))
          (recent_rows db account limit)
unfolding recent_rows left_out
recent_rows-are_oldest db account limit =
    let rows = select (λ r. r.account_id == account) db.messages in
    let ordered = order_by oldest_first rows in
    (
      rw (limit-split limit ordered) (order_by-perm oldest_first rows),
      limit-le limit ordered (order_by-IsOrdered oldest_first rows),
    )
