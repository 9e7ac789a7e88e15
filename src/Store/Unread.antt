-- ===== src/Store/Unread.antt =====
-- Unread counters and the last activity of threads, as saving a message changes them
-- (store/db.rs).
use zca_desktop.Common.{
  ℕ, ◌+◌, ◌≡◌, refl, ◌∙◌, String, Bool, not, ◌&&◌, none, some, ℤ, pos, ◌≤ℤ◌, ≤ℤ_refl, max_ℤ_bounds,
  unwrap_or, if◌then◌else◌, ◌==◌, text_equality, pair_equality, is_some, Bool-cases, ok, inl, inr,
  ap, arith,
}
use zca_desktop.Common.Table.{find}
use zca_desktop.Types.{AccountId}
use zca_desktop.Store.{Db, MessageRow, ThreadRow, message_key, thread_key}
use zca_desktop.Store.Messages.{
  Json, TextMessage, has_text_echo, merge_thread, new_thread, save_message_with_rich,
}
use zca_desktop.Store.Saving.{
  Inserted, Saved, skipped_echo, known_id, inserted, text_row_of, text_thread_of, save_text-cases,
}

-- A thread's badge; a thread with no row has none.
unfoldable pub unread_of : Db → AccountId × String → ℕ
unread_of db k = elim (find thread_key k db.threads) [ none ↦ 0 | some r ↦ r.unread ]

-- COALESCE(last_at, 0) of a thread's row.
abbrev pub activity : ThreadRow → ℤ
activity r = unwrap_or r.last_at (pos 0)

-- Whether a save stores a new row.
abbrev pub stores : Db → Bool → MessageRow → Bool
stores db echo row = not echo && not (is_some (find message_key (message_key row) db.messages))

Inserted-unread :
    (db db' : Db) (row : MessageRow) (thread : ThreadRow) (k : AccountId × String)
    → Inserted db db' row thread
    → unread_of db' k ≡ unread_of db k + (if thread_key thread == k then thread.unread else 0)
unfolding unread_of merge_thread
Inserted-unread db db' row thread k i = ground (arith, i.thread_at k)

pub Saved-unread :
    (db : Db) (echo : Bool) (row : MessageRow) (thread : ThreadRow) (k : AccountId × String)
    {db' : Db}
    → Saved db echo row thread db'
    → unread_of db' k
      ≡ unread_of db k
        + (if stores db echo row && (thread_key thread == k) then thread.unread else 0)
Saved-unread db echo row thread k (skipped_echo skip) = rw skip (omega arith)
Saved-unread db echo row thread k (known_id go there) = rw (go, there) (omega arith)
Saved-unread db echo row thread k {db'} (inserted go fresh i) =
    rw (go, fresh) (Inserted-unread db db' row thread k i)

Saved-activity :
    (db : Db) (echo : Bool) (row : MessageRow) (thread r : ThreadRow) (k : AccountId × String)
    {db' : Db}
    → Saved db echo row thread db'
    → find thread_key k db.threads ≡ some r
    → (r' : ThreadRow) × (find thread_key k db'.threads ≡ some r') × (activity r ≤ℤ activity r')
Saved-activity db echo row thread r k (skipped_echo skip) there = (r, there, ≤ℤ_refl (activity r))
Saved-activity db echo row thread r k (known_id go known) there = (r, there, ≤ℤ_refl (activity r))
Saved-activity db echo row thread r k {db'} (inserted go fresh i) there =
    elim (Bool-cases (thread_key thread == k)) [
      | inl same ↦ (
        merge_thread thread r,
        i.thread_at k ∙ rw (same, there) refl,
        unfold merge_thread in (max_ℤ_bounds (activity thread) (activity r)).1,
      )
      | inr other ↦ (r, i.thread_at k ∙ rw (other, there) refl, ≤ℤ_refl (activity r))
    ]

module _ (j : Json) where
  -- A save of a message whose payloads serialise raises the badge of the message's own thread by
  -- one exactly when the message is stored as new (no echo, no known id) and asks for it; no other
  -- badge moves.
  pub save_text-unread :
      (db db' : Db) (m : TextMessage) (k : AccountId × String) {row : MessageRow}
      → text_row_of j m ≡ ok row
      → save_message_with_rich j db m ≡ ok db'
      → unread_of db' k
        ≡ unread_of db k
          + (if stores db (has_text_echo db m) row
                && ((m.account_id, m.thread_id) == k)
                && m.bump_unread
              then 1
              else 0)
  save_text-unread db db' m k {row} h saved =
      Saved-unread db (has_text_echo db m) row (text_thread_of m) k (save_text-cases j db m h saved)
      ∙ ap (λ n. unread_of db k + n) (asked (stores db (has_text_echo db m) row))
    where
      asked :
          (new : Bool)
          → (if new && (thread_key (text_thread_of m) == k) then (text_thread_of m).unread else 0)
            ≡ (if new && ((m.account_id, m.thread_id) == k) && m.bump_unread then 1 else 0)
      asked new = unfold new_thread in ground arith

  -- A save of a message whose payloads serialise takes no thread away, and does not move its last
  -- activity back.
  pub save_text-activity :
      (db db' : Db) (m : TextMessage) (k : AccountId × String) {row : MessageRow} {r : ThreadRow}
      → text_row_of j m ≡ ok row
      → save_message_with_rich j db m ≡ ok db'
      → find thread_key k db.threads ≡ some r
      → (r' : ThreadRow) × (find thread_key k db'.threads ≡ some r') × (activity r ≤ℤ activity r')
  save_text-activity db db' m k {row} {r} h saved there =
      Saved-activity db (has_text_echo db m) row (text_thread_of m) r k
        (save_text-cases j db m h saved) there
