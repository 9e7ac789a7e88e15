-- ===== src/Store/Loading.antt =====
-- Reading history back (store/db.rs): threads, messages, counts.
use zca_desktop.Common.{
  ℕ, String, Option, none, some, List, [], ◌∷◌, map, ℤ, pos, neg_ℤ, ◌==◌, text_equality,
  if◌then◌else◌, unwrap_or, select, length, Result, ok, err, ◌>>=◌,
}
use zca_desktop.Common.Table.Order.{order_by, limit_rows}
use zca_desktop.Types.{AccountId, ThreadKind, user, group, StoredThread, StoredMessage, Sticker}
use zca_desktop.Store.{Db, MessageRow, ThreadRow, StoreError}
use zca_desktop.Store.Messages.{Json}

unfoldable pub thread_kind_from_str : String → ThreadKind
thread_kind_from_str s = if s == "group" then group else user

unfoldable pub stored_thread : AccountId → ThreadRow → StoredThread
unfolding thread_kind_from_str
stored_thread account r = record {
  account_id = account;
  thread_id = r.thread_id;
  kind = thread_kind_from_str r.kind;
  title = r.title;
  avatar = r.avatar;
  last_at = r.last_at;
  unread = r.unread;
}

-- COALESCE(last_at, 0) DESC
unfoldable pub newest_first : ThreadRow → ℤ
newest_first r = neg_ℤ (unwrap_or r.last_at (pos 0))

unfoldable pub load_threads : Db → AccountId → List StoredThread
load_threads db account =
    map (stored_thread account)
      (order_by newest_first (select (λ r. r.account_id == account) db.threads))

-- `json_col`: NULL is none, and a text that does not parse fails the query.
unfoldable pub json_col {ℓ} :
    {A : Type ℓ} → (String → Option A) → Option String → Result StoreError (Option A)
json_col from_str none = ok none
json_col from_str (some raw) = elim (from_str raw) [
  | some a ↦ ok (some a)
  | none ↦ err StoreError.db
]

-- A sticker row has an id and a render url that is not empty.
unfoldable pub stored_sticker : MessageRow → Option Sticker
stored_sticker r = elim r.sticker_id [
  | none ↦ none
  | some id ↦ elim r.sticker_url [
    | none ↦ none
    | some url ↦
        if url == ""
        then none
        else some (record {
          id = id;
          cat_id = unwrap_or r.sticker_cat_id (pos 0);
          sticker_type = unwrap_or r.sticker_type (pos 0);
          url = url;
        })
  ]
]

-- COALESCE(ts, 0) ASC
unfoldable pub oldest_first : MessageRow → ℤ
oldest_first r = unwrap_or r.ts (pos 0)

-- The rows that the query of `load_recent_messages` returns, in its order.
unfoldable pub recent_rows : Db → AccountId → ℤ → List MessageRow
recent_rows db account limit =
    limit_rows limit (order_by oldest_first (select (λ r. r.account_id == account) db.messages))

module _ (j : Json) where
  unfoldable pub stored_message : AccountId → MessageRow → Result StoreError StoredMessage
  unfolding json_col stored_sticker
  stored_message account r = do
    quote ← json_col j.quote_from_str r.quote_json
    link ← json_col j.link_from_str r.link_json
    ok (record {
      account_id = account;
      thread_id = r.thread_id;
      msg_id = r.msg_id;
      from_id = r.from_id;
      from_name = r.from_name;
      body = r.body;
      sticker = stored_sticker r;
      quote = quote;
      link = link;
      reaction_icon = r.reaction_icon;
      deleted = r.deleted;
      outgoing = r.outgoing;
      ts = r.ts;
    })

  -- `rows.collect::<Result<Vec<_>, _>>()`
  unfoldable pub collect : AccountId → List MessageRow → Result StoreError (List StoredMessage)
  collect account [] = ok []
  collect account (r ∷ rows) = do
    m ← stored_message account r
    ms ← collect account rows
    ok (m ∷ ms)

  unfoldable pub load_recent_messages : Db → AccountId → ℤ → Result StoreError (List StoredMessage)
  load_recent_messages db account limit = collect account (recent_rows db account limit)

unfoldable pub count_accounts : Db → ℕ
count_accounts db = length db.accounts

unfoldable pub counts_for : Db → AccountId → ℕ × ℕ
counts_for db account = (
  length (select (λ r. r.account_id == account) db.threads),
  length (select (λ r. r.account_id == account) db.messages),
)
