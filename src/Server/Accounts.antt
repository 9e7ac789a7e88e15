-- ===== src/Server/Accounts.antt =====
-- Linked accounts (db.rs) and the state of their hosted sessions. Deleting an account takes what
-- refers to it along, as the migrations' ON DELETE clauses say.
use zca_desktop.Common.{
  ℕ, ◌+◌, String, Bool, not, ◌&&◌, ◌||◌, Option, none, some, List, [], ◌∷◌, if◌then◌else◌, ◌==◌,
  text_equality, number_equality, pair_equality, is_some, any, map, select, ℤ, pos, neg_ℤ, ok, err,
}
use zca_desktop.Common.Table.{find, upsert, update, delete, merged}
use zca_desktop.Common.Table.Order.{order_by}
use zca_desktop.Server.{
  AppError, not_found, Bytes, Db, CloudAccountRow, HostedSessionRow, ConversationRow, MessageRow,
  FileRow, user_id,
}
use zca_desktop.Server.Handler.{Handler, ◌>>◌}

pub record AccountView : Type 0 where
  pub id : ℕ
  pub zalo_account_id : String
  pub display_name : Option String
  pub avatar : Option String
  pub state : String

pub record AccountCredential : Type 0 where
  pub id : ℕ
  pub user_id : ℕ
  pub zalo_account_id : String
  pub enc_credentials : Bytes
  pub credentials_nonce : Bytes

abbrev pub account_id : CloudAccountRow → ℕ
account_id r = r.id

-- UNIQUE(user_id, zalo_account_id)
abbrev pub zalo_key : CloudAccountRow → ℕ × String
zalo_key r = (r.user_id, r.zalo_account_id)

-- user_id = $1 AND id = $2
abbrev pub owner_key : CloudAccountRow → ℕ × ℕ
owner_key r = (r.user_id, r.id)

abbrev pub session_account : HostedSessionRow → ℕ
session_account r = r.account_id

unfoldable pub account_view : CloudAccountRow → AccountView
account_view r = record {
  id = r.id;
  zalo_account_id = r.zalo_account_id;
  display_name = r.display_name;
  avatar = r.avatar;
  state = r.state;
}

unfoldable pub new_account :
    ℕ → ℕ → ℕ → String → Option String → Option String → Bytes → Bytes → CloudAccountRow
new_account now id user zalo display_name avatar enc nonce = record {
  id = id;
  user_id = user;
  zalo_account_id = zalo;
  display_name = display_name;
  avatar = avatar;
  state = "active";
  enc_credentials = some enc;
  credentials_nonce = some nonce;
  updated_at = now;
}

-- ON CONFLICT … DO UPDATE
unfoldable pub relinked :
    ℕ → Option String → Option String → Bytes → Bytes → CloudAccountRow → CloudAccountRow
relinked now display_name avatar enc nonce r = record r {
  display_name = display_name;
  avatar = avatar;
  state = "active";
  enc_credentials = some enc;
  credentials_nonce = some nonce;
  updated_at = now;
}

-- `id` is the id that the database makes for a new row.
unfoldable pub upsert_account_credentials :
    ℕ → ℕ → ℕ → String → Option String → Option String → Bytes → Bytes → Handler AccountView
upsert_account_credentials now id user zalo display_name avatar enc nonce s =
    let row = new_account now id user zalo display_name avatar enc nonce in
    let relink = relinked now display_name avatar enc nonce in
    if is_some (find user_id user s.users)
    then (
      ok (account_view (merged row relink (find zalo_key (user, zalo) s.cloud_accounts))),
      record s { cloud_accounts = upsert zalo_key row relink s.cloud_accounts },
    )
    else (err AppError.db, s)

-- The credentials of a row that has both of their columns.
unfoldable pub credential_of : CloudAccountRow → Option AccountCredential
credential_of r = elim r.enc_credentials [
  | none ↦ none
  | some enc ↦ elim r.credentials_nonce [
    | none ↦ none
    | some nonce ↦ some (record {
      id = r.id;
      user_id = r.user_id;
      zalo_account_id = r.zalo_account_id;
      enc_credentials = enc;
      credentials_nonce = nonce;
    })
  ]
]

unfoldable pub account_credentials : ℕ → ℕ → Handler AccountCredential
account_credentials user account s = (
  elim (find owner_key (user, account) s.cloud_accounts) [
    | none ↦ err not_found
    | some r ↦ elim (credential_of r) [ none ↦ err not_found | some c ↦ ok c ]
  ],
  s,
)

-- The credentials of the rows in a state.
unfoldable pub credentials_in : String → List CloudAccountRow → List AccountCredential
credentials_in state [] = []
credentials_in state (r ∷ rows) =
    let rest = credentials_in state rows in
    if r.state == state then elim (credential_of r) [ none ↦ rest | some c ↦ c ∷ rest ] else rest

unfoldable pub active_account_credentials : Handler (List AccountCredential)
active_account_credentials s = (ok (credentials_in "active" s.cloud_accounts), s)

unfoldable pub last_updated_first : CloudAccountRow → ℤ
last_updated_first r = neg_ℤ (pos r.updated_at)

unfoldable pub list_accounts : ℕ → Db → List AccountView
list_accounts user s =
    map account_view
      (order_by last_updated_first (select (λ r. r.user_id == user) s.cloud_accounts))

unfoldable pub account_status : ℕ → ℕ → Handler AccountView
account_status user account s = (
  elim (find owner_key (user, account) s.cloud_accounts) [
    | none ↦ err not_found
    | some r ↦ ok (account_view r)
  ],
  s,
)

-- What goes with an account: its conversations, and the messages of it or of them.
unfoldable pub goes_with : ℕ → List ConversationRow → MessageRow → Bool
goes_with account conversations m =
    (m.account_id == account)
    || any (λ c. c.account_id == account && (c.id == m.conversation_id)) conversations

-- ON DELETE SET NULL
unfoldable pub unless {ℓ} : {A : Type ℓ} → (A → Bool) → Option A → Option A
unless gone none = none
unless gone (some a) = if gone a then none else some a

unfoldable pub detached : ℕ → List ConversationRow → List MessageRow → FileRow → FileRow
detached account conversations messages f = record f {
  account_id = unless (λ a. a == account) f.account_id;
  conversation_id =
      unless (λ i. any (λ c. c.account_id == account && (c.id == i)) conversations)
        f.conversation_id;
  message_id =
      unless (λ i. any (λ m. goes_with account conversations m && (m.id == i)) messages)
        f.message_id;
}

unfoldable pub delete_account : ℕ → ℕ → Handler (Unit {0})
delete_account user account s =
    if is_some (find owner_key (user, account) s.cloud_accounts)
    then (
      ok tt,
      record s {
        cloud_accounts = delete owner_key (user, account) s.cloud_accounts;
        hosted_sessions = delete session_account account s.hosted_sessions;
        conversations = select (λ c. not (c.account_id == account)) s.conversations;
        messages = select (λ m. not (goes_with account s.conversations m)) s.messages;
        files = map (detached account s.conversations s.messages) s.files;
      },
    )
    else (err not_found, s)

-- CASE WHEN state = $1 THEN now() ELSE the value before
unfoldable pub stamped : String → ℕ → String → Option ℕ → Option ℕ
stamped state now given before = if given == state then some now else before

unfoldable pub new_hosted_session : ℕ → ℕ → String → Option String → HostedSessionRow
new_hosted_session now account state last_error = record {
  account_id = account;
  state = state;
  generation = 1;
  started_at = stamped "online" now state none;
  stopped_at = stamped "stopped" now state none;
  last_error = last_error;
}

unfoldable pub next_generation : ℕ → String → Option String → HostedSessionRow → HostedSessionRow
next_generation now state last_error r = record r {
  state = state;
  generation = r.generation + 1;
  started_at = stamped "online" now state r.started_at;
  stopped_at = stamped "stopped" now state r.stopped_at;
  last_error = last_error;
}

unfoldable pub set_hosted_session_state : ℕ → ℕ → String → Option String → Handler (Unit {0})
set_hosted_session_state now account state last_error s =
    if is_some (find account_id account s.cloud_accounts)
    then (
      ok tt,
      record s {
        hosted_sessions =
            upsert session_account (new_hosted_session now account state last_error)
              (next_generation now state last_error) s.hosted_sessions;
      },
    )
    else (err AppError.db, s)

unfoldable pub in_state : ℕ → String → CloudAccountRow → CloudAccountRow
in_state now state r = record r { state = state; updated_at = now }

unfoldable pub update_account_state : ℕ → ℕ → String → Handler (Unit {0})
update_account_state now account state s = (
  ok tt,
  record s { cloud_accounts = update account_id account (in_state now state) s.cloud_accounts },
)

unfoldable pub set_account_state : ℕ → ℕ → String → Option String → Handler (Unit {0})
set_account_state now account state last_error = do
  update_account_state now account state
  set_hosted_session_state now account state last_error

unfoldable pub mark_account_active : ℕ → ℕ → Option String → Handler (Unit {0})
mark_account_active now account last_error = do
  update_account_state now account "active"
  set_hosted_session_state now account "online" last_error
