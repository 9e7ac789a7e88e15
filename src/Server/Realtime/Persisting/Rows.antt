-- ===== src/Server/Realtime/Persisting/Rows.antt =====
-- The rows that a message leaves, statement by statement.
use zca_desktop.Common.{
  ℕ, ◌≡◌, refl, sym, ap, ◌∙◌, String, ◌&&◌, Option, none, some, List, [], ◌∷◌, if◌then◌else◌,
  is_some, map_option, ok, ◌==◌, ==_refl, text_equality, number_equality, pair_equality, arith,
  Bool-cases, inl, inr,
}
use zca_desktop.Common.Table.{find, find-upsert, update}
use zca_desktop.Server.{Db, MessageRow}
use zca_desktop.Server.Accounts.{account_id}
use zca_desktop.Server.Conversations.{
  conversation_id, message_key, message_owner, NewMessage, new_message, seen_again,
  upsert_conversation, insert_message_ciphertext,
}
use zca_desktop.Server.Files.{insert_file}
use zca_desktop.Server.Files.Blobs.{Objects}
use zca_desktop.Server.Realtime.{MessageRichPayload}
use zca_desktop.Server.Realtime.Mirror.{MirrorPlace, copy, mirror_rich_file, mirror_hosted_media}
use zca_desktop.Server.Realtime.Persisting.{Services, MessageDraws}

-- An UPDATE of a user's message, as a search by the table's key finds it.
pub find-update_owned :
    (user account : ℕ) (msg_id : String) (f : MessageRow → MessageRow) (rows : List MessageRow)
    → ((r : MessageRow) → message_key (f r) ≡ message_key r)
    → find message_key (account, msg_id) (update message_owner (user, (account, msg_id)) f rows)
      ≡ map_option
          (λ r. if message_owner r == (user, (account, msg_id)) then f r else r)
          (find message_key (account, msg_id) rows)
unfolding find update
find-update_owned user account msg_id f [] keeps = refl
find-update_owned user account msg_id f (x ∷ rows) keeps = ground (
  arith,
  keeps x,
  find-update_owned user account msg_id f rows keeps,
  number_equality.equal_iff x.account_id account,
  text_equality.equal_iff x.msg_id msg_id,
  number_equality.equal_iff (f x).account_id account,
  text_equality.equal_iff (f x).msg_id msg_id,
)

pub mirror-messages :
    (o : Services) (now : ℕ) (draws : MessageDraws) (place : MirrorPlace)
    (rich : MessageRichPayload) (s : Db) (objects : Objects)
    → (mirror_hosted_media o.lib o.digest o.object_key o.web place draws.file o.print now draws.up
        rich s objects).1.messages
      ≡ s.messages
unfolding mirror_hosted_media mirror_rich_file copy insert_file
mirror-messages o now draws place rich s objects = ground arith

pub insert_message-new :
    (now id user account conversation : ℕ) (m : NewMessage) (s t : Db) (stored : ℕ)
    → find message_key (account, m.msg_id) s.messages ≡ none
    → insert_message_ciphertext now id user account conversation m s ≡ (ok stored, t)
    → find message_key (account, m.msg_id) t.messages
      ≡ some (new_message now id user account conversation m)
unfolding insert_message_ciphertext new_message seen_again
insert_message-new now id user account conversation m s t stored fresh h =
    elim (Bool-cases (
      is_some (find account_id account s.cloud_accounts)
      && is_some (find conversation_id conversation s.conversations))) [
        | inr missing ↦ absurd (cc (ap (λ r. r.0) (rw missing at h)))
        | inl known ↦
            let row = new_message now id user account conversation m in
            ap (λ r. find message_key (account, m.msg_id) r.1.messages) (sym (rw known at h))
            ∙ find-upsert message_key row (seen_again m) (λ x e. e) (account, m.msg_id) s.messages
            ∙ rw (==_refl {A = ℕ × String} (account, m.msg_id), fresh) refl
      ]

pub upsert_conversation-messages :
    (now id user account : ℕ) (thread kind : String) (title avatar : Option String) (s t : Db)
    (c : ℕ)
    → upsert_conversation now id user account thread kind title avatar s ≡ (ok c, t)
    → t.messages ≡ s.messages
unfolding upsert_conversation
upsert_conversation-messages now id user account thread kind title avatar s t c h = ground arith
