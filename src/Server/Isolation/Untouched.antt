-- ===== src/Server/Isolation/Untouched.antt =====
-- What a user sees, before and after a call made for another.
use zca_desktop.Common.{
  text_equality, number_equality, pair_equality, ℕ, ◌≡◌, refl, ap, ◌∙◌, ◌≢◌, String, false, Option,
  ◌||◌, ◌&&◌, not, Bool-cases, inl, inr, is_some, ◌==◌, ==_of_ne, eq_of_==, map, arith,
}
use zca_desktop.Common.Table.{find}
use zca_desktop.Common.Table.Selecting.{
  All-imp, All-of, select-append, select-update, select-upsert, Unseen,
}
use zca_desktop.Server.{Bytes, Db, CloudAccountRow, ConversationRow, MessageRow, user_id}
use zca_desktop.Server.Accounts.{
  account_id, zalo_key, new_account, relinked, upsert_account_credentials, in_state,
  update_account_state, set_hosted_session_state, set_account_state,
}
use zca_desktop.Server.Conversations.{
  thread_key, thread_owner, message_key, message_owner, conversation_id, new_conversation,
  refreshed, NewMessage, upsert_conversation, named, update_conversation_metadata, new_message,
  seen_again, insert_message_ciphertext, update_message,
}
use zca_desktop.Server.Files.{
  insert_file, file_object, has_references, FileInitRequest, new_file, file_view,
}
use zca_desktop.Server.Isolation.{
  IsInPlace, AccountInPlace, ConversationInPlace, MessageInPlace, visible,
}

module _ (owner home : ℕ → ℕ) (user other : ℕ) (apart : other ≢ user) where
  -- The user's clause on a row of the other's.
  pub hidden : (v : ℕ) → v ≡ other → (v == user) ≡ false
  hidden v same = ==_of_ne v user (rw same apart)

  pub message-visible :
      (account : ℕ) (msg_id : String) (f : MessageRow → MessageRow) (s : Db)
      → ((m : MessageRow) → (f m).user_id ≡ m.user_id)
      → visible user (update_message other account msg_id f s).1 ≡ visible user s
  unfolding update_message
  message-visible account msg_id f s keeps =
      ap (λ rows. record (visible user s) { messages = rows })
        (select-update message_owner (λ m. m.user_id == user) (other, (account, msg_id)) f
          s.messages (All-of _ s.messages unseen))
    where
      unseen :
          (m : MessageRow)
          → Unseen message_owner (λ m. m.user_id == user) (other, (account, msg_id)) f m
      unseen m same =
          let here = ap (λ k. k.0) (eq_of_== (message_owner m) (other, (account, msg_id)) same) in
          (hidden m.user_id here, hidden (f m).user_id (keeps m ∙ here))

  pub link-visible :
      (now id : ℕ) (zalo : String) (display_name avatar : Option String) (enc nonce : Bytes)
      (s : Db)
      → visible user
          (upsert_account_credentials now id other zalo display_name avatar enc nonce s).1
        ≡ visible user s
  unfolding upsert_account_credentials new_account relinked
  link-visible now id zalo display_name avatar enc nonce s =
      elim (Bool-cases (is_some (find user_id other s.users))) [
        | inr missing ↦ rw missing refl
        | inl there ↦ rw there (
            ap (λ rows. record (visible user s) { cloud_accounts = rows })
              (select-upsert zalo_key (λ r. r.user_id == user) _ _ s.cloud_accounts
                (hidden other refl) (All-of _ s.cloud_accounts unseen)))
      ]
    where
      unseen :
          (r : CloudAccountRow)
          → Unseen zalo_key
              (λ r. r.user_id == user)
              (other, zalo)
              (relinked now display_name avatar enc nonce)
              r
      unseen r same =
          let here = ap (λ k. k.0) (eq_of_== (zalo_key r) (other, zalo) same) in
          (hidden r.user_id here, hidden r.user_id here)

  pub converse-visible :
      (now id account : ℕ) (thread kind : String) (title avatar : Option String) (s : Db)
      → owner account ≡ other
      → IsInPlace owner home s
      → visible user (upsert_conversation now id other account thread kind title avatar s).1
        ≡ visible user s
  unfolding upsert_conversation new_conversation refreshed
  converse-visible now id account thread kind title avatar s owned h =
      elim (Bool-cases (is_some (find account_id account s.cloud_accounts))) [
        | inr missing ↦ rw missing refl
        | inl there ↦ rw there (
            ap (λ rows. record (visible user s) { conversations = rows })
              (select-upsert thread_key (λ c. c.user_id == user) _ _ s.conversations
                (hidden other refl) (All-imp s.conversations unseen h.1)))
      ]
    where
      unseen :
          (c : ConversationRow)
          → ConversationInPlace owner home c
          → Unseen thread_key
              (λ c. c.user_id == user)
              (account, thread)
              (refreshed now kind title avatar)
              c
      unseen c place same =
          let here = ap (λ k. k.0) (eq_of_== (thread_key c) (account, thread) same) in
          let theirs = hidden c.user_id (grind (arith, here, owned, place.0)) in (theirs, theirs)

  pub store-visible :
      (now id account conversation : ℕ) (m : NewMessage) (s : Db)
      → owner account ≡ other
      → IsInPlace owner home s
      → visible user (insert_message_ciphertext now id other account conversation m s).1
        ≡ visible user s
  unfolding insert_message_ciphertext new_message seen_again
  store-visible now id account conversation m s owned h =
      elim (Bool-cases (
        is_some (find account_id account s.cloud_accounts)
        && is_some (find conversation_id conversation s.conversations))) [
          | inr missing ↦ rw missing refl
          | inl there ↦ rw there (
              ap (λ rows. record (visible user s) { messages = rows })
                (select-upsert message_key (λ c. c.user_id == user) _ _ s.messages
                  (hidden other refl) (All-imp s.messages unseen h.2)))
        ]
    where
      unseen :
          (r : MessageRow)
          → MessageInPlace owner home r
          → Unseen message_key (λ c. c.user_id == user) (account, m.msg_id) (seen_again m) r
      unseen r place same =
          let here = ap (λ k. k.0) (eq_of_== (message_key r) (account, m.msg_id) same) in
          let theirs = hidden r.user_id (grind (arith, here, owned, place.0)) in (theirs, theirs)

  pub state-visible :
      (now account : ℕ) (state : String) (last_error : Option String) (s : Db)
      → owner account ≡ other
      → IsInPlace owner home s
      → visible user (set_account_state now account state last_error s).1 ≡ visible user s
  unfolding set_account_state update_account_state set_hosted_session_state in_state
  state-visible now account state last_error s owned h =
      elim (Bool-cases (
        is_some
          (find account_id account (update_account_state now account state s).1.cloud_accounts))) [
            | inr missing ↦ rw missing untouched
            | inl there ↦ rw there untouched
          ]
    where
      unseen :
          (r : CloudAccountRow)
          → AccountInPlace owner home r
          → Unseen account_id (λ r. r.user_id == user) account (in_state now state) r
      unseen r place same =
          let here = eq_of_== r.id account same in
          let theirs = hidden r.user_id (grind (arith, here, owned, place)) in (theirs, theirs)

      untouched : visible user (update_account_state now account state s).1 ≡ visible user s
      untouched =
          ap (λ rows. record (visible user s) { cloud_accounts = rows })
            (select-update account_id (λ r. r.user_id == user) account (in_state now state)
              s.cloud_accounts (All-imp s.cloud_accounts unseen h.0))

  pub keep-visible :
      (now id : ℕ) (req : FileInitRequest) (object_key : String) (enc nonce : Bytes) (s : Db)
      → visible user (insert_file now id other req object_key enc nonce s).1 ≡ visible user s
  unfolding insert_file new_file
  keep-visible now id req object_key enc nonce s =
      elim (Bool-cases
        (is_some (find file_object object_key s.files) || not (has_references req s))) [
          | inl fails ↦ rw fails refl
          | inr fine ↦ rw fine (
              ap (λ rows. record (visible user s) { files = map file_view rows })
                (select-append (λ f. f.user_id == user) s.files
                  (new_file now id other req object_key enc nonce) (hidden other refl)))
        ]

  pub name-visible :
      (account : ℕ) (thread : String) (title avatar : Option String) (s : Db)
      → visible user (update_conversation_metadata other account thread title avatar s).1
        ≡ visible user s
  unfolding update_conversation_metadata named
  name-visible account thread title avatar s =
      ap (λ rows. record (visible user s) { conversations = rows })
        (select-update thread_owner (λ c. c.user_id == user) (other, (account, thread))
          (named title avatar) s.conversations (All-of _ s.conversations unseen))
    where
      unseen :
          (c : ConversationRow)
          → Unseen thread_owner
              (λ c. c.user_id == user)
              (other, (account, thread))
              (named title avatar)
              c
      unseen c same =
          let theirs =
            hidden c.user_id
              (ap (λ k. k.0) (eq_of_== (thread_owner c) (other, (account, thread)) same)) in
          (theirs, theirs)
