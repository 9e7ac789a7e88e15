-- ===== src/Server/Isolation/Unlinking.antt =====
-- What a user sees, before and after another deletes an account (db.rs).
use zca_desktop.Common.{
  text_equality, number_equality, pair_equality, ℕ, ◌≡◌, refl, ap, ◌≢◌, true, false, ◌&&◌, not,
  List, Bool-cases, Option-cases, inl, inr, ◌==◌, eq_of_==, arith,
}
use zca_desktop.Common.Table.{find, find-key}
use zca_desktop.Common.Table.Selecting.{
  All-imp, All-of, select-select, map-select, select-delete, any-elim, All-find,
}
use zca_desktop.Server.{Db, CloudAccountRow, ConversationRow, MessageRow}
use zca_desktop.Server.Accounts.{owner_key, delete_account, goes_with, detached}
use zca_desktop.Server.Files.{file_view, FileView}
use zca_desktop.Server.Isolation.{
  IsInPlace, AccountInPlace, ConversationInPlace, MessageInPlace, Visible, visible,
}
use zca_desktop.Server.Isolation.Untouched.{hidden}

module _ (owner home : ℕ → ℕ) (user other : ℕ) (apart : other ≢ user) where
  hid : (v : ℕ) → v ≡ other → (v == user) ≡ false
  hid = hidden owner home user other apart

  -- What goes with an account of the other's is the other's.
  goes_with-other :
      (account : ℕ) (s : Db) (m : MessageRow)
      → owner account ≡ other
      → IsInPlace owner home s
      → MessageInPlace owner home m
      → goes_with account s.conversations m ≡ true
      → m.user_id ≡ other
  unfolding goes_with
  goes_with-other account s m owned h place goes = elim (Bool-cases (m.account_id == account)) [
    | inl same ↦ grind (arith, place.0, owned, eq_of_== m.account_id account same)
    | inr different ↦
        let at : home m.conversation_id ≡ account =
          any-elim _ _ s.conversations (All-imp s.conversations through h.1)
            (rw different at goes) in
        grind (arith, at, place.0, place.1, owned)
  ]
    where
      through :
          (c : ConversationRow)
          → ConversationInPlace owner home c
          → (c.account_id == account && (c.id == m.conversation_id)) ≡ true
          → home m.conversation_id ≡ account
      through c inside same = ground (arith, inside.1)

  pub unlink-visible :
      (account : ℕ) (s : Db)
      → IsInPlace owner home s
      → visible user (delete_account other account s).1 ≡ visible user s
  unfolding delete_account detached file_view
  unlink-visible account s h =
      elim (Option-cases (find owner_key (other, account) s.cloud_accounts)) [
        | inl missing ↦ rw missing refl
        | inr (r, there) ↦
            let owned : owner account ≡ other =
              let key = find-key owner_key (other, account) s.cloud_accounts there in
              grind (
                arith,
                ap (λ k. k.0) key,
                ap (λ k. k.1) key,
                All-find owner_key (AccountInPlace owner home) (other, account) s.cloud_accounts h.0
                    there,
              ) in
            rw there (
              same_rows
                (select-delete owner_key (λ r. r.user_id == user) (other, account) s.cloud_accounts
                  (All-of _ s.cloud_accounts
                    (λ x same. hid x.user_id (ap (λ k. k.0) (eq_of_== (owner_key x) _ same)))))
                (select-select _ _ s.conversations (
                  All-imp s.conversations
                    (λ c place gone. hid c.user_id (theirs c owned place gone)) h.1))
                (select-select _ _ s.messages (
                  All-imp s.messages
                    (λ m place gone.
                      hid m.user_id
                        (goes_with-other account s m owned h place (ground (arith, gone))))
                    h.2))
                (map-select _ _ file_view s.files (λ f. refl) (λ f. refl)))
      ]
    where
      same_rows :
          {a a' : List CloudAccountRow} {c c' : List ConversationRow} {m m' : List MessageRow}
          {f f' : List FileView}
          → a ≡ a'
          → c ≡ c'
          → m ≡ m'
          → f ≡ f'
          → ◌≡◌ {A = Visible}
              (record { cloud_accounts = a; conversations = c; messages = m; files = f })
              (record { cloud_accounts = a'; conversations = c'; messages = m'; files = f' })
      same_rows p q r t = cc

      theirs :
          (c : ConversationRow)
          → owner account ≡ other
          → ConversationInPlace owner home c
          → not (c.account_id == account) ≡ false
          → c.user_id ≡ other
      theirs c owned place gone = ground (arith, owned, place.0)
