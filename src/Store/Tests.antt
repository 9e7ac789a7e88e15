-- ===== src/Store/Tests.antt =====
-- The store's theorems at concrete inputs.
mod Samples
mod Accounts
use zca_desktop.Common.{
  ℕ, zero, suc, ◌+◌, ◌≤◌, ◌≡◌, refl, ◌∙◌, Bool, true, false, not, ◌&&◌, Option, none, some, List,
  [], ◌∷◌, ◌++◌, ℤ, pos, String, text_equality, integer_equality, pair_equality, Result, ok, ◌>>=◌,
  is_ok, ◌==◌, if◌then◌else◌, is_some, map_option, length, select, distance, unwrap_or, All, ◌≤ℤ◌,
  leb, eqb, any, take, drop, arith, ne_of_==,
}
use mathlib.Core.List.{Perm}
use zca_desktop.Common.Table.{find, insert_or_ignore, upsert, update, delete}
use zca_desktop.Types.{AccountId, ThreadIdentity}
use zca_desktop.Store.{
  Db, empty, MessageRow, ThreadRow, message_key, thread_key, account_key, credential_key,
}
use zca_desktop.Store.Messages.{
  TextMessage, transpose_json, is_text_echo, has_text_echo, has_sticker_echo, insert_message,
  new_thread, text_row, sticker_row, save_message_with_rich, save_sticker_message_with_rich,
}
use zca_desktop.Store.Edits.{
  recall, set_reaction, mark_message_deleted, apply_reaction, backfill_thread_identities,
}
use zca_desktop.Store.Loading.{stored_message, json_col, stored_sticker, oldest_first, recent_rows}
use zca_desktop.Store.Crypto.{
  Bytes, seal, unseal, no_entry, secret, master_key, encrypt_credentials, decrypt_credentials,
  unseal-seal, decrypt-encrypt,
}
use zca_desktop.Store.Accounts.{
  SavedAccount, new_account, new_credential, store_account, store_sealed, save_account,
  delete_account, load_accounts,
}
use zca_desktop.Store.Saving.{
  text_row_of, text_thread_of, sticker_row_of, sticker_thread_of, save_sticker-Saved,
  save_text_fails,
}
use zca_desktop.Store.Dedup.{save_sticker_twice, echo_skipped}
use zca_desktop.Store.Recall.{
  ShowsNothing, mark_message_deleted_lem, apply_reaction_lem, recalled-ShowsNothing,
  recalled_stays_recalled,
}
use zca_desktop.Store.Identities.{SameOrFilled, backfill_thread_identities_lem, backfill_sets_title}
use zca_desktop.Store.Unread.{unread_of, activity, save_text-unread, save_text-activity}
use zca_desktop.Store.History.{shown_text, left_out, save_then_load, recent_rows-are_oldest}
use zca_desktop.Store.Tests.Samples.{
  codec, codec-IsRoundTrip, plain_quote, hello, hello_echo, smile_message, hello_row, echo_row,
  smile_row, thread, one_message, an, cipher, cipher-IsRoundTrip, zeros,
}

hello_row_of : text_row_of codec hello ≡ ok hello_row
unfolding transpose_json
hello_row_of = refl

echo_row_of : text_row_of codec hello_echo ≡ ok echo_row
unfolding transpose_json
echo_row_of = refl

smile_row_of : sticker_row_of codec smile_message ≡ ok smile_row
unfolding transpose_json
smile_row_of = refl

no_echo : has_text_echo empty hello ≡ false
unfolding has_text_echo any
no_echo = refl

unknown : find message_key ("an", "m1") empty.messages ≡ none
unfolding find
unknown = refl

known : find message_key ("an", "m1") one_message.messages ≡ some hello_row
unfolding find text_row
known = refl

known_thread : find thread_key ("an", "t1") one_message.threads ≡ some thread
unfolding find new_thread
known_thread = refl

echo_skipped_example :
    (save_message_with_rich codec empty hello >>= λ db. save_message_with_rich codec db hello_echo)
    ≡ save_message_with_rich codec empty hello
unfolding distance
echo_skipped_example =
    echo_skipped codec empty hello hello_echo "hello" (pos 100000) (pos 101500) hello_row_of
      echo_row_of (refl, refl, refl, refl, refl, ne_of_== "m2" "m1" refl) refl refl refl
      (omega arith) no_echo unknown

recalled_stays_recalled_example :
    save_message_with_rich codec (mark_message_deleted one_message "an" "m1").0 hello
    ≡ ok (mark_message_deleted one_message "an" "m1").0
unfolding mark_message_deleted find text_row
recalled_stays_recalled_example = recalled_stays_recalled codec one_message hello hello_row_of refl

abbrev names : ThreadIdentity
names = record { thread_id = "t1"; title = some "Binh"; avatar = none }

-- A message that comes in.
abbrev received : TextMessage
received = record hello { msg_id = "m3"; outgoing = false; bump_unread = true; quote = none }

received_row_of : text_row_of codec received ≡ ok (text_row received none none)
unfolding transpose_json
received_row_of = refl

abbrev two_messages : Db
two_messages = insert_message one_message (text_row received none none) (text_thread_of received)

received_saved : save_message_with_rich codec one_message received ≡ ok two_messages
unfolding save_message_with_rich transpose_json has_text_echo
received_saved = refl

save_then_load_example :
    (db' : Db) × (r : MessageRow) × (save_message_with_rich codec empty hello ≡ ok db')
    × (find message_key ("an", "m1") db'.messages ≡ some r)
    × (stored_message codec "an" r ≡ ok (shown_text hello))
save_then_load_example =
    save_then_load codec empty hello codec-IsRoundTrip hello_row_of no_echo unknown

recent_rows-are_oldest_example :
    Perm
      (recent_rows two_messages "an" (pos 1) ++ left_out two_messages "an" (pos 1))
      (select (λ r. r.account_id == "an") two_messages.messages)
    × All
        (λ x. All (λ y. oldest_first x ≤ℤ oldest_first y) (left_out two_messages "an" (pos 1)))
        (recent_rows two_messages "an" (pos 1))
recent_rows-are_oldest_example = recent_rows-are_oldest two_messages "an" (pos 1)
