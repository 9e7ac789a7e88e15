-- ===== src/Store/Tests/Samples.antt =====
-- The messages, tables, codec and cipher that the store's tests use.
use zca_desktop.Common.{
  ℕ, zero, suc, ◌≡◌, Bool, true, false, ◌&&◌, none, some, [], ◌∷◌, String, text_equality,
  integer_equality, pos, if◌then◌else◌, ◌==◌, arith, is_some, not,
}
use zca_desktop.Types.{AccountProfile, QuoteRef, LinkPreview, Sticker}
use zca_desktop.Store.{Db, empty, MessageRow, ThreadRow}
use zca_desktop.Store.Messages.{
  Json, TextMessage, StickerMessage, text_row, sticker_row, new_thread,
}
use zca_desktop.Store.History.{IsRoundTrip}
use zca_desktop.Store.Crypto as Crypto
use zca_desktop.Store.Crypto.{Bytes, Primitives}

-- A codec of quotes and links that hold one text and nothing else; it refuses the others.
abbrev pub plain_quote : String → QuoteRef
plain_quote s = record {
  owner_id = "";
  from_d = "";
  global_msg_id = pos 0;
  cli_msg_id = pos 0;
  msg = s;
  cli_msg_type = pos 0;
  ts = pos 0;
}

abbrev pub plain_link : String → LinkPreview
plain_link s = record { href = s; title = none; description = none; thumb = none }

abbrev is_plain_quote : QuoteRef → Bool
is_plain_quote q =
    q.owner_id == ""
    && q.from_d == ""
    && q.global_msg_id == pos 0
    && q.cli_msg_id == pos 0
    && q.cli_msg_type == pos 0
    && q.ts == pos 0

abbrev is_plain_link : LinkPreview → Bool
is_plain_link l = not (is_some l.title) && not (is_some l.description) && not (is_some l.thumb)

abbrev pub codec : Json
codec = record {
  quote_to_string = λ q. if is_plain_quote q then some q.msg else none;
  quote_from_str = λ s. some (plain_quote s);
  link_to_string = λ l. if is_plain_link l then some l.href else none;
  link_from_str = λ s. some (plain_link s);
}

quote_of_plain : (q : QuoteRef) → is_plain_quote q ≡ true → plain_quote q.msg ≡ q
quote_of_plain q h = ground (
  arith,
  text_equality.equal_iff q.owner_id "",
  text_equality.equal_iff q.from_d "",
  integer_equality.equal_iff q.global_msg_id (pos 0),
  integer_equality.equal_iff q.cli_msg_id (pos 0),
  integer_equality.equal_iff q.cli_msg_type (pos 0),
  integer_equality.equal_iff q.ts (pos 0),
)

pub codec-IsRoundTrip : IsRoundTrip codec
codec-IsRoundTrip = record {
  quote_back = λ q s h. ground (arith, quote_of_plain q);
  link_back = λ l s h. ground arith;
}

abbrev pub hello : TextMessage
hello = record {
  account_id = "an";
  thread_id = "t1";
  kind = "user";
  msg_id = "m1";
  from_id = some "an";
  from_name = some "An";
  body = some "hello";
  outgoing = true;
  ts = some (pos 100000);
  thread_title = none;
  thread_avatar = none;
  bump_unread = false;
  quote = some (plain_quote "before");
  link = none;
}

-- The same message as the listener gives it back.
abbrev pub hello_echo : TextMessage
hello_echo = record hello { msg_id = "m2"; ts = some (pos 101500); quote = none }

abbrev pub smile : Sticker
smile = record { id = pos 1; cat_id = pos 2; sticker_type = pos 7; url = "https://zalo/1.png" }

abbrev pub smile_message : StickerMessage
smile_message = record {
  account_id = "an";
  thread_id = "t1";
  kind = "user";
  msg_id = "s1";
  from_id = some "an";
  from_name = some "An";
  sticker = smile;
  outgoing = true;
  ts = some (pos 100000);
  thread_title = none;
  thread_avatar = none;
  bump_unread = false;
  quote = none;
}

abbrev pub hello_row : MessageRow
hello_row = text_row hello (some "before") none

abbrev pub echo_row : MessageRow
echo_row = text_row hello_echo none none

abbrev pub smile_row : MessageRow
smile_row = sticker_row smile_message none

-- A store with one message and its thread.
abbrev pub thread : ThreadRow
thread = new_thread "an" "t1" "user" none none (some (pos 100000)) true

abbrev pub one_message : Db
one_message = record empty { messages = hello_row ∷ []; threads = thread ∷ [] }

abbrev pub an : AccountProfile
an = record { account_id = "an"; display_name = some "An"; avatar = none }

-- A cipher that does nothing, for credentials that are bytes.
abbrev pub cipher : Primitives Bytes
cipher = record {
  gcm_encrypt = λ key nonce text. some text;
  gcm_decrypt = λ key nonce sealed. some sealed;
  to_vec = λ c. some c;
  from_slice = λ b. some b;
}

pub cipher-IsRoundTrip : Crypto.IsRoundTrip cipher
cipher-IsRoundTrip = record {
  opens = λ key nonce text sealed h. ground arith;
  reads_back = λ c json h. ground arith;
}

abbrev pub zeros : ℕ → Bytes
zeros zero = []
zeros (suc n) = 0 ∷ zeros n
