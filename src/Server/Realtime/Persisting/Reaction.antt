-- ===== src/Server/Realtime/Persisting/Reaction.antt =====
-- What a reaction does to the message that it is about.
use zca_desktop.Common as Results
use zca_desktop.Common.{
  ℕ, ◌≡◌, refl, sym, ap, ◌∙◌, String, Bool, true, false, Option, none, some, if◌then◌else◌, length,
  map_option, unwrap_or, Result, ok, err, ok_or, ◌==◌, ==_refl, text_equality, number_equality,
  pair_equality, arith, Option-cases, Result-cases, inl, inr, ok-injective, subst,
}
use zca_desktop.Common.Table.{find, find-update}
use zca_desktop.Server.{Bytes, Db, MessageRow, Library}
use zca_desktop.Server.Handler.{Reads, bind-read, lift}
use zca_desktop.Server.Keys.{open_sealed, Opens, nonce_len}
use zca_desktop.Server.Conversations.{
  message_owner, with_rich, update_message, update_message_rich, message_rich_ciphertext,
}
use zca_desktop.Server.Hosted.Linking.{data_key_for_user, data_key_for_user-Reads}
use zca_desktop.Server.Realtime.{
  MessageRichPayload, default_rich, is_empty, HostedReactionEvent, Codec, ReadsRich,
}
use zca_desktop.Server.Realtime.Persisting.{
  Services, RichCiphertext, encrypted_rich, open_columns, read_as, body_of, rich_of, existing_rich,
  store_rich, persist_hosted_reaction,
}
use zca_desktop.Server.Realtime.Persisting.Sealed.{
  shown_rich, rich-encrypted_rich, encrypted_rich-some,
}

-- What can be read of a message is what a reaction is added to.
existing-rich_of :
    (lib : Library) (codec : Codec) (key : Bytes) (row : MessageRow)
    (found : Option MessageRichPayload)
    → rich_of lib codec key row ≡ ok found
    → existing_rich lib codec key (some (row.enc_rich, row.rich_nonce))
      ≡ ok (unwrap_or found default_rich)
unfolding rich_of existing_rich open_columns read_as
existing-rich_of lib codec key row found h = of_columns row.enc_rich row.rich_nonce h
  where
    of_columns :
        (c n : Option Bytes)
        → Results.◌>>=◌ (open_columns lib key c n) (read_as codec.from_slice) ≡ ok found
        → existing_rich lib codec key (some (c, n)) ≡ ok (unwrap_or found default_rich)
    of_columns none n h' = ap (λ o. ok (unwrap_or o default_rich)) (ok-injective h')
    of_columns (some c) none h' = ap (λ o. ok (unwrap_or o default_rich)) (ok-injective h')
    of_columns (some c) (some n) h' = elim (Result-cases (open_sealed lib key n c)) [
      | inr (e, fails) ↦ absurd (cc (rw fails at h'))
      | inl (text, opened) ↦ elim (Option-cases (codec.from_slice text)) [
        | inl fails ↦ absurd (cc (rw (opened, read_as, fails) at h'))
        | inr (r, e) ↦
            rw (opened, e)
              (ap (λ o. ok (unwrap_or o default_rich))
                (ok-injective (rw (opened, read_as, e) at h')))
      ]
    ]

store_rich-found :
    (user account : ℕ) (msg_id : String) (n c : Bytes) (s : Db) (row : MessageRow)
    → find message_owner (user, (account, msg_id)) s.messages ≡ some row
    → find message_owner
        (user, (account, msg_id))
        (store_rich user account msg_id (some n, some c) s).1.messages
      ≡ some (with_rich c n row)
unfolding store_rich update_message_rich update_message with_rich
store_rich-found user account msg_id n c s row h =
    find-update message_owner (user, (account, msg_id)) (with_rich c n) (with_rich-owner c n)
      (user, (account, msg_id)) s.messages
    ∙ rw (==_refl {A = ℕ × (ℕ × String)} (user, (account, msg_id)), h) refl
  where
    with_rich-owner :
        (c n : Bytes) (m : MessageRow) → message_owner (with_rich c n m) ≡ message_owner m
    with_rich-owner c n m = refl

-- The payload with the icon of a reaction.
abbrev pub with_icon : String → MessageRichPayload → MessageRichPayload
with_icon icon rich = record rich { reaction_icon = some icon }

with_icon-full :
    (icon : String) (rich : MessageRichPayload) → is_empty (with_icon icon rich) ≡ false
unfolding is_empty
with_icon-full icon rich = ground arith

-- The message after a reaction, by the payload that is stored on it.
abbrev pub Reacted :
    Services → ℕ → ℕ → String → Bytes → Db → MessageRow → MessageRichPayload → Type 0
Reacted o user account msg_id key t row rich =
    (after : MessageRow) × (find message_owner (user, (account, msg_id)) t.messages ≡ some after)
    × (rich_of o.lib o.codec key after ≡ ok (some rich))
    × (body_of o.lib o.codec key after ≡ body_of o.lib o.codec key row)

store_rich-Reacted :
    (o : Services) (user account : ℕ) (msg_id icon : String) (nonce key : Bytes) (s t : Db)
    (row : MessageRow) (rich : MessageRichPayload) (sealed : RichCiphertext)
    → Opens o.lib
    → ReadsRich o.codec (some (with_icon icon rich))
    → length nonce ≡ nonce_len
    → find message_owner (user, (account, msg_id)) s.messages ≡ some row
    → encrypted_rich o.lib o.codec key nonce (some (with_icon icon rich)) ≡ ok sealed
    → store_rich user account msg_id sealed s ≡ (ok tt, t)
    → Reacted o user account msg_id key t row (with_icon icon rich)
unfolding rich_of body_of with_rich shown_rich
store_rich-Reacted o user account msg_id icon nonce key s t row rich sealed opens trips hn there
      seals h =
    let full = with_icon-full icon rich in
    let (n, c, e) =
      encrypted_rich-some o.lib o.codec key nonce (with_icon icon rich) sealed full seals in
    (
      with_rich c n row,
      ap (λ d. find message_owner (user, (account, msg_id)) d.messages)
            (sym (ap (λ r. r.1) (subst (λ q. store_rich user account msg_id q s ≡ (ok tt, t)) e h)))
          ∙ store_rich-found user account msg_id n c s row there,
      ap (λ q. Results.◌>>=◌ (open_columns o.lib key q.1 q.0) (read_as o.codec.from_slice)) (sym e)
          ∙ rich-encrypted_rich o.lib opens key nonce hn o.codec (some (with_icon icon rich)) trips
              sealed seals
          ∙ rw (shown_rich, full) refl,
      refl,
    )

message_rich_ciphertext-Reads :
    (user account : ℕ) (msg_id : String) (s : Db)
    → Reads (message_rich_ciphertext user account msg_id) s
unfolding message_rich_ciphertext
message_rich_ciphertext-Reads user account msg_id s = refl

message_rich_ciphertext-found :
    (user account : ℕ) (msg_id : String) (s : Db) (row : MessageRow)
    → find message_owner (user, (account, msg_id)) s.messages ≡ some row
    → (message_rich_ciphertext user account msg_id s).0 ≡ ok (some (row.enc_rich, row.rich_nonce))
unfolding message_rich_ciphertext
message_rich_ciphertext-found user account msg_id s row h = rw (message_rich_ciphertext, h) refl

-- A reaction that is stored on a message whose rich payload can be read adds its icon to that
-- payload and changes nothing else of it, and leaves the text of the message.
pub reaction-rich_of :
    (o : Services) (user account : ℕ) (reaction : HostedReactionEvent) (nonce key : Bytes)
    (s t : Db) (row : MessageRow) (found : Option MessageRichPayload)
    → Opens o.lib
    → ReadsRich o.codec (some (with_icon reaction.icon (unwrap_or found default_rich)))
    → length nonce ≡ nonce_len
    → (data_key_for_user o.lib o.seed user s).0 ≡ ok key
    → find message_owner (user, (account, reaction.msg_id)) s.messages ≡ some row
    → rich_of o.lib o.codec key row ≡ ok found
    → persist_hosted_reaction o user account reaction nonce s ≡ (ok tt, t)
    → Reacted o user account reaction.msg_id key t row
        (with_icon reaction.icon (unwrap_or found default_rich))
unfolding persist_hosted_reaction
reaction-rich_of o user account reaction nonce key s t row found opens trips hn has there reads h =
    let (k, keyed, h1) =
      bind-read (data_key_for_user o.lib o.seed user) _ s
        (data_key_for_user-Reads o.lib o.seed user s) h in
    let same : k ≡ key = ok-injective (sym (ap (λ r. r.0) keyed) ∙ has) in
    let (existing, was, h2) =
      bind-read (message_rich_ciphertext user account reaction.msg_id) _ s
        (message_rich_ciphertext-Reads user account reaction.msg_id s) h1 in
    let (rich, gives, h3) = bind-read (lift (existing_rich o.lib o.codec k existing)) _ s refl h2 in
    let (sealed, sealing, h4) =
      bind-read
        (lift (
          encrypted_rich o.lib o.codec k nonce
            (some (record rich { reaction_icon = some reaction.icon }))))
        _ s refl h3 in
    let was_there : existing ≡ some (row.enc_rich, row.rich_nonce) = ok-injective (
      sym (ap (λ r. r.0) was)
      ∙ message_rich_ciphertext-found user account reaction.msg_id s row there) in
    let is_rich : rich ≡ unwrap_or found default_rich = ok-injective (
      sym (ap (λ r. r.0) gives)
      ∙ ap (λ q. existing_rich o.lib o.codec q existing) same
      ∙ ap (existing_rich o.lib o.codec key) was_there
      ∙ existing-rich_of o.lib o.codec key row found reads) in
    subst (λ q. Reacted o user account reaction.msg_id key t row (with_icon reaction.icon q))
      is_rich
      (store_rich-Reacted o user account reaction.msg_id reaction.icon nonce key s t row rich sealed
        opens
        (subst (λ q. ReadsRich o.codec (some (with_icon reaction.icon q))) (sym is_rich) trips) hn
        there
        (ap (λ q. encrypted_rich o.lib o.codec q nonce (some (with_icon reaction.icon rich)))
            (sym same)
          ∙ ap (λ r. r.0) sealing)
        h4)
