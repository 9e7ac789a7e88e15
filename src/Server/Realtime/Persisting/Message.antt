-- ===== src/Server/Realtime/Persisting/Message.antt =====
-- What is stored of a message that arrives.
use mathlib.Core.Path.{ap₂}
use zca_desktop.Common as Results
use zca_desktop.Common.{
  ℕ, ◌≡◌, refl, sym, ap, ◌∙◌, String, Bool, true, false, not, ◌&&◌, Option, none, some, List, [],
  ◌∷◌, if◌then◌else◌, length, is_some, map_option, Result, ok, err, ◌==◌, ==_refl, text_equality,
  number_equality, pair_equality, arith, Option-cases, Result-cases, Bool-cases, inl, inr, ◌⊎◌,
  ok-injective, subst,
}
use zca_desktop.Common.Table.{find, find-key}
use zca_desktop.Server.{AppError, Bytes, Db, MessageRow}
use zca_desktop.Server.Handler.{bind-ok, bind-read, lift}
use zca_desktop.Server.Keys.{Opens, nonce_len}
use zca_desktop.Server.Conversations.{
  message_key, message_owner, new_message, with_rich, update_message, update_message_rich,
  upsert_conversation, insert_message_ciphertext,
}
use zca_desktop.Server.Files.Blobs.{Objects}
use zca_desktop.Server.Hosted.Linking.{data_key_for_user, data_key_for_user-Reads}
use zca_desktop.Server.Realtime.{
  RichFile, MessageRichPayload, is_empty, HostedIncomingMessage, ReadsText, ReadsRich, ReadsBack,
}
use zca_desktop.Server.Realtime.Mirror.{MirrorPlace, is_blank, mirror_hosted_media}
use zca_desktop.Server.Realtime.Mirror.Copied.{CopiedFile, mirror-CopiedFile}
use zca_desktop.Server.Realtime.Persisting.{
  Services, MessageDraws, RichCiphertext, encrypt_optional, encrypted_rich, open_columns, read_as,
  body_of, rich_of, store_rich, store_rows, store_under, store_message, store_mirrored, note_copy,
  mirror_message, persist_hosted_message,
}
use zca_desktop.Server.Realtime.Persisting.Rows.{
  find-update_owned, mirror-messages, insert_message-new, upsert_conversation-messages,
}
use zca_desktop.Server.Realtime.Persisting.Sealed.{
  shown_rich, open-encrypt_optional, rich-encrypted_rich, encrypted_rich-some,
}

-- The message's row, in tables, with the text of the message and a payload.
pub record IsStored (o : Services) (user account : ℕ) (m : HostedIncomingMessage) (key : Bytes)
    (s : Db) (rich : Option MessageRichPayload) : Type 0 where
  pub row : MessageRow
  pub there : find message_key (account, m.msg_id) s.messages ≡ some row
  pub owned : row.user_id ≡ user
  pub has_body : body_of o.lib o.codec key row ≡ ok m.text
  pub has_rich : rich_of o.lib o.codec key row ≡ ok rich

-- Where `store_message` says that a message is.
record IsPlace (user account : ℕ) (key : Bytes) (p : MirrorPlace) : Type 0 where
  of_user : p.user_id ≡ user
  of_account : p.account_id ≡ account
  of_key : p.data_key ≡ key

-- What the mirror answers for a message that is stored: the file with its copy, where it made one.
unfoldable pub mirrored_of :
    Services
    → ℕ
    → MessageDraws
    → MirrorPlace
    → HostedIncomingMessage
    → Db
    → Objects
    → Result AppError (Option RichFile)
mirrored_of o now draws place m s objects = elim m.rich [
  | none ↦ ok none
  | some r ↦
      (mirror_hosted_media o.lib o.digest o.object_key o.web place draws.file o.print now draws.up r
        s objects).0
]

-- The payload of a stored message, by what the mirror answers: it has the copied file where one was
-- copied, and is as it arrived where none was or the copy failed.
abbrev pub Shows :
    Services
    → MessageDraws
    → MirrorPlace
    → HostedIncomingMessage
    → Objects
    → Objects
    → Option MessageRichPayload
    → Result AppError (Option RichFile)
    → Type 0
Shows o draws place m objects objects' rich (ok (some file)) =
    (r : MessageRichPayload) × (original : RichFile) × (m.rich ≡ some r)
    × (r.file ≡ some original)
    × (rich ≡ some (record r { file = some file }))
    × CopiedFile o.lib o.digest o.object_key o.web place draws.file o.print original file objects
        objects'
Shows o draws place m objects objects' rich (ok none) = rich ≡ shown_rich m.rich
Shows o draws place m objects objects' rich (err e) = rich ≡ shown_rich m.rich

module _ (o : Services) (opens : Opens o.lib) (user account : ℕ) (key : Bytes)
    (m : HostedIncomingMessage) (trips : ReadsBack o.codec m) (draws : MessageDraws)
    (hb : length draws.body_nonce ≡ nonce_len) (hr : length draws.rich_nonce ≡ nonce_len)
    (hm : length draws.mirrored_nonce ≡ nonce_len) where
  body_reads :
      (sealed : RichCiphertext)
      → encrypt_optional o.lib key draws.body_nonce (map_option o.codec.as_bytes m.text) ≡ ok sealed
      → Results.◌>>=◌ (open_columns o.lib key sealed.1 sealed.0) (read_as o.codec.from_utf8)
        ≡ ok m.text
  unfolding read_as
  body_reads sealed h =
      ap (λ r. Results.◌>>=◌ r (read_as o.codec.from_utf8))
        (open-encrypt_optional o.lib opens key draws.body_nonce hb
          (map_option o.codec.as_bytes m.text) sealed h)
      ∙ of_text m.text trips.text
    where
      of_text :
          (t : Option String)
          → ReadsText o.codec t
          → read_as o.codec.from_utf8 (map_option o.codec.as_bytes t) ≡ ok t
      of_text none reads = refl
      of_text (some t) reads = rw reads refl

  store_rows-IsStored :
      (now : ℕ) (s t : Db) (place : MirrorPlace) (body rich : RichCiphertext)
      → find message_key (account, m.msg_id) s.messages ≡ none
      → encrypt_optional o.lib key draws.body_nonce (map_option o.codec.as_bytes m.text) ≡ ok body
      → encrypted_rich o.lib o.codec key draws.rich_nonce m.rich ≡ ok rich
      → store_rows o now user account draws m key body rich s ≡ (ok place, t)
      → IsPlace user account key place × IsStored o user account m key t (shown_rich m.rich)
  unfolding store_rows body_of rich_of new_message
  store_rows-IsStored now s t place body rich fresh hb' hr' h =
      let c =
        bind-ok (upsert_conversation now draws.conversation_id user account m.thread_id m.kind _ _)
          _ s h in
      let i =
        bind-ok (insert_message_ciphertext now draws.message_id user account c.value _) _ c.middle
          c.then in
      let kept =
        upsert_conversation-messages now draws.conversation_id user account m.thread_id m.kind _ _ s
          c.middle c.value c.first in
      let found =
        insert_message-new now draws.message_id user account c.value _ c.middle i.middle i.value
          (ap (find message_key (account, m.msg_id)) kept ∙ fresh) i.first in
      let placed = ok-injective (ap (λ r. r.0) i.then) in
      (
        record {
          of_user = ap (λ p. p.user_id) (sym placed);
          of_account = ap (λ p. p.account_id) (sym placed);
          of_key = ap (λ p. p.data_key) (sym placed);
        },
        record {
          row = _;
          there = ap (λ r. find message_key (account, m.msg_id) r.1.messages) (sym i.then) ∙ found;
          owned = refl;
          has_body = body_reads body hb';
          has_rich =
              rich-encrypted_rich o.lib opens key draws.rich_nonce hr o.codec m.rich trips.rich rich
                hr';
        },
      )

  store_message-IsStored :
      (now : ℕ) (s t : Db) (place : MirrorPlace)
      → (data_key_for_user o.lib o.seed user s).0 ≡ ok key
      → find message_key (account, m.msg_id) s.messages ≡ none
      → store_message o now user account draws m s ≡ (ok place, t)
      → IsPlace user account key place × IsStored o user account m key t (shown_rich m.rich)
  unfolding store_message store_under
  store_message-IsStored now s t place has fresh h =
      let (k, keyed, h1) =
        bind-read (data_key_for_user o.lib o.seed user) (store_under o now user account draws m) s
          (data_key_for_user-Reads o.lib o.seed user s) h in
      let same : k ≡ key = ok-injective (sym (ap (λ r. r.0) keyed) ∙ has) in
      let h1' = subst (λ q. store_under o now user account draws m q s ≡ (ok place, t)) same h1 in
      let (body, hb', h2) =
        bind-read
          (lift (encrypt_optional o.lib key draws.body_nonce (map_option o.codec.as_bytes m.text)))
          _ s refl h1' in
      let (rich, hr', h3) =
        bind-read (lift (encrypted_rich o.lib o.codec key draws.rich_nonce m.rich))
          (store_rows o now user account draws m key body) s refl h2 in
      store_rows-IsStored now s t place body rich fresh (ap (λ r. r.0) hb') (ap (λ r. r.0) hr') h3

  store_rich-IsStored :
      (sealed : RichCiphertext) (s t : Db) (rich : Option MessageRichPayload)
      (noted : MessageRichPayload)
      → IsStored o user account m key s rich
      → is_empty noted ≡ false
      → ReadsRich o.codec (some noted)
      → encrypted_rich o.lib o.codec key draws.mirrored_nonce (some noted) ≡ ok sealed
      → store_rich user account m.msg_id sealed s ≡ (ok tt, t)
      → IsStored o user account m key t (some noted)
  unfolding store_rich update_message_rich update_message with_rich rich_of body_of shown_rich
  store_rich-IsStored sealed s t rich noted stored full reads seals h =
      let (n, c, e) =
        encrypted_rich-some o.lib o.codec key draws.mirrored_nonce noted sealed full seals in
      let h' = subst (λ q. store_rich user account m.msg_id q s ≡ (ok tt, t)) e h in
      let keyed = find-key message_key (account, m.msg_id) s.messages stored.there in
      let owner : message_owner stored.row ≡ (user, (account, m.msg_id)) =
        ap₂ (λ u k. (u, k)) stored.owned keyed in
      record {
        row = with_rich c n stored.row;
        there =
            ap (λ r. find message_key (account, m.msg_id) r.1.messages) (sym h')
            ∙ find-update_owned user account m.msg_id (with_rich c n) s.messages (λ r. refl)
            ∙ ap (map_option _) stored.there
            ∙ ap (λ (b : Bool). some (if b then with_rich c n stored.row else stored.row))
                (ap (λ k. k == (user, (account, m.msg_id))) owner
                  ∙ ==_refl {A = ℕ × (ℕ × String)} (user, (account, m.msg_id)));
        owned = stored.owned;
        has_body = stored.has_body;
        has_rich =
            ap (λ q. Results.◌>>=◌ (open_columns o.lib key q.1 q.0) (read_as o.codec.from_slice))
              (sym e)
            ∙ rich-encrypted_rich o.lib opens key draws.mirrored_nonce hm o.codec (some noted) reads
                sealed seals
            ∙ rw (shown_rich, full) refl;
      }

  -- The message after the file that was copied is noted in it.
  store_mirrored-IsStored :
      (place : MirrorPlace) (s t : Db) (rich : Option MessageRichPayload)
      (noted : MessageRichPayload)
      → IsPlace user account key place
      → IsStored o user account m key s rich
      → is_empty noted ≡ false
      → ReadsRich o.codec (some noted)
      → store_mirrored o draws m.msg_id place noted s ≡ (ok tt, t)
      → IsStored o user account m key t (some noted)
  unfolding store_mirrored store_rich
  store_mirrored-IsStored place s t rich noted p stored full reads h =
      let (sealed, seals, h1) =
        bind-read
          (lift (encrypted_rich o.lib o.codec place.data_key draws.mirrored_nonce (some noted)))
          (store_rich place.user_id place.account_id m.msg_id) s refl h in
      let seals' =
        ap (λ k. encrypted_rich o.lib o.codec k draws.mirrored_nonce (some noted)) (sym p.of_key)
        ∙ ap (λ r. r.0) seals in
      store_rich-IsStored sealed s t rich noted stored full reads seals' (
        subst (λ (q : ℕ × ℕ). store_rich q.0 q.1 m.msg_id sealed s ≡ (ok tt, t))
          (ap₂ (λ u a. (u, a)) p.of_user p.of_account) h1)

  note_copy-IsStored :
      (place : MirrorPlace) (s t : Db) (r : MessageRichPayload) (objects objects' : Objects)
      (copied : Result AppError (Option RichFile))
      → m.rich ≡ some r
      → ((file : RichFile)
          → copied ≡ ok (some file)
          → (original : RichFile) × (r.file ≡ some original)
            × CopiedFile o.lib o.digest o.object_key o.web place draws.file o.print original file
                objects objects')
      → IsPlace user account key place
      → IsStored o user account m key s (shown_rich m.rich)
      → note_copy o draws m.msg_id place r copied s ≡ (ok tt, t)
      → (rich : Option MessageRichPayload) × IsStored o user account m key t rich
        × Shows o draws place m objects objects' rich copied
  unfolding note_copy is_empty
  note_copy-IsStored place s t r objects objects' (err e) given made p stored h = (
    _,
    subst (λ d. IsStored o user account m key d (shown_rich m.rich)) (ap (λ x. x.1) h) stored,
    refl,
  )
  note_copy-IsStored place s t r objects objects' (ok none) given made p stored h = (
    _,
    subst (λ d. IsStored o user account m key d (shown_rich m.rich)) (ap (λ x. x.1) h) stored,
    refl,
  )
  note_copy-IsStored place s t r objects objects' (ok (some file)) given made p stored h =
      let (original, there, copy) = made file refl in
      (
        some (record r { file = some file }),
        store_mirrored-IsStored place s t (shown_rich m.rich) (record r { file = some file }) p
            stored (ground arith)
            (subst (λ f. ReadsRich o.codec (some (record r { file = some f }))) (sym copy.is_file)
              (trips.noted r original _ _ given there))
            h,
        (r, original, given, there, refl, copy),
      )

  mirror_message-IsStored :
      (now : ℕ) (place : MirrorPlace) (s t : Db) (objects objects' : Objects)
      → IsPlace user account key place
      → IsStored o user account m key s (shown_rich m.rich)
      → mirror_message o now draws m place s objects ≡ (ok tt, t, objects')
      → (rich : Option MessageRichPayload) × IsStored o user account m key t rich
        × Shows o draws place m objects objects' rich (mirrored_of o now draws place m s objects)
  unfolding mirror_message mirrored_of
  mirror_message-IsStored now place s t objects objects' p stored h = elim (Option-cases m.rich) [
    | inl gone ↦ (
      _,
      subst (λ d. IsStored o user account m key d (shown_rich m.rich))
          (ap (λ x. x.1) (rw (mirror_message, gone) at h)) stored,
      rw (mirrored_of, gone) refl,
    )
    | inr (r, given) ↦
        let mirrored =
          mirror_hosted_media o.lib o.digest o.object_key o.web place draws.file o.print now
            draws.up r s objects in
        let same = mirror-messages o now draws place r s objects in
        let e = rw (mirror_message, given) at h in
        let is_mirrored : mirrored.0 ≡ mirrored_of o now draws place m s objects =
          rw (mirrored_of, given) refl in
        let (rich, kept, shows) =
          note_copy-IsStored place mirrored.1 t r objects mirrored.2 mirrored.0 given
            (λ file copied.
              mirror-CopiedFile o.lib o.digest o.object_key o.web place draws.file o.print now
                draws.up r file s objects copied)
            p (moved mirrored.1 same) (ap (λ x. (x.0, x.1)) e) in
        (
          rich,
          kept,
          subst (λ q. Shows o draws place m objects objects' rich q) is_mirrored
              (subst (λ q. Shows o draws place m objects q rich mirrored.0) (ap (λ x. x.2) e)
                shows),
        )
  ]
    where
      moved :
          (d : Db) → d.messages ≡ s.messages → IsStored o user account m key d (shown_rich m.rich)
      moved d e = record {
        row = stored.row;
        there = ap (find message_key (account, m.msg_id)) e ∙ stored.there;
        owned = stored.owned;
        has_body = stored.has_body;
        has_rich = stored.has_rich;
      }

  -- Storing a message that was not there, in a thread with a name, leaves its row: the user's, with
  -- the text of the message and its payload. Where the mirror of its media answers with a copy, the
  -- payload has that copy for its file: the file as it arrived, with the copy's id and the length of
  -- what was fetched from its URL, which is in the object store, sealed with the copy's key. Else the
  -- payload is as it arrived. A payload with nothing in it is none.
  pub persist_hosted_message-IsStored :
      (now : ℕ) (s t : Db) (objects objects' : Objects)
      → is_blank m.thread_id ≡ false
      → (data_key_for_user o.lib o.seed user s).0 ≡ ok key
      → find message_key (account, m.msg_id) s.messages ≡ none
      → persist_hosted_message o now user account draws m s objects ≡ (ok tt, t, objects')
      → (place : MirrorPlace) × (t1 : Db) × (store_message o now user account draws m s
          ≡ (ok place, t1))
        × (rich : Option MessageRichPayload) × IsStored o user account m key t rich
        × Shows o draws place m objects objects' rich (mirrored_of o now draws place m t1 objects)
  unfolding persist_hosted_message
  persist_hosted_message-IsStored now s t objects objects' named has fresh h =
      let e = rw (persist_hosted_message, named) at h in
      elim (Result-cases (store_message o now user account draws m s).0) [
        | inr (x, fails) ↦ absurd (cc (ap (λ q. q.0) (rw fails at e)))
        | inl (place, placed) ↦
            let t1 = (store_message o now user account draws m s).1 in
            let stored = ap (λ q. (q, t1)) placed in
            let first = store_message-IsStored now s t1 place has fresh stored in
            let (rich, kept, shows) =
              mirror_message-IsStored now place t1 t objects objects' first.0 first.1
                (rw placed at e) in
            (place, t1, stored, rich, kept, shows)
      ]
