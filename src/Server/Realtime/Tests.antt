-- ===== src/Server/Realtime/Tests.antt =====
-- The theorems on realtime events at concrete inputs: a group message with a sticker, and a reaction
-- to it.
use zca_desktop.Common.{
  pos, inl, ℕ, ◌≡◌, ◌≤◌, refl, sym, false, none, some, [], ◌∷◌, length, ok, ap, Result,
  text_equality, number_equality, pair_equality, is_whitespace, drop_while, drop_end, trim_text,
  unwrap_or, any, Option,
}
use zca_desktop.Common.Map
use zca_desktop.Common.Table.{find, upsert}
use zca_desktop.Server.{AppError, Db}
use zca_desktop.Server.Samples.{plain, plain-Opens, zeros}
use zca_desktop.Server.Keys.{seal, open_sealed, unwrap_data_key_for_server}
use zca_desktop.Server.Devices.{user_secrets}
use zca_desktop.Server.Accounts.{new_account}
use zca_desktop.Server.Conversations.{
  new_conversation, upsert_conversation, insert_message_ciphertext, update_message,
  update_message_rich, message_rich_ciphertext,
}
use zca_desktop.Server.Files.Blobs.{Objects}
use zca_desktop.Server.Hosted.Linking.{data_key_for_user}
use zca_desktop.Server.Hosted.Addresses.{
  MediaUrl, addresses, judge, ensure_public_host, is_blocked_ip, is_blocked_v4, is_private,
  is_loopback, is_link_local, is_broadcast, is_documentation, is_unspecified,
}
use zca_desktop.Server.Realtime.{upload, HostedUploadEvent, MessageRichPayload, is_empty, ReadsBack}
use zca_desktop.Server.Realtime.Mirror.{
  MediaResponse, read_media, fetch_remote_media, mirror_hosted_media,
}
use zca_desktop.Server.Realtime.Mirror.Bounds.{fetch_remote_media-bounds}
use zca_desktop.Server.Realtime.Persisting.{
  encrypt_optional, encrypted_rich, open_columns, read_as, rich_of, existing_rich, store_rich,
  persist_hosted_reaction, store_rows, store_under, store_message, note_copy, mirror_message,
  persist_hosted_message,
}
use zca_desktop.Server.Realtime.Persisting.Message.{
  IsStored, Shows, persist_hosted_message-IsStored,
}
use zca_desktop.Server.Realtime.Persisting.Reaction.{Reacted, reaction-rich_of}
use zca_desktop.Server.Realtime.Mirror.{is_blank}
use zca_desktop.Server.Realtime.Uploads.{
  Urls, wait_for_upload_file_url, own_key, unknown_key_of, Sleeps, awake, asleep, wait-handled,
}
use zca_desktop.Server.Realtime.Handling.{upload_key, handle_hosted_realtime_event, Context}
use zca_desktop.Server.Files.{insert_file, has_references, refers, new_file, file_view}
use zca_desktop.Server.Files.Blobs.{encrypted_object_body}
use zca_desktop.Server.Conversations.{new_message}
use zca_desktop.Server.Realtime.{RichFile, ReadsRich, default_rich}
use zca_desktop.Server.Realtime.Mirror.{
  MirrorPlace, mirror_rich_file, mirrorable, mirrorable_media_url, prepare, copy,
}
use zca_desktop.Server.Realtime.Persisting.{store_mirrored}
use zca_desktop.Server.Realtime.Persisting.Message.{mirrored_of}
use zca_desktop.Common.{
  String, ℤ, ◌∙◌, ◌==◌, false, Bool-cases, inr, eq_of_==, integer_equality, subst,
}
use mathlib.Core.Path.{ap₂}
use zca_desktop.Server.Realtime.Samples.{
  sticker_rich, iconed, read_rich, codec, web, services, draws, with_account, row_with_sticker,
  with_sticker, heart, session_of, world, photo_file, noted_photo, read_photo, photo_services,
  photo,
}

abbrev media_url : MediaUrl
media_url = record { text = "https://media.example/a"; host = some "media.example"; port = none }

fetched : fetch_remote_media web media_url ≡ ok (1 ∷ 2 ∷ [])
unfolding fetch_remote_media read_media ensure_public_host addresses judge any is_blocked_ip
    is_blocked_v4 is_private is_loopback is_link_local is_broadcast is_documentation is_unspecified
fetched = refl

fetch_remote_media-bounds_example :
    (response : MediaResponse) × (web.get media_url ≡ ok response)
    × (response.body ≡ ok (1 ∷ 2 ∷ []))
    × (length {A = ℕ} (1 ∷ 2 ∷ []) ≤ web.max_bytes)
    × (ensure_public_host web.names media_url ≡ ok tt)
fetch_remote_media-bounds_example = fetch_remote_media-bounds web media_url (1 ∷ 2 ∷ []) fetched

abbrev stored : Result AppError (Unit {0}) × Db × Objects
stored = persist_hosted_message photo_services 5 7 10 draws photo with_account []

stores :
    persist_hosted_message photo_services 5 7 10 draws photo with_account []
    ≡ (ok tt, stored.1, stored.2)
unfolding persist_hosted_message store_message store_under store_rows data_key_for_user user_secrets
    find unwrap_data_key_for_server open_sealed seal encrypt_optional encrypted_rich is_empty
    upsert_conversation insert_message_ciphertext new_account new_conversation upsert mirror_message
    mirror_hosted_media note_copy trim_text drop_end drop_while is_whitespace mirror_rich_file
    mirrorable mirrorable_media_url prepare fetch_remote_media read_media ensure_public_host
    addresses judge any is_blocked_ip is_blocked_v4 is_private is_loopback is_link_local
    is_broadcast is_documentation is_unspecified encrypted_object_body copy insert_file
    has_references refers new_message new_file file_view store_mirrored store_rich
    update_message_rich update_message
stores = refl

has_key : (data_key_for_user plain "seed" 7 with_account).0 ≡ ok (zeros 32)
unfolding data_key_for_user user_secrets find unwrap_data_key_for_server open_sealed
has_key = refl

noted_reads : (id : String) (size : ℤ) → ReadsRich photo_services.codec (some (noted_photo id size))
noted_reads id size b h = elim (Bool-cases (id == "")) [
  | inr other ↦ absurd (cc (rw other at h))
  | inl blank ↦ elim (Bool-cases (size == pos 2)) [
    | inr other ↦ absurd (cc (rw (blank, other) at h))
    | inl two ↦
        ap (λ o. read_photo (unwrap_or o [])) (sym (rw (blank, two) at h))
        ∙ ap (λ i. some (noted_photo i (pos 2))) (sym (eq_of_== id "" blank))
        ∙ ap (λ n. some (noted_photo id n)) (sym (eq_of_== size (pos 2) two))
  ]
]

photo-ReadsBack : ReadsBack photo_services.codec photo
photo-ReadsBack = record {
  text = refl;
  rich = λ b h. ap (λ o. read_photo (unwrap_or o [])) (sym h);
  noted = λ r original id size is_rich is_original.
      subst
        (λ (q : MessageRichPayload × RichFile).
          ReadsRich photo_services.codec
            (some (record q.0 { file = some (record q.1 { id = some id; size_bytes = size }) })))
        (ap₂ (λ a f. (a, f)) (ap (λ o. unwrap_or o default_rich) is_rich)
          (ap (λ o. unwrap_or (of_payload o) photo_file) is_rich
            ∙ ap (λ o. unwrap_or o photo_file) is_original))
        (noted_reads id size);
}
  where
    of_payload : Option MessageRichPayload → Option RichFile
    of_payload none = none
    of_payload (some r) = r.file

persist_hosted_message-IsStored_example :
    (place : MirrorPlace) × (t1 : Db) × (store_message photo_services 5 7 10 draws photo
        with_account
      ≡ (ok place, t1))
    × (rich : Option MessageRichPayload) × IsStored photo_services 7 10 photo
        (zeros 32)
        stored.1
        rich
    × Shows photo_services draws place photo [] stored.2 rich
        (mirrored_of photo_services 5 draws place photo t1 [])
unfolding find trim_text drop_end drop_while is_whitespace
persist_hosted_message-IsStored_example =
    persist_hosted_message-IsStored photo_services plain-Opens 7 10 (zeros 32) photo photo-ReadsBack
      draws refl refl refl 5 with_account stored.1 [] stored.2 refl has_key refl stores

abbrev reacted : Result AppError (Unit {0}) × Db
reacted = persist_hosted_reaction services 7 10 heart (zeros 12) with_sticker

reacts : persist_hosted_reaction services 7 10 heart (zeros 12) with_sticker ≡ (ok tt, reacted.1)
unfolding persist_hosted_reaction data_key_for_user user_secrets find unwrap_data_key_for_server
    open_sealed seal message_rich_ciphertext existing_rich encrypted_rich encrypt_optional is_empty
    store_rich update_message_rich update_message
reacts = refl

shows_sticker : rich_of plain codec (zeros 32) row_with_sticker ≡ ok (some sticker_rich)
unfolding rich_of open_columns open_sealed read_as
shows_sticker = refl

reaction-rich_of_example : Reacted services 7 10 "m1" (zeros 32) reacted.1 row_with_sticker iconed
unfolding find data_key_for_user user_secrets
reaction-rich_of_example =
    reaction-rich_of services 7 10 heart (zeros 12) (zeros 32) with_sticker reacted.1
      row_with_sticker (some sticker_rich) plain-Opens
      (λ b h. ap (λ o. read_rich (unwrap_or o [])) (sym h)) refl has_key refl shows_sticker reacts

abbrev named_upload : HostedUploadEvent
named_upload = record { file_id = "f1"; file_url = "https://files.example/f1" }

abbrev session : Context
session = session_of 7 10

abbrev handled : Urls
handled =
    (handle_hosted_realtime_event services session (upload named_upload) world).upload_file_urls

-- Another file's URL arrives as well.
abbrev others : Urls → Urls
others urls = Map.put ":f2" "https://files.example/f2" urls

-- The events are handled while the first round sleeps.
abbrev meanwhile : ℕ → Urls → Urls
meanwhile n urls = others handled

asleep_then_handled :
    Sleeps
      (own_key services session "f1")
      (unknown_key_of services session)
      meanwhile
      150
      []
      149
      (others handled)
unfolding Map.get find
asleep_then_handled = asleep {n = 149} refl refl awake

is_named : is_blank "f1" ≡ false
unfolding trim_text drop_end drop_while is_whitespace
is_named = refl

has_url : is_blank named_upload.file_url ≡ false
unfolding trim_text drop_end drop_while is_whitespace
has_url = refl

nothing_there : Map.get (own_key services session "f1") world.upload_file_urls ≡ none
unfolding Map.get find
nothing_there = refl

event_left :
    Map.get (upload_key services session "f1") (others handled)
    ≡ Map.get (upload_key services session "f1") handled
unfolding Map.get Map.put find upsert handle_hosted_realtime_event trim_text drop_end drop_while
    is_whitespace
event_left = refl

none_else :
    Map.get (own_key services session "f1") (others handled)
    ≡ Map.get (own_key services session "f1") handled
unfolding Map.get Map.put find upsert handle_hosted_realtime_event trim_text drop_end drop_while
    is_whitespace
none_else = refl

wait-handled_example :
    (wait_for_upload_file_url (some (services.print session.account_id)) "f1" meanwhile []).0
    ≡ ok named_upload.file_url
wait-handled_example =
    wait-handled services session named_upload world "f1" 148 meanwhile others [] is_named has_url
      (inl refl) nothing_there event_left none_else asleep_then_handled
