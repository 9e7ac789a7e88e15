-- ===== src/Server/Realtime/Mirror/Copied.antt =====
-- What a copy of a message's media is.
use zca_desktop.Common.{
  ℕ, ◌≡◌, sym, ap, ◌∙◌, String, not, ◌||◌, Option, none, some, length, Result, ok, err, pos,
  Option-cases, Result-cases, Bool-cases, inl, inr, ok-injective, is_some, text_equality,
  number_equality,
}
use zca_desktop.Common.Map
use zca_desktop.Common.Table.{find}
use zca_desktop.Server.{Bytes, Db, Library}
use zca_desktop.Server.Keys.{seal}
use zca_desktop.Server.Files.{
  FileInitRequest, FileView, insert_file, file_view, new_file, file_object, has_references,
}
use zca_desktop.Server.Files.Blobs.{Objects, encrypted_object_body}
use zca_desktop.Server.Hosted.Addresses.{MediaUrl}
use zca_desktop.Server.Realtime.{RichFile, MessageRichPayload}
use zca_desktop.Server.Realtime.Mirror.{
  Web, FileDraws, MirrorPlace, Prepared, mirrorable, prepare, copy, fetch_remote_media,
  mirror_rich_file, mirror_hosted_media,
}

insert_file-view :
    (now id user : ℕ) (req : FileInitRequest) (object_key : String) (enc nonce : Bytes) (s : Db)
    (view : FileView)
    → (insert_file now id user req object_key enc nonce s).0 ≡ ok view
    → (view.id ≡ id) × (view.size_bytes ≡ req.size_bytes)
unfolding insert_file file_view new_file
insert_file-view now id user req object_key enc nonce s view h =
    elim (Bool-cases
      (is_some (find file_object object_key s.files) || not (has_references req s))) [
        | inl refused ↦ absurd (cc (rw (insert_file, refused) at h))
        | inr taken ↦
            let e = ok-injective (rw (insert_file, taken) at h) in
            (ap (λ (v : FileView). v.id) (sym e), ap (λ (v : FileView). v.size_bytes) (sym e))
      ]

module _ (lib : Library) (digest : Bytes → String) (object_key : ℕ → ℕ → String → String)
    (web : Web) (place : MirrorPlace) (draws : FileDraws) (print : ℕ → String) where
  -- `file` is the original with the id of its copy and the length of what was fetched from its URL,
  -- which is in the object store under a key that is made of its digest, sealed with the file's key.
  pub record CopiedFile (original file : RichFile) (objects objects' : Objects) : Type 0 where
    pub url : MediaUrl
    pub bytes : Bytes
    pub body : Bytes
    pub is_at : mirrorable web original ≡ some url
    pub fetched : fetch_remote_media web url ≡ ok bytes
    pub sealed : encrypted_object_body lib draws.file_key draws.object_nonce bytes ≡ ok body
    pub put :
        objects'
        ≡ Map.put (object_key place.user_id draws.file_id_for_key (digest bytes)) body objects
    pub is_file :
        file ≡ record original { id = some (print draws.row_id); size_bytes = pos (length bytes) }

  record IsPrepared (original : RichFile) (url : MediaUrl) (p : Prepared) : Type 0 where
    bytes : Bytes
    fetched : fetch_remote_media web url ≡ ok bytes
    sealed : encrypted_object_body lib draws.file_key draws.object_nonce bytes ≡ ok p.object_body
    has_key : p.object_key ≡ object_key place.user_id draws.file_id_for_key (digest bytes)
    has_size : p.request.size_bytes ≡ length bytes

  prepare-IsPrepared :
      (original : RichFile) (url : MediaUrl) (p : Prepared)
      → prepare lib digest object_key web place draws original url ≡ ok p
      → IsPrepared original url p
  unfolding prepare
  prepare-IsPrepared original url p h = elim (Result-cases (fetch_remote_media web url)) [
    | inr (e, fails) ↦ absurd (cc (rw (prepare, fails) at h))
    | inl (bytes, got) ↦
        elim (Result-cases (seal lib place.data_key draws.file_key_nonce draws.file_key)) [
          | inr (e, fails) ↦ absurd (cc (rw (prepare, got, fails) at h))
          | inl (key, keyed) ↦
              elim (Result-cases
                (encrypted_object_body lib draws.file_key draws.object_nonce bytes)) [
                  | inr (e, fails) ↦ absurd (cc (rw (prepare, got, keyed, fails) at h))
                  | inl (body, made) ↦
                      let e = ok-injective (rw (prepare, got, keyed, made) at h) in
                      record {
                        bytes = bytes;
                        fetched = got;
                        sealed = made ∙ ap (λ (q : Prepared). ok q.object_body) e;
                        has_key = ap (λ (q : Prepared). q.object_key) (sym e);
                        has_size = ap (λ (q : Prepared). q.request.size_bytes) (sym e);
                      }
                ]
        ]
  ]

  copy-CopiedFile :
      (now : ℕ) (up : Result String (Unit {0})) (original file : RichFile) (url : MediaUrl)
      (p : Prepared) (s : Db) (objects : Objects)
      → mirrorable web original ≡ some url
      → IsPrepared original url p
      → (copy lib digest object_key web place draws print now up original p s objects).0
        ≡ ok (some file)
      → CopiedFile original file objects
          (copy lib digest object_key web place draws print now up original p s objects).2
  unfolding copy
  copy-CopiedFile now (err e) original file url p s objects there is h = absurd (cc h)
  copy-CopiedFile now (ok u) original file url p s objects there is h =
      elim (Result-cases
        (insert_file now draws.row_id place.user_id p.request p.object_key p.enc_file_key
          draws.file_key_nonce s).0) [
            | inr (e, fails) ↦ absurd (cc (rw fails at h))
            | inl (view, inserted) ↦
                let same =
                  insert_file-view now draws.row_id place.user_id p.request p.object_key
                    p.enc_file_key draws.file_key_nonce s view inserted in
                record {
                  url = url;
                  bytes = is.bytes;
                  body = p.object_body;
                  is_at = there;
                  fetched = is.fetched;
                  sealed = is.sealed;
                  put = ap (λ k. Map.put k p.object_body objects) is.has_key;
                  is_file =
                      ap (λ f. unwrap_file original f) (sym (ok-injective (rw inserted at h)))
                      ∙ ap
                          (λ i. record original {
                            id = some (print i);
                            size_bytes = pos view.size_bytes;
                          })
                          same.0
                      ∙ ap
                          (λ n. record original {
                            id = some (print draws.row_id);
                            size_bytes = pos n;
                          })
                          (same.1 ∙ is.has_size);
                }
          ]
    where
      unwrap_file : RichFile → Option RichFile → RichFile
      unwrap_file f none = f
      unwrap_file f (some g) = g

  pub mirror-CopiedFile :
      (now : ℕ) (up : Result String (Unit {0})) (rich : MessageRichPayload) (file : RichFile)
      (s : Db) (objects : Objects)
      → (mirror_hosted_media lib digest object_key web place draws print now up rich s objects).0
        ≡ ok (some file)
      → (original : RichFile) × (rich.file ≡ some original)
        × CopiedFile original file objects
            (mirror_hosted_media lib digest object_key web place draws print now up rich s
              objects).2
  unfolding mirror_hosted_media mirror_rich_file
  mirror-CopiedFile now up rich file s objects h = elim (Option-cases rich.file) [
    | inl gone ↦ absurd (cc (rw (mirror_hosted_media, gone) at h))
    | inr (original, given) ↦ elim (Option-cases (mirrorable web original)) [
      | inl none_there ↦
          absurd (cc (rw (mirror_hosted_media, given, mirror_rich_file, none_there) at h))
      | inr (url, there) ↦
          elim (Result-cases (prepare lib digest object_key web place draws original url)) [
            | inr (e, fails) ↦
                absurd (cc (rw (mirror_hosted_media, given, mirror_rich_file, there, fails) at h))
            | inl (p, ready) ↦ (
              original,
              given,
              rw (mirror_hosted_media, given, mirror_rich_file, there, ready)
                  (copy-CopiedFile now up original file url p s objects there
                    (prepare-IsPrepared original url p ready)
                    (rw (mirror_hosted_media, given, mirror_rich_file, there, ready) at h)),
            )
          ]
    ]
  ]
