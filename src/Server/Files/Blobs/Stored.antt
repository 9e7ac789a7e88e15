-- ===== src/Server/Files/Blobs/Stored.antt =====
-- What an upload leaves in the object store.
use zca_desktop.Common.{
  ℕ, ◌≡◌, refl, sym, ap, ◌∙◌, String, true, false, some, ◌++◌, ◌==◌, ◌≢◌, ==_refl, text_equality,
  number_equality, length, split_prefix, length-append, ok, ok_or, arith, Result-cases, inl, inr,
  ltb, eq_of_==, ==_of_ne, Option-cases, Bool-cases, subst, ok-injective,
}
use zca_desktop.Common.Map
use zca_desktop.Common.Map.{Map, get-put}
use zca_desktop.Server.{not_found, Bytes, Db, FileRow, Library}
use zca_desktop.Server.Handler.{Reads, bind-read, bind-step, bind-Reads, lift}
use zca_desktop.Server.Keys.{seal, open_sealed, Opens, open_sealed-seal, nonce_len}
use zca_desktop.Server.Files.{file_secret}
use zca_desktop.Server.Hosted.Linking.{data_key_for_user, data_key_for_user-Reads}
use zca_desktop.Server.Files.Blobs.{
  Objects, file_key_of, encrypted_object_body, matches, object_of, upload_file_blob, opened,
  decrypt_file_blob, download_file_blob,
}

sealed_nonce :
    (lib : Library) (key nonce text : Bytes) {n c : Bytes}
    → seal lib key nonce text ≡ ok (n, c)
    → n ≡ nonce
unfolding seal
sealed_nonce lib key nonce text h = elim (Option-cases (lib.gcm_encrypt key nonce text)) [
  | inl fails ↦ absurd (cc (rw (seal, fails) at h))
  | inr (c, e) ↦ ap (λ p. p.0) (sym (ok-injective (rw (seal, e) at h)))
]

opened-append :
    (lib : Library) (key nonce rest text : Bytes)
    → length nonce ≡ nonce_len
    → open_sealed lib key nonce rest ≡ ok text
    → opened lib key (nonce ++ rest) ≡ ok text
unfolding opened
opened-append lib key nonce rest text hn h =
    let (front, back) = split_prefix 12 nonce rest hn in
    let long : ltb (length (nonce ++ rest)) 12 ≡ false =
      ground (arith, length-append nonce rest, hn) in
    rw (opened, long, front, back) h

opened-sealed :
    (lib : Library) (key nonce text object : Bytes)
    → Opens lib
    → length nonce ≡ nonce_len
    → encrypted_object_body lib key nonce text ≡ ok object
    → opened lib key object ≡ ok text
unfolding encrypted_object_body
opened-sealed lib key nonce text object opens hn h = elim (Result-cases (seal lib key nonce text)) [
  | inr (x, fails) ↦ absurd (cc (rw (encrypted_object_body, fails) at h))
  | inl ((n, c), sealed) ↦
      let e = sealed_nonce lib key nonce text sealed in
      subst (λ o. opened lib key o ≡ ok text)
        (ok-injective (rw (encrypted_object_body, sealed) at h))
        (opened-append lib key n c text (ap length e ∙ hn)
          (open_sealed-seal lib key nonce text opens hn sealed))
]

file_key_of-Reads :
    (lib : Library) (seed : String) (user : ℕ) (secret : FileRow) (s : Db)
    → (file_key_of lib seed user secret s).1 ≡ s
unfolding file_key_of
file_key_of-Reads lib seed user secret s =
    bind-Reads (data_key_for_user lib seed user) _ s (data_key_for_user-Reads lib seed user s)
      (λ key.
        bind-Reads (lift (open_sealed lib key secret.file_key_nonce secret.enc_file_key)) _ s refl
          (λ k. refl))

file_secret-Reads : (user file : ℕ) (s : Db) → Reads (file_secret user file) s
unfolding file_secret
file_secret-Reads user file s = refl

-- What an upload has been through.
record Uploaded (lib : Library) (seed : String) (digest : Bytes → String) (user file : ℕ)
    (nonce body : Bytes) (s : Db) (object : String × Bytes) : Type 0 where
  row : FileRow
  key : Bytes
  bytes : Bytes
  secret : file_secret user file s ≡ (ok row, s)
  agrees : matches digest row body ≡ ok tt
  has_key : file_key_of lib seed user row s ≡ (ok key, s)
  sealed : encrypted_object_body lib key nonce body ≡ ok bytes
  is_object : object ≡ (row.object_key, bytes)

object_of-Uploaded :
    (lib : Library) (seed : String) (digest : Bytes → String) (user file : ℕ) (nonce body : Bytes)
    (s t : Db) (object : String × Bytes)
    → object_of lib seed digest user file nonce body s ≡ (ok object, t)
    → Uploaded lib seed digest user file nonce body s object
unfolding object_of
object_of-Uploaded lib seed digest user file nonce body s t object h =
    let (row, secret, h1) =
      bind-read (file_secret user file) _ s (file_secret-Reads user file s) h in
    let (u, agrees, h2) = bind-read (lift (matches digest row body)) _ s refl h1 in
    let (key, has_key, h3) =
      bind-read (file_key_of lib seed user row) _ s (file_key_of-Reads lib seed user row s) h2 in
    let (bytes, sealed, h4) =
      bind-read (lift (encrypted_object_body lib key nonce body)) _ s refl h3 in
    record {
      row = row;
      key = key;
      bytes = bytes;
      secret = secret;
      agrees = ap (λ r. r.0) agrees;
      has_key = has_key;
      sealed = ap (λ r. r.0) sealed;
      is_object = sym (ok-injective (ap (λ r. r.0) h4));
    }

matches-ok :
    (digest : Bytes → String) (row : FileRow) (body : Bytes)
    → matches digest row body ≡ ok tt
    → (length body ≡ row.size_bytes) × (digest body ≡ row.content_sha256)
unfolding matches
matches-ok digest row body h = elim (Bool-cases (length body == row.size_bytes)) [
  | inr other ↦ absurd (cc (rw (matches, other) at h))
  | inl size ↦ elim (Bool-cases (digest body == row.content_sha256)) [
    | inr other ↦ absurd (cc (rw (matches, size, other) at h))
    | inl hash ↦
        (eq_of_== (length body) row.size_bytes size, eq_of_== (digest body) row.content_sha256 hash)
  ]
]

downloaded :
    (lib : Library) (seed : String) (user file : ℕ) (nonce body : Bytes) (s : Db)
    (object : String × Bytes) (objects : Objects) (digest : Bytes → String)
    (u : Uploaded lib seed digest user file nonce body s object)
    → Opens lib
    → length nonce ≡ nonce_len
    → Map.get u.row.object_key objects ≡ some u.bytes
    → download_file_blob lib seed objects true user file s ≡ (ok body, s)
unfolding download_file_blob decrypt_file_blob
downloaded lib seed user file nonce body s object objects digest u opens hn there =
    bind-step (file_secret user file) _ s u.secret
    ∙ bind-step (file_key_of lib seed user u.row) _ s u.has_key
    ∙ bind-step (lift (ok_or (Map.get u.row.object_key objects) not_found)) _ s
        (ap (λ o. (ok_or o not_found, s)) there)
    ∙ ap (λ r. (r, s)) (opened-sealed lib u.key nonce body u.bytes opens hn u.sealed)

-- An upload that the store takes was of bytes with the size and the digest of the file's row; it
-- downloads as it was uploaded where its object arrives, and every other object is as before.
pub download-upload :
    (lib : Library) (seed : String) (digest : Bytes → String) (user file n : ℕ) (nonce body : Bytes)
    (s : Db) (objects objects' : Objects)
    → Opens lib
    → length nonce ≡ nonce_len
    → upload_file_blob lib seed digest true user file nonce body s objects ≡ (ok n, objects')
    → (row : FileRow) × (file_secret user file s ≡ (ok row, s))
      × (length body ≡ row.size_bytes)
      × (digest body ≡ row.content_sha256)
      × (download_file_blob lib seed objects' true user file s ≡ (ok body, s))
      × ((key : String) → key ≢ row.object_key → Map.get key objects' ≡ Map.get key objects)
unfolding upload_file_blob
download-upload lib seed digest user file n nonce body s objects objects' opens hn h =
    elim (Result-cases (object_of lib seed digest user file nonce body s).0) [
      | inr (x, fails) ↦ absurd (cc (ap (λ r. r.0) (rw (upload_file_blob, fails) at h)))
      | inl (object, e) ↦
          let u =
            object_of-Uploaded lib seed digest user file nonce body s
              (object_of lib seed digest user file nonce body s).1 object
              (ap (λ r. (r, (object_of lib seed digest user file nonce body s).1)) e) in
          let put : Map.put u.row.object_key u.bytes objects ≡ objects' =
            ap (λ o. Map.put o.0 o.1 objects) (sym u.is_object)
            ∙ ap (λ r. r.1) (rw (upload_file_blob, e) at h) in
          let agrees = matches-ok digest u.row body u.agrees in
          (
            u.row,
            u.secret,
            agrees.0,
            agrees.1,
            downloaded lib seed user file nonce body s object objects' digest u opens hn (
                ap (Map.get u.row.object_key) (sym put)
                ∙ get-put u.row.object_key u.row.object_key u.bytes objects
                ∙ rw (==_refl u.row.object_key) refl),
            λ key other.
                ap (Map.get key) (sym put)
                ∙ get-put u.row.object_key key u.bytes objects
                ∙ rw (==_of_ne u.row.object_key key (λ q. other (sym q))) refl,
          )
    ]
