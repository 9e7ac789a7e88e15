-- ===== src/Server/Files/Blobs/Tests.antt =====
-- The theorem on uploads at a concrete input.
use zca_desktop.Common.{
  ℕ, ◌≡◌, ◌≢◌, refl, String, true, none, some, [], ◌∷◌, length, ok, text_equality, number_equality,
  pair_equality,
}
use zca_desktop.Common.Map
use zca_desktop.Common.Table.{find}
use zca_desktop.Server.{Bytes, Db, FileRow}
use zca_desktop.Server.Samples.{plain, plain-Opens, zeros, with_an}
use zca_desktop.Server.Keys.{seal, open_sealed, unwrap_data_key_for_server}
use zca_desktop.Server.Devices.{user_secrets}
use zca_desktop.Server.Files.{file_secret}
use zca_desktop.Server.Files.Blobs.{
  Objects, file_key_of, matches, object_of, encrypted_object_body, object_body_len,
  upload_file_blob, download_file_blob,
}
use zca_desktop.Server.Files.Blobs.Stored.{download-upload}
use zca_desktop.Server.Hosted.Linking.{data_key_for_user}

abbrev one_file : Db
one_file = record with_an {
  files =
      record {
        id = 3;
        user_id = 7;
        account_id = none;
        conversation_id = none;
        message_id = none;
        object_key = "users/7/files/3";
        filename = some "a.txt";
        mime = none;
        size_bytes = 2;
        content_sha256 = "digest";
        enc_file_key = zeros 32;
        file_key_nonce = zeros 12;
        created_at = 1;
      }
      ∷ [];
}

abbrev after_upload : Objects
after_upload =
    (upload_file_blob plain "seed" (λ b. "digest") true 7 3 (zeros 12) (8 ∷ 9 ∷ []) one_file []).1

uploaded :
    upload_file_blob plain "seed" (λ b. "digest") true 7 3 (zeros 12) (8 ∷ 9 ∷ []) one_file []
    ≡ (ok 30, after_upload)
unfolding upload_file_blob object_of file_secret find matches file_key_of data_key_for_user
    user_secrets unwrap_data_key_for_server open_sealed seal encrypted_object_body object_body_len
uploaded = refl

download-upload_example :
    (row : FileRow) × (file_secret 7 3 one_file ≡ (ok row, one_file))
    × (length {A = ℕ} (8 ∷ 9 ∷ []) ≡ row.size_bytes)
    × (◌≡◌ {A = String} "digest" row.content_sha256)
    × (download_file_blob plain "seed" after_upload true 7 3 one_file ≡ (ok (8 ∷ 9 ∷ []), one_file))
    × ((key : String)
        → key ≢ row.object_key
        → Map.get key after_upload ≡ Map.get {V = Bytes} key [])
download-upload_example =
    download-upload plain "seed" (λ b. "digest") 7 3 30 (zeros 12) (8 ∷ 9 ∷ []) one_file []
      after_upload plain-Opens refl uploaded
