-- ===== src/Server/Samples.antt =====
-- A small world for the tests: crates that leave texts as they are, and one user.
use zca_desktop.Common.{ℕ, zero, suc, sym, some, [], ◌∷◌, ◌==◌, text_equality}
use zca_desktop.Server.{Bytes, Db, UserRow, empty, Library}
use zca_desktop.Server.Keys.{Opens}

abbrev pub plain : Library
plain = record {
  sha256_hex = λ s. s;
  hash_password = λ key salt. some key;
  verify_password = λ hash key. hash == key;
  hkdf = λ input purpose. [];
  gcm_encrypt = λ key nonce text. some text;
  gcm_decrypt = λ key nonce sealed. some sealed;
  to_lowercase = λ s. s;
}

pub plain-Opens : Opens plain
plain-Opens key nonce text sealed h = sym h

abbrev pub zeros : ℕ → Bytes
zeros zero = []
zeros (suc n) = 0 ∷ zeros n

abbrev pub an : UserRow
an = record {
  id = 7;
  email = "an@zca.vn";
  recovery_key_hash = "";
  wrapped_data_key = [];
  server_key_nonce = zeros 12;
  server_wrapped_data_key = zeros 32;
}

abbrev pub with_an : Db
with_an = record empty { users = an ∷ [] }
