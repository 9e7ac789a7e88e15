-- ===== src/Server/Tests.antt =====
-- The server's theorems at concrete inputs, with crates that leave texts as they are.
use zca_desktop.Server.Samples.{plain, plain-Opens, zeros}
use zca_desktop.Common.Table.{insert_or_ignore}
use zca_desktop.Common.{select, utf8_len}
use zca_desktop.Common.{
  utf8_len, is_whitespace, ◌≤◌, ◌≡◌, refl, false, none, some, List, [], ◌∷◌, String, text_equality,
  number_equality, any, ok, err, arith,
}
use zca_desktop.Common.Table.{find}
use zca_desktop.Server.{recovery_key_required, recovery_key_invalid, Db, empty, UserRow}
use zca_desktop.Server.Handler.{insert_audit_event}
use zca_desktop.Server.Text.{
  trim_start, trim_end, is_control, normalize_email, validate_device_name,
}
use zca_desktop.Server.Keys.{
  token_hash, hash_recovery_key, verify_recovery_key, seal, wrap_data_key, wrap_data_key_for_server,
}
use zca_desktop.Server.Links.{
  finish_request, count_magic_links_since, insert_magic_link, answer, LinkConfig, new_link,
  is_usable, magic_link_is_valid, consume_magic_link,
}
use zca_desktop.Server.Links.SingleUse.{Event, issue, attempt, admissions, admissions-le_one}
use zca_desktop.Server.Links.RateLimit.{in_window}
use zca_desktop.Server.Devices.{
  new_device, insert_device, auth_device, revoke_device, user_id_by_email, user_secrets,
  insert_user, get_or_create_user,
}
use zca_desktop.Server.Devices.Revoking.{unless_revoked, revoke_device_lem}
use zca_desktop.Server.Login.{
  MagicLinkVerifyRequest, MagicLinkVerifyResponse, Fresh, new_recovery_key, check_link, admit_new,
  admit, consume_unless, register, log_in, verify_magic_link,
}
use zca_desktop.Server.Devices.Users.{user_of}
use zca_desktop.Server.Login.NewUser.{HasKeys, log_in-HasKeys}
use zca_desktop.Server.Login.Verify.{
  IsAdmission, verify_magic_link-IsAdmission, refused_without_key,
}

address : normalize_email plain " an@zca.vn " ≡ ok "an@zca.vn"
unfolding normalize_email trim_start trim_end is_whitespace is_control utf8_len any
address = refl

-- A link that two logins try to use.
abbrev race : List Event
race = issue 10 "an@zca.vn" "h" 900 ∷ attempt 20 "an@zca.vn" "h" ∷ attempt 20 "an@zca.vn" "h" ∷ []

admissions-le_one_example : admissions "an@zca.vn" "h" empty race ≤ 1
admissions-le_one_example = admissions-le_one "an@zca.vn" "h" empty race

abbrev config : LinkConfig
config = record {
  magic_link_rate_window = 900;
  magic_link_rate_limit = 1;
  magic_link_ttl = 900;
  dev_return_magic_tokens = false;
}

abbrev after_first : Db
after_first = (finish_request plain config 1000 "a" "an@zca.vn" (ok tt) empty).1

abbrev after_both : Db
after_both = (finish_request plain config 1000 "b" "an@zca.vn" (ok tt) after_first).1

-- Both links are there: one more than the limit.
two_links : in_window config "an@zca.vn" 1000 after_both ≡ 2
unfolding count_magic_links_since finish_request insert_magic_link insert_or_ignore find select
    new_link answer insert_audit_event token_hash
two_links = refl

abbrev linked : Db
linked = record empty { magic_links = new_link "an@zca.vn" "token" 900 10 ∷ [] }

abbrev request : MagicLinkVerifyRequest
request = record {
  email = "an@zca.vn";
  token = "token";
  device_name = "laptop";
  recovery_key = none;
}

abbrev fresh : Fresh
fresh = record {
  recovery_token = "r";
  data_key = zeros 32;
  wrap_nonce = zeros 12;
  server_key_nonce = zeros 12;
  salt = "salt";
  user_id = 1;
  device_id = 2;
  device_token = "device";
}

abbrev response : MagicLinkVerifyResponse
response = record {
  user_id = 1;
  device_id = 2;
  device_token = "device";
  recovery_key = some (new_recovery_key fresh);
}

abbrev logged_in : Db
logged_in = (verify_magic_link plain "seed" 20 request fresh linked).1

verified : verify_magic_link plain "seed" 20 request fresh linked ≡ (ok response, logged_in)
unfolding verify_magic_link normalize_email validate_device_name trim_start trim_end is_whitespace
    is_control utf8_len log_in check_link magic_link_is_valid is_usable new_link find
    user_id_by_email admit admit_new wrap_data_key wrap_data_key_for_server seal consume_magic_link
    get_or_create_user hash_recovery_key insert_user consume_unless register insert_device
    insert_audit_event token_hash any
verified = refl

verify_magic_link-IsAdmission_example :
    (email : String) × (normalize_email plain "an@zca.vn" ≡ ok email)
    × IsAdmission plain 20 20 30 email (token_hash plain "token") none linked logged_in response
verify_magic_link-IsAdmission_example =
    verify_magic_link-IsAdmission plain "seed" 20 20 30 request fresh linked logged_in response
      (omega arith) verified

abbrev after_log_in : Db
after_log_in = (log_in plain "seed" 20 "an@zca.vn" "token" "laptop" none fresh linked).1

first_login :
    log_in plain "seed" 20 "an@zca.vn" "token" "laptop" none fresh linked
    ≡ (ok response, after_log_in)
unfolding log_in check_link magic_link_is_valid is_usable new_link find user_id_by_email admit
    admit_new wrap_data_key wrap_data_key_for_server seal consume_magic_link get_or_create_user
    hash_recovery_key insert_user consume_unless register insert_device insert_audit_event
    token_hash any
first_login = refl

log_in-HasKeys_example :
    (u : UserRow) × (answered : String) × (user_of "an@zca.vn" after_log_in ≡ some u)
    × (response.user_id ≡ u.id)
    × (response.recovery_key ≡ some answered)
    × HasKeys plain "seed" answered (zeros 32) u
log_in-HasKeys_example =
    log_in-HasKeys plain "seed" 20 "an@zca.vn" "token" "laptop" none fresh linked after_log_in
      response plain-Opens refl refl refl (unfold find in refl) first_login

abbrev binh : UserRow
binh = record {
  id = 7;
  email = "binh@zca.vn";
  recovery_key_hash = "key";
  wrapped_data_key = [];
  server_key_nonce = [];
  server_wrapped_data_key = [];
}

abbrev binh_linked : Db
binh_linked = record empty {
  users = binh ∷ [];
  magic_links = new_link "binh@zca.vn" "token" 900 10 ∷ [];
}

refused_without_key_example :
    let (asked, after_asked) =
      log_in plain "seed" 20 "binh@zca.vn" "token" "laptop" none fresh binh_linked in
    let (refused, after_refused) =
      log_in plain "seed" 20 "binh@zca.vn" "token" "laptop" (some "guess") fresh binh_linked in
    (asked ≡ err recovery_key_required)
    × (after_asked.magic_links ≡ binh_linked.magic_links)
    × (after_asked.devices ≡ binh_linked.devices)
    × (refused ≡ err recovery_key_invalid)
    × (magic_link_is_valid 25 "binh@zca.vn" "token" after_refused ≡ false)
    × (after_refused.devices ≡ binh_linked.devices)
refused_without_key_example =
    refused_without_key plain "seed" 20 "binh@zca.vn" "token" "laptop" fresh binh_linked {user = 7}
      {secrets = binh} "guess" 25 (omega arith)
      (unfold magic_link_is_valid find new_link is_usable in refl)
      (unfold user_id_by_email find in refl) (unfold user_secrets find in refl)
      (unfold verify_recovery_key in refl)

abbrev with_device : Db
with_device = record empty { devices = new_device 10 7 2 "laptop" "hash" ∷ [] }

revoke_device_lem_example :
    (auth_device 30 "hash" (revoke_device 20 7 2 with_device).1).0
    ≡ unless_revoked 7 2 (auth_device 30 "hash" with_device).0
revoke_device_lem_example = revoke_device_lem 20 30 7 2 "hash" with_device
