-- ===== src/Server/Oauth/Tests.antt =====
-- The theorem on logins with a code at a concrete input.
use zca_desktop.Server.Samples.{plain, zeros}
use zca_desktop.Common.{
  utf8_len, is_whitespace, any, ◌≡◌, refl, true, none, some, [], ◌∷◌, text_equality,
  number_equality, pair_equality, ok, arith,
}
use zca_desktop.Common.Table.{find}
use zca_desktop.Server.{Db, empty}
use zca_desktop.Server.Handler.{insert_audit_event}
use zca_desktop.Server.Text.{
  trim_start, trim_end, is_control, normalize_email, validate_device_name,
}
use zca_desktop.Server.Keys.{
  token_hash, hash_recovery_key, seal, wrap_data_key, wrap_data_key_for_server,
}
use zca_desktop.Server.Devices.{
  new_device, insert_device, user_id_by_email, insert_user, get_or_create_user,
}
use zca_desktop.Server.Login.{MagicLinkVerifyResponse, Fresh, new_recovery_key}
use zca_desktop.Server.Oauth.{
  claimed_user, user_id_by_oauth_identity, upsert_oauth_identity, is_open_code, use_code,
  consume_oauth_desktop_code, oauth_new_user, oauth_device_user_id, oauth_register, oauth_claimed,
  verify_oauth_desktop_code,
}
use zca_desktop.Server.Oauth.Verify.{IsOauthAdmission, verify_oauth-IsOauthAdmission}

abbrev fresh : Fresh
fresh = record {
  recovery_token = "r";
  data_key = zeros 32;
  wrap_nonce = zeros 12;
  server_key_nonce = zeros 12;
  salt = "salt";
  user_id = 1;
  device_id = 2;
  device_token = "device";
}

-- A code that a callback issued for an address without a user.
abbrev started : Db
started = record empty {
  oauth_desktop_codes =
      record {
        code_hash = "code";
        user_id = none;
        provider = "google";
        provider_subject = "subject";
        email = "an@zca.vn";
        email_verified = true;
        device_name = "laptop";
        expires_at = 310;
        used_at = none;
      }
      ∷ [];
}

abbrev response : MagicLinkVerifyResponse
response = record {
  user_id = 1;
  device_id = 2;
  device_token = "device";
  recovery_key = some (new_recovery_key fresh);
}

abbrev logged_in : Db
logged_in = (verify_oauth_desktop_code plain "seed" 20 " code " fresh started).1

verified :
    verify_oauth_desktop_code plain "seed" 20 " code " fresh started ≡ (ok response, logged_in)
unfolding verify_oauth_desktop_code consume_oauth_desktop_code is_open_code use_code oauth_claimed
    oauth_device_user_id claimed_user user_id_by_oauth_identity user_id_by_email oauth_new_user
    upsert_oauth_identity oauth_register normalize_email validate_device_name trim_start trim_end
    is_whitespace is_control utf8_len find wrap_data_key wrap_data_key_for_server seal
    get_or_create_user hash_recovery_key insert_user insert_device insert_audit_event token_hash any
    new_device
verified = refl

verify_oauth-IsOauthAdmission_example :
    IsOauthAdmission plain 20 400 30 (token_hash plain "code") started logged_in response
unfolding trim_start trim_end is_whitespace
verify_oauth-IsOauthAdmission_example =
    verify_oauth-IsOauthAdmission plain "seed" 20 400 30 " code " fresh started logged_in response
      (omega arith) verified
