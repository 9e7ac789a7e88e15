-- ===== src/Server/Oauth/Verify.antt =====
-- `verify_oauth_desktop_code` (routes.rs), when it answers with a device.
use zca_desktop.Common.{
  ℕ, ◌≤◌, ◌≡◌, refl, sym, ap, ◌∙◌, String, Bool, true, false, not, Option, none, some, ◌++◌, ◌==◌,
  text_equality, Result, ok, ensure, arith, subst, ok-injective,
}
use zca_desktop.Common.Table.{find}
use zca_desktop.Server.{
  AppError, bad_request, forbidden, Bytes, Db, Library, OauthDesktopCodeRow, device_hash,
}
use zca_desktop.Server.Handler.{◌>>=◌, bind-ok, lift, insert_audit_event}
use zca_desktop.Server.Text.{trim, normalize_email, validate_device_name}
use zca_desktop.Server.Keys.{token_hash, wrap_data_key, wrap_data_key_for_server}
use zca_desktop.Server.Devices.{insert_device, auth_device, insert_user, get_or_create_user}
use zca_desktop.Server.Login.{MagicLinkVerifyResponse, Fresh, new_recovery_key}
use zca_desktop.Server.Login.Admission.{insert_device-ok, auth_device-found}
use zca_desktop.Server.Oauth.{
  claimed_user, upsert_oauth_identity, consume_oauth_desktop_code, oauth_new_user,
  oauth_device_user_id, oauth_register, oauth_claimed, verify_oauth_desktop_code,
}
use zca_desktop.Server.Oauth.Codes.{code_is_open, consume_code-ok}

-- The code was open and is closed, as seen at `later`; and the device's token authenticates, as seen
-- at `at`, as the user's new device.
pub record IsOauthAdmission (lib : Library) (now later at : ℕ) (hash : String) (s t : Db)
    (r : MagicLinkVerifyResponse) : Type 0 where
  pub was_open : code_is_open now hash s ≡ true
  pub spends : code_is_open later hash t ≡ false
  pub authenticates :
      (auth_device at (token_hash lib r.device_token) t).0
      ≡ ok (record { user_id = r.user_id; device_id = r.device_id })

-- The codes are as they were, and the device's token authenticates.
abbrev Registers : Library → Db → Db → MagicLinkVerifyResponse → Type 0
Registers lib s t r =
    (t.oauth_desktop_codes ≡ s.oauth_desktop_codes)
    × ((at : ℕ)
        → (auth_device at (token_hash lib r.device_token) t).0
          ≡ ok (record { user_id = r.user_id; device_id = r.device_id }))

lift-ok : {A : Type 0} (r : Result AppError A) (s t : Db) (a : A) → lift r s ≡ (ok a, t) → t ≡ s
lift-ok r s t a h = ap (λ x. x.1) (sym h)

create-codes :
    (lib : Library) (id : ℕ) (salt email key : String) (w n sw : Bytes) (s t : Db) (u : ℕ × Bool)
    → get_or_create_user lib id salt email key w n sw s ≡ (ok u, t)
    → t.oauth_desktop_codes ≡ s.oauth_desktop_codes
unfolding get_or_create_user insert_user
create-codes lib id salt email key w n sw s t u h = ground arith

new_user-codes :
    (lib : Library) (seed email : String) (fresh : Fresh) (s t : Db) (u : ℕ × Option String)
    → oauth_new_user lib seed email fresh s ≡ (ok u, t)
    → t.oauth_desktop_codes ≡ s.oauth_desktop_codes
unfolding oauth_new_user
new_user-codes lib seed email fresh s t u h =
    let b =
      bind-ok (lift (wrap_data_key lib (new_recovery_key fresh) fresh.wrap_nonce fresh.data_key)) _
        s h in
    let c =
      bind-ok (lift (wrap_data_key_for_server lib seed fresh.server_key_nonce fresh.data_key)) _
        b.middle b.then in
    let d =
      bind-ok
        (get_or_create_user lib fresh.user_id fresh.salt email (new_recovery_key fresh)
          (b.value.0 ++ b.value.1) c.value.0 c.value.1)
        _ c.middle c.then in
    ap (λ x. x.1.oauth_desktop_codes) (sym d.then)
    ∙ create-codes lib fresh.user_id fresh.salt email (new_recovery_key fresh) _ _ _ c.middle
        d.middle d.value d.first
    ∙ ap (λ x. x.oauth_desktop_codes) (lift-ok _ _ _ _ c.first ∙ lift-ok _ _ _ _ b.first)

device_user-codes :
    (lib : Library) (seed email : String) (claimed : OauthDesktopCodeRow) (fresh : Fresh) (s t : Db)
    (u : ℕ × Option String)
    → oauth_device_user_id lib seed claimed email fresh s ≡ (ok u, t)
    → t.oauth_desktop_codes ≡ s.oauth_desktop_codes
unfolding oauth_device_user_id
device_user-codes lib seed email claimed fresh s t u h =
    of_known (claimed_user claimed email s) refl
  where
    of_known :
        (k : Option ℕ)
        → claimed_user claimed email s ≡ k
        → t.oauth_desktop_codes ≡ s.oauth_desktop_codes
    of_known none e = new_user-codes lib seed email fresh s t u (rw (e, oauth_device_user_id) at h)
    of_known (some user) e =
        ap (λ x. x.1.oauth_desktop_codes) (sym (rw (e, oauth_device_user_id) at h))

insert_device-codes :
    (now id user : ℕ) (name hash : String) (s : Db)
    → (insert_device now id user name hash s).1.oauth_desktop_codes ≡ s.oauth_desktop_codes
unfolding insert_device
insert_device-codes now id user name hash s = ground arith

register-ok :
    (lib : Library) (now : ℕ) (claimed : OauthDesktopCodeRow) (who : ℕ × Option String)
    (fresh : Fresh) (s t : Db) (r : MagicLinkVerifyResponse)
    → oauth_register lib now claimed who fresh s ≡ (ok r, t)
    → Registers lib s t r
unfolding oauth_register insert_audit_event
register-ok lib now claimed who fresh s t r h =
    let hash = token_hash lib fresh.device_token in
    let a = bind-ok (lift (validate_device_name claimed.device_name)) _ s h in
    let b = bind-ok (insert_device now fresh.device_id who.0 a.value hash) _ a.middle a.then in
    let d =
      insert_device-ok now fresh.device_id who.0 a.value hash a.middle b.middle b.value b.first in
    let response = ok-injective (ap (λ x. x.0) b.then) in
    (
      ap (λ x. x.1.oauth_desktop_codes) (sym b.then)
          ∙ ap (λ x. x.1.oauth_desktop_codes) (sym b.first)
          ∙ insert_device-codes now fresh.device_id who.0 a.value hash a.middle
          ∙ ap (λ x. x.oauth_desktop_codes) (lift-ok _ _ _ _ a.first),
      λ at.
          rw (← response, d.0)
            (auth_device-found at now fresh.device_id who.0 a.value hash t
              (ap (λ x. find device_hash hash x.1.devices) (sym b.then) ∙ d.2)),
    )

same_codes :
    (hash : String) (at : ℕ) (s t : Db)
    → t.oauth_desktop_codes ≡ s.oauth_desktop_codes
    → code_is_open at hash t ≡ code_is_open at hash s
unfolding code_is_open
same_codes hash at s t same = rw same refl

after_upsert :
    (lib : Library) (seed : String) (now : ℕ) (fresh : Fresh) (claimed : OauthDesktopCodeRow)
    (email : String) (who : ℕ × Option String) (s t : Db) (r : MagicLinkVerifyResponse)
    → (upsert_oauth_identity claimed.provider claimed.provider_subject who.0 email
            claimed.email_verified
          >>= (λ u. oauth_register lib now claimed who fresh))
        s
      ≡ (ok r, t)
    → Registers lib s t r
unfolding upsert_oauth_identity
after_upsert lib seed now fresh claimed email who s t r h =
    register-ok lib now claimed who fresh _ t r h

claimed-ok :
    (lib : Library) (seed : String) (now : ℕ) (fresh : Fresh) (claimed : OauthDesktopCodeRow)
    (s t : Db) (r : MagicLinkVerifyResponse)
    → oauth_claimed lib seed now fresh claimed s ≡ (ok r, t)
    → Registers lib s t r
unfolding oauth_claimed
claimed-ok lib seed now fresh claimed s t r h =
    let c = bind-ok (lift (ensure claimed.email_verified forbidden)) _ s h in
    let d = bind-ok (lift (normalize_email lib claimed.email)) _ c.middle c.then in
    let e = bind-ok (oauth_device_user_id lib seed claimed d.value fresh) _ d.middle d.then in
    let registered = after_upsert lib seed now fresh claimed d.value e.value e.middle t r e.then in
    (
      registered.0
          ∙ device_user-codes lib seed d.value claimed fresh d.middle e.middle e.value e.first
          ∙ ap (λ x. x.oauth_desktop_codes)
              (lift-ok (normalize_email lib claimed.email) c.middle d.middle d.value d.first
                ∙ lift-ok (ensure claimed.email_verified forbidden) s c.middle c.value c.first),
      registered.1,
    )

-- A login with a code that succeeds found an open code and closes it, then and later, and the
-- device's token authenticates as the device of the user that the login answers.
pub verify_oauth-IsOauthAdmission :
    (lib : Library) (seed : String) (now later at : ℕ) (raw : String) (fresh : Fresh) (s t : Db)
    (r : MagicLinkVerifyResponse)
    → now ≤ later
    → verify_oauth_desktop_code lib seed now raw fresh s ≡ (ok r, t)
    → IsOauthAdmission lib now later at (token_hash lib (trim raw)) s t r
unfolding verify_oauth_desktop_code
verify_oauth-IsOauthAdmission lib seed now later at raw fresh s t r le h =
    let hash = token_hash lib (trim raw) in
    let a = bind-ok (lift (ensure (not (trim raw == "")) (bad_request "code is required"))) _ s h in
    let b = bind-ok (consume_oauth_desktop_code now hash) _ a.middle a.then in
    let used = consume_code-ok now hash a.middle b.middle b.value b.first in
    let claimed = claimed-ok lib seed now fresh b.value b.middle t r b.then in
    record {
      was_open =
          subst (λ x. code_is_open now hash x ≡ true)
            (lift-ok (ensure (not (trim raw == "")) (bad_request "code is required")) s a.middle
              a.value a.first)
            used.0;
      spends = same_codes hash later b.middle t claimed.0 ∙ used.2 later le;
      authenticates = claimed.1 at;
    }
