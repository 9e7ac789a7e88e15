-- ===== src/Server/Login/NewUser.antt =====
-- `verify_magic_link` (routes.rs) for an address with no user: the user that it stores, and the keys.
use zca_desktop.Common.{
  ℕ, ◌≡◌, refl, sym, ap, ◌∙◌, String, Bool, not, ◌&&◌, true, false, none, some, ◌++◌, if◌then◌else◌,
  text_equality, Option, ok, ok-injective, length, take, drop, arith, split_prefix,
}
use zca_desktop.Common.Table.{find}
use zca_desktop.Server.{Bytes, Db, UserRow, Library, user_email}
use zca_desktop.Server.Handler.{bind-ok, lift, insert_audit_event}
use zca_desktop.Server.Keys.{
  key_len, nonce_len, Opens, seal, wrap_data_key, wrap_data_key_for_server, unwrap_data_key,
  unwrap_data_key_for_server, unwrap-wrap, unwrap-wrap_for_server,
}
use zca_desktop.Server.Links.{consume_magic_link}
use zca_desktop.Server.Devices.{insert_device, user_id_by_email, get_or_create_user}
use zca_desktop.Server.Login.{
  new_recovery_key, MagicLinkVerifyResponse, Fresh, Admitted, refuse, check_link, admit_new, admit,
  consume_unless, register, log_in,
}
use zca_desktop.Server.Devices.Users.{user_of, no_user, get_or_create_user-new}

-- What the server stores for a new user opens with both keys: the recovery key that the user is
-- given (the nonce stands before the ciphertext), and the server's own.
pub record HasKeys (lib : Library) (seed key : String) (data_key : Bytes) (u : UserRow)
    : Type 0 where
  pub by_recovery_key :
      unwrap_data_key lib key
        (take nonce_len u.wrapped_data_key)
        (drop nonce_len u.wrapped_data_key)
      ≡ ok data_key
  pub by_server :
      unwrap_data_key_for_server lib seed u.server_key_nonce u.server_wrapped_data_key ≡ ok data_key

seal-nonce :
    (lib : Library) (key : String) (nonce data_key : Bytes) (w : Bytes × Bytes)
    → wrap_data_key lib key nonce data_key ≡ ok w
    → w.0 ≡ nonce
unfolding wrap_data_key seal
seal-nonce lib key nonce data_key w h = ground arith

admit_new-HasKeys :
    (lib : Library) (seed : String) (now : ℕ) (email hash : String) (fresh : Fresh) (s t : Db)
    (a : Admitted)
    → Opens lib
    → length fresh.wrap_nonce ≡ nonce_len
    → length fresh.server_key_nonce ≡ nonce_len
    → length fresh.data_key ≡ key_len
    → user_of email s ≡ none
    → admit_new lib seed now email hash fresh s ≡ (ok a, t)
    → (u : UserRow) × (user_of email t ≡ some u)
      × (u.id ≡ a.user_id)
      × (a.created ≡ true)
      × (a.recovery_key ≡ new_recovery_key fresh)
      × HasKeys lib seed (new_recovery_key fresh) fresh.data_key u
unfolding admit_new consume_magic_link
admit_new-HasKeys lib seed now email hash fresh s t a opens hn hs hk none_yet h =
    let key = new_recovery_key fresh in
    let b = bind-ok (lift (wrap_data_key lib key fresh.wrap_nonce fresh.data_key)) _ s h in
    let c =
      bind-ok (lift (wrap_data_key_for_server lib seed fresh.server_key_nonce fresh.data_key)) _
        b.middle b.then in
    let d = bind-ok (consume_magic_link now email hash) _ c.middle c.then in
    let e =
      bind-ok
        (get_or_create_user lib fresh.user_id fresh.salt email key (b.value.0 ++ b.value.1)
          c.value.0 c.value.1)
        _ d.middle d.then in
    let wrapped : wrap_data_key lib key fresh.wrap_nonce fresh.data_key ≡ ok b.value =
      ap (λ x. x.0) b.first in
    let users_kept : d.middle.users ≡ s.users =
      sym (ap (λ x. x.1.users) d.first)
      ∙ sym (ap (λ x. x.1.users) c.first)
      ∙ sym (ap (λ x. x.1.users) b.first) in
    let new =
      get_or_create_user-new lib fresh.user_id fresh.salt email key _ _ _ d.middle e.middle e.value
        (ap (λ us. find user_email email us) users_kept ∙ none_yet) e.first in
    let admitted = ok-injective (ap (λ x. x.0) e.then) in
    let parts =
      split_prefix nonce_len b.value.0 b.value.1
        (ap length (seal-nonce lib key fresh.wrap_nonce fresh.data_key b.value wrapped) ∙ hn) in
    (
      new.0,
      ap (λ x. user_of email x.1) (sym e.then) ∙ new.1,
      new.2 ∙ ap (λ x. x.user_id) admitted,
      sym (ap (λ x. x.created) admitted) ∙ new.3,
      sym (ap (λ x. x.recovery_key) admitted),
      record {
        by_recovery_key =
            rw (new.4, parts.0, parts.1)
              (unwrap-wrap lib key fresh.wrap_nonce fresh.data_key opens hn hk wrapped);
        by_server =
            rw (new.5, new.6)
              (unwrap-wrap_for_server lib seed fresh.server_key_nonce fresh.data_key opens hs hk
                (ap (λ x. x.0) c.first));
      },
    )

register-users :
    (lib : Library) (now : ℕ) (name : String) (fresh : Fresh) (a : Admitted) (s t : Db)
    (r : MagicLinkVerifyResponse)
    → register lib now name fresh a s ≡ (ok r, t)
    → (t.users ≡ s.users)
      × (r.user_id ≡ a.user_id)
      × (r.recovery_key ≡ (if a.created then some a.recovery_key else none))
unfolding register insert_device insert_audit_event
register-users lib now name fresh a s t r h = ground arith

consume_unless-users :
    (done : Bool) (now : ℕ) (email hash : String) (s t : Db) (u : Unit {0})
    → consume_unless done now email hash s ≡ (ok u, t)
    → t.users ≡ s.users
unfolding consume_unless consume_magic_link
consume_unless-users true now email hash s t u h = sym (ap (λ x. x.1.users) h)
consume_unless-users false now email hash s t u h = sym (ap (λ x. x.1.users) h)

check_link-same :
    (now : ℕ) (email hash : String) (s t : Db) (u : Unit {0})
    → check_link now email hash s ≡ (ok u, t)
    → t ≡ s
unfolding check_link refuse insert_audit_event
check_link-same now email hash s t u h = ground arith

-- A login of an address that has no user, when it succeeds, stores a user of that address, answers
-- with that user's id and with a recovery key, and what it stores opens with both keys: the recovery
-- key that was answered, and the server's master key, give back the data key that was drawn. (The
-- cipher opens what it sealed, nonces have twelve bytes and the data key thirty-two.)
pub log_in-HasKeys :
    (lib : Library) (seed : String) (now : ℕ) (email hash name : String) (key : Option String)
    (fresh : Fresh) (s t : Db) (r : MagicLinkVerifyResponse)
    → Opens lib
    → length fresh.wrap_nonce ≡ nonce_len
    → length fresh.server_key_nonce ≡ nonce_len
    → length fresh.data_key ≡ key_len
    → user_of email s ≡ none
    → log_in lib seed now email hash name key fresh s ≡ (ok r, t)
    → (u : UserRow) × (answered : String) × (user_of email t ≡ some u)
      × (r.user_id ≡ u.id)
      × (r.recovery_key ≡ some answered)
      × HasKeys lib seed answered fresh.data_key u
unfolding log_in
log_in-HasKeys lib seed now email hash name key fresh s t r opens hn hs hk none_yet h =
    let b = bind-ok (check_link now email hash) _ s h in
    let c =
      bind-ok (λ d. admit lib seed now email hash key fresh (user_id_by_email email d) d) _ b.middle
        b.then in
    let d =
      bind-ok (consume_unless (not (not c.value.created && not c.value.consumed)) now email hash) _
        c.middle c.then in
    let new_here : user_of email b.middle ≡ none =
      ap (λ x. user_of email x) (check_link-same now email hash s b.middle b.value b.first)
      ∙ none_yet in
    let admitted =
      admit_new-HasKeys lib seed now email hash fresh b.middle c.middle c.value opens hn hs hk
        new_here (admitted_new b.middle c.middle c.value new_here c.first) in
    let registered = register-users lib now name fresh c.value d.middle t r d.then in
    (
      admitted.0,
      new_recovery_key fresh,
      ap (λ us. find user_email email us)
            (registered.0
              ∙ consume_unless-users (not (not c.value.created && not c.value.consumed)) now email
                  hash c.middle d.middle d.value d.first)
          ∙ admitted.1,
      registered.1 ∙ sym admitted.2,
      registered.2 ∙ rw (admitted.3, admitted.4) refl,
      admitted.5,
    )
  where
    admitted_new :
        (x y : Db) (a : Admitted)
        → user_of email x ≡ none
        → admit lib seed now email hash key fresh (user_id_by_email email x) x ≡ (ok a, y)
        → admit_new lib seed now email hash fresh x ≡ (ok a, y)
    admitted_new x y a none_yet h = unfold admit in rw (no_user email x none_yet, admit) at h
