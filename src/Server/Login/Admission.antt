-- ===== src/Server/Login/Admission.antt =====
-- The steps of `verify_magic_link` (routes.rs), when they succeed.
use zca_desktop.Common.{
  ℕ, ◌≤◌, ◌≡◌, refl, sym, ap, ◌∙◌, String, Bool, true, false, Option, none, some, ◌++◌, ==_refl,
  text_equality, ok, arith, Option-cases, Bool-cases, inl, inr, subst, ok-injective,
}
use zca_desktop.Common.Table.{find, find-insert_new}
use zca_desktop.Server.{Bytes, Db, UserRow, Library, device_hash}
use zca_desktop.Server.Handler.{bind-ok, lift, insert_audit_event}
use zca_desktop.Server.Keys.{
  token_hash, verify_recovery_key, wrap_data_key, wrap_data_key_for_server,
}
use zca_desktop.Server.Links.{magic_link_is_valid, consume_magic_link}
use zca_desktop.Server.Links.SingleUse.{spent}
use zca_desktop.Server.Devices.{
  new_device, insert_device, auth_device, user_secrets, insert_user, get_or_create_user,
}
use zca_desktop.Server.Login.{
  new_recovery_key, MagicLinkVerifyResponse, Fresh, Admitted, refuse, try_consume, check_link,
  admit_known, admit_new, register,
}

-- No login is admitted with the link at `now` or later.
abbrev pub IsSpent : ℕ → String → String → Db → Type 0
IsSpent now email hash t =
    (later : ℕ) → now ≤ later → magic_link_is_valid later email hash t ≡ false

-- The user's recovery key was given, and checks against the stored hash.
abbrev pub KeyChecked : Library → Db → ℕ → Option String → Type 0
KeyChecked lib s user key =
    (provided : String) × (secrets : UserRow) × (key ≡ some provided)
    × ((user_secrets user s).0 ≡ ok secrets)
    × (verify_recovery_key lib secrets.recovery_key_hash provided ≡ true)

pub IsSpent-links :
    (now : ℕ) (email hash : String) (s t : Db)
    → t.magic_links ≡ s.magic_links
    → IsSpent now email hash s
    → IsSpent now email hash t
unfolding magic_link_is_valid
IsSpent-links now email hash s t same h later le = rw same (h later le)

pub check_link-ok :
    (now : ℕ) (email hash : String) (s t : Db) (u : Unit {0})
    → check_link now email hash s ≡ (ok u, t)
    → (magic_link_is_valid now email hash s ≡ true) × (t ≡ s)
unfolding check_link refuse insert_audit_event
check_link-ok now email hash s t u h = ground arith

pub consume-ok :
    (now : ℕ) (email hash : String) (s t : Db) (u : Unit {0})
    → consume_magic_link now email hash s ≡ (ok u, t)
    → IsSpent now email hash t
consume-ok now email hash s t u h later le =
    subst (λ d. magic_link_is_valid later email hash d ≡ false) (ap (λ r. r.1) h)
      (spent now later email hash s le)

pub admit_known-ok :
    (lib : Library) (now : ℕ) (email hash : String) (user : ℕ) (key : Option String) (s t : Db)
    (a : Admitted)
    → admit_known lib now email hash user key s ≡ (ok a, t)
    → (a.user_id ≡ user) × (a.created ≡ false) × (a.consumed ≡ false) × KeyChecked lib s user key
unfolding admit_known refuse try_consume insert_audit_event
admit_known-ok lib now email hash user none s t a h = absurd (cc (ap (λ r. r.0) h))
admit_known-ok lib now email hash user (some provided) s t a h =
    let b = bind-ok (user_secrets user) _ s h in
    elim (Bool-cases (verify_recovery_key lib b.value.recovery_key_hash provided)) [
      | inl good ↦
          let e = rw good at b.then in
          (
            ground (arith, e),
            ground (arith, e),
            ground (arith, e),
            (provided, b.value, refl, ap (λ r. r.0) b.first, good),
          )
      | inr bad ↦ absurd (cc (ap (λ r. r.0) (rw bad at b.then)))
    ]

get_or_create_user-links :
    (lib : Library) (id : ℕ) (salt email key : String) (w n sw : Bytes) (s t : Db) (u : ℕ × Bool)
    → get_or_create_user lib id salt email key w n sw s ≡ (ok u, t)
    → t.magic_links ≡ s.magic_links
unfolding get_or_create_user insert_user
get_or_create_user-links lib id salt email key w n sw s t u h = ground arith

pub admit_new-ok :
    (lib : Library) (seed : String) (now : ℕ) (email hash : String) (fresh : Fresh) (s t : Db)
    (a : Admitted)
    → admit_new lib seed now email hash fresh s ≡ (ok a, t)
    → (a.consumed ≡ true) × IsSpent now email hash t
unfolding admit_new
admit_new-ok lib seed now email hash fresh s t a h =
    let b =
      bind-ok (lift (wrap_data_key lib (new_recovery_key fresh) fresh.wrap_nonce fresh.data_key)) _
        s h in
    let c =
      bind-ok (lift (wrap_data_key_for_server lib seed fresh.server_key_nonce fresh.data_key)) _
        b.middle b.then in
    let d = bind-ok (consume_magic_link now email hash) _ c.middle c.then in
    let e =
      bind-ok
        (get_or_create_user lib fresh.user_id fresh.salt email (new_recovery_key fresh)
          (b.value.0 ++ b.value.1) c.value.0 c.value.1)
        _ d.middle d.then in
    (
      ground (arith, e.then),
      IsSpent-links now email hash d.middle t
          (sym (ap (λ r. r.1.magic_links) e.then)
            ∙ get_or_create_user-links lib fresh.user_id fresh.salt email (new_recovery_key fresh) _
                _ _ d.middle e.middle e.value e.first)
          (consume-ok now email hash c.middle d.middle d.value d.first),
    )

pub insert_device-ok :
    (now id user : ℕ) (name hash : String) (s t : Db) (d : ℕ)
    → insert_device now id user name hash s ≡ (ok d, t)
    → (d ≡ id)
      × (t.magic_links ≡ s.magic_links)
      × (find device_hash hash t.devices ≡ some (new_device now id user name hash))
unfolding insert_device new_device
insert_device-ok now id user name hash s t d h =
    elim (Option-cases (find device_hash hash s.devices)) [
      | inr (old, there) ↦ absurd (cc (ap (λ x. x.0) (rw there at h)))
      | inl new ↦
          let e = rw new at h in
          (
            ground (arith, e),
            sym (ap (λ x. x.1.magic_links) e),
            ap (λ x. find device_hash hash x.1.devices) (sym e)
                ∙ find-insert_new device_hash hash (new_device now id user name hash) s.devices new
                ∙ rw (==_refl hash) refl,
          )
    ]

pub auth_device-found :
    (at now id user : ℕ) (name hash : String) (t : Db)
    → find device_hash hash t.devices ≡ some (new_device now id user name hash)
    → (auth_device at hash t).0 ≡ ok (record { user_id = user; device_id = id })
unfolding auth_device new_device
auth_device-found at now id user name hash t h = rw (h, auth_device) refl

pub register-ok :
    (lib : Library) (now : ℕ) (name : String) (fresh : Fresh) (a : Admitted) (s t : Db)
    (r : MagicLinkVerifyResponse)
    → register lib now name fresh a s ≡ (ok r, t)
    → (t.magic_links ≡ s.magic_links)
      × (r.user_id ≡ a.user_id)
      × ((at : ℕ)
          → (auth_device at (token_hash lib r.device_token) t).0
            ≡ ok (record { user_id = r.user_id; device_id = r.device_id }))
unfolding register insert_audit_event
register-ok lib now name fresh a s t r h =
    let hash = token_hash lib fresh.device_token in
    let b = bind-ok (insert_device now fresh.device_id a.user_id name hash) _ s h in
    let d = insert_device-ok now fresh.device_id a.user_id name hash s b.middle b.value b.first in
    let response = ok-injective (ap (λ x. x.0) b.then) in
    (
      sym (ap (λ x. x.1.magic_links) b.then) ∙ d.1,
      ap (λ x. x.user_id) (sym response),
      λ at.
          rw (← response, d.0)
            (auth_device-found at now fresh.device_id a.user_id name hash t
              (ap (λ x. find device_hash hash x.1.devices) (sym b.then) ∙ d.2)),
    )
