-- ===== src/Server/Login/Verify.antt =====
-- `verify_magic_link` (routes.rs), when it answers with a device and when the recovery key is
-- missing.
use zca_desktop.Common.{
  ℕ, ◌≤◌, ◌≡◌, refl, sym, ap, ◌∙◌, String, Bool, true, false, not, ◌&&◌, Option, none, some,
  text_equality, ok, err, arith, inl, inr, ◌⊎◌, subst,
}
use zca_desktop.Server.{recovery_key_required, recovery_key_invalid, Db, UserRow, Library}
use zca_desktop.Server.Handler.{bind-ok, lift, insert_audit_event}
use zca_desktop.Server.Text.{normalize_email, validate_device_name}
use zca_desktop.Server.Keys.{token_hash, verify_recovery_key}
use zca_desktop.Server.Links.{magic_link_is_valid, consume_magic_link}
use zca_desktop.Server.Links.SingleUse.{spent}
use zca_desktop.Server.Devices.{auth_device, user_id_by_email, user_secrets}
use zca_desktop.Server.Login.{
  MagicLinkVerifyRequest, MagicLinkVerifyResponse, Fresh, Admitted, refuse, try_consume, check_link,
  admit_known, admit, consume_unless, log_in, verify_magic_link,
}
use zca_desktop.Server.Login.Admission.{
  IsSpent, KeyChecked, IsSpent-links, check_link-ok, consume-ok, admit_known-ok, admit_new-ok,
  register-ok,
}

-- A user who was known is the one who is logged in, and has shown the recovery key.
abbrev pub KnownUser : Library → Db → Option ℕ → Option String → MagicLinkVerifyResponse → Type 0
KnownUser lib s none key r = Unit
KnownUser lib s (some user) key r = (r.user_id ≡ user) × KeyChecked lib s user key

-- The link was valid and is spent, as seen at `later`; the device's token authenticates, as seen at
-- `at`, as the user's new device; and a user who was known has shown the recovery key.
pub record IsAdmission (lib : Library) (now later at : ℕ) (email hash : String)
    (key : Option String) (s t : Db) (r : MagicLinkVerifyResponse) : Type 0 where
  pub was_valid : magic_link_is_valid now email hash s ≡ true
  pub spends : magic_link_is_valid later email hash t ≡ false
  pub authenticates :
      (auth_device at (token_hash lib r.device_token) t).0
      ≡ ok (record { user_id = r.user_id; device_id = r.device_id })
  pub known_user : KnownUser lib s (user_id_by_email email s) key r

-- What `admit` has established: the link is spent already or is still to be used, and a known user's
-- key is checked.
record AfterAdmit (lib : Library) (now : ℕ) (email hash : String) (key : Option String)
    (known : Option ℕ) (s t : Db) (a : Admitted) : Type 0 where
  spent_or_not :
      ((not (not a.created && not a.consumed) ≡ true) × IsSpent now email hash t)
      ⊎ (not (not a.created && not a.consumed) ≡ false)
  checked : (r : MagicLinkVerifyResponse) → r.user_id ≡ a.user_id → KnownUser lib s known key r

admit-ok :
    (lib : Library) (seed : String) (now : ℕ) (email hash : String) (key : Option String)
    (fresh : Fresh) (known : Option ℕ) (s t : Db) (a : Admitted)
    → admit lib seed now email hash key fresh known s ≡ (ok a, t)
    → AfterAdmit lib now email hash key known s t a
unfolding admit
admit-ok lib seed now email hash key fresh (some user) s t a h =
    let k = admit_known-ok lib now email hash user key s t a h in
    record { spent_or_not = inr (rw (k.1, k.2) refl); checked = λ r e. (e ∙ k.0, k.3) }
admit-ok lib seed now email hash key fresh none s t a h =
    let n = admit_new-ok lib seed now email hash fresh s t a h in
    record { spent_or_not = inl (ground (arith, n.0), n.1); checked = λ r e. tt }

consume_unless-ok :
    (lib : Library) (done : Bool) (now : ℕ) (email hash : String) (s t : Db) (u : Unit {0})
    → ((done ≡ true) × IsSpent now email hash s) ⊎ (done ≡ false)
    → consume_unless done now email hash s ≡ (ok u, t)
    → IsSpent now email hash t
unfolding consume_unless
consume_unless-ok lib true now email hash s t u (inl (e, gone)) h =
    subst (IsSpent now email hash) (ap (λ r. r.1) h) gone
consume_unless-ok lib true now email hash s t u (inr e) h = absurd (cc e)
consume_unless-ok lib false now email hash s t u e h = consume-ok now email hash s t u h

log_in-IsAdmission :
    (lib : Library) (seed : String) (now later at : ℕ) (email hash name : String)
    (key : Option String) (fresh : Fresh) (s t : Db) (r : MagicLinkVerifyResponse)
    → now ≤ later
    → log_in lib seed now email hash name key fresh s ≡ (ok r, t)
    → IsAdmission lib now later at email hash key s t r
unfolding log_in
log_in-IsAdmission lib seed now later at email hash name key fresh s t r le h =
    let b = bind-ok (check_link now email hash) _ s h in
    let c =
      bind-ok (λ d. admit lib seed now email hash key fresh (user_id_by_email email d) d) _ b.middle
        b.then in
    let d =
      bind-ok (consume_unless (not (not c.value.created && not c.value.consumed)) now email hash) _
        c.middle c.then in
    let link = check_link-ok now email hash s b.middle b.value b.first in
    let admitted =
      admit-ok lib seed now email hash key fresh (user_id_by_email email b.middle) b.middle c.middle
        c.value c.first in
    let device = register-ok lib now name fresh c.value d.middle t r d.then in
    record {
      was_valid = link.0;
      spends =
          IsSpent-links now email hash d.middle t device.0
            (consume_unless-ok lib _ now email hash c.middle d.middle d.value admitted.spent_or_not
              d.first)
            later le;
      authenticates = device.2 at;
      known_user =
          subst (λ d. KnownUser lib d (user_id_by_email email d) key r) link.1
            (admitted.checked r device.1);
    }

-- Whenever `verify_magic_link` answers with a device, for whatever request and random values: the
-- link of the normalised address was valid and is spent from then on, the device's token
-- authenticates as that device of that user, and a user who was known has given the right recovery key.
pub verify_magic_link-IsAdmission :
    (lib : Library) (seed : String) (now later at : ℕ) (req : MagicLinkVerifyRequest)
    (fresh : Fresh) (s t : Db) (r : MagicLinkVerifyResponse)
    → now ≤ later
    → verify_magic_link lib seed now req fresh s ≡ (ok r, t)
    → (email : String) × (normalize_email lib req.email ≡ ok email)
      × IsAdmission lib now later at email (token_hash lib req.token) req.recovery_key s t r
unfolding verify_magic_link
verify_magic_link-IsAdmission lib seed now later at req fresh s t r le h =
    let b = bind-ok (lift (normalize_email lib req.email)) _ s h in
    let c = bind-ok (lift (validate_device_name req.device_name)) _ b.middle b.then in
    let same : c.middle ≡ s = sym (ap (λ x. x.1) c.first) ∙ sym (ap (λ x. x.1) b.first) in
    (
      b.value,
      ap (λ x. x.0) b.first,
      subst
          (λ d.
            IsAdmission lib now later at b.value (token_hash lib req.token) req.recovery_key d t r)
          same
          (log_in-IsAdmission lib seed now later at b.value (token_hash lib req.token) c.value
            req.recovery_key fresh c.middle t r le c.then),
    )

module _ (lib : Library) (seed : String) (now : ℕ) (email hash name : String) (fresh : Fresh)
    (s : Db) where
  -- A known user with a valid link and stored secrets who gives no recovery key is asked for it,
  -- and the links stay; one who gives a wrong key is refused, and the link is spent from then on.
  -- No device is added in either case.
  pub refused_without_key :
      {user : ℕ} {secrets : UserRow} (wrong : String) (later : ℕ)
      → now ≤ later
      → magic_link_is_valid now email hash s ≡ true
      → user_id_by_email email s ≡ some user
      → user_secrets user s ≡ (ok secrets, s)
      → verify_recovery_key lib secrets.recovery_key_hash wrong ≡ false
      → let (asked, after_asked) = log_in lib seed now email hash name none fresh s in
        let (refused, after_refused) = log_in lib seed now email hash name (some wrong) fresh s in
        (asked ≡ err recovery_key_required)
        × (after_asked.magic_links ≡ s.magic_links)
        × (after_asked.devices ≡ s.devices)
        × (refused ≡ err recovery_key_invalid)
        × (magic_link_is_valid later email hash after_refused ≡ false)
        × (after_refused.devices ≡ s.devices)
  unfolding log_in check_link admit admit_known refuse try_consume insert_audit_event
      consume_magic_link magic_link_is_valid
  refused_without_key wrong later le valid known found bad =
      rw (valid, known, found, bad, check_link, admit, admit_known)
        (refl, refl, refl, refl, spent now later email hash s le, refl)
