-- ===== src/Server/Oauth/Codes.antt =====
-- The codes of `consume_oauth_desktop_code` (db.rs), before and after they are used.
use zca_desktop.Common.{
  ℕ, ◌≤◌, ◌≡◌, ap, ◌∙◌, String, Bool, true, false, none, some, ==_refl, text_equality, ok, arith,
  Option-cases, Bool-cases, inl, inr, subst, ok-injective,
}
use zca_desktop.Common.Table.{find, find-update}
use zca_desktop.Server.{Db, OauthDesktopCodeRow}
use zca_desktop.Server.Oauth.{code_key, is_open_code, use_code, consume_oauth_desktop_code}

-- A code with the hash is open at an instant.
unfoldable pub code_is_open : ℕ → String → Db → Bool
code_is_open now hash s = elim (find code_key hash s.oauth_desktop_codes) [
  | none ↦ false
  | some r ↦ is_open_code now r
]

use_code-hash : (now : ℕ) (r : OauthDesktopCodeRow) → code_key (use_code now r) ≡ code_key r
unfolding use_code
use_code-hash now r = ground arith

-- A code is closed by the attempt to use it, whatever the attempt answers.
pub closed :
    (now later : ℕ) (hash : String) (s : Db)
    → now ≤ later
    → code_is_open later hash (consume_oauth_desktop_code now hash s).1 ≡ false
unfolding consume_oauth_desktop_code code_is_open use_code is_open_code
closed now later hash s le = ground (
  arith,
  find-update code_key hash (use_code now) (use_code-hash now) hash s.oauth_desktop_codes,
  ==_refl hash,
)

-- A consumption that succeeds finds an open code, answers its row, and leaves no code with the hash
-- open from then on.
pub consume_code-ok :
    (now : ℕ) (hash : String) (s t : Db) (r : OauthDesktopCodeRow)
    → consume_oauth_desktop_code now hash s ≡ (ok r, t)
    → (code_is_open now hash s ≡ true)
      × (find code_key hash s.oauth_desktop_codes ≡ some r)
      × ((later : ℕ) → now ≤ later → code_is_open later hash t ≡ false)
unfolding consume_oauth_desktop_code code_is_open
consume_code-ok now hash s t r h = elim (Option-cases (find code_key hash s.oauth_desktop_codes)) [
  | inl gone ↦ absurd (cc (ap (λ x. x.0) (rw gone at h)))
  | inr (row, there) ↦ elim (Bool-cases (is_open_code now row)) [
    | inr shut ↦ absurd (cc (ap (λ x. x.0) (rw (there, shut) at h)))
    | inl is_open ↦ (
      rw (code_is_open, there) is_open,
      there ∙ ap some (ok-injective (ap (λ x. x.0) (rw (there, is_open) at h))),
      λ later le.
          subst (λ d. code_is_open later hash d ≡ false) (ap (λ x. x.1) h)
            (closed now later hash s le),
    )
  ]
]
