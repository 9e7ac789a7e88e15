-- ===== src/Server/Links.antt =====
-- Magic links (db.rs, routes.rs): issued under a rate limit, and used once before they expire. The
-- hash of a token is UNIQUE, so a link is found by it. `now` is the database's clock and the
-- program's.
pub mod SingleUse
pub mod RateLimit
use zca_desktop.Common.{
  ℕ, ◌+◌, ◌-◌, String, Bool, true, false, not, ◌&&◌, Option, none, some, List, [], ◌∷◌,
  if◌then◌else◌, ltb, leb, ◌==◌, text_equality, is_some, select, length, Result, ok, err,
}
use zca_desktop.Common.Table.{find, insert_or_ignore, update}
use zca_desktop.Server.{AppError, unauthorized, rate_limited, Db, MagicLinkRow, Library, link_hash}
use zca_desktop.Server.Handler.{Handler, ◌>>=◌, ◌>>◌, return, throw, lift, insert_audit_event}
use zca_desktop.Server.Text.{normalize_email}
use zca_desktop.Server.Keys.{token_hash}

unfoldable pub new_link : String → String → ℕ → ℕ → MagicLinkRow
new_link email hash expires_at now = record {
  email = email;
  token_hash = hash;
  expires_at = expires_at;
  used_at = none;
  created_at = now;
}

unfoldable pub insert_magic_link : ℕ → String → String → ℕ → Handler (Unit {0})
insert_magic_link now email hash expires_at s =
    if is_some (find link_hash hash s.magic_links) then (err AppError.db, s) else (
      ok tt,
      record s {
        magic_links = insert_or_ignore link_hash (new_link email hash expires_at now) s.magic_links;
      },
    )

-- email = $1 AND used_at IS NULL AND expires_at > now(), of the row with the hash
unfoldable pub is_usable : ℕ → String → MagicLinkRow → Bool
is_usable now email r = r.email == email && not (is_some r.used_at) && ltb now r.expires_at

unfoldable pub use_link : ℕ → String → MagicLinkRow → MagicLinkRow
use_link now email r = if is_usable now email r then record r { used_at = some now } else r

unfoldable pub magic_link_is_valid : ℕ → String → String → Db → Bool
magic_link_is_valid now email hash s = elim (find link_hash hash s.magic_links) [
  | none ↦ false
  | some r ↦ is_usable now email r
]

unfoldable pub consume_magic_link : ℕ → String → String → Handler (Unit {0})
consume_magic_link now email hash s = (
  if magic_link_is_valid now email hash s then ok tt else err unauthorized,
  record s { magic_links = update link_hash hash (use_link now email) s.magic_links },
)

-- Links of the address created at or after `since`.
unfoldable pub count_magic_links_since : String → ℕ → Db → ℕ
count_magic_links_since email since s =
    length (select (λ r. r.email == email && leb since r.created_at) s.magic_links)

-- The parts of the server's configuration that a request reads.
pub record LinkConfig : Type 0 where
  pub magic_link_rate_window : ℕ
  pub magic_link_rate_limit : ℕ
  pub magic_link_ttl : ℕ
  pub dev_return_magic_tokens : Bool

pub record MagicLinkResponse : Type 0 where
  pub sent : Bool
  pub expires_in_secs : ℕ
  pub dev_magic_token : Option String

-- The count against the limit; instants are not negative, so a window that reaches back before them
-- starts at 0.
unfoldable pub check_rate : LinkConfig → ℕ → String → Handler (Unit {0})
check_rate config now email s =
    if leb config.magic_link_rate_limit
      (count_magic_links_since email (now - config.magic_link_rate_window) s)
    then (do
      insert_audit_event none none "magic_link_rate_limited" none
      throw (rate_limited "too many magic-link requests"))
        s
    else (ok tt, s)

-- The end of a request: the mail, the audit event and the response.
unfoldable pub answer : LinkConfig → String → Result AppError (Unit {0}) → Handler MagicLinkResponse
answer config token delivered = do
  lift delivered
  insert_audit_event none none "magic_link_requested" none
  return (record {
    sent = true;
    expires_in_secs = config.magic_link_ttl;
    dev_magic_token = if config.dev_return_magic_tokens then some token else none;
  })

-- A request up to the count, and from the insertion on: the server awaits the database in between, so
-- other requests may run there.
unfoldable pub begin_request : Library → LinkConfig → ℕ → String → Handler String
begin_request lib config now raw = do
  email ← lift (normalize_email lib raw)
  check_rate config now email
  return email

unfoldable pub finish_request :
    Library
    → LinkConfig
    → ℕ
    → String
    → String
    → Result AppError (Unit {0})
    → Handler MagicLinkResponse
finish_request lib config now token email delivered = do
  insert_magic_link now email (token_hash lib token) (now + config.magic_link_ttl)
  answer config token delivered

-- A request that nothing interrupts; `delivered` is what the mailer answers.
unfoldable pub request_magic_link :
    Library
    → LinkConfig
    → ℕ
    → String
    → String
    → Result AppError (Unit {0})
    → Handler MagicLinkResponse
request_magic_link lib config now raw token delivered = do
  email ← begin_request lib config now raw
  finish_request lib config now token email delivered
