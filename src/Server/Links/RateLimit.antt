-- ===== src/Server/Links/RateLimit.antt =====
-- Interleavings of requests for magic links (`request_magic_link` of routes.rs, which awaits the
-- database between its count and its insertion), and the links in the window of the rate limit.
use zca_desktop.Common.{
  ℕ, ok, err, ◌++◌, ◌-◌, ◌≤◌, ◌≡◌, String, ◌&&◌, List, [], ◌∷◌, leb, ◌==◌, text_equality, select,
  length, Result,
}
use zca_desktop.Server.{AppError, Db, MagicLinkRow, Library, empty}
use zca_desktop.Server.Links.{LinkConfig, count_magic_links_since, begin_request, finish_request}

-- Links of the address in some rows.
abbrev counted : String → ℕ → List MagicLinkRow → ℕ
counted email since rows = length (select (λ r. r.email == email && leb since r.created_at) rows)

-- The links of an address in the window that ends at `now`.
abbrev pub in_window : LinkConfig → String → ℕ → Db → ℕ
in_window config email now s = count_magic_links_since email (now - config.magic_link_rate_window) s

-- How many requests for an address are between their count and their insertion.
abbrev pub between : String → List String → ℕ
between email waiting = length (select (λ e. e == email) waiting)

-- What the server reaches from empty tables in any interleaving of requests, if there are never more
-- than `others` other requests for an address between their count and their insertion when one is
-- counted: the instant, the tables, and the addresses of those in between. A request may be given up.
pub data Reaches (lib : Library) (config : LinkConfig) (others : ℕ)
    : ℕ → Db → List String → Type 0 where
  at_start : {now : ℕ} → Reaches lib config others now empty []
  begun :
      {now : ℕ} {s : Db} {waiting : List String} (later : ℕ) (raw email : String) (t : Db)
      → Reaches lib config others now s waiting
      → now ≤ later
      → between email waiting ≤ others
      → begin_request lib config later raw s ≡ (ok email, t)
      → Reaches lib config others later t (email ∷ waiting)
  refused :
      {now : ℕ} {s : Db} {waiting : List String} (later : ℕ) (raw : String) (e : AppError) (t : Db)
      → Reaches lib config others now s waiting
      → now ≤ later
      → begin_request lib config later raw s ≡ (err e, t)
      → Reaches lib config others later t waiting
  finished :
      {now : ℕ} {s : Db} (before after : List String) (later : ℕ) (email token : String)
      (delivered : Result AppError (Unit {0}))
      → Reaches lib config others now s (before ++ email ∷ after)
      → now ≤ later
      → Reaches lib config others later
          (finish_request lib config later token email delivered s).1
          (before ++ after)
  given_up :
      {now : ℕ} {s : Db} (before after : List String) (email : String)
      → Reaches lib config others now s (before ++ email ∷ after)
      → Reaches lib config others now s (before ++ after)
