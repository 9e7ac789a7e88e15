-- ===== src/Server/Links/SingleUse.antt =====
-- Histories of `insert_magic_link` and `consume_magic_link` (db.rs), in any order.
use zca_desktop.Common.{
  ℕ, ◌+◌, ◌≤◌, ◌≡◌, ◌∙◌, String, false, not, ◌&&◌, none, some, List, [], ◌∷◌, if◌then◌else◌, ◌==◌,
  ==_refl, text_equality, is_some, is_ok, arith, Option-cases, inl, inr,
}
use zca_desktop.Common.Table.{find, find-update, find-insert_new}
use zca_desktop.Server.{Db, MagicLinkRow, link_hash}
use zca_desktop.Server.Links.{
  new_link, insert_magic_link, is_usable, use_link, magic_link_is_valid, consume_magic_link,
}

use_link-hash :
    (now : ℕ) (email : String) (r : MagicLinkRow) → link_hash (use_link now email r) ≡ link_hash r
unfolding use_link
use_link-hash now email r = ground arith

pub find-consume :
    (now : ℕ) (email hash k : String) (s : Db)
    → find link_hash k (consume_magic_link now email hash s).1.magic_links ≡ (
        if hash == k
        then elim (find link_hash k s.magic_links) [
          | none ↦ none
          | some r ↦ some (use_link now email r)
        ]
        else find link_hash k s.magic_links)
unfolding consume_magic_link
find-consume now email hash k s =
    find-update link_hash hash (use_link now email) (use_link-hash now email) k s.magic_links
    ∙ ground arith

find-insert :
    (now : ℕ) (email hash : String) (expires : ℕ) (k : String) (s : Db)
    → find link_hash k (insert_magic_link now email hash expires s).1.magic_links ≡ (
        if (hash == k) && not (is_some (find link_hash hash s.magic_links))
        then some (new_link email hash expires now)
        else find link_hash k s.magic_links)
unfolding insert_magic_link new_link
find-insert now email hash expires k s = elim (Option-cases (find link_hash hash s.magic_links)) [
  | inl fresh ↦ rw fresh (
      find-insert_new link_hash k (new_link email hash expires now) s.magic_links fresh
      ∙ ground arith)
  | inr (r, there) ↦ rw there (ground arith)
]

-- Once consumed, the link is not valid at that instant or later.
pub spent :
    (now later : ℕ) (email hash : String) (s : Db)
    → now ≤ later
    → magic_link_is_valid later email hash (consume_magic_link now email hash s).1 ≡ false
unfolding magic_link_is_valid use_link is_usable
spent now later email hash s h = ground (arith, find-consume now email hash hash s, ==_refl hash)

-- What happens to the links: one is issued, or a login tries to use one.
pub data Event : Type 0 where
  issue : (now : ℕ) (email hash : String) (expires_at : ℕ) → Event
  attempt : (now : ℕ) (email hash : String) → Event

unfoldable pub step : Db → Event → Db
step s (issue now email hash expires_at) = (insert_magic_link now email hash expires_at s).1
step s (attempt now email hash) = (consume_magic_link now email hash s).1

-- How many attempts to use the link succeed.
unfoldable pub admissions : String → String → Db → List Event → ℕ
admissions email hash s [] = 0
admissions email hash s (issue now e k expires_at ∷ events) =
    admissions email hash (step s (issue now e k expires_at)) events
admissions email hash s (attempt now e k ∷ events) =
    let rest = admissions email hash (step s (attempt now e k)) events in
    (if (e == email) && (k == hash) && is_ok (consume_magic_link now e k s).0 then 1 else 0) + rest

-- What is left to admit: one, until the link with the hash is used or turns out to be another's.
unfoldable pub credit : String → String → Db → ℕ
credit email hash s = elim (find link_hash hash s.magic_links) [
  | none ↦ 1
  | some r ↦ if (r.email == email) && not (is_some r.used_at) then 1 else 0
]

credit-issue :
    (email hash : String) (s : Db) (now : ℕ) (e k : String) (expires_at : ℕ)
    → credit email hash (step s (issue now e k expires_at)) ≤ credit email hash s
unfolding credit step new_link
credit-issue email hash s now e k expires_at =
    ground (arith, find-insert now e k expires_at hash s, text_equality.equal_iff k hash)

credit-attempt :
    (email hash : String) (s : Db) (now : ℕ) (e k : String)
    → (if (e == email) && (k == hash) && is_ok (consume_magic_link now e k s).0 then 1 else 0)
        + credit email hash (step s (attempt now e k))
      ≤ credit email hash s
unfolding credit step consume_magic_link magic_link_is_valid use_link is_usable
credit-attempt email hash s now e k = ground (
  arith,
  find-consume now e k hash s,
  text_equality.equal_iff k hash,
  text_equality.equal_iff e email,
)

admissions-le_credit :
    (email hash : String) (s : Db) (events : List Event)
    → admissions email hash s events ≤ credit email hash s
unfolding admissions
admissions-le_credit email hash s [] = omega arith
admissions-le_credit email hash s (issue now e k expires_at ∷ events) = omega (
  arith,
  admissions-le_credit email hash (step s (issue now e k expires_at)) events,
  credit-issue email hash s now e k expires_at,
)
admissions-le_credit email hash s (attempt now e k ∷ events) = omega (
  arith,
  admissions-le_credit email hash (step s (attempt now e k)) events,
  credit-attempt email hash s now e k,
)

-- In any interleaving of issues and attempts at any instants, from any tables, an address and a
-- token's hash are admitted at most once.
pub admissions-le_one :
    (email hash : String) (s : Db) (events : List Event) → admissions email hash s events ≤ 1
unfolding credit
admissions-le_one email hash s events =
    omega (arith, admissions-le_credit email hash s events, credit-le_one)
  where
    credit-le_one : credit email hash s ≤ 1
    credit-le_one = ground arith
