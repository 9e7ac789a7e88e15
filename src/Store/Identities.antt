-- ===== src/Store/Identities.antt =====
-- `backfill_thread_identities` (store/db.rs), thread by thread.
use zca_desktop.Common.{
  ℕ, ◌+◌, ◌≤◌, ◌≡◌, refl, ◌∙◌, String, false, not, ◌&&◌, Option, none, some, List, [], ◌∷◌, ◌==◌,
  ==_refl, text_equality, pair_equality, is_some, map_option, length, Bool-cases, inl, inr, arith,
}
use zca_desktop.Common.Table.{find, update, find-update}
use zca_desktop.Types.{AccountId, ThreadIdentity}
use zca_desktop.Store.{Db, ThreadRow, thread_key}
use zca_desktop.Store.Edits.{
  non_empty, fill_identity, backfill_one, backfill_from, backfill_thread_identities,
}

-- A thread as it was but for the title and the avatar, and neither was lost.
pub record Filled (r r' : ThreadRow) : Type 0 where
  pub key_kept : thread_key r' ≡ thread_key r
  pub kind_kept : r'.kind ≡ r.kind
  pub last_at_kept : r'.last_at ≡ r.last_at
  pub unread_kept : r'.unread ≡ r.unread
  pub title_kept : (is_some r.title && not (is_some r'.title)) ≡ false
  pub avatar_kept : (is_some r.avatar && not (is_some r'.avatar)) ≡ false

abbrev pub SameOrFilled : Option ThreadRow → Option ThreadRow → Type 0
SameOrFilled none none = Unit
SameOrFilled none (some r') = ⊥
SameOrFilled (some r) none = ⊥
SameOrFilled (some r) (some r') = Filled r r'

Filled-trans : {a b c : ThreadRow} → Filled a b → Filled b c → Filled a c
Filled-trans f g = record {
  key_kept = g.key_kept ∙ f.key_kept;
  kind_kept = g.kind_kept ∙ f.kind_kept;
  last_at_kept = g.last_at_kept ∙ f.last_at_kept;
  unread_kept = g.unread_kept ∙ f.unread_kept;
  title_kept = ground (arith, f.title_kept, g.title_kept);
  avatar_kept = ground (arith, f.avatar_kept, g.avatar_kept);
}

Filled-refl : (r : ThreadRow) → Filled r r
Filled-refl r = record {
  key_kept = refl;
  kind_kept = refl;
  last_at_kept = refl;
  unread_kept = refl;
  title_kept = ground arith;
  avatar_kept = ground arith;
}

SameOrFilled-refl : (o : Option ThreadRow) → SameOrFilled o o
SameOrFilled-refl none = tt
SameOrFilled-refl (some r) = Filled-refl r

SameOrFilled-trans :
    (o p q : Option ThreadRow) → SameOrFilled o p → SameOrFilled p q → SameOrFilled o q
SameOrFilled-trans none none q f g = g
SameOrFilled-trans (some a) (some b) (some c) f g = Filled-trans f g
SameOrFilled-trans none (some b) q f g = absurd f
SameOrFilled-trans (some a) none q f g = absurd f
SameOrFilled-trans (some a) (some b) none f g = absurd g

fill_identity-Filled : (t a : Option String) (r : ThreadRow) → Filled r (fill_identity t a r)
unfolding fill_identity
fill_identity-Filled t a r = record {
  key_kept = refl;
  kind_kept = refl;
  last_at_kept = refl;
  unread_kept = refl;
  title_kept = ground arith;
  avatar_kept = ground arith;
}

map-SameOrFilled :
    (t a : Option String) (o : Option ThreadRow) → SameOrFilled o (map_option (fill_identity t a) o)
map-SameOrFilled t a none = tt
map-SameOrFilled t a (some r) = fill_identity-Filled t a r

fill_at :
    (db : Db) (t a : Option String) (key k : AccountId × String)
    → SameOrFilled
        (find thread_key k db.threads)
        (find thread_key k (update thread_key key (fill_identity t a) db.threads))
fill_at db t a key k =
    rw
      (find-update thread_key key (fill_identity t a) (λ x. unfold fill_identity in refl) k
        db.threads)
      (elim (Bool-cases (key == k)) [
        | inl same ↦ rw same (map-SameOrFilled t a (find thread_key k db.threads))
        | inr other ↦ rw other (SameOrFilled-refl (find thread_key k db.threads))
      ])

backfill_one-SameOrFilled :
    (acc : AccountId) (id : ThreadIdentity) (db : Db) (n : ℕ) (k : AccountId × String)
    → SameOrFilled
        (find thread_key k db.threads)
        (find thread_key k (backfill_one acc id (db, n)).0.threads)
unfolding backfill_one
backfill_one-SameOrFilled acc id db n k =
    let t = non_empty id.title in
    let a = non_empty id.avatar in
    elim (Bool-cases (not (is_some t) && not (is_some a))) [
      | inl nothing ↦ rw nothing (SameOrFilled-refl (find thread_key k db.threads))
      | inr something ↦ rw something (fill_at db t a (acc, id.thread_id) k)
    ]

backfill_one-count :
    (acc : AccountId) (id : ThreadIdentity) (db : Db) (n : ℕ)
    → ((backfill_one acc id (db, n)).1 ≤ n + 1)
      × ((backfill_one acc id (db, n)).0.messages ≡ db.messages)
unfolding backfill_one
backfill_one-count acc id db n = ground arith

backfill_from_lem :
    (acc : AccountId) (ids : List ThreadIdentity) (db : Db) (n : ℕ) (k : AccountId × String)
    → let (db', updated) = backfill_from acc ids (db, n) in
      SameOrFilled (find thread_key k db.threads) (find thread_key k db'.threads)
      × (updated ≤ n + length ids)
      × (db'.messages ≡ db.messages)
unfolding backfill_from
backfill_from_lem acc [] db n k =
    (SameOrFilled-refl (find thread_key k db.threads), omega arith, refl)
backfill_from_lem acc (id ∷ ids) db n k =
    let s = backfill_one acc id (db, n) in
    let one = backfill_one-count acc id db n in
    let rest = backfill_from_lem acc ids s.0 s.1 k in
    (
      SameOrFilled-trans (find thread_key k db.threads) (find thread_key k s.0.threads) _
          (backfill_one-SameOrFilled acc id db n k) rest.0,
      omega arith,
      rest.2 ∙ one.1,
    )

-- For any list of identities and any thread: the backfill creates no thread and drops none; the
-- thread keeps its kind, activity and unread count, and a title or avatar that it had is not blanked;
-- no message changes, and the number reported is at most the number of identities.
pub backfill_thread_identities_lem :
    (db : Db) (acc : AccountId) (ids : List ThreadIdentity) (k : AccountId × String)
    → let (db', updated) = backfill_thread_identities db acc ids in
      SameOrFilled (find thread_key k db.threads) (find thread_key k db'.threads)
      × (updated ≤ length ids)
      × (db'.messages ≡ db.messages)
unfolding backfill_thread_identities
backfill_thread_identities_lem db acc ids k =
    let h = backfill_from_lem acc ids db 0 k in (h.0, omega arith, h.2)

-- A backfill by one identity with a title that is not empty gives an existing thread that title.
pub backfill_sets_title :
    (db : Db) (acc : AccountId) (id : ThreadIdentity) (title : String) {r : ThreadRow}
    → id.title ≡ some title
    → (title == "") ≡ false
    → find thread_key (acc, id.thread_id) db.threads ≡ some r
    → (r' : ThreadRow) × (find thread_key
          (acc, id.thread_id)
          (backfill_thread_identities db acc (id ∷ [])).0.threads
        ≡ some r')
      × (r'.title ≡ some title)
      × ((backfill_thread_identities db acc (id ∷ [])).1 ≡ 1)
unfolding backfill_thread_identities backfill_from backfill_one
backfill_sets_title db acc id title {r} given filled there = (
  fill_identity (some title) (non_empty id.avatar) r,
  rw title_given (
      find-update thread_key (acc, id.thread_id) (fill_identity (some title) (non_empty id.avatar))
        (λ x. unfold fill_identity in refl) (acc, id.thread_id) db.threads
      ∙ rw (there, ==_refl acc, ==_refl id.thread_id) refl),
  unfold fill_identity in refl,
  rw (title_given, there),
)
  where
    title_given : non_empty id.title ≡ some title
    title_given = unfold non_empty in rw given (rw filled)
