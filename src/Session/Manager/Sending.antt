-- ===== src/Session/Manager/Sending.antt =====
-- `insert`, `remove`, `get` and the sends of `SessionManager` (session/mod.rs), by lookup.
use zca_desktop.Common.{
  ℕ, ◌+◌, ◌≤◌, ◌≡◌, Option, none, some, if◌then◌else◌, ◌==◌, ==_refl, text_equality, is_some,
  String, arith, err,
}
use zca_desktop.Common.Map
use zca_desktop.Common.Map.{
  IsMap, get-put, get-remove, remove-IsMap, tally-remove, tally-put_new, length-eq-tally,
}
use zca_desktop.Types.{AccountId, ThreadKind, Sticker, QuoteInput}
use zca_desktop.Session.Throttle.{reserve, scheduled, later, forget}
use zca_desktop.Session.Manager.{
  SessionManager, Client, not_found, from_zalo, insert, remove, get, count, send_text_with_quote,
  send_sticker,
}

module _ {H : Type 0} where
  -- A login puts the account's new handle in place and leaves the other accounts as they were.
  pub get-insert :
      (m : SessionManager H) (a b : AccountId) (h : H) (l : ℕ)
      → get (insert m a h l) b ≡ (if a == b then some h else get m b)
  unfolding get insert
  get-insert m a b h l = ground (
    arith,
    get-put a b (record { handle = h; listener = l }) (Map.remove a m.sessions),
    get-remove a b m.sessions,
  )

  -- A logout answers whether there was a session, and afterwards there is none of that account,
  -- while the other accounts keep theirs.
  pub get-remove_session :
      (m : SessionManager H) (a b : AccountId)
      → ((remove m a).0 ≡ is_some (get m a))
        × (get (remove m a).1 b ≡ (if a == b then none else get m b))
  unfolding get remove
  get-remove_session m a b = ground (arith, get-remove a b m.sessions)

  -- Where no account has two sessions, a login adds one to the number of sessions if its account
  -- has none, and nothing if it has one.
  pub count-insert :
      (m : SessionManager H) (a : AccountId) (h : H) (l : ℕ)
      → IsMap m.sessions
      → count (insert m a h l) ≡ (if is_some (get m a) then count m else count m + 1)
  unfolding get insert count
  count-insert m a h l v = ground (
    arith,
    length-eq-tally m.sessions,
    length-eq-tally (insert m a h l).sessions,
    tally-remove (λ s. 1) a m.sessions v,
    tally-put_new (λ s. 1) a (record { handle = h; listener = l }) (Map.remove a m.sessions),
    get-remove a a m.sessions,
    ==_refl a,
  )

module _ {H E : Type 0} (client : Client H E) where
  -- A send of an account with no session fails with that account's name, calls nothing and takes no
  -- slot; with a session it asks the Zalo layer with that session's handle once the wait is over,
  -- takes the account's next slot, and touches no session and no listener.
  pub send_text_branches :
      (m : SessionManager H) (now : ℕ) (a : AccountId) (thread text : String)
      (quote : Option QuoteInput) (kind : ThreadKind)
      → let s = send_text_with_quote client m now a thread text quote kind in
        (s.result ≡ elim (get m a) [
          | none ↦ err (not_found a)
          | some api ↦ from_zalo (client.send_text_with_quote api thread text quote kind)
        ])
        × (now + s.waited ≡ (if is_some (get m a) then scheduled m.throttle a now else now))
        × (s.after.throttle
            ≡ (if is_some (get m a) then (reserve m.throttle a now).1 else m.throttle))
        × (s.after.sessions ≡ m.sessions)
        × (s.after.stopped ≡ m.stopped)
  unfolding send_text_with_quote reserve scheduled later
  send_text_branches m now a thread text quote kind = ground arith

  -- Texts and stickers share one pace: with a session, a sticker that is the account's next send
  -- after a text goes out at least the interval after it, whenever it was asked for.
  pub sticker_after_text :
      (m : SessionManager H) (now now' : ℕ) (a : AccountId) (thread text : String)
      (quote : Option QuoteInput) (kind : ThreadKind) (sticker : Sticker) {h : H}
      → get m a ≡ some h
      → let first = send_text_with_quote client m now a thread text quote kind in
        let second = send_sticker client first.after now' a thread sticker kind in
        now + first.waited + m.throttle.interval ≤ now' + second.waited
  unfolding send_text_with_quote send_sticker reserve scheduled later
  sticker_after_text m now now' a thread text quote kind sticker found = ground (
    arith,
    get-put a a (scheduled m.throttle a now + m.throttle.interval) m.throttle.next_allowed,
    ==_refl a,
  )

  -- An account that had a session, logs out and logs in again owes no wait for what it sent
  -- before.
  pub relogin_waits_not :
      (m : SessionManager H) (now : ℕ) (a : AccountId) (thread text : String)
      (quote : Option QuoteInput) (kind : ThreadKind) (h : H) (l : ℕ) {old : H}
      → get m a ≡ some old
      → (send_text_with_quote client
          (insert (remove m a).1 a h l)
          now
          a
          thread
          text
          quote
          kind).waited
        ≡ 0
  unfolding send_text_with_quote insert remove reserve scheduled later forget get
  relogin_waits_not m now a thread text quote kind h l found = ground (
    arith,
    get-remove a a m.throttle.next_allowed,
    get-put a a (record { handle = h; listener = l }) (Map.remove a (Map.remove a m.sessions)),
    ==_refl a,
  )
