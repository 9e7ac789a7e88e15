-- ===== src/Session/Manager/Listeners.antt =====
-- Histories of `SessionManager::insert` and `remove` (session/mod.rs), by the listeners that they
-- start and stop.
use zca_desktop.Common.{
  ℕ, ◌+◌, ◌≡◌, refl, List, [], ◌∷◌, if◌then◌else◌, ==_refl, eqb, text_equality, arith,
}
use zca_desktop.Common.Map
use zca_desktop.Common.Map.{
  IsMap, get-put, get-remove, put-IsMap, remove-IsMap, tally, tally-remove, tally-put_new,
  length-eq-tally,
}
use zca_desktop.Types.{AccountId}
use zca_desktop.Session.Manager.{SessionManager, with_send_interval, insert, remove}

-- A login (or restart) of an account with its new listener, or a logout.
pub data Call (H : Type 0) : Type 0 where
  logs_in : AccountId → H → ℕ → Call H
  logs_out : AccountId → Call H

abbrev one : ℕ → ℕ → ℕ
one l k = if eqb k l then 1 else 0

-- How often a listener was stopped, in a list of stops.
unfoldable pub stops : ℕ → List ℕ → ℕ
stops l [] = 0
stops l (k ∷ ks) = one l k + stops l ks

module _ {H : Type 0} where
  unfoldable pub step : SessionManager H → Call H → SessionManager H
  step m (logs_in account handle listener) = insert m account handle listener
  step m (logs_out account) = (remove m account).1

  unfoldable pub run : SessionManager H → List (Call H) → SessionManager H
  unfolding step
  run m [] = m
  run m (c ∷ cs) = run (step m c) cs

  -- How often a listener was handed in, and in how many sessions it runs.
  unfoldable pub started : ℕ → List (Call H) → ℕ
  started l [] = 0
  started l (logs_in account handle k ∷ cs) = one l k + started l cs
  started l (logs_out account ∷ cs) = started l cs

  unfoldable pub running : ℕ → SessionManager H → ℕ
  running l m = tally (λ s. one l s.listener) m.sessions

  abbrev pub IsValid : SessionManager H → Type 0
  IsValid m = IsMap m.sessions

  insert-IsValid :
      (m : SessionManager H) (a : AccountId) (h : H) (l : ℕ) → IsValid m → IsValid (insert m a h l)
  unfolding insert
  insert-IsValid m a h l v = put-IsMap a _ _ (remove-IsMap a m.sessions v)

  remove-IsValid : (m : SessionManager H) (a : AccountId) → IsValid m → IsValid (remove m a).1
  unfolding remove
  remove-IsValid m a v = ground (arith, remove-IsMap a m.sessions v)

  running-insert :
      (m : SessionManager H) (a : AccountId) (h : H) (k l : ℕ)
      → IsValid m
      → running l (insert m a h k) + stops l (insert m a h k).stopped
        ≡ running l m + stops l m.stopped + one l k
  unfolding insert running stops
  running-insert m a h k l v = ground (
    arith,
    tally-remove (λ s. one l s.listener) a m.sessions v,
    tally-put_new (λ s. one l s.listener) a (record { handle = h; listener = k })
        (Map.remove a m.sessions),
    get-remove a a m.sessions,
    ==_refl a,
  )

  running-remove :
      (m : SessionManager H) (a : AccountId) (l : ℕ)
      → IsValid m
      → running l (remove m a).1 + stops l (remove m a).1.stopped ≡ running l m + stops l m.stopped
  unfolding remove running stops
  running-remove m a l v = ground (arith, tally-remove (λ s. one l s.listener) a m.sessions v)

  running_from :
      (m : SessionManager H) (cs : List (Call H)) (l : ℕ)
      → IsValid m
      → running l (run m cs) + stops l (run m cs).stopped
        ≡ running l m + stops l m.stopped + started l cs
  unfolding run started
  running_from m [] l v = omega arith
  running_from m (logs_in a h k ∷ cs) l v = omega (
    arith,
    running_from (insert m a h k) cs l (insert-IsValid m a h k v),
    running-insert m a h k l v,
  )
  running_from m (logs_out a ∷ cs) l v =
      omega (arith, running_from (remove m a).1 cs l (remove-IsValid m a v), running-remove m a l v)

  -- After any history of logins and logouts from a new manager, a listener was handed in as often
  -- as it now runs in a session and was stopped, added up; so one that was handed in once is in
  -- one session, or was stopped once.
  pub started-eq-running-add-stops :
      (interval : ℕ) (cs : List (Call H)) (l : ℕ)
      → let m = run (with_send_interval interval) cs in
        started l cs ≡ running l m + stops l m.stopped
  started-eq-running-add-stops interval cs l =
      let m : SessionManager H = with_send_interval interval in
      omega (arith, running_from m cs l (unfold with_send_interval in tt), fresh l)
    where
      fresh :
          (l : ℕ)
          → running l (with_send_interval interval)
              + stops l (with_send_interval {H = H} interval).stopped
            ≡ 0
      fresh l = unfold with_send_interval running stops tally in refl
