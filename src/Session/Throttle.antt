-- ===== src/Session/Throttle.antt =====
-- `SendThrottle`: instants and durations are numbers of one unit, and an instant is never so late
-- that adding the interval overflows. Each call runs under the map's lock, so a history is a list
-- of calls. The server's throttle (apps/server/src/sessions.rs) has the same `reserve`.
pub mod Pacing
use zca_desktop.Common.{
  ℕ, ◌+◌, ◌-◌, Option, none, some, if◌then◌else◌, ltb, unwrap_or, text_equality, List, [], ◌∷◌,
}
use zca_desktop.Common.Map
use zca_desktop.Common.Map.{Map}
use zca_desktop.Types.{AccountId}

pub record SendThrottle : Type 0 where
  pub interval : ℕ
  pub next_allowed : Map AccountId ℕ

abbrev pub new : ℕ → SendThrottle
new interval = record { interval = interval; next_allowed = [] }

-- `Ord::max`
unfoldable pub later : ℕ → ℕ → ℕ
later a b = if ltb b a then a else b

-- The instant that the next send gets, were it reserved now.
unfoldable pub scheduled : SendThrottle → AccountId → ℕ → ℕ
unfolding later
scheduled t account now = later (unwrap_or (Map.get account t.next_allowed) now) now

-- The wait before the send, and the throttle after the reservation.
unfoldable pub reserve : SendThrottle → AccountId → ℕ → ℕ × SendThrottle
unfolding scheduled
reserve t account now =
    let slot = scheduled t account now in
    (slot - now, record t { next_allowed = Map.put account (slot + t.interval) t.next_allowed })

unfoldable pub forget : SendThrottle → AccountId → SendThrottle
forget t account = record t { next_allowed = Map.remove account t.next_allowed }
