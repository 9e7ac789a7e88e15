-- ===== src/Session/Throttle/Pacing.antt =====
-- Histories of `SendThrottle::reserve` (session/mod.rs), against a rule of one account alone.
use zca_desktop.Common.{
  ℕ, ◌+◌, ◌≤◌, ◌≡◌, refl, inl, inr, Option, none, some, List, [], ◌∷◌, if◌then◌else◌, ltb, ◌==◌,
  text_equality, eq_of_==, Bool-cases, All, arith, true, false,
}
use zca_desktop.Common.Map
use zca_desktop.Common.Map.{get-put, get-remove}
use zca_desktop.Types.{AccountId}
use zca_desktop.Session.Throttle.{SendThrottle, new, later, scheduled, reserve}

-- The instants at which `account` sends, if it waits as told, in a history of (account, now) calls.
unfoldable pub sends : AccountId → SendThrottle → List (AccountId × ℕ) → List ℕ
sends account t [] = []
sends account t ((a, now) ∷ calls) =
    let (wait, t') = reserve t a now in
    let rest = sends account t' calls in if a == account then (now + wait) ∷ rest else rest

-- The instants at which `account` asks to send.
unfoldable pub asks : AccountId → List (AccountId × ℕ) → List ℕ
asks account [] = []
asks account ((a, now) ∷ calls) =
    let rest = asks account calls in if a == account then now ∷ rest else rest

-- The promise, with no map: each send takes place when asked, or an interval after the last one.
unfoldable pub paced : ℕ → Option ℕ → List ℕ → List ℕ
paced interval opens [] = []
paced interval none (now ∷ rest) = now ∷ paced interval (some (now + interval)) rest
paced interval (some opens) (now ∷ rest) =
    let slot = if ltb now opens then opens else now in
    slot ∷ paced interval (some (slot + interval)) rest

abbrev pub IsSpaced : ℕ → List ℕ → Type 0
IsSpaced interval [] = Unit
IsSpaced interval (s ∷ rest) = All (λ t. s + interval ≤ t) rest × IsSpaced interval rest

-- A reservation moves the slot of its own account and of no other.
get-reserve :
    (t : SendThrottle) (a b : AccountId) (now : ℕ)
    → Map.get b (reserve t a now).1.next_allowed
      ≡ (if a == b then some (scheduled t a now + t.interval) else Map.get b t.next_allowed)
unfolding reserve
get-reserve t a b now = get-put a b (scheduled t a now + t.interval) t.next_allowed

send_instant :
    (t : SendThrottle) (a : AccountId) (now : ℕ) → now + (reserve t a now).0 ≡ scheduled t a now
unfolding reserve scheduled later
send_instant t a now = ground arith

sends-other :
    (account a : AccountId) (t : SendThrottle) (now : ℕ) (calls : List (AccountId × ℕ))
    → (a == account) ≡ false
    → sends account t ((a, now) ∷ calls) ≡ sends account (reserve t a now).1 calls
unfolding sends
sends-other account a t now calls h = rw h

sends_self :
    (account a : AccountId) (t : SendThrottle) (now : ℕ) (calls : List (AccountId × ℕ))
    → (a == account) ≡ true
    → sends account t ((a, now) ∷ calls)
      ≡ scheduled t a now ∷ sends account (reserve t a now).1 calls
unfolding sends
sends_self account a t now calls h = rw (h, send_instant t a now)

-- The slot of an account with, or without, an earlier reservation.
abbrev slot_after : Option ℕ → ℕ → ℕ
slot_after none now = now
slot_after (some opens) now = if ltb now opens then opens else now

paced-step :
    (interval now : ℕ) (opens : Option ℕ) (rest : List ℕ)
    → paced interval opens (now ∷ rest)
      ≡ slot_after opens now ∷ paced interval (some (slot_after opens now + interval)) rest
unfolding paced
paced-step interval now none rest = refl
paced-step interval now (some opens) rest = refl

scheduled-eq-slot_after :
    (t : SendThrottle) (a : AccountId) (now : ℕ)
    → scheduled t a now ≡ slot_after (Map.get a t.next_allowed) now
unfolding scheduled later
scheduled-eq-slot_after t a now = ground arith

sends-eq-paced_from :
    (account : AccountId) (t : SendThrottle) (calls : List (AccountId × ℕ))
    → sends account t calls ≡ paced t.interval (Map.get account t.next_allowed) (asks account calls)
unfolding asks
sends-eq-paced_from account t [] = unfold sends paced in refl
sends-eq-paced_from account t ((a, now) ∷ calls) = elim (Bool-cases (a == account)) [
  | inl same ↦ ground (
    arith,
    eq_of_== a account same,
    sends_self account a t now calls same,
    sends-eq-paced_from account (reserve t a now).1 calls,
    get-reserve t a account now,
    scheduled-eq-slot_after t a now,
    paced-step t.interval now (Map.get account t.next_allowed) (asks account calls),
    reserve-interval t a now,
  )
  | inr other ↦ ground (
    arith,
    sends-other account a t now calls other,
    sends-eq-paced_from account (reserve t a now).1 calls,
    get-reserve t a account now,
    reserve-interval t a now,
  )
]
  where
    reserve-interval :
        (t : SendThrottle) (a : AccountId) (now : ℕ) → (reserve t a now).1.interval ≡ t.interval
    reserve-interval t a now = unfold reserve in refl

-- In any history of calls by any accounts, from a fresh throttle, an account sends exactly when the
-- rule of one account alone says: when it asks, or one interval after its last send, if that is later.
pub sends-eq-paced :
    (interval : ℕ) (account : AccountId) (calls : List (AccountId × ℕ))
    → sends account (new interval) calls ≡ paced interval none (asks account calls)
unfolding Map.get
sends-eq-paced interval account calls = sends-eq-paced_from account (new interval) calls

paced-from :
    (interval opens low : ℕ) (nows : List ℕ)
    → low ≤ opens
    → All (λ s. low ≤ s) (paced interval (some opens) nows)
unfolding paced
paced-from interval opens low [] h = tt
paced-from interval opens low (now ∷ rest) h = elim (Bool-cases (ltb now opens)) [
  | inl early ↦ rw early (h, paced-from interval (opens + interval) low rest (omega arith))
  | inr due ↦ rw due (ground arith, paced-from interval (now + interval) low rest (ground arith))
]

paced-IsSpaced :
    (interval : ℕ) (opens : Option ℕ) (nows : List ℕ)
    → IsSpaced interval (paced interval opens nows)
paced-IsSpaced interval opens [] = unfold paced in tt
paced-IsSpaced interval opens (now ∷ rest) =
    let slot = slot_after opens now in
    rw (paced-step interval now opens rest) (
      paced-from interval (slot + interval) (slot + interval) rest (omega arith),
      paced-IsSpaced interval (some (slot + interval)) rest,
    )

-- From any state of the throttle and for any history of calls by any accounts, every two sends of
-- one account stand at least the interval apart.
pub sends-IsSpaced :
    (account : AccountId) (t : SendThrottle) (calls : List (AccountId × ℕ))
    → IsSpaced t.interval (sends account t calls)
sends-IsSpaced account t calls =
    rw (sends-eq-paced_from account t calls) (paced-IsSpaced t.interval _ (asks account calls))
