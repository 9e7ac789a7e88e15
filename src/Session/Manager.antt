-- ===== src/Session/Manager.antt =====
-- `SessionManager`: one managed session per account, each with the listener of its socket. A
-- listener is known by a number, and the calls of `stop` are recorded, newest first. Each operation
-- runs under the map's lock; `send_text_with_quote` and `send_sticker` are read with no other call
-- between the lookup and the reservation.
pub mod Listeners
pub mod Sending
use zca_desktop.Common.{
  ℕ, ◌+◌, String, Bool, true, false, Option, none, some, List, [], ◌∷◌, text_equality, length, map,
  Result, ok, err,
}
use zca_desktop.Common.Map
use zca_desktop.Common.Map.{Map}
use zca_desktop.Types.{AccountId, ThreadKind, Sticker, QuoteInput, user}
use zca_desktop.Session.Throttle
use zca_desktop.Session.Throttle.{SendThrottle, reserve, forget}

pub record ManagedSession (H : Type 0) : Type 0 where
  pub handle : H
  pub listener : ℕ

pub record SessionManager (H : Type 0) : Type 0 where
  pub sessions : Map AccountId (ManagedSession H)
  pub throttle : SendThrottle
  pub stopped : List ℕ

pub data SessionError (E : Type 0) : Type 0 where
  not_found : AccountId → SessionError E
  zalo : E → SessionError E

-- 800 ms
abbrev pub default_send_interval : ℕ
default_send_interval = 800

module _ {H : Type 0} where
  unfoldable pub with_send_interval : ℕ → SessionManager H
  with_send_interval interval = record {
    sessions = [];
    throttle = Throttle.new interval;
    stopped = [];
  }

  -- `previous.listener.stop()` on what the map gave back
  unfoldable pub stop_previous : Option (ManagedSession H) → List ℕ → List ℕ
  stop_previous none stopped = stopped
  stop_previous (some previous) stopped = previous.listener ∷ stopped

  unfoldable pub insert : SessionManager H → AccountId → H → ℕ → SessionManager H
  unfolding stop_previous
  insert m account handle listener = record m {
    sessions =
        Map.put account (record { handle = handle; listener = listener })
          (Map.remove account m.sessions);
    stopped = stop_previous (Map.get account m.sessions) m.stopped;
  }

  unfoldable pub remove : SessionManager H → AccountId → Bool × SessionManager H
  remove m account = elim (Map.get account m.sessions) [
    | some session ↦ (
      true,
      record {
        sessions = Map.remove account m.sessions;
        throttle = forget m.throttle account;
        stopped = session.listener ∷ m.stopped;
      },
    )
    | none ↦ (false, record m { sessions = Map.remove account m.sessions })
  ]

  unfoldable pub get : SessionManager H → AccountId → Option H
  get m account = elim (Map.get account m.sessions) [ some s ↦ some s.handle | none ↦ none ]

  unfoldable pub account_ids : SessionManager H → List AccountId
  account_ids m = map (λ e. e.0) m.sessions

  unfoldable pub count : SessionManager H → ℕ
  count m = length m.sessions

  unfoldable pub new : SessionManager H
  unfolding with_send_interval
  new = with_send_interval default_send_interval

module _ (H E : Type 0) where
  -- The calls into the Zalo layer that a send ends in.
  pub record Client : Type 0 where
    pub send_text_with_quote :
        H → String → String → Option QuoteInput → ThreadKind → Result E String
    pub send_sticker : H → String → Sticker → ThreadKind → Result E String

  -- What a send gives back: its result, the wait that it observed, and the manager after it. The
  -- Zalo layer is called only after the wait.
  pub record Sent : Type 0 where
    pub result : Result (SessionError E) String
    pub waited : ℕ
    pub after : SessionManager H

abbrev pub from_zalo : {E : Type 0} → Result E String → Result (SessionError E) String
from_zalo r = elim r [ ok id ↦ ok id | err e ↦ err (zalo e) ]

module _ {H E : Type 0} (client : Client H E) where
  unfoldable pub send_text_with_quote :
      SessionManager H → ℕ → AccountId → String → String → Option QuoteInput → ThreadKind → Sent H E
  unfolding get
  send_text_with_quote m now account thread text quote kind = elim (get m account) [
    | none ↦ record { result = err (not_found account); waited = 0; after = m }
    | some api ↦
        let (wait, throttle') = reserve m.throttle account now in
        record {
          result = from_zalo (client.send_text_with_quote api thread text quote kind);
          waited = wait;
          after = record m { throttle = throttle' };
        }
  ]

  unfoldable pub send_text : SessionManager H → ℕ → AccountId → String → String → Sent H E
  unfolding send_text_with_quote
  send_text m now account thread text = send_text_with_quote m now account thread text none user

  unfoldable pub send_sticker :
      SessionManager H → ℕ → AccountId → String → Sticker → ThreadKind → Sent H E
  unfolding get
  send_sticker m now account thread sticker kind = elim (get m account) [
    | none ↦ record { result = err (not_found account); waited = 0; after = m }
    | some api ↦
        let (wait, throttle') = reserve m.throttle account now in
        record {
          result = from_zalo (client.send_sticker api thread sticker kind);
          waited = wait;
          after = record m { throttle = throttle' };
        }
  ]
