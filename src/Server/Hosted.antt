-- ===== src/Server/Hosted.antt =====
-- Hosted sessions (sessions.rs): the live Zalo sessions that the server keeps for its users, by
-- account, and the QR logins that link them. An API handle and a listener are numbers, and so are
-- ids and instants. What zca-rust answers is an input.
pub mod Throttling
pub mod Qr
pub mod Linking
pub mod Restoring
pub mod Addresses
mod Tests
use zca_desktop.Common.{
  ℕ, ◌+◌, ◌-◌, String, Bool, true, false, Option, none, some, List, [], ◌∷◌, unwrap_or, map_option,
  is_some, number_equality, Result, ok, err,
}
use zca_desktop.Common.Map
use zca_desktop.Common.Map.{Map}
use zca_desktop.Session.Throttle.{later}
use zca_desktop.Server.{AppError, bad_request, not_found}

pub data HostedSessionState : Type 0 where
  starting online reauth_needed stopped : HostedSessionState

pub record HostedSession : Type 0 where
  pub account_id : ℕ
  pub state : HostedSessionState
  pub api : ℕ
  pub listener : ℕ

pub record QrFlowStatus : Type 0 where
  pub user_id : ℕ
  pub flow_id : ℕ
  pub state : String
  pub qr_image : Option String
  pub display_name : Option String
  pub avatar : Option String
  pub account_id : Option ℕ
  pub error : Option String

pub record SendThrottle : Type 0 where
  pub interval : ℕ
  pub next_allowed : Map ℕ ℕ

-- The wait before the send, and the throttle after the reservation.
unfoldable pub reserve : SendThrottle → ℕ → ℕ → ℕ × SendThrottle
reserve t account now =
    let slot = later (unwrap_or (Map.get account t.next_allowed) now) now in
    (slot - now, record t { next_allowed = Map.put account (slot + t.interval) t.next_allowed })

-- `stopped_listeners` are the listeners that were told to stop.
pub record HostedSessionManager : Type 0 where
  pub sessions : Map ℕ HostedSession
  pub qr_flows : Map ℕ QrFlowStatus
  pub throttle : SendThrottle
  pub stopped_listeners : List ℕ

-- `Default`: 800 ms between sends.
abbrev pub default_manager : HostedSessionManager
default_manager = record {
  sessions = [];
  qr_flows = [];
  throttle = record { interval = 800; next_allowed = [] };
  stopped_listeners = [];
}

unfoldable pub upsert_session :
    ℕ → HostedSessionState → ℕ → ℕ → HostedSessionManager → HostedSessionManager
upsert_session account state api listener m = record m {
  sessions =
      Map.put account
        (record { account_id = account; state = state; api = api; listener = listener }) m.sessions;
}

unfoldable pub state : ℕ → HostedSessionManager → Option HostedSessionState
state account m = map_option (λ x. x.state) (Map.get account m.sessions)

unfoldable pub stop : ℕ → HostedSessionManager → Bool × HostedSessionManager
stop account m = elim (Map.get account m.sessions) [
  | none ↦ (false, m)
  | some session ↦ (
    true,
    record m {
      sessions = Map.remove account m.sessions;
      stopped_listeners = session.listener ∷ m.stopped_listeners;
    },
  )
]

-- A failure of zca-rust, as the caller gets it.
abbrev refused {ℓ} : {A : Type ℓ} → (String → String) → Result String A → Result AppError A
refused say (ok a) = ok a
refused say (err e) = err (bad_request (say e))

-- `resolve_phone`, `list_contacts`, `thread_metadata` and `send_reaction`: a call through the
-- account's API handle, whose failure `say` puts in words.
unfoldable pub call_through {ℓ} :
    {A : Type ℓ}
    → (String → String)
    → (ℕ → Result String A)
    → ℕ
    → HostedSessionManager
    → Result AppError A
call_through say call account m = elim (Map.get account m.sessions) [
  | none ↦ err not_found
  | some session ↦ refused say (call session.api)
]

-- `send_text`, `send_sticker` and `send_file`: the answer, the wait before the call if there is
-- one, and the manager with the slot taken.
unfoldable pub send_through {ℓ} :
    {A : Type ℓ}
    → (String → String)
    → (ℕ → Result String A)
    → ℕ
    → ℕ
    → HostedSessionManager
    → Result AppError A × Option ℕ × HostedSessionManager
send_through say call account now m = elim (Map.get account m.sessions) [
  | none ↦ (err not_found, none, m)
  | some session ↦
      let (wait, throttle) = reserve m.throttle account now in
      (refused say (call session.api), some wait, record m { throttle = throttle })
]

unfoldable pub qr_status : ℕ → HostedSessionManager → Option QrFlowStatus
qr_status flow m = Map.get flow m.qr_flows

unfoldable pub new_flow : ℕ → ℕ → QrFlowStatus
new_flow flow user = record {
  user_id = user;
  flow_id = flow;
  state = "starting";
  qr_image = none;
  display_name = none;
  avatar = none;
  account_id = none;
  error = none;
}

-- `begin_qr_flow`, before the tasks that it spawns.
unfoldable pub begin_qr_flow : ℕ → ℕ → HostedSessionManager → HostedSessionManager
begin_qr_flow flow user m = record m { qr_flows = Map.put flow (new_flow flow user) m.qr_flows }
