-- ===== src/Server/Hosted/Qr.antt =====
-- The state of a QR login (`run_qr_flow` of sessions.rs). Two tasks write it: one handles the
-- events of the phone in the order that they come, and one stores the account and gives the verdict.
-- Each write is made under the lock of the map, so a run is a sequence of writes; the events still
-- in the channel when the verdict falls are handled after it.
pub mod Flows
use zca_desktop.Common.{
  ℕ, ◌≡◌, refl, ◌∙◌, String, Option, none, some, List, [], ◌∷◌, ◌++◌, number_equality,
}
use zca_desktop.Common.Map
use zca_desktop.Common.Map.{Map}
use zca_desktop.Server.Hosted.{QrFlowStatus, new_flow}

pub record HostedProfile : Type 0 where
  pub account_id : String
  pub display_name : Option String
  pub avatar : Option String

pub data HostedQrEvent : Type 0 where
  generated : (image : String) → HostedQrEvent
  scanned : (display_name avatar : String) → HostedQrEvent
  declined expired : HostedQrEvent
  success : (profile : HostedProfile) → HostedQrEvent

unfoldable pub handle : HostedQrEvent → QrFlowStatus → QrFlowStatus
handle (generated image) flow = record flow { state = "waiting-scan"; qr_image = some image }
handle (scanned display_name avatar) flow = record flow {
  state = "scanned";
  display_name = some display_name;
  avatar = some avatar;
}
handle declined flow = record flow { state = "declined" }
handle expired flow = record flow { state = "expired" }
handle (success profile) flow = record flow {
  state = "success";
  display_name = profile.display_name;
  avatar = profile.avatar;
}

-- How the other task ends: zca-rust's login failed, a step that stores the account did, or none.
pub data Verdict : Type 0 where
  login_failed : (detail : String) → Verdict
  store_failed : Verdict
  linked : (account : ℕ) → Verdict

unfoldable pub conclude : Verdict → QrFlowStatus → QrFlowStatus
conclude (login_failed detail) flow = record flow { state = "error"; error = some detail }
conclude store_failed flow = record flow {
  state = "error";
  error = some "failed to store linked account";
}
conclude (linked account) flow = record flow { account_id = some account; state = "success" }

unfoldable pub handle_all : List HostedQrEvent → QrFlowStatus → QrFlowStatus
handle_all [] flow = flow
handle_all (e ∷ events) flow = handle_all events (handle e flow)

-- A run in which `late` events are handled after the verdict.
unfoldable pub trace :
    List HostedQrEvent → Verdict → List HostedQrEvent → QrFlowStatus → QrFlowStatus
trace early verdict late flow = handle_all late (conclude verdict (handle_all early flow))

handle-fixed :
    (e : HostedQrEvent) (flow : QrFlowStatus)
    → ((handle e flow).account_id ≡ flow.account_id)
      × ((handle e flow).error ≡ flow.error)
      × ((handle e flow).user_id ≡ flow.user_id)
unfolding handle
handle-fixed (generated image) flow = (refl, refl, refl)
handle-fixed (scanned display_name avatar) flow = (refl, refl, refl)
handle-fixed declined flow = (refl, refl, refl)
handle-fixed expired flow = (refl, refl, refl)
handle-fixed (success profile) flow = (refl, refl, refl)

handle_all-fixed :
    (events : List HostedQrEvent) (flow : QrFlowStatus)
    → ((handle_all events flow).account_id ≡ flow.account_id)
      × ((handle_all events flow).error ≡ flow.error)
      × ((handle_all events flow).user_id ≡ flow.user_id)
unfolding handle_all
handle_all-fixed [] flow = (refl, refl, refl)
handle_all-fixed (e ∷ events) flow =
    let later = handle_all-fixed events (handle e flow) in
    let now = handle-fixed e flow in (later.0 ∙ now.0, later.1 ∙ now.1, later.2 ∙ now.2)

-- The account and the error that a verdict leaves in a new flow, and its state.
abbrev pub verdict_account : Verdict → Option ℕ
verdict_account (linked account) = some account
verdict_account _ = none

abbrev pub verdict_error : Verdict → Option String
verdict_error (login_failed detail) = some detail
verdict_error store_failed = some "failed to store linked account"
verdict_error (linked account) = none

abbrev pub verdict_state : Verdict → String
verdict_state (linked account) = "success"
verdict_state _ = "error"

conclude-verdict :
    (verdict : Verdict) (flow : QrFlowStatus)
    → flow.account_id ≡ none
    → flow.error ≡ none
    → ((conclude verdict flow).account_id ≡ verdict_account verdict)
      × ((conclude verdict flow).error ≡ verdict_error verdict)
      × ((conclude verdict flow).user_id ≡ flow.user_id)
unfolding conclude
conclude-verdict (login_failed detail) flow a e = (a, refl, refl)
conclude-verdict store_failed flow a e = (a, refl, refl)
conclude-verdict (linked account) flow a e = (refl, e, refl)

pub trace-verdict :
    (early late : List HostedQrEvent) (verdict : Verdict) (flow user : ℕ)
    → let end = trace early verdict late (new_flow flow user) in
      (end.account_id ≡ verdict_account verdict)
      × (end.error ≡ verdict_error verdict)
      × (end.user_id ≡ user)
unfolding trace new_flow
trace-verdict early late verdict flow user =
    let before = handle_all-fixed early (new_flow flow user) in
    let at = conclude-verdict verdict (handle_all early (new_flow flow user)) before.0 before.1 in
    let after = handle_all-fixed late (conclude verdict (handle_all early (new_flow flow user))) in
    (after.0 ∙ at.0, after.1 ∙ at.1, after.2 ∙ at.2 ∙ before.2)

-- With no event after it, the verdict is the state.
pub trace-state :
    (early : List HostedQrEvent) (verdict : Verdict) (flow : QrFlowStatus)
    → (trace early verdict [] flow).state ≡ verdict_state verdict
unfolding trace conclude handle_all
trace-state early (login_failed detail) flow = refl
trace-state early store_failed flow = refl
trace-state early (linked account) flow = refl

handle_all-append :
    (before after : List HostedQrEvent) (flow : QrFlowStatus)
    → handle_all (before ++ after) flow ≡ handle_all after (handle_all before flow)
unfolding handle_all
handle_all-append [] after flow = refl
handle_all-append (e ∷ before) after flow = handle_all-append before after (handle e flow)

-- When storing the account failed, a success of the phone that is handled after the verdict leaves a
-- new flow in the state "success", with no account.
pub late_success :
    (early late : List HostedQrEvent) (profile : HostedProfile) (flow user : ℕ)
    → let end = trace early store_failed (late ++ success profile ∷ []) (new_flow flow user) in
      (end.state ≡ "success")
      × (end.account_id ≡ none)
      × (end.error ≡ some "failed to store linked account")
late_success early late profile flow user =
    let all = trace-verdict early (late ++ success profile ∷ []) store_failed flow user in
    (state, all.0, all.1)
  where
    state :
        (trace early store_failed (late ++ success profile ∷ []) (new_flow flow user)).state
        ≡ "success"
    state = unfold trace in rw (handle_all-append late) (unfold handle_all handle in refl)
