-- ===== src/Server/Hosted/Qr/Flows.antt =====
-- Several QR logins at a time: the writes of all their tasks to `qr_flows`, in any interleaving.
use zca_desktop.Common.{
  ℕ, ◌≡◌, refl, ◌∙◌, ap, sym, Bool, true, false, Option, none, some, List, [], ◌∷◌, map_option,
  if◌then◌else◌, ◌==◌, number_equality, eq_of_==, ==_refl, select, map, ◌++◌, Bool-cases, inl, inr,
}
use zca_desktop.Common.Map
use zca_desktop.Common.Map.{Map, get-put}
use zca_desktop.Server.Hosted.{QrFlowStatus, new_flow}
use zca_desktop.Server.Hosted.Qr.{
  HostedQrEvent, handle, Verdict, conclude, handle_all, trace, verdict_account, verdict_error,
  verdict_state, trace-verdict, trace-state,
}

-- `flows.get_mut(&flow_id)`: nothing is written when the flow is not there.
unfoldable pub write : ℕ → (QrFlowStatus → QrFlowStatus) → Map ℕ QrFlowStatus → Map ℕ QrFlowStatus
write flow f flows = elim (Map.get flow flows) [ none ↦ flows | some x ↦ Map.put flow (f x) flows ]

pub data Move : Type 0 where
  event : (flow : ℕ) (e : HostedQrEvent) → Move
  verdict : (flow : ℕ) (v : Verdict) → Move

unfoldable pub move : Move → Map ℕ QrFlowStatus → Map ℕ QrFlowStatus
move (event flow e) flows = write flow (handle e) flows
move (verdict flow v) flows = write flow (conclude v) flows

unfoldable pub moves : List Move → Map ℕ QrFlowStatus → Map ℕ QrFlowStatus
moves [] flows = flows
moves (m ∷ ms) flows = moves ms (move m flows)

-- The same moves on one flow alone.
unfoldable pub alone : ℕ → List Move → QrFlowStatus → QrFlowStatus
alone flow [] x = x
alone flow (event j e ∷ ms) x = alone flow ms (if j == flow then handle e x else x)
alone flow (verdict j v ∷ ms) x = alone flow ms (if j == flow then conclude v x else x)

unchanged : (o : Option QrFlowStatus) → o ≡ map_option (λ x. x) o
unchanged none = refl
unchanged (some x) = refl

get-write :
    (flow j : ℕ) (f : QrFlowStatus → QrFlowStatus) (flows : Map ℕ QrFlowStatus)
    → Map.get flow (write j f flows)
      ≡ map_option (λ x. if j == flow then f x else x) (Map.get flow flows)
unfolding write
get-write flow j f flows = of_entry (Map.get j flows) refl
  where
    of_entry :
        (o : Option QrFlowStatus)
        → Map.get j flows ≡ o
        → Map.get flow (elim o [ none ↦ flows | some x ↦ Map.put j (f x) flows ])
          ≡ map_option (λ x. if j == flow then f x else x) (Map.get flow flows)
    of_entry none missing = elim (Bool-cases (j == flow)) [
      | inl same ↦
          let e : Map.get flow flows ≡ none = rw (← eq_of_== j flow same) missing in rw (e) refl
      | inr other ↦ rw other (unchanged (Map.get flow flows))
    ]
    of_entry (some x) there = elim (Bool-cases (j == flow)) [
      | inl same ↦
          let e : Map.get flow flows ≡ some x = rw (← eq_of_== j flow same) there in
          get-put j flow (f x) flows ∙ rw (e, same) refl
      | inr other ↦ get-put j flow (f x) flows ∙ rw other (unchanged (Map.get flow flows))
    ]

map_option-map {ℓ} :
    {A : Type ℓ} (f g : A → A) (o : Option A)
    → map_option g (map_option f o) ≡ map_option (λ x. g (f x)) o
map_option-map f g none = refl
map_option-map f g (some a) = refl

get-moves :
    (flow : ℕ) (ms : List Move) (flows : Map ℕ QrFlowStatus)
    → Map.get flow (moves ms flows) ≡ map_option (alone flow ms) (Map.get flow flows)
unfolding moves alone move
get-moves flow [] flows = unchanged (Map.get flow flows)
get-moves flow (event j e ∷ ms) flows =
    get-moves flow ms (write j (handle e) flows)
    ∙ ap (map_option (alone flow ms)) (get-write flow j (handle e) flows)
    ∙ map_option-map _ (alone flow ms) (Map.get flow flows)
get-moves flow (verdict j v ∷ ms) flows =
    get-moves flow ms (write j (conclude v) flows)
    ∙ ap (map_option (alone flow ms)) (get-write flow j (conclude v) flows)
    ∙ map_option-map _ (alone flow ms) (Map.get flow flows)

abbrev flow_of : Move → ℕ
flow_of (event flow e) = flow
flow_of (verdict flow v) = flow

-- The moves of a flow's own tasks.
unfoldable pub own : ℕ → List Move → List Move
own flow ms = select (λ m. flow_of m == flow) ms

by_test :
    (flow : ℕ) (m : Move) (ms kept : List Move) (f : QrFlowStatus → QrFlowStatus) (x : QrFlowStatus)
    → ((y : QrFlowStatus) → alone flow ms y ≡ alone flow kept y)
    → alone flow (m ∷ kept) x ≡ alone flow kept (if flow_of m == flow then f x else x)
    → (b : Bool) → flow_of m == flow ≡ b
    → alone flow ms (if b then f x else x) ≡ alone flow (if b then m ∷ kept else kept) x
by_test flow m ms kept f x rest first true same =
    rest (f x) ∙ sym (first ∙ ap (λ c. alone flow kept (if c then f x else x)) same)
by_test flow m ms kept f x rest first false different = rest x

alone-own :
    (flow : ℕ) (ms : List Move) (x : QrFlowStatus) → alone flow ms x ≡ alone flow (own flow ms) x
unfolding alone own select
alone-own flow [] x = refl
alone-own flow (event j e ∷ ms) x =
    by_test flow (event j e) ms (own flow ms) (handle e) x (alone-own flow ms) refl (j == flow) refl
alone-own flow (verdict j v ∷ ms) x =
    by_test flow (verdict j v) ms (own flow ms) (conclude v) x (alone-own flow ms) refl (j == flow)
      refl

alone-events :
    (flow : ℕ) (events : List HostedQrEvent) (ms : List Move) (x : QrFlowStatus)
    → alone flow (map (event flow) events ++ ms) x ≡ alone flow ms (handle_all events x)
unfolding alone handle_all
alone-events flow [] ms x = refl
alone-events flow (e ∷ events) ms x =
    ap (λ c. alone flow (map (event flow) events ++ ms) (if c then handle e x else x))
      (==_refl {A = ℕ} flow)
    ∙ alone-events flow events ms (handle e x)

alone-trace :
    (flow : ℕ) (early late : List HostedQrEvent) (v : Verdict) (x : QrFlowStatus)
    → alone flow (map (event flow) early ++ verdict flow v ∷ (map (event flow) late ++ [])) x
      ≡ trace early v late x
unfolding alone trace
alone-trace flow early late v x =
    alone-events flow early (verdict flow v ∷ (map (event flow) late ++ [])) x
    ∙ ap
        (λ c.
          alone flow (map (event flow) late ++ [])
            (if c then conclude v (handle_all early x) else handle_all early x))
        (==_refl {A = ℕ} flow)
    ∙ alone-events flow late [] (conclude v (handle_all early x))

-- In any interleaving of the tasks of any QR logins, a new login whose own tasks handle the phone's
-- events around one verdict ends with the account and the error of that verdict, and with its user;
-- and with the verdict's state, when no event of its own comes after the verdict.
pub moves-verdict :
    (flow user : ℕ) (ms : List Move) (flows : Map ℕ QrFlowStatus) (early late : List HostedQrEvent)
    (v : Verdict)
    → Map.get flow flows ≡ some (new_flow flow user)
    → own flow ms ≡ map (event flow) early ++ verdict flow v ∷ (map (event flow) late ++ [])
    → (end : QrFlowStatus) × (Map.get flow (moves ms flows) ≡ some end)
      × (end.account_id ≡ verdict_account v)
      × (end.error ≡ verdict_error v)
      × (end.user_id ≡ user)
      × (late ≡ [] → end.state ≡ verdict_state v)
moves-verdict flow user ms flows early late v there own_moves =
    let x = new_flow flow user in
    let ends = trace-verdict early late v flow user in
    (
      trace early v late x,
      get-moves flow ms flows
          ∙ ap (map_option (alone flow ms)) there
          ∙ ap some (
              alone-own flow ms x
              ∙ ap (λ l. alone flow l x) own_moves
              ∙ alone-trace flow early late v x),
      ends.0,
      ends.1,
      ends.2,
      λ none_late. ap (λ l. (trace early v l x).state) none_late ∙ trace-state early v x,
    )
