-- ===== src/Session/Tests.antt =====
-- Runs of the session layer at concrete inputs, and the theorems applied to them.
use zca_desktop.Common.{ℕ, ◌+◌, ◌≡◌, refl, some, List, [], ◌∷◌, String, text_equality}
use zca_desktop.Common.Map
use zca_desktop.Common.Map.{Map, IsMap}
use zca_desktop.Types.{AccountId}
use zca_desktop.Session.Throttle.{new, forget}
use zca_desktop.Session.Throttle.Pacing.{sends, asks, paced, sends-eq-paced}
use zca_desktop.Session.Manager.{
  SessionManager, with_send_interval, stop_previous, insert, remove, get,
}
use zca_desktop.Session.Manager.Listeners.{
  Call, logs_in, logs_out, step, run, started, running, stops, started-eq-running-add-stops,
}

-- Two accounts that ask to send.
abbrev asked : List (AccountId × ℕ)
asked = ("an", 0) ∷ ("binh", 10) ∷ ("an", 100) ∷ ("an", 3000) ∷ []

sends-eq-paced_example : sends "an" (new 800) asked ≡ 0 ∷ 800 ∷ 3000 ∷ []
unfolding paced asks
sends-eq-paced_example = sends-eq-paced 800 "an" asked

-- An account that logs in, restarts and logs out, by the numbers of its listeners.
abbrev logins : List (Call String)
logins = logs_in "an" "api" 7 ∷ logs_in "binh" "api" 8 ∷ logs_in "an" "api" 9 ∷ logs_out "an" ∷ []

started-eq-running-add-stops_example :
    started 7 logins
    ≡ running 7 (run (with_send_interval 800) logins)
      + stops 7 (run (with_send_interval 800) logins).stopped
started-eq-running-add-stops_example = started-eq-running-add-stops 800 logins 7

stopped_twice : (run (with_send_interval 800) logins).stopped ≡ 9 ∷ 7 ∷ []
unfolding run step insert remove with_send_interval stop_previous Map.get Map.put Map.remove forget
stopped_twice = refl

abbrev manager : SessionManager String
manager = insert (with_send_interval 800) "an" "api" 7

manager-IsMap : IsMap manager.sessions
unfolding insert with_send_interval Map.get Map.put Map.remove
manager-IsMap = (refl, tt)

manager-get : get manager "an" ≡ some "api"
unfolding get insert with_send_interval Map.get Map.put Map.remove
manager-get = refl
