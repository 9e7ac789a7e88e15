-- ===== src/Server/Realtime/Handling/Streaming.antt =====
-- What the stream of a device shows of the events of all sessions.
use zca_desktop.Common.{
  ℕ, ◌≡◌, Bool, true, false, List, [], ◌∷◌, ◌++◌, ◌==◌, if◌then◌else◌, number_equality,
}
use zca_desktop.Server.Realtime.Handling.{
  RealtimeEvent, Receiver, announcement, Frame, message_frame, lagged_frame, Turn, handles, reads,
}

-- The events that a user is to be told of: the messages, reactions and recalls of the user's
-- sessions, in the order in which they are handled.
unfoldable pub told_to : ℕ → List Turn → List RealtimeEvent
told_to user [] = []
told_to user (reads ∷ turns) = told_to user turns
told_to user (handles ctx event ∷ turns) =
    let rest = told_to user turns in
    if ctx.user_id == user then announcement ctx event ++ rest else rest

unfoldable pub shown : List Frame → List RealtimeEvent
shown [] = []
shown (message_frame event ∷ frames) = event ∷ shown frames
shown (lagged_frame ∷ frames) = shown frames

abbrev pub is_lagged : Frame → Bool
is_lagged (message_frame event) = false
is_lagged lagged_frame = true

-- What an event adds to the queue, while nothing of it is dropped.
abbrev Added : List RealtimeEvent → Receiver → Receiver → Type 0
Added events r r' = (r'.lagged ≡ false) → (r.lagged ≡ false) × (r'.pending ≡ r.pending ++ events)
