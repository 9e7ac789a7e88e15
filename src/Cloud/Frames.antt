-- ===== src/Cloud/Frames.antt =====
-- The frames of server-sent events (`drain_sse_events` of crates/zca-cloud-client/src/lib.rs): a
-- frame ends at an empty line, and each of its `data:` lines is an event. `parse` is serde_json's.
pub mod Chunks
use zca_desktop.Common.{
  ℕ, zero, suc, Bool, true, false, ◌&&◌, Option, none, some, List, [], ◌∷◌, ◌++◌, if◌then◌else◌,
  eqb, map_option, Text, length, codes, starts_with, drop, split, trim_text,
}
use zca_desktop.Callback.{lines}

-- `buffer.find("\n\n")`, and what stands before and after the two characters.
unfoldable pub split_frame : Text → Option (Text × Text)
split_frame [] = none
split_frame (c ∷ []) = none
split_frame (c ∷ d ∷ s) =
    let rest = split_frame (d ∷ s) in
    if eqb c 10 && eqb d 10 then some ([], s) else map_option (λ r. (c ∷ r.0, r.1)) rest

-- The frames that are complete, and the text that is left, in so many rounds.
unfoldable pub frames_in : ℕ → Text → List Text × Text
frames_in zero buffer = ([], buffer)
frames_in (suc fuel) buffer = elim (split_frame buffer) [
  | none ↦ ([], buffer)
  | some (frame, rest) ↦ let r = frames_in fuel rest in (frame ∷ r.0, r.1)
]

-- A round takes two characters at least.
unfoldable pub frames : Text → List Text × Text
frames buffer = frames_in (length buffer) buffer

module _ {Json : Type 0} (parse : Text → Option Json) where
  unfoldable pub event_of : Text → Option Json
  event_of line = if starts_with (codes "data:") line then parse (trim_text (drop 5 line)) else none

  unfoldable pub events_of : List Text → List Json
  events_of [] = []
  events_of (line ∷ rest) = elim (event_of line) [
    | none ↦ events_of rest
    | some event ↦ event ∷ events_of rest
  ]

  unfoldable pub events_in : List Text → List Json
  events_in [] = []
  events_in (frame ∷ rest) = events_of (lines frame) ++ events_in rest

  -- The events, and the buffer after.
  unfoldable pub drain_sse_events : Text → List Json × Text
  drain_sse_events buffer = let r = frames buffer in (events_in r.0, r.1)

  -- The loop of a connection: each text that arrives is put at the end of the buffer, which is then
  -- drained. What it emits, and the buffer that it holds at the end.
  unfoldable pub receive : Text → List Text → List Json × Text
  receive buffer [] = ([], buffer)
  receive buffer (chunk ∷ chunks) =
      let drained = drain_sse_events (buffer ++ chunk) in
      let rest = receive drained.1 chunks in (drained.0 ++ rest.0, rest.1)
