-- ===== src/Cloud/Realtime.antt =====
-- A connection to the server's events (`cloud_start_realtime` of
-- apps/desktop/src-tauri/src/command/cloud.rs), as what it emits to the webview. `lossy` is
-- `String::from_utf8_lossy`, on the bytes of each chunk by themselves.
use zca_desktop.Common.{
  ℕ, ◌≡◌, refl, sym, ap, ◌∙◌, String, true, not, Option, none, some, List, [], ◌∷◌, ◌++◌,
  if◌then◌else◌, map, append_assoc, Text, Result, ok, err,
}
use mathlib.Core.List.{map-append}
use zca_desktop.Cloud.{is_success}
use zca_desktop.Cloud.Frames.{drain_sse_events, receive}
use zca_desktop.Cloud.Frames.Chunks.{concat, receive-eq-drain}

pub data CloudEvent (Json : Type 0) : Type 0 where
  connected : CloudEvent Json
  failed : Text → CloudEvent Json
  refused : ℕ → CloudEvent Json
  disconnected : (reason : String) → Option ℕ → CloudEvent Json
  event : Json → CloudEvent Json

-- The response to the request, and the items of its stream up to its end.
pub record Stream : Type 0 where
  pub code : ℕ
  pub items : List (Result Text (List ℕ))

module _ {Json : Type 0} (parse : Text → Option Json) (lossy : List ℕ → Text) where
  -- The loop over the items, with the buffer that it holds.
  unfoldable pub listen : Text → List (Result Text (List ℕ)) → List (CloudEvent Json)
  listen buffer [] = disconnected "stream-ended" none ∷ []
  listen buffer (err e ∷ items) = failed e ∷ disconnected "stream-error" none ∷ []
  listen buffer (ok bytes ∷ items) =
      let drained = drain_sse_events parse (buffer ++ lossy bytes) in
      map event drained.0 ++ listen drained.1 items

  unfoldable pub cloud_start_realtime : Result Text Stream → List (CloudEvent Json)
  cloud_start_realtime (err e) = failed e ∷ disconnected "connect-error" none ∷ []
  cloud_start_realtime (ok res) =
      if not (is_success res.code)
      then refused res.code ∷ disconnected "status" (some res.code) ∷ []
      else connected ∷ listen [] res.items

  -- The texts that arrive before the stream fails or ends.
  unfoldable pub arrived : List (Result Text (List ℕ)) → List Text
  arrived [] = []
  arrived (err e ∷ items) = []
  arrived (ok bytes ∷ items) = lossy bytes ∷ arrived items

  -- How it ends.
  unfoldable pub farewell : List (Result Text (List ℕ)) → List (CloudEvent Json)
  farewell [] = disconnected "stream-ended" none ∷ []
  farewell (err e ∷ items) = failed e ∷ disconnected "stream-error" none ∷ []
  farewell (ok bytes ∷ items) = farewell items

  listen-receive :
      (buffer : Text) (items : List (Result Text (List ℕ)))
      → listen buffer items ≡ map event (receive parse buffer (arrived items)).0 ++ farewell items
  unfolding listen arrived farewell receive
  listen-receive buffer [] = refl
  listen-receive buffer (err e ∷ items) = refl
  listen-receive buffer (ok bytes ∷ items) =
      let drained = drain_sse_events parse (buffer ++ lossy bytes) in
      let later = receive parse drained.1 (arrived items) in
      ap (λ l. map event drained.0 ++ l) (listen-receive drained.1 items)
      ∙ sym (append_assoc (map event drained.0) (map event later.0) (farewell items))
      ∙ ap (λ l. l ++ farewell items) (sym (map-append event drained.0 later.0))

  -- A connection that opens tells that it is connected, every event of the text that arrives, in
  -- order and however the text is cut into chunks, and then that it is disconnected and why.
  pub start_realtime-events :
      (res : Stream)
      → is_success res.code ≡ true
      → cloud_start_realtime (ok res)
        ≡ connected
          ∷ (map event (drain_sse_events parse (concat (arrived res.items))).0
              ++ farewell res.items)
  unfolding cloud_start_realtime
  start_realtime-events res h =
      rw (cloud_start_realtime, h)
        (ap (◌∷◌ connected) (
          listen-receive [] res.items
          ∙ ap (λ r. map event r.0 ++ farewell res.items)
              (receive-eq-drain parse (arrived res.items))))
