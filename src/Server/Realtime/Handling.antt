-- ===== src/Server/Realtime/Handling.antt =====
-- The events of an account, one at a time (`handle_hosted_realtime_event` of sessions.rs), and the
-- stream of a device (`realtime` of routes.rs). A payload is its fields.
pub mod Streaming
use Prim.Native.String
use zca_desktop.Common.{
  ℕ, ◌≡◌, refl, sym, ap, ◌∙◌, String, Bool, true, false, List, [], ◌∷◌, ◌++◌, ◌==◌, if◌then◌else◌,
  number_equality, text_equality, select, ltb, length, drop,
}
use zca_desktop.Common.Map
use zca_desktop.Common.Map.{Map}
use zca_desktop.Server.{Bytes, Db}
use zca_desktop.Server.Conversations.{mark_message_deleted}
use zca_desktop.Server.Files.Blobs.{Objects}
use zca_desktop.Server.Realtime.{HostedRealtimeEvent, message, reaction, undo, upload}
use zca_desktop.Server.Realtime.Mirror.{is_blank}
use zca_desktop.Server.Realtime.Persisting.{
  Services, MessageDraws, persist_hosted_message, persist_hosted_reaction,
}

pub record RealtimeEvent : Type 0 where
  pub user_id : ℕ
  pub event_type : String
  pub account_id : ℕ
  pub thread_id : String
  pub msg_id : String
  pub outgoing : Bool

-- The place of a device's stream in the channel of the broadcasts: the events that it has not read, and
-- whether one of them was dropped since it last read.
pub record Receiver : Type 0 where
  pub pending : List RealtimeEvent
  pub lagged : Bool

-- `broadcast::channel(512)`
abbrev pub channel_capacity : ℕ
channel_capacity = 512

-- `send` of tokio's channel as it is documented: when it is full, the oldest event is dropped.
unfoldable pub send : RealtimeEvent → Receiver → Receiver
send event r =
    if ltb (length r.pending) channel_capacity
    then record r { pending = r.pending ++ event ∷ [] }
    else record { pending = drop 1 r.pending ++ event ∷ []; lagged = true }

-- What the task of a session writes; `device` is one stream that reads the broadcasts.
pub record World : Type 0 where
  pub db : Db
  pub objects : Objects
  pub upload_file_urls : Map String String
  pub device : Receiver

-- Whose session it is, and the instant and the draws of an event.
pub record Context : Type 0 where
  pub user_id : ℕ
  pub account_id : ℕ
  pub now : ℕ
  pub draws : MessageDraws
  pub reaction_nonce : Bytes

unfoldable pub emit_hosted_realtime : Context → String → String → String → Bool → World → World
emit_hosted_realtime ctx event_type thread_id msg_id outgoing w = record w {
  device =
      send
        (record {
          user_id = ctx.user_id;
          event_type = event_type;
          account_id = ctx.account_id;
          thread_id = thread_id;
          msg_id = msg_id;
          outgoing = outgoing;
        })
        w.device;
}

abbrev pub upload_key : Services → Context → String → String
upload_key o ctx file_id =
    String.◌++◌ (o.print ctx.account_id)
      (String.◌++◌ ":" (if is_blank file_id then "__unknown_file_id__" else file_id))

unfoldable pub handle_hosted_realtime_event :
    Services → Context → HostedRealtimeEvent → World → World
handle_hosted_realtime_event o ctx (message m) w =
    let (r, db, objects) =
      persist_hosted_message o ctx.now ctx.user_id ctx.account_id ctx.draws m w.db w.objects in
    emit_hosted_realtime ctx "message" m.thread_id m.msg_id m.outgoing
      (record w { db = db; objects = objects })
handle_hosted_realtime_event o ctx (reaction x) w =
    emit_hosted_realtime ctx "reaction" x.thread_id x.msg_id x.outgoing (record w {
      db = (persist_hosted_reaction o ctx.user_id ctx.account_id x ctx.reaction_nonce w.db).1;
    })
handle_hosted_realtime_event o ctx (undo x) w =
    emit_hosted_realtime ctx "undo" x.thread_id x.msg_id x.outgoing
      (record w { db = (mark_message_deleted ctx.user_id ctx.account_id x.msg_id w.db).1 })
handle_hosted_realtime_event o ctx (upload x) w = if is_blank x.file_url then w else record w {
  upload_file_urls = Map.put (upload_key o ctx x.file_id) x.file_url w.upload_file_urls;
}

-- `realtime_payload_for_user`, over what was broadcast.
unfoldable pub realtime_for_user : ℕ → List RealtimeEvent → List RealtimeEvent
realtime_for_user user events = select (λ e. e.user_id == user) events

-- What an event tells the devices of its session's user.
abbrev pub told : Context → String → String → String → Bool → RealtimeEvent
told ctx event_type thread_id msg_id outgoing = record {
  user_id = ctx.user_id;
  event_type = event_type;
  account_id = ctx.account_id;
  thread_id = thread_id;
  msg_id = msg_id;
  outgoing = outgoing;
}

unfoldable pub announcement : Context → HostedRealtimeEvent → List RealtimeEvent
announcement ctx (message m) = told ctx "message" m.thread_id m.msg_id m.outgoing ∷ []
announcement ctx (reaction x) = told ctx "reaction" x.thread_id x.msg_id x.outgoing ∷ []
announcement ctx (undo x) = told ctx "undo" x.thread_id x.msg_id x.outgoing ∷ []
announcement ctx (upload x) = []

-- What the stream of a device shows, after its first event, which says that it is connected.
pub data Frame : Type 0 where
  message_frame : RealtimeEvent → Frame
  lagged_frame : Frame

-- The stream of a user's device reads once (`realtime` of routes.rs), and shows a frame, or none.
unfoldable pub read_stream : ℕ → Receiver → List Frame × Receiver
read_stream user r =
    if r.lagged then (lagged_frame ∷ [], record r { lagged = false }) else elim r.pending [
      | [] ↦ ([], r)
      | event ∷ events ↦ (
        if event.user_id == user then message_frame event ∷ [] else [],
        record r { pending = events },
      )
    ]

-- What happens: a session handles an event, or the device's stream reads.
pub data Turn : Type 0 where
  handles : Context → HostedRealtimeEvent → Turn
  reads : Turn

-- What the stream shows in any interleaving of the sessions of all users and its own reads.
unfoldable pub stream : Services → ℕ → List Turn → World → List Frame × World
stream o user [] w = ([], w)
stream o user (handles ctx event ∷ turns) w =
    stream o user turns (handle_hosted_realtime_event o ctx event w)
stream o user (reads ∷ turns) w =
    let (shown, r) = read_stream user w.device in
    let (later, end) = stream o user turns (record w { device = r }) in (shown ++ later, end)
