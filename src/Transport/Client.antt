-- ===== src/Transport/Client.antt =====
-- quic_transport/sdk/impl/quic_transport_owt_client_impl.h and .cc: the client, from its IO thread
-- with its session to the event thread with its visitor.
pub mod Visits
use owt_sdk_quic.Prelude.{
  ℕ, suc, Bool, true, false, not, Option, none, some, List, [], ◌∷◌, ◌++◌, if◌then◌else◌,
}
use owt_sdk_quic.Streams.{ActiveStream, Outcome, post_and_wait}
use owt_sdk_quic.Transport.ClientSession.{
  Session, create_incoming_stream, create_incoming_stream_pending,
  create_outgoing_bidirectional_stream,
}
use owt_sdk_quic.Transport.ClientSession as ClientSession

-- Tasks of the IO thread, and of the event thread.
pub data IoTask : Type 0 where
  start_task stop_task : IoTask

pub data EventTask : Type 0 where
  new_stream_task close_stream_task : ℕ → EventTask

-- A call of the visitor's.
pub data VisitorCall : Type 0 where
  connected_call connection_failed_call connection_closed_call : VisitorCall
  incoming_stream_call stream_closed_call : ℕ → VisitorCall

-- The members; the session is there once the client has connected. The tasks are oldest first, the
-- visitor's calls and the streams reset newest first, and `disconnects` counts the calls of the base
-- class's Disconnect.
pub record Client : Type 0 where
  pub session : Option Session
  pub has_visitor : Bool
  pub io_tasks : List IoTask
  pub event_tasks : List EventTask
  pub calls : List VisitorCall
  pub resets : List ℕ
  pub disconnects : ℕ

unfoldable pub new_client : Client
new_client = record {
  session = none;
  has_visitor = false;
  io_tasks = [];
  event_tasks = [];
  calls = [];
  resets = [];
  disconnects = 0;
}

unfoldable pub set_visitor : Bool → Client → Client
set_visitor given c = record c { has_visitor = given }

unfoldable pub tell : VisitorCall → Client → Client
tell v c = if c.has_visitor then record c { calls = v ∷ c.calls } else c

unfoldable pub start : Client → Client
start c = record c { io_tasks = c.io_tasks ++ start_task ∷ [] }

unfoldable pub stop : Client → Client
stop c = record c { io_tasks = c.io_tasks ++ stop_task ∷ [] }

-- StartOnCurrentThread, for what Initialize and Connect return. Connect makes the session and handles
-- what comes in until it returns, and leaves the session `made`.
unfoldable pub start_on_current_thread : Bool → Bool → Session → Client → Client
unfolding tell
start_on_current_thread initialized connected made c =
    if not initialized
    then tell connection_failed_call c
    else if not connected
    then tell connection_failed_call c
    else tell connected_call (record c { session = some (ClientSession.set_visitor true made) })

unfoldable pub stop_on_current_thread : Client → Client
stop_on_current_thread c = record c { disconnects = suc c.disconnects }

unfoldable pub on_connection_closed : Client → Client
unfolding tell
on_connection_closed c = tell connection_closed_call c

-- NewStreamCreated
unfoldable pub new_stream_created : ℕ → Client → Client
unfolding tell
new_stream_created id c = tell (incoming_stream_call id) c

unfoldable pub on_incoming_new_stream : ℕ → Client → Client
on_incoming_new_stream id c = record c { event_tasks = c.event_tasks ++ new_stream_task id ∷ [] }

unfoldable pub on_stream_closed : ℕ → Client → Client
unfolding tell
on_stream_closed id c = tell (stream_closed_call id) c

unfoldable pub close_stream : ℕ → Client → Client
close_stream id c = record c { event_tasks = c.event_tasks ++ close_stream_task id ∷ [] }

unfoldable pub close_stream_on_current_thread : ℕ → Client → Client
close_stream_on_current_thread id c = record c { resets = id ∷ c.resets }

-- The event thread runs its oldest task.
unfoldable pub run_event_task : List EventTask → Client → Client
run_event_task [] c = c
run_event_task (new_stream_task id ∷ ts) c = new_stream_created id (record c { event_tasks = ts })
run_event_task (close_stream_task id ∷ ts) c =
    close_stream_on_current_thread id (record c { event_tasks = ts })

-- The session, whose visitor is the client, has taken a stream of the peer's or not.
unfoldable pub session_takes : ℕ → Option ActiveStream × Session → Client → Client
session_takes id (none, s) c = record c { session = some s }
session_takes id (some t, s) c =
    let c' = record c { session = some s } in
    if s.has_visitor then on_incoming_new_stream id c' else c'

-- quiche gives the session a stream by its ID, or one that was pending.
unfoldable pub stream_arrives : Bool → ℕ → Client → Client
stream_arrives pending id c = elim c.session [
  | none ↦ c
  | some s ↦
      session_takes id
        (if pending then create_incoming_stream_pending id s else create_incoming_stream id s) c
]

-- The ID of the n-th outgoing stream.
module _ (nth_outgoing_id : ℕ → ℕ) where
  abbrev keep_session : Client → Option ActiveStream × Session → Option ActiveStream × Client
  keep_session c (stream, s) = (stream, record c { session = some s })

  -- CreateBidirectionalStreamOnCurrentThread, where connected() asks the session's connection.
  unfoldable pub create_bidirectional_stream_on_current_thread :
      Client → Option ActiveStream × Client
  create_bidirectional_stream_on_current_thread c = elim c.session [
    | none ↦ (none, c)
    | some s ↦
        if not s.connected
        then (none, c)
        else keep_session c (create_outgoing_bidirectional_stream nth_outgoing_id s)
  ]

  -- CreateBidirectionalStream, called on the event thread or on another one.
  unfoldable pub create_bidirectional_stream :
      Bool → Client → Outcome (Option ActiveStream × Client)
  unfolding post_and_wait
  create_bidirectional_stream on_event_thread c =
      post_and_wait on_event_thread (some (create_bidirectional_stream_on_current_thread c))
