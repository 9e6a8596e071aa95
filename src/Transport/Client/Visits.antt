-- ===== src/Transport/Client/Visits.antt =====
-- What the visitor of a client gets to know of its streams.
use owt_sdk_quic.Prelude.{ℕ, ◌≡◌, Bool, true, Option, none, some, List, [], ◌∷◌, ◌++◌}
use owt_sdk_quic.Transport.ClientSession.{Session}
use owt_sdk_quic.Streams.{incoming_ids}
use owt_sdk_quic.Transport.ClientSession as ClientSession
use owt_sdk_quic.Transport.ClientSession.Guards as SessionEvents
use owt_sdk_quic.Transport.Client.{
  EventTask, new_stream_task, close_stream_task, VisitorCall, connected_call,
  connection_failed_call, connection_closed_call, incoming_stream_call, stream_closed_call, Client,
  on_connection_closed, on_stream_closed, close_stream, run_event_task, stream_arrives,
  create_bidirectional_stream_on_current_thread,
}

-- What happens to a client once it has started.
pub data Event : Type 0 where
  arrives : Bool → ℕ → Event
  stream_ends closes : ℕ → Event
  event_task_due connection_lost stream_wanted : Event

-- The session's OnConnectionClosed, whose visitor is the client.
unfoldable pub lose : Option Session → Client → Client
lose none c = c
lose (some s) c =
    on_connection_closed (record c { session = some (ClientSession.on_connection_closed s) })

module _ (nth_outgoing_id : ℕ → ℕ) where
  unfoldable pub step : Event → Client → Client
  step (arrives pending id) c = stream_arrives pending id c
  step (stream_ends id) c = on_stream_closed id c
  step (closes id) c = close_stream id c
  step event_task_due c = run_event_task c.event_tasks c
  step connection_lost c = lose c.session c
  step stream_wanted c = (create_bidirectional_stream_on_current_thread nth_outgoing_id c).1

  unfoldable pub run : List Event → Client → Client
  run [] c = c
  run (e ∷ es) c = run es (step e c)

-- The streams that were shown, newest first.
abbrev pub shown : List VisitorCall → List ℕ
shown [] = []
shown (incoming_stream_call id ∷ vs) = id ∷ shown vs
shown (connected_call ∷ vs) = shown vs
shown (connection_failed_call ∷ vs) = shown vs
shown (connection_closed_call ∷ vs) = shown vs
shown (stream_closed_call id ∷ vs) = shown vs

-- The streams that are yet to be shown, one by one onto those that were.
abbrev pub to_show : List EventTask → List ℕ → List ℕ
to_show [] ids = ids
to_show (new_stream_task id ∷ ts) ids = to_show ts (id ∷ ids)
to_show (close_stream_task id ∷ ts) ids = to_show ts ids

-- The streams of the peer's that the session has taken, newest first.
abbrev pub taken_by : Option Session → List ℕ
taken_by none = []
taken_by (some s) = incoming_ids s.streams

abbrev pub is_watched : Option Session → Bool
is_watched none = true
is_watched (some s) = s.has_visitor

-- The client has its visitor, the session has the client, and the streams that the session took are
-- the early ones, those that the visitor has seen, and then those that it is going to see.
record Shows (early : List ℕ) (c : Client) : Type 0 where
  visited : c.has_visitor ≡ true
  watched : is_watched c.session ≡ true
  told : taken_by c.session ≡ to_show c.event_tasks (shown c.calls) ++ early
