-- ===== src/Transport/ServerSession.antt =====
-- quic_transport/sdk/impl/quic_transport_owt_server_session.h and .cc: a server's session, its
-- streams, and the calls that cross from one thread to another.
pub mod Guards
use owt_sdk_quic.Prelude.{
  ℕ, suc, Bool, true, false, not, Option, none, some, List, [], ◌∷◌, ◌++◌, if◌then◌else◌,
}
use owt_sdk_quic.Net.{QuicErrorCode, invalid_stream_id, peer_going_away}
use owt_sdk_quic.Streams.{
  ActiveStream, incoming_stream, outgoing_stream, bidirectional, write_unidirectional, Outcome,
  post_and_wait,
}

-- A task posted to the IO thread.
pub data Task : Type 0 where
  stop_task : Task
  close_stream_task : ℕ → Task

-- What the guards read, how many streams of either kind the session opened, the active streams, the
-- calls of the visitor's OnIncomingStream and OnStreamClosed, newest first, the codes of the
-- session's CloseConnection calls, newest first, the streams reset, newest first, how often the
-- crypto stream's callbacks were cancelled, and the tasks posted, oldest first. Closing the
-- connection disconnects it.
pub record Session : Type 0 where
  pub connected : Bool
  pub encryption_established : Bool
  pub has_visitor : Bool
  pub bidirectional_count : ℕ
  pub unidirectional_count : ℕ
  pub streams : List ActiveStream
  pub incoming_calls : List ℕ
  pub closed_calls : List ℕ
  pub closes : List QuicErrorCode
  pub resets : List ℕ
  pub cancelled : ℕ
  pub tasks : List Task

unfoldable pub new_session : Session
new_session = record {
  connected = true;
  encryption_established = false;
  has_visitor = false;
  bidirectional_count = 0;
  unidirectional_count = 0;
  streams = [];
  incoming_calls = [];
  closed_calls = [];
  closes = [];
  resets = [];
  cancelled = 0;
  tasks = [];
}

unfoldable pub close_connection : QuicErrorCode → Session → Session
close_connection code s = record s { connected = false; closes = code ∷ s.closes }

-- OnConnectionClosed
unfoldable pub on_connection_closed : Session → Session
on_connection_closed s = record s { connected = false; cancelled = suc s.cancelled }

unfoldable pub on_stream_closed : ℕ → Session → Session
on_stream_closed id s = if s.has_visitor then record s { closed_calls = id ∷ s.closed_calls } else s

unfoldable pub on_encryption_established : Session → Session
on_encryption_established s = record s { encryption_established = true }

unfoldable pub stop_on_current_thread : Session → Session
unfolding close_connection
stop_on_current_thread = close_connection peer_going_away

-- Stop, on the IO thread or not.
unfoldable pub stop : Bool → Session → Session
unfolding stop_on_current_thread
stop on_io_thread s =
    if on_io_thread
    then stop_on_current_thread s
    else record s { tasks = s.tasks ++ stop_task ∷ [] }

unfoldable pub set_visitor : Bool → Session → Session
set_visitor given s = record s { has_visitor = given }

unfoldable pub close_stream_on_current_thread : ℕ → Session → Session
close_stream_on_current_thread id s = record s { resets = id ∷ s.resets }

unfoldable pub close_stream : ℕ → Session → Session
close_stream id s = record s { tasks = s.tasks ++ close_stream_task id ∷ [] }

unfoldable pub run_task : Task → Session → Session
run_task stop_task s = stop_on_current_thread s
run_task (close_stream_task id) s = close_stream_on_current_thread id s

-- A stream of the peer's is activated and shown to the visitor.
unfoldable pub activate_incoming : ℕ → Session → Session
activate_incoming id s = record s {
  streams = incoming_stream bidirectional id ∷ s.streams;
  incoming_calls = if s.has_visitor then id ∷ s.incoming_calls else s.incoming_calls;
}

-- CreateIncomingStream of a pending stream.
unfoldable pub create_incoming_stream_pending : ℕ → Session → Option ActiveStream × Session
create_incoming_stream_pending id s =
    (some (incoming_stream bidirectional id), activate_incoming id s)

-- QuicUtils::IsServerInitiatedStreamId for the connection's version, and the IDs of the n-th
-- outgoing streams of both kinds. `can_open` is what CanOpenNext... answers at the call, and
-- `on_event_thread` says whether the caller is on the event thread.
module _ (is_server_initiated : ℕ → Bool) (nth_bidirectional_id nth_unidirectional_id : ℕ → ℕ) where
  unfoldable pub should_create_incoming_stream : ℕ → Session → Bool × Session
  unfolding close_connection
  should_create_incoming_stream id s =
      if not s.connected
      then (false, s)
      else if is_server_initiated id
      then (false, close_connection invalid_stream_id s)
      else (true, s)

  unfoldable pub should_create_outgoing_bidirectional_stream : Bool → Session → Bool
  should_create_outgoing_bidirectional_stream can_open s =
      if not s.connected then false else if not s.encryption_established then false else can_open

  unfoldable pub should_create_outgoing_unidirectional_stream : Bool → Session → Bool
  should_create_outgoing_unidirectional_stream can_open s =
      if not s.connected then false else if not s.encryption_established then false else can_open

  unfoldable pub create_incoming_stream_on_current_thread :
      ℕ → Session → Option ActiveStream × Session
  unfolding should_create_incoming_stream
  create_incoming_stream_on_current_thread id s =
      let (allowed, s') = should_create_incoming_stream id s in
      if not allowed
      then (none, s')
      else (some (incoming_stream bidirectional id), activate_incoming id s')

  -- CreateIncomingStream
  unfoldable pub create_incoming_stream :
      Bool → ℕ → Session → Outcome (Option ActiveStream × Session)
  unfolding post_and_wait
  create_incoming_stream on_event_thread id s =
      post_and_wait on_event_thread (some (create_incoming_stream_on_current_thread id s))

  unfoldable pub create_bidirectional_stream_on_current_thread :
      Bool → Session → Option ActiveStream × Session
  create_bidirectional_stream_on_current_thread can_open s =
      let stream = outgoing_stream bidirectional (nth_bidirectional_id s.bidirectional_count) in
      if not (should_create_outgoing_bidirectional_stream can_open s) then (none, s) else (
        some stream,
        record s { streams = stream ∷ s.streams; bidirectional_count = suc s.bidirectional_count },
      )

  -- CreateOutgoingBidirectionalStream
  unfoldable pub create_outgoing_bidirectional_stream :
      Bool → Bool → Session → Outcome (Option ActiveStream × Session)
  unfolding post_and_wait
  create_outgoing_bidirectional_stream on_event_thread can_open s =
      post_and_wait on_event_thread
        (some (create_bidirectional_stream_on_current_thread can_open s))

  -- CreateBidirectionalStream, the call of the API's user.
  unfoldable pub create_bidirectional_stream :
      Bool → Bool → Session → Outcome (Option ActiveStream × Session)
  unfolding create_outgoing_bidirectional_stream
  create_bidirectional_stream on_event_thread can_open s =
      if not s.connected
      then Outcome.finished (none, s)
      else create_outgoing_bidirectional_stream on_event_thread can_open s

  unfoldable pub create_outgoing_unidirectional_stream :
      Bool → Session → Option ActiveStream × Session
  create_outgoing_unidirectional_stream can_open s =
      let stream =
        outgoing_stream write_unidirectional (nth_unidirectional_id s.unidirectional_count) in
      if not (should_create_outgoing_unidirectional_stream can_open s) then (none, s) else (
        some stream,
        record s {
          streams = stream ∷ s.streams;
          unidirectional_count = suc s.unidirectional_count;
        },
      )
