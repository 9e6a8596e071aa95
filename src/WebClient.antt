-- ===== src/WebClient.antt =====
-- web_transport/sdk/impl/web_transport_owt_client_impl.h and .cc: the WebTransport client that the
-- API's user holds, between the IO thread with its session and the event thread with its visitor.
pub mod Visits
pub mod Connection
use owt_sdk_quic.Prelude.{
  ℕ, Bool, true, false, not, Option, none, some, List, [], ◌∷◌, ◌++◌, if◌then◌else◌,
}
use owt_sdk_quic.Net.{QuicMessageStatus, MessageStatus, convert_message_status}
use owt_sdk_quic.Streams.{Outcome, finished, post_and_wait}

-- A task posted to the event thread.
pub data Task : Type 0 where
  fire_on_connected fire_on_connection_failed : Task
  incoming_available : Bool → Task

-- What a session's close says: the code and the reason.
pub record CloseInfo : Type 0 where
  pub code : ℕ
  pub reason : List ℕ

-- A call of the visitor's. OnClosed gets a code and a string or null.
pub data VisitorCall : Type 0 where
  connected_call connection_failed_call : VisitorCall
  closed_call : ℕ → Option (List ℕ) → VisitorCall
  incoming_stream_call : ℕ → VisitorCall
  datagram_processed_call : MessageStatus → VisitorCall

-- The members; a native stream is a number. `is_debug` says whether the build evaluates a DCHECK's
-- condition, and `crashed` whether a CHECK failed or an empty optional was used. `accepted` holds the
-- incoming streams taken from the session, `fins` those that got a FIN; both are newest first, like
-- `streams_`. The tasks of the event thread and the visitor's calls are oldest first.
pub record Client : Type 0 where
  pub is_debug : Bool
  pub has_visitor : Bool
  pub crashed : Bool
  pub streams : List ℕ
  pub accepted : List ℕ
  pub fins : List ℕ
  pub tasks : List Task
  pub calls : List VisitorCall

unfoldable pub new_client : Bool → Client
new_client is_debug = record {
  is_debug = is_debug;
  has_visitor = false;
  crashed = false;
  streams = [];
  accepted = [];
  fins = [];
  tasks = [];
  calls = [];
}

unfoldable pub set_visitor : Bool → Client → Client
set_visitor given c = record c { has_visitor = given }

unfoldable pub call : VisitorCall → Client → Client
call v c = record c { calls = c.calls ++ v ∷ [] }

unfoldable pub fire_event : VisitorCall → Client → Client
unfolding call
fire_event v c = if c.has_visitor then call v c else c

unfoldable pub post : Task → Client → Client
post t c = record c { tasks = c.tasks ++ t ∷ [] }

unfoldable pub on_connected : Client → Client
unfolding post
on_connected c = post fire_on_connected c

unfoldable pub on_connection_failed : Client → Client
unfolding post
on_connection_failed c = post fire_on_connection_failed c

-- OnError, which only logs.
unfoldable pub on_error : Client → Client
on_error c = c

unfoldable pub on_closed : Option CloseInfo → Client → Client
unfolding call
on_closed (some info) c = if not c.has_visitor then c else call (closed_call info.code none) c
on_closed none c = if not c.has_visitor then c else record c { crashed = true }

-- OnIncomingBidirectionalStreamAvailable and OnIncomingUnidirectionalStreamAvailable
unfoldable pub on_incoming_available : Bool → Client → Client
unfolding post
on_incoming_available bidirectional c = post (incoming_available bidirectional) c

-- OwtStreamForNativeStream
unfoldable pub owt_stream_for_native_stream : ℕ → Client → Client
owt_stream_for_native_stream stream c = record c { streams = stream ∷ c.streams }

-- OnIncomingStreamAvailable, where the session has the stream or none.
unfoldable pub on_incoming_stream_available : Option ℕ → Client → Client
unfolding call owt_stream_for_native_stream
on_incoming_stream_available none c = record c { crashed = true }
on_incoming_stream_available (some stream) c =
    let c' = record c { accepted = stream ∷ c.accepted } in
    if c.has_visitor
    then call (incoming_stream_call stream) (owt_stream_for_native_stream stream c')
    else if c.is_debug
    then record c' { fins = stream ∷ c.fins }
    else c'

unfoldable pub on_datagram_processed : Option QuicMessageStatus → Client → Client
unfolding call convert_message_status
on_datagram_processed status c =
    if c.has_visitor then call (datagram_processed_call (convert_message_status status)) c else c

-- CreateOutgoingStreamOnCurrentThread for one kind of stream: whether the session can open one, and
-- the stream that it opens.
unfoldable pub create_outgoing_stream_on_current_thread : Bool → ℕ → Client → Option ℕ × Client
unfolding owt_stream_for_native_stream
create_outgoing_stream_on_current_thread can_open stream c =
    if not can_open then (none, c) else (some stream, owt_stream_for_native_stream stream c)

-- CreateOutgoingStream, called on the IO thread or on another one.
unfoldable pub create_outgoing_stream : Bool → Bool → ℕ → Client → Outcome (Option ℕ × Client)
unfolding post_and_wait
create_outgoing_stream on_io_thread can_open stream c =
    post_and_wait on_io_thread (some (create_outgoing_stream_on_current_thread can_open stream c))

-- SendOrQueueDatagram, where the session returns the status.
unfoldable pub send_or_queue_datagram : Bool → QuicMessageStatus → Outcome MessageStatus
unfolding post_and_wait convert_message_status
send_or_queue_datagram on_io_thread status =
    if on_io_thread
    then finished (convert_message_status (some status))
    else post_and_wait false (some (convert_message_status (some status)))

-- The event thread runs a task, for which the session has this stream.
unfoldable pub run_task : Option ℕ → List Task → Client → Client
unfolding fire_event
run_task stream [] c = c
run_task stream (fire_on_connected ∷ ts) c = fire_event connected_call (record c { tasks = ts })
run_task stream (fire_on_connection_failed ∷ ts) c =
    fire_event connection_failed_call (record c { tasks = ts })
run_task stream (incoming_available bidirectional ∷ ts) c =
    on_incoming_stream_available stream (record c { tasks = ts })
