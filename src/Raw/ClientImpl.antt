-- ===== src/Raw/ClientImpl.antt =====
-- RawClientImpl of quic_io/src/wrapper/quic_raw_lib.cc: the raw client's thread, its loop and its
-- stream.
pub mod Sending
use owt_sdk_quic.Prelude.{
  ℕ, suc, Bool, true, false, not, Option, none, some, List, [], ◌∷◌, ◌++◌, ◌==◌, if◌then◌else◌,
  take,
}

-- A QuicRawStream: its address and its stream ID.
pub record Stream : Type 0 where
  pub address : ℕ
  pub id : ℕ

-- A SendOnStream task, or the loop's QuitClosure.
pub data Task : Type 0 where
  send_on_stream_task : ℕ → List ℕ → Task
  quit_task : Task

-- A call of the listener's onData, or data that went to a stream.
pub record DataCall : Type 0 where
  pub session_id : ℕ
  pub stream_id : ℕ
  pub content : List ℕ

pub record Sent : Type 0 where
  pub stream_id : ℕ
  pub content : List ℕ

-- The members; `crashed` says that a null pointer was used. `has_message_loop` says whether
-- `message_loop_` is set. Then the tasks posted and the data sent, oldest first, the listener's
-- onData calls, newest first, and the number of its onReady calls.
pub record ClientImpl : Type 0 where
  pub stream : Option Stream
  pub has_session : Bool
  pub has_message_loop : Bool
  pub has_thread : Bool
  pub has_listener : Bool
  pub tasks : List Task
  pub sent : List Sent
  pub data_calls : List DataCall
  pub ready_calls : ℕ
  pub crashed : Bool

unfoldable pub new_client : ClientImpl
new_client = record {
  stream = none;
  has_session = false;
  has_message_loop = false;
  has_thread = false;
  has_listener = false;
  tasks = [];
  sent = [];
  data_calls = [];
  ready_calls = 0;
  crashed = false;
}

unfoldable pub start : ClientImpl → Bool × ClientImpl
start c = if not c.has_thread then (true, record c { has_thread = true }) else (false, c)

unfoldable pub stop : ClientImpl → ClientImpl
stop c = if c.has_message_loop then record c { tasks = c.tasks ++ quit_task ∷ [] } else c

-- waitForClose, when the thread has ended.
unfoldable pub wait_for_close : ClientImpl → ClientImpl
wait_for_close c = record c { has_thread = false }

-- send(stream_id, data, len), where `memory` starts at `data`.
unfoldable pub send_to : ℕ → List ℕ → ℕ → ClientImpl → ClientImpl
send_to stream_id memory len c =
    if c.has_message_loop
    then record c { tasks = c.tasks ++ send_on_stream_task stream_id (take len memory) ∷ [] }
    else c

-- send(data, len)
unfoldable pub send : List ℕ → ℕ → ClientImpl → ClientImpl
unfolding send_to
send memory len c = elim c.stream [ none ↦ c | some t ↦ send_to t.id memory len c ]

unfoldable pub set_listener : Bool → ClientImpl → ClientImpl
set_listener given c = record c { has_listener = given }

abbrev pub is_same_stream : Stream → Option Stream → Bool
is_same_stream t none = false
is_same_stream t (some u) = t.address == u.address

-- OnClose
unfoldable pub on_close : Stream → ClientImpl → ClientImpl
on_close t c = record c { stream = if is_same_stream t c.stream then none else c.stream }

-- OnData
unfoldable pub on_data : Stream → List ℕ → ClientImpl → ClientImpl
on_data t content c =
    if c.has_listener
    then record c {
      data_calls = record { session_id = 0; stream_id = t.id; content = content } ∷ c.data_calls;
    }
    else c

-- What InitAndRun is told: whether the host is an address or can be resolved, what Initialize and
-- Connect return, and the stream that the session makes.
pub record InitAnswers : Type 0 where
  pub has_address : Bool
  pub initialize : Bool
  pub connect : Bool
  pub stream : Option Stream

-- InitAndRun up to the run of the loop.
unfoldable pub init_and_run : InitAnswers → ClientImpl → ClientImpl
init_and_run a c =
    if not a.has_address
    then c
    else if not a.initialize
    then c
    else if not a.connect
    then c
    else elim a.stream [
      | none ↦ record c { has_session = true; stream = none; crashed = true }
      | some t ↦ record c {
        has_session = true;
        stream = some t;
        has_message_loop = true;
        ready_calls = if c.has_listener then suc c.ready_calls else c.ready_calls;
      }
    ]

-- InitAndRun after the loop.
unfoldable pub loop_ended : ClientImpl → ClientImpl
loop_ended c = record c { has_message_loop = false }

-- SendOnStream, where `has_stream` says whether the session gets or makes the stream with the ID.
unfoldable pub send_on_stream : (ℕ → Bool) → ℕ → List ℕ → ClientImpl → ClientImpl
send_on_stream has_stream stream_id content c =
    if has_stream stream_id
    then record c { sent = c.sent ++ record { stream_id = stream_id; content = content } ∷ [] }
    else c

-- The loop runs the tasks until the one that quits it.
unfoldable pub run_loop : (ℕ → Bool) → List Task → ClientImpl → ClientImpl
run_loop has_stream [] c = c
run_loop has_stream (quit_task ∷ ts) c = loop_ended c
run_loop has_stream (send_on_stream_task stream_id content ∷ ts) c =
    run_loop has_stream ts (send_on_stream has_stream stream_id content c)

-- A call of the user's.
pub data Call : Type 0 where
  calls_stop : Call
  calls_send : List ℕ → ℕ → Call
  calls_send_to : ℕ → List ℕ → ℕ → Call

unfoldable pub call : Call → ClientImpl → ClientImpl
call calls_stop c = stop c
call (calls_send memory len) c = send memory len c
call (calls_send_to stream_id memory len) c = send_to stream_id memory len c

unfoldable pub calls : List Call → ClientImpl → ClientImpl
calls [] c = c
calls (k ∷ ks) c = calls ks (call k c)
