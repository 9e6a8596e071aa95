-- ===== src/Transport/Server/Running.antt =====
-- That a server that is not stopped goes on reading.
use owt_sdk_quic.Prelude.{
  ◌≤◌, ◌+◌, ◌≡◌, refl, Bool, true, false, ◌&&◌, List, [], ◌∷◌, if◌then◌else◌, arith,
}
use owt_sdk_quic.Net.{ReadResult, is_packet}
use owt_sdk_quic.Streams.{all_of}
use owt_sdk_quic.Transport.Server.{
  Task, start_task, stop_task, start_reading_task, read_complete_task, SessionCall, Server,
  new_server, start, stop, post, complete_read, on_read_complete, ListenAnswers,
  start_on_current_thread, on_session, run_event_task, run_task, start_reading,
  max_synchronous_reads,
}
use owt_sdk_quic.Transport.Server.Reading.{
  is_fine, held, Reads, start_reading-Reads, start_reading-pending,
}

-- What comes next: the socket's callback with a result, if the socket has one to call, the oldest
-- task of either thread, a call of Stop, or the dispatcher's word of a session.
pub data Event : Type 0 where
  socket_result : ReadResult → Event
  task_due event_task_due stop_called : Event
  session_changed : SessionCall → Event

-- An event comes with the results that the socket then has in stock and the dispatcher's answer.
pub record Round : Type 0 where
  pub event : Event
  pub stock : List ReadResult
  pub has_chlos : Bool

module _ (a : ListenAnswers) where
  unfoldable pub handle : Event → List ReadResult → Bool → Server → Server
  handle (socket_result r) rs h s =
      if s.waiting then (on_read_complete h r rs (record s { waiting = false })).1 else s
  handle task_due rs h s = (run_task a h s.tasks rs s).1
  handle event_task_due rs h s = run_event_task s.event_tasks s
  handle stop_called rs h s = stop s
  handle (session_changed c) rs h s = on_session c s

  unfoldable pub run : List Round → Server → Server
  run [] s = s
  run (e ∷ es) s = run es (handle e.event e.stock e.has_chlos s)

abbrev pub is_fine_event : Event → Bool
is_fine_event (socket_result r) = is_packet r
is_fine_event stop_called = false
is_fine_event e = true

-- The socket returns no error, and nobody calls Stop.
abbrev pub is_fine_round : Round → Bool
is_fine_round e = is_fine_event e.event && all_of is_fine e.stock

-- The server has its socket and has used no null pointer, and a read is under way: `read_pending_` is
-- set, and exactly one result is awaited, by the socket's callback or by a posted task with a packet.
-- No other task of the IO thread is posted but StartReading.
pub record ReadsOn (s : Server) : Type 0 where
  pub whole : (s.has_socket ≡ true) × (s.crashed ≡ false)
  pub pending : s.read_pending ≡ true
  pub one_awaited : held s.tasks + (if s.waiting then 1 else 0) ≡ 1
  pub bounded : s.synchronous_read_count ≤ max_synchronous_reads

reads_on : (s : Server) → Reads s → s.read_pending ≡ true → ReadsOn s
reads_on s v p = ground (arith, v.whole, v.one_read, v.bounded, p)

start_reading-ReadsOn :
    (h : Bool) (rs : List ReadResult) (s : Server)
    → all_of is_fine rs ≡ true
    → Reads s
    → ReadsOn (start_reading h rs s).1
start_reading-ReadsOn h rs s f v =
    reads_on _ (start_reading-Reads h rs s f v) (start_reading-pending h rs s f v.whole.0)

on_read_complete-ReadsOn :
    (h : Bool) (r : ReadResult) (rs : List ReadResult) (s : Server)
    → is_packet r ≡ true
    → all_of is_fine rs ≡ true
    → (s.has_socket ≡ true) × (s.crashed ≡ false)
    → held s.tasks ≡ 0
    → s.waiting ≡ false
    → s.synchronous_read_count ≤ 32
    → ReadsOn (on_read_complete h r rs s).1
unfolding on_read_complete complete_read
on_read_complete-ReadsOn h r rs s p f w z n b =
    ground (arith, p, w, start_reading-ReadsOn h rs (complete_read r s) f)

run_task-ReadsOn :
    (a : ListenAnswers) (h : Bool) (ts : List Task) (rs : List ReadResult) (s : Server)
    → s.tasks ≡ ts
    → all_of is_fine rs ≡ true
    → ReadsOn s
    → ReadsOn (run_task a h ts rs s).1
unfolding run_task
run_task-ReadsOn a h [] rs s e f v = v
run_task-ReadsOn a h (start_task ∷ ts) rs s e f v = ground (arith, e, v.one_awaited)
run_task-ReadsOn a h (stop_task ∷ ts) rs s e f v = ground (arith, e, v.one_awaited)
run_task-ReadsOn a h (start_reading_task ∷ ts) rs s e f v =
    start_reading-ReadsOn h rs (record s { tasks = ts }) f
      (ground (arith, e, v.whole, v.pending, v.one_awaited, v.bounded))
run_task-ReadsOn a h (read_complete_task r ∷ ts) rs s e f v = ground (
  arith,
  e,
  v.whole,
  v.one_awaited,
  v.bounded,
  on_read_complete-ReadsOn h r rs (record s { tasks = ts }),
)

-- What concerns sessions changes nothing here.
same-ReadsOn :
    (s : Server) (cs ds : List SessionCall)
    → ReadsOn s
    → ReadsOn (record s { event_tasks = cs; calls = ds })
same-ReadsOn s cs ds v = record {
  whole = v.whole;
  pending = v.pending;
  one_awaited = v.one_awaited;
  bounded = v.bounded;
}

event_task-ReadsOn :
    (cs : List SessionCall) (s : Server) → ReadsOn s → ReadsOn (run_event_task cs s)
unfolding run_event_task
event_task-ReadsOn [] s v = v
event_task-ReadsOn (c ∷ cs) s v = same-ReadsOn s cs _ v

handle-ReadsOn :
    (a : ListenAnswers) (e : Event) (rs : List ReadResult) (h : Bool) (s : Server)
    → is_fine_event e ≡ true
    → all_of is_fine rs ≡ true
    → ReadsOn s
    → ReadsOn (handle a e rs h s)
unfolding handle on_session
handle-ReadsOn a (socket_result r) rs h s p f v = ground (
  arith,
  p,
  v.whole,
  v.pending,
  v.one_awaited,
  v.bounded,
  on_read_complete-ReadsOn h r rs (record s { waiting = false }),
)
handle-ReadsOn a task_due rs h s p f v = run_task-ReadsOn a h s.tasks rs s refl f v
handle-ReadsOn a event_task_due rs h s p f v = event_task-ReadsOn s.event_tasks s v
handle-ReadsOn a stop_called rs h s p f v = ground (arith, p)
handle-ReadsOn a (session_changed c) rs h s p f v = same-ReadsOn s _ s.calls v

run-ReadsOn :
    (a : ListenAnswers) (es : List Round) (s : Server)
    → all_of is_fine_round es ≡ true
    → ReadsOn s
    → ReadsOn (run a es s)
unfolding run
run-ReadsOn a [] s f v = v
run-ReadsOn a (e ∷ es) s f v =
    run-ReadsOn a es (handle a e.event e.stock e.has_chlos s) (ground (arith, f))
      (handle-ReadsOn a e.event e.stock e.has_chlos s (ground (arith, f)) (ground (arith, f)) v)

started-ReadsOn :
    (a : ListenAnswers) (h visitor : Bool) (rs : List ReadResult)
    → all_of is_fine rs ≡ true
    → ReadsOn (handle a task_due rs h (start (new_server visitor)).1)
unfolding handle run_task start post new_server start_on_current_thread
started-ReadsOn a h visitor rs f =
    start_reading-ReadsOn h rs _ f
      (record { whole = (refl, refl); one_read = refl; bounded = omega arith })

-- Once it is started, and whatever the socket's setup answered then, the server reads on as long as the
-- socket returns no error and nobody calls Stop: after any events it keeps its socket, it has used no
-- null pointer, and a read is under way, with `read_pending_` set and exactly one result awaited, by
-- the socket's callback or by a posted task with a packet. No task of the IO thread stops or starts it
-- again.
pub server_stays_up :
    (a : ListenAnswers) (h visitor : Bool) (rs : List ReadResult) (es : List Round)
    → all_of is_fine rs ≡ true
    → all_of is_fine_round es ≡ true
    → ReadsOn (run a es (handle a task_due rs h (start (new_server visitor)).1))
server_stays_up a h visitor rs es f fs =
    run-ReadsOn a es (handle a task_due rs h (start (new_server visitor)).1) fs
      (started-ReadsOn a h visitor rs f)
