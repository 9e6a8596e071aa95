-- ===== src/Transport/Server.antt =====
-- quic_transport/sdk/impl/quic_transport_owt_server_impl.h and .cc: the server on its IO thread, and
-- what it tells its visitor on the event thread.
pub mod Reading
pub mod Running
pub mod Sessions
pub mod Stopping
use owt_sdk_quic.Prelude.{
  ℕ, suc, Bool, true, false, not, List, [], ◌∷◌, ◌++◌, ◌==◌, ltb, if◌then◌else◌,
}
use owt_sdk_quic.Net.{NetError, is_ok, ReadResult, is_pending, is_packet}

-- A task of the IO thread, and one of the event thread: NewSessionCreated or SessionClosed, which
-- are also the visitor's OnSession and OnClosedSession calls.
pub data Task : Type 0 where
  start_task stop_task start_reading_task : Task
  read_complete_task : ReadResult → Task

pub data SessionCall : Type 0 where
  session_created session_closed : ℕ → SessionCall

-- The members; `waiting` says whether the socket has kept a callback, and `crashed` whether a null
-- pointer was used. Then the tasks of both threads, oldest first, the packets, newest first, and how
-- often Shutdown and ProcessBufferedChlos of the dispatcher were called; then the errors that were
-- logged, newest first, and the visitor's calls, oldest first.
pub record Server : Type 0 where
  pub has_dispatcher : Bool
  pub has_socket : Bool
  pub has_visitor : Bool
  pub read_pending : Bool
  pub synchronous_read_count : ℕ
  pub waiting : Bool
  pub crashed : Bool
  pub tasks : List Task
  pub event_tasks : List SessionCall
  pub packets : List ReadResult
  pub shutdowns : ℕ
  pub chlo_rounds : ℕ
  pub logged : List NetError
  pub calls : List SessionCall

unfoldable pub new_server : Bool → Server
new_server has_visitor = record {
  has_dispatcher = false;
  has_socket = false;
  has_visitor = has_visitor;
  read_pending = false;
  synchronous_read_count = 0;
  waiting = false;
  crashed = false;
  tasks = [];
  event_tasks = [];
  packets = [];
  shutdowns = 0;
  chlo_rounds = 0;
  logged = [];
  calls = [];
}

unfoldable pub post : Task → Server → Server
post t s = record s { tasks = s.tasks ++ t ∷ [] }

-- Start, and what it returns.
unfoldable pub start : Server → Bool × Server
unfolding post
start s = (true, post start_task s)

unfoldable pub stop : Server → Server
unfolding post
stop s = post stop_task s

-- StopOnCurrentThread. The socket, closed, drops its callback.
unfoldable pub stop_on_current_thread : Server → Server
stop_on_current_thread s =
    if not s.has_dispatcher
    then record s { crashed = true }
    else if not s.has_socket
    then record s { shutdowns = suc s.shutdowns }
    else record s { shutdowns = suc s.shutdowns; has_socket = false; waiting = false }

unfoldable pub schedule_read_packets : Server → Server
unfolding post
schedule_read_packets s = post start_reading_task s

-- StartReading up to the test of `read_pending_`.
unfoldable pub process_chlos : Server → Server
process_chlos s = record s {
  chlo_rounds = if s.synchronous_read_count == 0 then suc s.chlo_rounds else s.chlo_rounds;
}

-- StartReading after ERR_IO_PENDING. The dispatcher says whether CHLOs are buffered.
unfoldable pub wait_for_packet : Bool → Server → Server
wait_for_packet has_chlos s = record s {
  read_pending = true;
  waiting = true;
  synchronous_read_count = 0;
  tasks = if has_chlos then s.tasks ++ start_reading_task ∷ [] else s.tasks;
}

-- StartReading where it has counted more than 32 results.
unfoldable pub post_result : ReadResult → Server → Server
post_result r s = record s {
  read_pending = true;
  synchronous_read_count = 0;
  tasks = s.tasks ++ read_complete_task r ∷ [];
}

-- The bound on the results in one go, which the source writes as 32.
abbrev pub max_synchronous_reads : ℕ
max_synchronous_reads = 32

-- OnReadComplete but for the call of StartReading, which follows a packet.
unfoldable pub complete_read : ReadResult → Server → Server
unfolding stop
complete_read r s =
    if is_packet r
    then record s { read_pending = false; packets = r ∷ s.packets }
    else stop (record s { read_pending = false })

-- StartReading, and through OnReadComplete itself again. RecvFrom takes its results from a list:
-- where it is empty it returns ERR_IO_PENDING. The results that are left come back.
unfoldable pub start_reading : Bool → List ReadResult → Server → List ReadResult × Server
unfolding process_chlos wait_for_packet post_result complete_read
start_reading has_chlos [] s = (
  [],
  if s.read_pending
      then process_chlos s
      else if not s.has_socket
      then record (process_chlos s) { crashed = true }
      else wait_for_packet has_chlos (process_chlos s),
)
start_reading has_chlos (r ∷ rs) s =
    let counted = suc s.synchronous_read_count in
    let s' = complete_read r (record (process_chlos s) { synchronous_read_count = counted }) in
    let rest = start_reading has_chlos rs s' in
    if s.read_pending
    then (r ∷ rs, process_chlos s)
    else if not s.has_socket
    then (r ∷ rs, record (process_chlos s) { crashed = true })
    else if is_pending r
    then (rs, wait_for_packet has_chlos (process_chlos s))
    else if ltb max_synchronous_reads counted
    then (rs, post_result r (process_chlos s))
    else if is_packet r
    then rest
    else (rs, s')

unfoldable pub on_read_complete :
    Bool → ReadResult → List ReadResult → Server → List ReadResult × Server
unfolding complete_read start_reading
on_read_complete has_chlos r rs s =
    let s' = complete_read r s in if is_packet r then start_reading has_chlos rs s' else (rs, s')

-- The results of the calls that StartOnCurrentThread makes on the socket.
pub record ListenAnswers : Type 0 where
  pub listen : NetError
  pub set_receive_buffer_size : NetError
  pub set_send_buffer_size : NetError
  pub get_local_address : NetError

abbrev pub log_error : NetError → List NetError → List NetError
log_error e logged = if is_ok e then logged else e ∷ logged

-- StartOnCurrentThread: an error is logged, and the server goes on.
unfoldable pub start_on_current_thread :
    ListenAnswers → Bool → List ReadResult → Server → List ReadResult × Server
unfolding start_reading
start_on_current_thread a has_chlos rs s = start_reading has_chlos rs (record s {
  logged = log_error a.get_local_address (
      log_error a.set_send_buffer_size
        (log_error a.set_receive_buffer_size (log_error a.listen s.logged)));
  has_socket = true;
  has_dispatcher = true;
})

-- OnSessionCreated and OnSessionClosed post their tasks to the event thread.
unfoldable pub on_session : SessionCall → Server → Server
on_session c s = record s { event_tasks = s.event_tasks ++ c ∷ [] }

-- NewSessionCreated and SessionClosed
unfoldable pub run_event_task : List SessionCall → Server → Server
run_event_task [] s = s
run_event_task (c ∷ cs) s = record s {
  event_tasks = cs;
  calls = if s.has_visitor then s.calls ++ c ∷ [] else s.calls;
}

unfoldable pub run_task :
    ListenAnswers → Bool → List Task → List ReadResult → Server → List ReadResult × Server
unfolding start_reading on_read_complete start_on_current_thread
run_task a has_chlos [] rs s = (rs, s)
run_task a has_chlos (start_task ∷ ts) rs s =
    start_on_current_thread a has_chlos rs (record s { tasks = ts })
run_task a has_chlos (stop_task ∷ ts) rs s = (rs, stop_on_current_thread (record s { tasks = ts }))
run_task a has_chlos (start_reading_task ∷ ts) rs s =
    start_reading has_chlos rs (record s { tasks = ts })
run_task a has_chlos (read_complete_task r ∷ ts) rs s =
    on_read_complete has_chlos r rs (record s { tasks = ts })
