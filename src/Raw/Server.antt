-- ===== src/Raw/Server.antt =====
-- quic_io/src/quic_raw_server.h and .cc: the socket of the raw server and its read loop.
pub mod Reading
use owt_sdk_quic.Prelude.{
  ℕ, suc, Bool, true, false, not, List, [], ◌∷◌, ◌++◌, ◌==◌, ltb, if◌then◌else◌,
}
use owt_sdk_quic.Net.{NetError, ok, is_ok, ReadResult, is_pending, is_packet}

-- A task in the message loop: StartReading, or OnReadComplete with its result.
pub data Task : Type 0 where
  start_reading_task : Task
  read_complete_task : ReadResult → Task

-- The members that the loop uses, the posted tasks, oldest first, and what the dispatcher was
-- told: the packets, newest first, the Shutdown calls and the ProcessBufferedChlos calls.
-- `waiting` says whether the socket has kept a callback, which it does on ERR_IO_PENDING.
pub record Server : Type 0 where
  pub has_socket : Bool
  pub read_pending : Bool
  pub synchronous_read_count : ℕ
  pub waiting : Bool
  pub tasks : List Task
  pub packets : List ReadResult
  pub shutdowns : ℕ
  pub chlo_rounds : ℕ

unfoldable pub new_server : Server
new_server = record {
  has_socket = false;
  read_pending = false;
  synchronous_read_count = 0;
  waiting = false;
  tasks = [];
  packets = [];
  shutdowns = 0;
  chlo_rounds = 0;
}

-- Shutdown
unfoldable pub shutdown : Server → Server
shutdown s = record s { shutdowns = suc s.shutdowns; has_socket = false }

-- StartReading up to the test of `read_pending_`.
unfoldable pub process_chlos : Server → Server
process_chlos s = record s {
  chlo_rounds = if s.synchronous_read_count == 0 then suc s.chlo_rounds else s.chlo_rounds;
}

-- StartReading after ERR_IO_PENDING. The dispatcher says whether CHLOs are buffered.
unfoldable pub wait_for_packet : Bool → Server → Server
wait_for_packet has_chlos s = record s {
  read_pending = true;
  waiting = true;
  synchronous_read_count = 0;
  tasks = if has_chlos then s.tasks ++ start_reading_task ∷ [] else s.tasks;
}

-- StartReading where it has counted more than 32 results.
unfoldable pub post_result : ReadResult → Server → Server
post_result r s = record s {
  read_pending = true;
  synchronous_read_count = 0;
  tasks = s.tasks ++ read_complete_task r ∷ [];
}

-- kMaxSynchronousReads, which the source writes as 32.
abbrev pub max_synchronous_reads : ℕ
max_synchronous_reads = 32

-- OnReadComplete but for the call of StartReading, which follows a packet. `stop` is what it does
-- on an error.
unfoldable pub complete_read : (Server → Server) → ReadResult → Server → Server
complete_read stop r s =
    if is_packet r
    then record s { read_pending = false; packets = r ∷ s.packets }
    else stop (record s { read_pending = false })

-- StartReading, and through OnReadComplete itself again. RecvFrom takes its results from a list:
-- where it is empty it returns ERR_IO_PENDING. The results that are left come back.
unfoldable pub start_reading_with :
    (Server → Server) → Bool → List ReadResult → Server → List ReadResult × Server
unfolding process_chlos wait_for_packet post_result complete_read
start_reading_with stop has_chlos [] s =
    ([], if s.read_pending then process_chlos s else wait_for_packet has_chlos (process_chlos s))
start_reading_with stop has_chlos (r ∷ rs) s =
    let counted = suc s.synchronous_read_count in
    let s' = complete_read stop r (record (process_chlos s) { synchronous_read_count = counted }) in
    let rest = start_reading_with stop has_chlos rs s' in
    if s.read_pending
    then (r ∷ rs, process_chlos s)
    else if is_pending r
    then (rs, wait_for_packet has_chlos (process_chlos s))
    else if ltb max_synchronous_reads counted
    then (rs, post_result r (process_chlos s))
    else if is_packet r
    then rest
    else (rs, s')

-- StartReading
unfoldable pub start_reading : Bool → List ReadResult → Server → List ReadResult × Server
unfolding shutdown start_reading_with
start_reading = start_reading_with shutdown

-- OnReadComplete
unfoldable pub on_read_complete_with :
    (Server → Server) → Bool → ReadResult → List ReadResult → Server → List ReadResult × Server
unfolding complete_read
on_read_complete_with stop has_chlos r rs s =
    let s' = complete_read stop r s in
    if is_packet r then start_reading_with stop has_chlos rs s' else (rs, s')

unfoldable pub on_read_complete :
    Bool → ReadResult → List ReadResult → Server → List ReadResult × Server
unfolding shutdown on_read_complete_with
on_read_complete = on_read_complete_with shutdown

-- The results of the calls that Listen makes on the socket.
pub record ListenAnswers : Type 0 where
  pub listen : NetError
  pub set_receive_buffer_size : NetError
  pub set_send_buffer_size : NetError
  pub get_local_address : NetError

-- Listen: its result, and the server.
unfoldable pub listen :
    ListenAnswers → Bool → List ReadResult → Server → NetError × List ReadResult × Server
listen a has_chlos rs s =
    let (rs', s') = start_reading has_chlos rs (record s { has_socket = true }) in
    if not (is_ok a.listen)
    then (a.listen, rs, s)
    else if not (is_ok a.set_receive_buffer_size)
    then (a.set_receive_buffer_size, rs, s)
    else if not (is_ok a.set_send_buffer_size)
    then (a.set_send_buffer_size, rs, s)
    else if not (is_ok a.get_local_address)
    then (a.get_local_address, rs, s)
    else (ok, rs', s')

-- What the message loop does next: the socket's callback comes with a result, if the socket has
-- one to call, or the oldest task runs.
pub data Event : Type 0 where
  socket_result : ReadResult → Event
  task_due : Event

unfoldable pub run_task :
    (Server → Server) → Bool → List Task → List ReadResult → Server → List ReadResult × Server
run_task stop has_chlos [] rs s = (rs, s)
run_task stop has_chlos (start_reading_task ∷ ts) rs s =
    start_reading_with stop has_chlos rs (record s { tasks = ts })
run_task stop has_chlos (read_complete_task r ∷ ts) rs s =
    on_read_complete_with stop has_chlos r rs (record s { tasks = ts })

unfoldable pub handle :
    (Server → Server) → Bool → List ReadResult → Event → Server → List ReadResult × Server
handle stop has_chlos rs (socket_result r) s =
    if s.waiting
    then on_read_complete_with stop has_chlos r rs (record s { waiting = false })
    else (rs, s)
handle stop has_chlos rs task_due s = run_task stop has_chlos s.tasks rs s

-- Events, each with the results that the socket then has in stock and the dispatcher's answer.
unfoldable pub run : (Server → Server) → List (Event × List ReadResult × Bool) → Server → Server
run stop [] s = s
run stop ((e, rs, has_chlos) ∷ es) s = run stop es (handle stop has_chlos rs e s).1
