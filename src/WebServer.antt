-- ===== src/WebServer.antt =====
-- web_transport/sdk/impl/web_transport_owt_server_impl.h and .cc: the server's socket and its read
-- loop.
pub mod Reading
use owt_sdk_quic.Prelude.{ℕ, zero, suc, Bool, true, false, some, List, [], ◌∷◌, if◌then◌else◌}
use owt_sdk_quic.Net.{ReadResult, is_pending, is_packet}
use owt_sdk_quic.Streams.{Outcome, post_and_wait}

-- `scheduled` counts the posted ReadPackets tasks that have not run; then what the dispatcher was
-- told: the packets, newest first, the Shutdown calls and the ProcessBufferedChlos calls.
pub record Server : Type 0 where
  pub has_socket : Bool
  pub scheduled : ℕ
  pub packets : List ReadResult
  pub shutdowns : ℕ
  pub chlo_rounds : ℕ

unfoldable pub new_server : Server
new_server = record {
  has_socket = false;
  scheduled = 0;
  packets = [];
  shutdowns = 0;
  chlo_rounds = 0;
}

-- kMaxReadsPerEvent
abbrev pub max_reads_per_event : ℕ
max_reads_per_event = 32

unfoldable pub schedule_read_packets : Server → Server
schedule_read_packets s = record s { scheduled = suc s.scheduled }

-- StartOnCurrentThread, where `created` says whether a socket was made.
unfoldable pub start_on_current_thread : Bool → Server → Server
unfolding schedule_read_packets
start_on_current_thread created s =
    if created
    then schedule_read_packets (record s { has_socket = true })
    else record s { has_socket = false }

-- Start: whether it returns EXIT_SUCCESS.
unfoldable pub start : Bool → Server → Bool × Server
unfolding start_on_current_thread
start created s =
    let s' = start_on_current_thread created s in (if s'.has_socket then true else false, s')

-- ProcessReadPacket
unfoldable pub process_read_packet : ReadResult → Server → Server
process_read_packet r s =
    if is_packet r
    then record s { packets = r ∷ s.packets }
    else record s { shutdowns = suc s.shutdowns }

-- The `for` of ReadPackets, with the rounds that are left and the results that RecvFrom has in
-- stock: where there is none it returns ERR_IO_PENDING. The results that are left come back.
unfoldable pub read_rounds : ℕ → List ReadResult → Server → List ReadResult × Server
read_rounds zero rs s = (rs, schedule_read_packets s)
read_rounds (suc n) [] s = ([], s)
read_rounds (suc n) (r ∷ rs) s =
    let rest = read_rounds n rs (process_read_packet r s) in if is_pending r then (rs, s) else rest

-- ReadPackets
unfoldable pub read_packets : List ReadResult → Server → List ReadResult × Server
unfolding read_rounds
read_packets rs s =
    read_rounds max_reads_per_event rs (record s { chlo_rounds = suc s.chlo_rounds })

-- OnReadComplete
unfoldable pub on_read_complete : ReadResult → List ReadResult → Server → List ReadResult × Server
unfolding process_read_packet
on_read_complete r rs s = read_packets rs (process_read_packet r s)

-- The oldest ReadPackets task runs.
unfoldable pub run_scheduled : List ReadResult → Server → List ReadResult × Server
run_scheduled rs s = elim s.scheduled [
  | zero ↦ (rs, s)
  | suc n ↦ read_packets rs (record s { scheduled = n })
]

-- Stop has an empty body.
unfoldable pub stop : Server → Server
stop s = s

-- The destructor's task, which drops the socket and the posted tasks with the weak pointers.
unfoldable pub destroy_on_current_thread : Server → Server
destroy_on_current_thread s = record s { has_socket = false; scheduled = 0 }

-- The destructor, run on the IO thread or on another one.
unfoldable pub destroy : Bool → Server → Outcome Server
unfolding post_and_wait destroy_on_current_thread
destroy on_io_thread s = post_and_wait on_io_thread (some (destroy_on_current_thread s))
