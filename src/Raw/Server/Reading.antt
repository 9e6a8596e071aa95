-- ===== src/Raw/Server/Reading.antt =====
-- What the read loop of the raw server keeps, and how much it reads in one go.
use owt_sdk_quic.Prelude.{
  ℕ, suc, ◌+◌, ◌≤◌, ◌≡◌, refl, Bool, true, false, ◌&&◌, List, [], ◌∷◌, ◌++◌, if◌then◌else◌, arith,
  length,
}
use owt_sdk_quic.Net.{ReadResult, bytes, code, is_pending, is_packet}
use owt_sdk_quic.Raw.Server.{
  Server, Task, start_reading_task, read_complete_task, max_synchronous_reads, complete_read,
  start_reading_with, on_read_complete_with, post_result, wait_for_packet, process_chlos,
  new_server, Event, socket_result, task_due, run_task, handle, run, shutdown, start_reading,
}

-- How many of the posted tasks hold a result.
abbrev pub held_results : List Task → ℕ
held_results [] = 0
held_results (start_reading_task ∷ ts) = held_results ts
held_results (read_complete_task r ∷ ts) = suc (held_results ts)

held_results-append :
    (ts us : List Task) → held_results (ts ++ us) ≡ held_results ts + held_results us
held_results-append [] us = omega arith
held_results-append (start_reading_task ∷ ts) us = held_results-append ts us
held_results-append (read_complete_task r ∷ ts) us = omega (arith, held_results-append ts us)

-- One read is under way exactly when `read_pending_` is set: the socket keeps its callback, or a
-- posted OnReadComplete holds its result, and never both.
pub record Inv (s : Server) : Type 0 where
  pub one_read :
      held_results s.tasks + (if s.waiting then 1 else 0) ≡ (if s.read_pending then 1 else 0)
  pub bounded : s.synchronous_read_count ≤ max_synchronous_reads

module _ (stop : Server → Server) (stop-Inv : (s : Server) → Inv s → Inv (stop s)) where
  complete_read-Inv :
      (r : ReadResult) (s : Server)
      → held_results s.tasks ≡ 0
      → s.waiting ≡ false
      → s.synchronous_read_count ≤ max_synchronous_reads
      → Inv (complete_read stop r s)
  unfolding complete_read
  complete_read-Inv r s h w b = ground (arith, stop-Inv (record s { read_pending = false }))

  process_chlos-Inv : (s : Server) → Inv s → Inv (process_chlos s)
  unfolding process_chlos
  process_chlos-Inv s v = ground arith

  wait_for_packet-Inv :
      (h : Bool) (s : Server) → held_results s.tasks ≡ 0 → Inv (wait_for_packet h s)
  unfolding wait_for_packet
  wait_for_packet-Inv h s z = ground (arith, held_results-append s.tasks (start_reading_task ∷ []))

  post_result-Inv :
      (r : ReadResult) (s : Server)
      → held_results s.tasks ≡ 0
      → s.waiting ≡ false
      → Inv (post_result r s)
  unfolding post_result
  post_result-Inv r s z w = ground (arith, held_results-append s.tasks (read_complete_task r ∷ []))

  start_reading-Inv :
      (h : Bool) (rs : List ReadResult) (s : Server)
      → Inv s
      → Inv (start_reading_with stop h rs s).1
  unfolding start_reading_with process_chlos
  start_reading-Inv h [] s v =
      ground (arith, process_chlos-Inv s v, wait_for_packet-Inv h (process_chlos s))
  start_reading-Inv h (r ∷ rs) s v =
      let counted = record (process_chlos s) {
        synchronous_read_count = suc s.synchronous_read_count;
      } in
      ground (
        arith,
        process_chlos-Inv s v,
        wait_for_packet-Inv h (process_chlos s),
        post_result-Inv r (process_chlos s),
        complete_read-Inv r counted,
        start_reading-Inv h rs (complete_read stop r counted),
      )

  on_read_complete-Inv :
      (h : Bool) (r : ReadResult) (rs : List ReadResult) (s : Server)
      → held_results s.tasks ≡ 0
      → s.waiting ≡ false
      → s.synchronous_read_count ≤ max_synchronous_reads
      → Inv (on_read_complete_with stop h r rs s).1
  unfolding on_read_complete_with
  on_read_complete-Inv h r rs s z w b =
      ground (arith, complete_read-Inv r s z w b, start_reading-Inv h rs (complete_read stop r s))

  run_task-Inv :
      (h : Bool) (ts : List Task) (rs : List ReadResult) (s : Server)
      → s.tasks ≡ ts
      → Inv s
      → Inv (run_task stop h ts rs s).1
  unfolding run_task
  run_task-Inv h [] rs s e v = v
  run_task-Inv h (start_reading_task ∷ ts) rs s e v =
      start_reading-Inv h rs (record s { tasks = ts }) (ground arith)
  run_task-Inv h (read_complete_task r ∷ ts) rs s e v =
      on_read_complete-Inv h r rs (record s { tasks = ts }) (ground arith) (ground arith) v.bounded

  handle-Inv :
      (h : Bool) (rs : List ReadResult) (e : Event) (s : Server)
      → Inv s
      → Inv (handle stop h rs e s).1
  unfolding handle
  handle-Inv h rs (socket_result r) s v =
      ground (arith, on_read_complete-Inv h r rs (record s { waiting = false }))
  handle-Inv h rs task_due s v = run_task-Inv h s.tasks rs s refl v

  run_from-Inv :
      (es : List (Event × List ReadResult × Bool)) (s : Server) → Inv s → Inv (run stop es s)
  unfolding run
  run_from-Inv [] s v = v
  run_from-Inv ((e, rs, h) ∷ es) s v =
      run_from-Inv es (handle stop h rs e s).1 (handle-Inv h rs e s v)

  pub run-Inv :
      (h : Bool) (rs : List ReadResult) (es : List (Event × List ReadResult × Bool))
      → Inv (run stop es (start_reading_with stop h rs new_server).1)
  unfolding new_server
  run-Inv h rs es = run_from-Inv es _ (start_reading-Inv h rs new_server (ground arith))

  -- One call of StartReading passes on at most 32 packets less those counted before it.
  start_reading_bounded :
      (h : Bool) (rs : List ReadResult) (s : Server)
      → ((t : Server) → (stop t).packets ≡ t.packets)
      → s.synchronous_read_count ≤ max_synchronous_reads
      → length (start_reading_with stop h rs s).1.packets + s.synchronous_read_count
        ≤ length s.packets + max_synchronous_reads
  unfolding start_reading_with process_chlos wait_for_packet post_result complete_read
  start_reading_bounded h [] s quiet b = ground arith
  start_reading_bounded h (r ∷ rs) s quiet b =
      let counted = record (process_chlos s) {
        synchronous_read_count = suc s.synchronous_read_count;
      } in
      ground (
        arith,
        quiet (record counted { read_pending = false }),
        start_reading_bounded h rs (complete_read stop r counted) quiet,
      )

shutdown-Inv : (s : Server) → Inv s → Inv (shutdown s)
unfolding shutdown
shutdown-Inv s v = ground arith

-- The loop never holds two reads, whatever the socket returns and whichever callback or task comes
-- next: `read_pending_` is set exactly while one result is awaited, by the socket's callback or by
-- a posted task, and no more than 32 results are counted in one go.
pub read_loop-Inv :
    (h : Bool) (rs : List ReadResult) (es : List (Event × List ReadResult × Bool))
    → Inv (run shutdown es (start_reading h rs new_server).1)
unfolding start_reading
read_loop-Inv = run-Inv shutdown shutdown-Inv

abbrev pub all_packets : List ReadResult → Bool
all_packets [] = true
all_packets (r ∷ rs) = is_packet r && all_packets rs

-- The items one by one onto a list.
abbrev pub onto : List ReadResult → List ReadResult → List ReadResult
onto [] ys = ys
onto (x ∷ xs) ys = onto xs (x ∷ ys)

is_packet-not_pending : (r : ReadResult) → is_packet r ≡ true → is_pending r ≡ false
is_packet-not_pending (bytes n) h = refl
is_packet-not_pending (code e) h = cc

-- As long as the count stays within 32, a call of StartReading hands every packet that is ready to
-- the dispatcher, in the order of arrival, calls Shutdown for none, and ends waiting for the
-- socket with the count at 0.
pub start_reading_delivers :
    (h : Bool) (rs : List ReadResult) (s : Server)
    → all_packets rs ≡ true
    → s.read_pending ≡ false
    → s.synchronous_read_count + length rs ≤ max_synchronous_reads
    → let (left, s') = start_reading h rs s in
      (left ≡ [])
      × (s'.packets ≡ onto rs s.packets)
      × (s'.shutdowns ≡ s.shutdowns)
      × (s'.waiting ≡ true)
      × (s'.synchronous_read_count ≡ 0)
unfolding start_reading process_chlos wait_for_packet complete_read
start_reading_delivers h [] s p r b = ground arith
start_reading_delivers h (x ∷ rs) s p r b =
    let counted = record (process_chlos s) {
      synchronous_read_count = suc s.synchronous_read_count;
    } in
    ground (
      arith,
      is_packet-not_pending x,
      start_reading_delivers h rs (complete_read shutdown x counted),
    )
