-- ===== src/Transport/Server/Reading.antt =====
-- What one call of StartReading keeps of the server's reads, and of what concerns its sessions.
use owt_sdk_quic.Prelude.{
  ℕ, suc, ◌+◌, ◌≤◌, ◌≡◌, Bool, true, false, ◌||◌, List, [], ◌∷◌, ◌++◌, if◌then◌else◌, arith,
}
use owt_sdk_quic.Net.{ReadResult, is_pending, is_packet}
use owt_sdk_quic.Streams.{all_of}
use owt_sdk_quic.Transport.Server.{
  Task, start_task, stop_task, start_reading_task, read_complete_task, Server, stop, post,
  process_chlos, wait_for_packet, post_result, max_synchronous_reads, complete_read, start_reading,
}

-- A packet or ERR_IO_PENDING.
abbrev pub is_fine : ReadResult → Bool
is_fine r = is_packet r || is_pending r

-- How many of the tasks hold a result that is a packet; any other task but StartReading counts as
-- 2, since there is to be none.
abbrev pub held : List Task → ℕ
held [] = 0
held (start_task ∷ ts) = suc (suc (held ts))
held (stop_task ∷ ts) = suc (suc (held ts))
held (start_reading_task ∷ ts) = held ts
held (read_complete_task r ∷ ts) =
    let rest = held ts in if is_packet r then suc rest else suc (suc rest)

held-append : (ts us : List Task) → held (ts ++ us) ≡ held ts + held us
held-append [] us = omega arith
held-append (start_task ∷ ts) us = omega (arith, held-append ts us)
held-append (stop_task ∷ ts) us = omega (arith, held-append ts us)
held-append (start_reading_task ∷ ts) us = held-append ts us
held-append (read_complete_task r ∷ ts) us = ground (arith, held-append ts us)

-- The server has its socket and no null pointer was used; exactly one read is under way, or none.
pub record Reads (s : Server) : Type 0 where
  pub whole : (s.has_socket ≡ true) × (s.crashed ≡ false)
  pub one_read : held s.tasks + (if s.waiting then 1 else 0) ≡ (if s.read_pending then 1 else 0)
  pub bounded : s.synchronous_read_count ≤ max_synchronous_reads

process_chlos-Reads : (s : Server) → Reads s → Reads (process_chlos s)
unfolding process_chlos
process_chlos-Reads s v = ground (arith, v.whole, v.one_read, v.bounded)

wait_for_packet-Reads :
    (h : Bool) (s : Server)
    → s.has_socket ≡ true
    → s.crashed ≡ false
    → held s.tasks ≡ 0
    → Reads (wait_for_packet h s)
unfolding wait_for_packet
wait_for_packet-Reads h s e c z = ground (arith, held-append s.tasks (start_reading_task ∷ []))

post_result-Reads :
    (r : ReadResult) (s : Server)
    → s.has_socket ≡ true
    → s.crashed ≡ false
    → held s.tasks ≡ 0
    → s.waiting ≡ false
    → is_packet r ≡ true
    → Reads (post_result r s)
unfolding post_result
post_result-Reads r s e c z w p = ground (arith, held-append s.tasks (read_complete_task r ∷ []))

pub start_reading-Reads :
    (h : Bool) (rs : List ReadResult) (s : Server)
    → all_of is_fine rs ≡ true
    → Reads s
    → Reads (start_reading h rs s).1
unfolding start_reading process_chlos complete_read
start_reading-Reads h [] s f v =
    ground (
      arith,
      v.whole,
      v.one_read,
      process_chlos-Reads s v,
      wait_for_packet-Reads h (process_chlos s),
    )
start_reading-Reads h (r ∷ rs) s f v =
    let counted = record (process_chlos s) {
      synchronous_read_count = suc s.synchronous_read_count;
    } in
    ground (
      arith,
      f,
      v.whole,
      v.one_read,
      v.bounded,
      process_chlos-Reads s v,
      wait_for_packet-Reads h (process_chlos s),
      post_result-Reads r (process_chlos s),
      start_reading-Reads h rs (complete_read r counted),
    )

-- A call that meets no error leaves a read under way.
pub start_reading-pending :
    (h : Bool) (rs : List ReadResult) (s : Server)
    → all_of is_fine rs ≡ true
    → s.has_socket ≡ true
    → (start_reading h rs s).1.read_pending ≡ true
unfolding start_reading process_chlos wait_for_packet post_result complete_read
start_reading-pending h [] s f e = ground (arith, e)
start_reading-pending h (r ∷ rs) s f e =
    let counted = record (process_chlos s) {
      synchronous_read_count = suc s.synchronous_read_count;
    } in
    ground (arith, f, e, start_reading-pending h rs (complete_read r counted))

-- Nothing that concerns sessions differs.
pub record SameSessions (s s' : Server) : Type 0 where
  pub same_calls : s'.calls ≡ s.calls
  pub same_event_tasks : s'.event_tasks ≡ s.event_tasks
  pub same_visitor : s'.has_visitor ≡ s.has_visitor

pub start_reading-SameSessions :
    (h : Bool) (rs : List ReadResult) (s : Server) → SameSessions s (start_reading h rs s).1
unfolding start_reading process_chlos complete_read wait_for_packet post_result stop post
start_reading-SameSessions h [] s = ground arith
start_reading-SameSessions h (r ∷ rs) s =
    let counted = record (process_chlos s) {
      synchronous_read_count = suc s.synchronous_read_count;
    } in
    let later = start_reading-SameSessions h rs (complete_read r counted) in
    ground (arith, later.same_calls, later.same_event_tasks, later.same_visitor)
