-- ===== src/Transport/Server/Stopping.antt =====
-- What a call of Stop comes to.
use owt_sdk_quic.Prelude.{
  ℕ, zero, suc, ◌+◌, ◌<◌, ◌≡◌, refl, Bool, true, false, List, [], ◌∷◌, ◌++◌, arith, length, ◌∙◌, ap,
}
use owt_sdk_quic.Net.{ReadResult, bytes, code, is_pending, is_packet}
use owt_sdk_quic.Streams.{all_of}
use owt_sdk_quic.Transport.Server.{
  stop_task, read_complete_task, Server, stop, post, process_chlos, post_result,
  max_synchronous_reads, complete_read, start_reading, on_read_complete, ListenAnswers,
  stop_on_current_thread, run_task,
}
use owt_sdk_quic.Transport.Server.Running.{handle, task_due}

packet-not_pending : (r : ReadResult) → is_packet r ≡ true → is_pending r ≡ false
packet-not_pending (bytes n) p = refl
packet-not_pending (code e) p = cc

-- The n-th result, where there is one.
abbrev nth_result : ℕ → List ReadResult → ReadResult
nth_result n [] = bytes 1
nth_result zero (r ∷ rs) = r
nth_result (suc n) (r ∷ rs) = nth_result n rs

nth_result-is_packet :
    (n : ℕ) (rs : List ReadResult) → all_of is_packet rs ≡ true → is_packet (nth_result n rs) ≡ true
nth_result-is_packet n [] f = refl
nth_result-is_packet zero (r ∷ rs) f = ground (arith, f)
nth_result-is_packet (suc n) (r ∷ rs) f = nth_result-is_packet n rs (ground (arith, f))

-- The second server has put off the packet, with a read under way.
record PutsOff (r : ReadResult) (s s' : Server) : Type 0 where
  posted : s'.tasks ≡ s.tasks ++ read_complete_task r ∷ []
  same_socket : s'.has_socket ≡ s.has_socket
  same_dispatcher : s'.has_dispatcher ≡ s.has_dispatcher

-- StartReading puts off the packet that comes after 32.
start_reading-PutsOff :
    (n : ℕ) (h : Bool) (rs : List ReadResult) (s : Server)
    → all_of is_packet rs ≡ true
    → s.read_pending ≡ false
    → s.has_socket ≡ true
    → s.synchronous_read_count + n ≡ max_synchronous_reads
    → n < length rs
    → PutsOff (nth_result n rs) s (start_reading h rs s).1
unfolding start_reading process_chlos complete_read post_result
start_reading-PutsOff n h [] s f p e b long = ground (arith, long)
start_reading-PutsOff zero h (r ∷ rs) s f p e b long =
    ground (arith, f, p, e, b, packet-not_pending r)
start_reading-PutsOff (suc n) h (r ∷ rs) s f p e b long =
    let counted = record (process_chlos s) {
      synchronous_read_count = suc s.synchronous_read_count;
    } in
    let later = start_reading-PutsOff n h rs (complete_read r counted) in
    ground (arith, f, p, e, b, long, packet-not_pending r, later)

-- StartReading uses the socket that is not there.
no_socket :
    (h : Bool) (rs : List ReadResult) (s : Server)
    → s.read_pending ≡ false
    → s.has_socket ≡ false
    → (start_reading h rs s).1.crashed ≡ true
unfolding start_reading
no_socket h [] s p e = ground (arith, p, e)
no_socket h (r ∷ rs) s p e = ground (arith, p, e)

stop_then_packet :
    (a : ListenAnswers) (h : Bool) (more : List ReadResult) (r : ReadResult) (s : Server)
    → is_packet r ≡ true
    → s.has_socket ≡ true
    → s.has_dispatcher ≡ true
    → let stopped = (run_task a h (stop_task ∷ read_complete_task r ∷ []) more s).1 in
      (stopped.tasks ≡ read_complete_task r ∷ [])
      × ((run_task a h (read_complete_task r ∷ []) more stopped).1.crashed ≡ true)
unfolding run_task stop_on_current_thread on_read_complete complete_read
stop_then_packet a h more r s p e d =
    let stopped = stop_on_current_thread (record s { tasks = read_complete_task r ∷ [] }) in
    ground (arith, p, e, d, no_socket h more (complete_read r (record stopped { tasks = [] })))

-- When Stop is called from another thread while StartReading handles a burst of more than 32 packets
-- on the IO thread, the server goes on to use its socket, which is null by then: the packet that
-- StartReading puts off is handled after the task that resets the socket.
pub stop_in_burst_crashes :
    (a : ListenAnswers) (h h' : Bool) (rs more : List ReadResult) (s : Server)
    → all_of is_packet rs ≡ true
    → max_synchronous_reads < length rs
    → s.read_pending ≡ false
    → (s.has_socket ≡ true) × (s.has_dispatcher ≡ true)
    → s.synchronous_read_count ≡ 0
    → s.tasks ≡ []
    → let burst = (start_reading h rs (stop s)).1 in
      (handle a task_due more h' (handle a task_due more h' burst)).crashed ≡ true
unfolding handle stop post
stop_in_burst_crashes a h h' rs more s f long p (e, d) z t =
    let asked = stop s in
    let r = nth_result 32 rs in
    let off = start_reading-PutsOff 32 h rs asked f p e (ground (arith, z)) long in
    let burst = (start_reading h rs asked).1 in
    let two_tasks = off.posted ∙ ap (λ ts. (ts ++ stop_task ∷ []) ++ read_complete_task r ∷ []) t in
    let (next, crash) =
      stop_then_packet a h' more r burst (nth_result-is_packet 32 rs f) (off.same_socket ∙ e)
        (off.same_dispatcher ∙ d) in
    ap (λ ts. crashes_later (run_task a h' ts more burst).1) two_tasks
    ∙ ap
        (λ ts.
          (run_task a h' ts more
            (run_task a h' (stop_task ∷ read_complete_task r ∷ []) more burst).1).1.crashed)
        next
    ∙ crash
  where
    crashes_later : Server → Bool
    crashes_later t = (run_task a h' t.tasks more t).1.crashed
