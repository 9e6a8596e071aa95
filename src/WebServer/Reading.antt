-- ===== src/WebServer/Reading.antt =====
-- What one event reads, and what a broken socket does to the loop.
use owt_sdk_quic.Prelude.{
  ℕ, zero, suc, ◌+◌, ◌*◌, ◌≤◌, ◌≡◌, refl, false, List, [], ◌∷◌, ◌++◌, ◌==◌, if◌then◌else◌, arith,
  length, replicate, Bool-cases, inl, inr,
}
use owt_sdk_quic.Net.{ReadResult, is_pending, is_packet}
use owt_sdk_quic.WebServer.{
  Server, max_reads_per_event, schedule_read_packets, process_read_packet, read_rounds,
  read_packets, run_scheduled,
}

-- The results up to the first that is pending, `n` at most.
abbrev pub ready_prefix : ℕ → List ReadResult → List ReadResult
ready_prefix zero rs = []
ready_prefix (suc n) [] = []
ready_prefix (suc n) (r ∷ rs) =
    let rest = ready_prefix n rs in if is_pending r then [] else r ∷ rest

abbrev pub process_all : List ReadResult → Server → Server
process_all [] s = s
process_all (r ∷ rs) s = process_all rs (process_read_packet r s)

length-ready_prefix : (n : ℕ) (rs : List ReadResult) → length (ready_prefix n rs) ≤ n
length-ready_prefix zero rs = omega arith
length-ready_prefix (suc n) [] = omega arith
length-ready_prefix (suc n) (r ∷ rs) = ground (arith, length-ready_prefix n rs)

read_rounds_lem :
    (n : ℕ) (rs : List ReadResult) (s : Server)
    → (read_rounds n rs s).1 ≡ (
        if length (ready_prefix n rs) == n
        then schedule_read_packets (process_all (ready_prefix n rs) s)
        else process_all (ready_prefix n rs) s)
unfolding read_rounds
read_rounds_lem zero rs s = refl
read_rounds_lem (suc n) [] s = ground arith
read_rounds_lem (suc n) (r ∷ rs) s = elim (Bool-cases (is_pending r)) [
  | inl waits ↦ rw waits (ground arith)
  | inr here ↦ rw here (ground (arith, read_rounds_lem n rs (process_read_packet r s)))
]

-- One ReadPackets event handles the results that are ready, in order, up to the first that is
-- pending and 32 at most, and posts itself once more exactly when it has handled 32.
pub read_packets_lem :
    (rs : List ReadResult) (s : Server)
    → let ready = ready_prefix max_reads_per_event rs in
      let done = process_all ready (record s { chlo_rounds = suc s.chlo_rounds }) in
      ((read_packets rs s).1
        ≡ (if length ready == max_reads_per_event then schedule_read_packets done else done))
      × (length ready ≤ max_reads_per_event)
unfolding read_packets
read_packets_lem rs s = (
  read_rounds_lem max_reads_per_event rs (record s { chlo_rounds = suc s.chlo_rounds }),
  length-ready_prefix max_reads_per_event rs,
)

failing_rounds :
    (n : ℕ) (r : ReadResult) (rest : List ReadResult) (s : Server)
    → is_pending r ≡ false
    → is_packet r ≡ false
    → read_rounds n (replicate n r ++ rest) s
      ≡ (rest, record s { scheduled = suc s.scheduled; shutdowns = n + s.shutdowns })
unfolding read_rounds process_read_packet schedule_read_packets
failing_rounds zero r rest s p q = ground arith
failing_rounds (suc n) r rest s p q =
    ground (arith, failing_rounds n r rest (record s { shutdowns = suc s.shutdowns }) p q)

failing_event :
    (r : ReadResult) (rest : List ReadResult) (s : Server)
    → is_pending r ≡ false
    → is_packet r ≡ false
    → s.scheduled ≡ 1
    → run_scheduled (replicate max_reads_per_event r ++ rest) s ≡ (
      rest,
      record s {
        scheduled = 1;
        shutdowns = max_reads_per_event + s.shutdowns;
        chlo_rounds = suc s.chlo_rounds;
      },
    )
unfolding run_scheduled read_packets
failing_event r rest s p q e = ground (
  arith,
  failing_rounds max_reads_per_event r rest
      (record s { scheduled = 0; chlo_rounds = suc s.chlo_rounds }) p q,
)

-- The events that run one after the other.
unfoldable pub run_events : ℕ → List ReadResult → Server → List ReadResult × Server
run_events zero rs s = (rs, s)
run_events (suc n) rs s = run_events n (run_scheduled rs s).0 (run_scheduled rs s).1

-- The results that `n` events read of a socket that fails with `r` each time.
abbrev pub failures : ℕ → ReadResult → List ReadResult
failures zero r = []
failures (suc n) r = replicate max_reads_per_event r ++ failures n r

run_events-suc :
    (n : ℕ) (rs rs' : List ReadResult) (s s' : Server)
    → run_scheduled rs s ≡ (rs', s')
    → run_events (suc n) rs s ≡ run_events n rs' s'
unfolding run_events
run_events-suc n rs rs' s s' e = rw e

-- A read error does not stop the server: while the socket fails, every event calls Shutdown 32
-- times and posts the next event, for as many events as there are.
pub read_error_spins :
    (n : ℕ) (r : ReadResult) (s : Server)
    → is_pending r ≡ false
    → is_packet r ≡ false
    → s.scheduled ≡ 1
    → ((run_events n (failures n r) s).1.scheduled ≡ 1)
      × ((run_events n (failures n r) s).1.shutdowns ≡ s.shutdowns + max_reads_per_event * n)
read_error_spins zero r s p q e = unfold run_events in (e, omega arith)
read_error_spins (suc n) r s p q e =
    let (left, counted) =
      read_error_spins n r
        (record s {
          scheduled = 1;
          shutdowns = max_reads_per_event + s.shutdowns;
          chlo_rounds = suc s.chlo_rounds;
        })
        p q refl in
    rw (run_events-suc n _ _ _ _ (failing_event r (failures n r) s p q e)) (left, omega arith)
