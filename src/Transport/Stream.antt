-- ===== src/Transport/Stream.antt =====
-- quic_transport/sdk/impl/quic_transport_owt_stream_impl.h and .cc: a stream whose calls are posted
-- to the IO thread.
pub mod Tasks
use owt_sdk_quic.Prelude.{
  ℕ, zero, suc, Bool, true, false, not, none, some, List, [], ◌∷◌, ◌++◌, if◌then◌else◌, length,
  take,
}
use owt_sdk_quic.Sequencer.{Sequencer}

-- A task posted to `task_runner_`.
pub data Task : Type 0 where
  close_task : Task
  send_data_task : List ℕ → Task
  process_data_task : Task

-- A WriteOrBufferData call: the data and the FIN.
pub record Written : Type 0 where
  pub content : List ℕ
  pub fin : Bool

-- The sequencer's state, what the stream wrote and the visitor's OnData calls, oldest first, the
-- SetUnblocked and the OnFinRead calls, and the tasks posted, oldest first. The send side is closed
-- by a FIN, or by quiche.
pub record Stream (Q : Type 0) : Type 0 where
  pub sequencer : Q
  pub has_visitor : Bool
  pub write_side_closed : Bool
  pub written : List Written
  pub data_calls : List (List ℕ)
  pub unblocked : ℕ
  pub fin_read : ℕ
  pub tasks : List Task

module _ {Q : Type 0} where
  unfoldable pub new_stream : Q → Stream Q
  new_stream s = record {
    sequencer = s;
    has_visitor = false;
    write_side_closed = false;
    written = [];
    data_calls = [];
    unblocked = 0;
    fin_read = 0;
    tasks = [];
  }

  unfoldable pub set_visitor : Bool → Stream Q → Stream Q
  set_visitor given s = record s { has_visitor = given }

  unfoldable pub post : Task → Stream Q → Stream Q
  post t s = record s { tasks = s.tasks ++ t ∷ [] }

  -- WriteOrBufferData: what it is given after the FIN is not sent.
  unfoldable pub write_or_buffer_data : List ℕ → Bool → Stream Q → Stream Q
  write_or_buffer_data content fin s = if s.write_side_closed then s else record s {
    written = s.written ++ record { content = content; fin = fin } ∷ [];
    write_side_closed = fin;
  }

  -- CloseOnCurrentThread: its string view has the length 1, so it is the 0 that ends "".
  unfoldable pub close_on_current_thread : Stream Q → Stream Q
  close_on_current_thread s = write_or_buffer_data (0 ∷ []) true s

  unfoldable pub close : Stream Q → Stream Q
  close s = post close_task s

  -- SendData of `len` bytes of the memory from `data` on.
  unfoldable pub send_data : List ℕ → ℕ → Stream Q → Stream Q
  send_data memory len s = post (send_data_task (take len memory)) s

  unfoldable pub send_data_on_current_thread : List ℕ → Stream Q → Stream Q
  send_data_on_current_thread content s =
      if not s.write_side_closed then write_or_buffer_data content false s else s

  unfoldable pub on_data_available : Stream Q → Stream Q
  on_data_available s = post process_data_task s

module _ {Q : Type 0} (q : Sequencer Q) where
  -- The body of processData's loop, for the region that it reads.
  unfoldable pub read_region : List ℕ → Stream Q → Stream Q
  read_region region s = record s {
    data_calls = if s.has_visitor then s.data_calls ++ region ∷ [] else s.data_calls;
    sequencer = q.mark_consumed (length region) s.sequencer;
  }

  -- The loop of processData, on fuel.
  unfoldable pub read_regions : ℕ → Stream Q → Stream Q
  read_regions zero s = s
  read_regions (suc n) s =
      if q.has_bytes_to_read s.sequencer
      then (elim (q.readable_region s.sequencer) [
        | none ↦ s
        | some region ↦ read_regions n (read_region region s)
      ])
      else s

  -- processData
  unfoldable pub process_data : ℕ → Stream Q → Stream Q
  process_data fuel s =
      let after = read_regions fuel s in
      if q.is_closed after.sequencer
      then record after { fin_read = suc after.fin_read }
      else record after { unblocked = suc after.unblocked }

  unfoldable pub run_task : ℕ → Task → Stream Q → Stream Q
  run_task fuel close_task s = close_on_current_thread s
  run_task fuel (send_data_task content) s = send_data_on_current_thread content s
  run_task fuel process_data_task s = process_data fuel s

  -- The IO thread runs the tasks.
  unfoldable pub run_tasks : ℕ → List Task → Stream Q → Stream Q
  run_tasks fuel [] s = s
  run_tasks fuel (t ∷ ts) s = run_tasks fuel ts (run_task fuel t s)

-- A call of the user's thread, or quiche's call of OnDataAvailable.
pub data Call : Type 0 where
  calls_close : Call
  calls_send_data : List ℕ → ℕ → Call
  data_arrives : Call

unfoldable pub call : {Q : Type 0} → Call → Stream Q → Stream Q
call calls_close s = close s
call (calls_send_data memory len) s = send_data memory len s
call data_arrives s = on_data_available s

unfoldable pub calls : {Q : Type 0} → List Call → Stream Q → Stream Q
calls [] s = s
calls (c ∷ cs) s = calls cs (call c s)
