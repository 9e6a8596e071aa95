-- ===== src/Transport/Stream/Tasks.antt =====
-- What the tasks of a stream write.
use owt_sdk_quic.Prelude.{
  ℕ, zero, suc, ◌≡◌, refl, ◌∙◌, ap, sym, Bool, true, false, Option, none, some, List, [], ◌∷◌, ◌++◌,
  take, arith, if_elim,
}
use mathlib.Core.List.{append_assoc, append-nil}
use owt_sdk_quic.Sequencer.{Sequencer}
use owt_sdk_quic.Transport.Stream.{
  Task, close_task, send_data_task, process_data_task, Written, Stream, post, write_or_buffer_data,
  close_on_current_thread, close, send_data, send_data_on_current_thread, on_data_available,
  read_region, read_regions, process_data, run_task, run_tasks, Call, calls_close, calls_send_data,
  data_arrives, call, calls,
}

abbrev pub final_byte : Written
final_byte = record { content = 0 ∷ []; fin = true }

abbrev pub piece : List ℕ → ℕ → Written
piece memory len = record { content = take len memory; fin = false }

-- What the calls send on a stream whose send side is closed or not.
abbrev pub outgoing : Bool → List Call → List Written
outgoing true cs = []
outgoing false [] = []
outgoing false (calls_close ∷ cs) = final_byte ∷ []
outgoing false (calls_send_data memory len ∷ cs) = piece memory len ∷ outgoing false cs
outgoing false (data_arrives ∷ cs) = outgoing false cs

abbrev task_of : Call → Task
task_of calls_close = close_task
task_of (calls_send_data memory len) = send_data_task (take len memory)
task_of data_arrives = process_data_task

abbrev tasks_of : List Call → List Task
tasks_of [] = []
tasks_of (c ∷ cs) = task_of c ∷ tasks_of cs

module _ {Q : Type 0} where
  call-tasks : (c : Call) (s : Stream Q) → call c s ≡ post (task_of c) s
  unfolding call close send_data on_data_available
  call-tasks calls_close s = refl
  call-tasks (calls_send_data memory len) s = refl
  call-tasks data_arrives s = refl

  -- The calls only post their tasks.
  calls-tasks :
      (cs : List Call) (s : Stream Q) → calls cs s ≡ record s { tasks = s.tasks ++ tasks_of cs }
  unfolding calls post
  calls-tasks [] s = ap (λ ts. record s { tasks = ts }) (sym (append-nil s.tasks))
  calls-tasks (c ∷ cs) s =
      ap (calls cs) (call-tasks c s)
      ∙ calls-tasks cs (record s { tasks = s.tasks ++ task_of c ∷ [] })
      ∙ ap (λ ts. record s { tasks = ts }) (append_assoc s.tasks (task_of c ∷ []) (tasks_of cs))

module _ {Q : Type 0} (q : Sequencer Q) where
  -- Both streams have the same send side.
  record SameSend (s s' : Stream Q) : Type 0 where
    same_written : s'.written ≡ s.written
    same_closed : s'.write_side_closed ≡ s.write_side_closed

  read_regions-SameSend : (n : ℕ) (s : Stream Q) → SameSend s (read_regions q n s)
  unfolding read_regions read_region
  read_regions-SameSend zero s = record { same_written = refl; same_closed = refl }
  read_regions-SameSend (suc n) s =
      if_elim (SameSend s) (q.has_bytes_to_read s.sequencer)
        (λ more.
          by_region (q.readable_region s.sequencer)
            (λ region. read_regions-SameSend n (read_region q region s)))
        (λ none_left. record { same_written = refl; same_closed = refl })
    where
      by_region :
          (o : Option (List ℕ))
          → ((region : List ℕ)
              → SameSend (read_region q region s) (read_regions q n (read_region q region s)))
          → SameSend s
              (elim o [ none ↦ s | some region ↦ read_regions q n (read_region q region s) ])
      by_region none later = record { same_written = refl; same_closed = refl }
      by_region (some region) later =
          let h = later region in
          record { same_written = h.same_written; same_closed = h.same_closed }

  process_data-SameSend : (n : ℕ) (s : Stream Q) → SameSend s (process_data q n s)
  unfolding process_data
  process_data-SameSend n s =
      let h = read_regions-SameSend n s in
      if_elim (SameSend s) (q.is_closed (read_regions q n s).sequencer)
        (λ closed. record { same_written = h.same_written; same_closed = h.same_closed })
        (λ unclosed. record { same_written = h.same_written; same_closed = h.same_closed })

  -- A task adds to what is written what its call sends.
  run_task-outgoing :
      (fuel : ℕ) (c : Call) (cs : List Call) (s : Stream Q)
      → (run_task q fuel (task_of c) s).written
          ++ outgoing (run_task q fuel (task_of c) s).write_side_closed cs
        ≡ s.written ++ outgoing s.write_side_closed (c ∷ cs)
  unfolding run_task close_on_current_thread send_data_on_current_thread write_or_buffer_data
  run_task-outgoing fuel calls_close cs s =
      ground (arith, append-nil (s.written ++ final_byte ∷ []))
  run_task-outgoing fuel (calls_send_data memory len) cs s =
      ground (arith, append_assoc s.written (piece memory len ∷ []) (outgoing false cs))
  run_task-outgoing fuel data_arrives cs s =
      let h = process_data-SameSend fuel s in ground (arith, h.same_written, h.same_closed)

  run_tasks-outgoing :
      (fuel : ℕ) (cs : List Call) (s : Stream Q)
      → (run_tasks q fuel (tasks_of cs) s).written ≡ s.written ++ outgoing s.write_side_closed cs
  unfolding run_tasks
  run_tasks-outgoing fuel [] s = ground (arith, append-nil s.written)
  run_tasks-outgoing fuel (c ∷ cs) s =
      run_tasks-outgoing fuel cs (run_task q fuel (task_of c) s) ∙ run_task-outgoing fuel c cs s

  -- From a stream with no task posted: once the IO thread has run the tasks of any calls, with data
  -- arriving in between, the stream has written, in the order of the calls, the bytes of each
  -- SendData up to the first Close, then one byte 0 with the FIN, and nothing after it.
  pub calls_are_written :
      (fuel : ℕ) (cs : List Call) (s : Stream Q)
      → s.tasks ≡ []
      → let called = calls cs s in
        (run_tasks q fuel called.tasks called).written
        ≡ s.written ++ outgoing s.write_side_closed cs
  calls_are_written fuel cs s e =
      ap (λ t. (run_tasks q fuel t.tasks t).written) (calls-tasks cs s)
      ∙ ap
          (λ ts.
            (run_tasks q fuel (ts ++ tasks_of cs) (record s { tasks = ts ++ tasks_of cs })).written)
          e
      ∙ run_tasks-outgoing fuel cs (record s { tasks = tasks_of cs })
