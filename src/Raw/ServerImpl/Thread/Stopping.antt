-- ===== src/Raw/ServerImpl/Thread/Stopping.antt =====
-- Where `stop` ends the server's thread, and where it is lost.
use owt_sdk_quic.Prelude.{
  ℕ, ◌≡◌, ◌<◌, refl, ap, sym, ◌∙◌, Bool, true, false, List, [], ◌∷◌, ◌++◌, length, arith,
}
use mathlib.Core.Path.{subst}
use owt_sdk_quic.Streams.{finished, waits_forever}
use owt_sdk_quic.Raw.ServerImpl.{
  Task, send_on_session_task, quit_task, listen, stop, wait_for_close, loop_started, loop_ended,
}
use owt_sdk_quic.Raw.ServerImpl.Thread.{
  starting, running, leaving, Server, after_listen, run_task, leave, ThreadStep, listens, runs,
  is_called, leaves, ThreadRun, none_yet, then_step, calls_stop, call, join, Reachable,
}
use owt_sdk_quic.Raw.ServerImpl.Thread.Invariant.{sent-Alike, step-Alike, reachable-Fits}

-- A server in its loop, with these tasks.
record Runs (tasks : List Task) (s : Server) : Type 0 where
  phase_is : s.phase ≡ running
  loop_is : s.impl.has_message_loop ≡ true
  tasks_are : s.impl.tasks ≡ tasks

-- The loop runs its tasks, with an answer for each, up to the one that ends it.
unfoldable pub run_tasks : List Bool → Server → Server
run_tasks [] s = s
run_tasks (answer ∷ answers) s =
    let rest = run_tasks answers (run_task answer s) in elim s.phase [ running ↦ rest | _ ↦ s ]

send-Runs :
    (answer : Bool) (session_id stream_id : ℕ) (content : List ℕ) (ts : List Task) (s : Server)
    → Runs (send_on_session_task session_id stream_id content ∷ ts) s
    → Runs ts (run_task answer s)
unfolding run_task
send-Runs answer session_id stream_id content ts s r =
    let same = sent-Alike answer session_id stream_id content (record s.impl { tasks = ts }) in
    record {
      phase_is = ground (arith, r.tasks_are, r.phase_is);
      loop_is = ground (arith, r.tasks_are, r.loop_is, same.loop);
      tasks_are = ground (arith, r.tasks_are, same.tasks);
    }

quit-leaving :
    (answer : Bool) (ts : List Task) (s : Server)
    → Runs (quit_task ∷ ts) s
    → (run_task answer s).phase ≡ leaving
unfolding run_task
quit-leaving answer ts s r = ground (arith, r.tasks_are)

-- A task is run by the thread.
runs_then :
    (answer : Bool) (s t : Server)
    → s.phase ≡ running
    → ThreadRun (run_task answer s) t
    → ThreadRun s t
runs_then answer s t r none_yet = then_step s t none_yet (runs answer s r)
runs_then answer s t r (then_step u _ before step) =
    then_step u t (runs_then answer s u r before) step

stays : (answers : List Bool) (s : Server) → s.phase ≡ leaving → run_tasks answers s ≡ s
unfolding run_tasks
stays [] s l = refl
stays (a ∷ rest) s l = ground (arith, l)

goes_on :
    (a : Bool) (rest : List Bool) (s : Server)
    → s.phase ≡ running
    → run_tasks (a ∷ rest) s ≡ run_tasks rest (run_task a s)
unfolding run_tasks
goes_on a rest s r = ground (arith, r)

-- Enough answers bring a loop with the task that quits to its end, by steps of the thread.
run_tasks-leaving :
    (answers : List Bool) (ts : List Task) (s : Server)
    → Runs (ts ++ quit_task ∷ []) s
    → length ts < length answers
    → ((run_tasks answers s).phase ≡ leaving) × ThreadRun s (run_tasks answers s)
run_tasks-leaving [] ts s r enough = absurd (omega (arith, enough))
run_tasks-leaving (a ∷ rest) [] s r enough =
    let l = quit-leaving a [] s r in
    let e = goes_on a rest s r.phase_is ∙ stays rest (run_task a s) l in
    (
      ap (λ (t : Server). t.phase) e ∙ l,
      subst (ThreadRun s) (sym e) (then_step s _ none_yet (runs a s r.phase_is)),
    )
run_tasks-leaving (a ∷ rest) (quit_task ∷ ts) s r enough =
    let l = quit-leaving a _ s r in
    let e = goes_on a rest s r.phase_is ∙ stays rest (run_task a s) l in
    (
      ap (λ (t : Server). t.phase) e ∙ l,
      subst (ThreadRun s) (sym e) (then_step s _ none_yet (runs a s r.phase_is)),
    )
run_tasks-leaving (a ∷ rest) (send_on_session_task session_id stream_id content ∷ ts) s r enough =
    let (l, path) =
      run_tasks-leaving rest ts (run_task a s)
        (send-Runs a session_id stream_id content (ts ++ quit_task ∷ []) s r)
        (omega (arith, enough)) in
    let e = goes_on a rest s r.phase_is in
    (
      ap (λ (t : Server). t.phase) e ∙ l,
      subst (ThreadRun s) (sym e) (runs_then a s _ r.phase_is path),
    )

-- In a state that calls and steps lead to, where the thread runs its loop: after `stop`, the tasks that
-- are posted and the end of the loop bring the thread to its end, whatever streams the tasks find. Then
-- waitForClose returns, no task is left, and the server can listen again.
pub stop_ends_server :
    (s : Server) (answers : List Bool)
    → Reachable s
    → s.phase ≡ running
    → length s.impl.tasks < length answers
    → let stopped = call calls_stop s in
      let t = run_tasks answers stopped in
      (t.phase ≡ leaving)
      × ThreadRun stopped (leave t)
      × ((u : Server) × (join (leave t) ≡ finished u)
          × (u.impl.tasks ≡ [])
          × (u.impl.has_message_loop ≡ false)
          × ((listen u.impl).0 ≡ true))
unfolding call stop join leave loop_ended wait_for_close listen
stop_ends_server s answers reach r enough =
    let stopped = call calls_stop s in
    let h = reachable-Fits s reach in
    let (l, path) =
      run_tasks-leaving answers s.impl.tasks stopped
        (record {
          phase_is = r;
          loop_is = ground (arith, h.loop, r);
          tasks_are = ground (arith, h.loop, r);
        })
        enough in
    (l, then_step _ _ path (leaves _ l), (_, refl, refl, refl, refl))

-- A thread in its loop without tasks stays there.
record Stays (s : Server) : Type 0 where
  running_is : s.phase ≡ running
  none_left : s.impl.tasks ≡ []

step-Stays : (s t : Server) → ThreadStep s t → Stays s → Stays t
unfolding run_task
step-Stays s t (listens ok port _ starts) h = let r = h.running_is in absurd (cc)
step-Stays s t (runs has_stream _ r) h = record {
  running_is = ground (arith, h.running_is, h.none_left);
  none_left = ground (arith, h.none_left);
}
step-Stays s t (is_called e _ r) h =
    let same = step-Alike e s.impl in
    record { running_is = r; none_left = same.tasks ∙ h.none_left }
step-Stays s t (leaves _ l) h = let r = h.running_is in absurd (cc)

run-Stays : (s t : Server) → ThreadRun s t → Stays s → Stays t
run-Stays s t none_yet h = h
run-Stays s t (then_step u _ before step) h = step-Stays u t step (run-Stays s u before h)

-- In a state that calls and steps lead to, where the thread has not got Listen's result yet: `stop` does
-- nothing. When Listen then succeeds, the thread stays in its loop whatever it does by itself, and
-- waitForClose, which the destructor calls after `stop`, waits for ever.
pub early_stop_is_lost :
    (s t : Server) (port : ℕ)
    → Reachable s
    → s.phase ≡ starting
    → ThreadRun (after_listen true port (call calls_stop s)) t
    → (call calls_stop s ≡ s) × (t.phase ≡ running) × (join t ≡ waits_forever)
unfolding call stop after_listen join loop_started
early_stop_is_lost s t port reach starts path =
    let h = reachable-Fits s reach in
    let same : stop s.impl ≡ s.impl = ground (arith, h.loop, starts) in
    let still =
      run-Stays _ t path
        (record { running_is = refl; none_left = ground (arith, h.idle, h.loop, starts) }) in
    (ap (λ i. record s { impl = i }) same, still.running_is, ground (arith, still.running_is))
