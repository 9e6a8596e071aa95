-- ===== src/Raw/ServerImpl/Thread/Invariant.antt =====
-- That the members of RawServerImpl say where its thread is.
use owt_sdk_quic.Prelude.{
  ℕ, ◌≡◌, refl, ap, Bool, true, false, List, [], arith, Bool-cases, inl, inr, List-cases, ◌∙◌,
}
use mathlib.Core.Path.{subst}
use owt_sdk_quic.Streams.{Outcome, finished, waits_forever}
use owt_sdk_quic.Raw.ServerImpl.{
  ServerImpl, send_on_session_task, quit_task, new_server, listen, stop, wait_for_close,
  set_listener, send, send_to, loop_started, loop_ended, send_on_session, on_session_created,
  on_session_closed, on_incoming_stream, on_close, on_data,
}
use owt_sdk_quic.Raw.ServerImpl.Registry.{
  Event, step, session_created, session_closed, stream_opened, stream_closed, data_received,
}
use owt_sdk_quic.Raw.ServerImpl.Thread.{
  Phase, no_thread, starting, running, leaving, over, Server, new, after_listen, run_task, leave,
  ThreadStep, listens, runs, is_called, leaves, Call, calls_listen, calls_stop, calls_set_listener,
  calls_send, calls_send_to, call, join, join_at, Reachable, begin, called, stepped, joined,
}

-- Two states with the same thread, loop and tasks.
pub record Alike (a b : ServerImpl) : Type 0 where
  pub thread : a.has_thread ≡ b.has_thread
  pub loop : a.has_message_loop ≡ b.has_message_loop
  pub tasks : a.tasks ≡ b.tasks

pub step-Alike : (e : Event) (s : ServerImpl) → Alike (step e s) s
unfolding step on_session_created on_session_closed on_incoming_stream on_close on_data
step-Alike (session_created session) s = record { thread = refl; loop = refl; tasks = refl }
step-Alike (session_closed session) s = record {
  thread = ground arith;
  loop = ground arith;
  tasks = ground arith;
}
step-Alike (stream_opened session t) s = record { thread = refl; loop = refl; tasks = refl }
step-Alike (stream_closed t) s = record { thread = refl; loop = refl; tasks = refl }
step-Alike (data_received t content) s = record {
  thread = ground arith;
  loop = ground arith;
  tasks = ground arith;
}

pub sent-Alike :
    (has_stream : Bool) (session_id stream_id : ℕ) (content : List ℕ) (s : ServerImpl)
    → Alike (send_on_session has_stream session_id stream_id content s) s
unfolding send_on_session
sent-Alike has_stream session_id stream_id content s = record {
  thread = ground arith;
  loop = ground arith;
  tasks = ground arith;
}

abbrev pub in_loop : Phase → Bool
in_loop running = true
in_loop leaving = true
in_loop p = false

abbrev pub is_thread : Phase → Bool
is_thread no_thread = false
is_thread p = true

-- The members say where the thread is.
pub record Fits (s : Server) : Type 0 where
  pub loop : s.impl.has_message_loop ≡ in_loop s.phase
  pub thread : s.impl.has_thread ≡ is_thread s.phase
  pub idle : in_loop s.phase ≡ false → s.impl.tasks ≡ []

no_thread-loop : (p : Phase) → is_thread p ≡ false → in_loop p ≡ false
no_thread-loop no_thread e = refl
no_thread-loop starting e = refl
no_thread-loop running e = absurd (cc)
no_thread-loop leaving e = absurd (cc)
no_thread-loop over e = refl

call-Fits : (k : Call) (s : Server) → Fits s → Fits (call k s)
unfolding call listen stop set_listener send send_to
call-Fits calls_listen s h = elim (Bool-cases s.impl.has_thread) [
  | inl e ↦ record {
    loop = ground (arith, e, h.loop);
    thread = ground (arith, e, h.thread);
    idle = λ i. ground (arith, e, h.idle, i);
  }
  | inr e ↦ record {
    loop = ground (arith, e, h.loop, h.thread, no_thread-loop s.phase);
    thread = ground (arith, e);
    idle = λ i. ground (arith, e, h.thread, no_thread-loop s.phase, h.idle);
  }
]
call-Fits calls_stop s h = record {
  loop = ground (arith, h.loop);
  thread = ground (arith, h.thread);
  idle = λ e. ground (arith, h.loop, h.idle);
}
call-Fits (calls_set_listener given) s h = record {
  loop = h.loop;
  thread = h.thread;
  idle = h.idle;
}
call-Fits (calls_send memory len) s h = record {
  loop = ground (arith, h.loop);
  thread = ground (arith, h.thread);
  idle = λ e. ground (arith, h.loop, h.idle);
}
call-Fits (calls_send_to session_id stream_id memory len) s h = record {
  loop = ground (arith, h.loop);
  thread = ground (arith, h.thread);
  idle = λ e. ground (arith, h.loop, h.idle);
}

run_task-Fits :
    (has_stream : Bool) (s : Server) → s.phase ≡ running → Fits s → Fits (run_task has_stream s)
unfolding run_task
run_task-Fits has_stream s r h = elim (List-cases s.impl.tasks) [
  | inl e ↦ record {
    loop = ground (arith, e, h.loop);
    thread = ground (arith, e, h.thread);
    idle = λ i. ground (arith, e);
  }
  | inr (quit_task, ts, e) ↦ record {
    loop = ground (arith, e, h.loop, r);
    thread = ground (arith, e, h.thread, r);
    idle = λ i. absurd (ground (arith, e, i));
  }
  | inr (send_on_session_task session_id stream_id content, ts, e) ↦
      let same =
        sent-Alike has_stream session_id stream_id content (record s.impl { tasks = ts }) in
      record {
        loop = ground (arith, e, h.loop, r, same.loop);
        thread = ground (arith, e, h.thread, r, same.thread);
        idle = λ i. absurd (ground (arith, e, i, r));
      }
]

step-Fits : (s t : Server) → ThreadStep s t → Fits s → Fits t
unfolding after_listen leave loop_started loop_ended
step-Fits s t (listens ok port _ starts) h = elim (Bool-cases ok) [
  | inl e ↦ record {
    loop = ground (arith, e);
    thread = ground (arith, e, h.thread, starts);
    idle = λ i. ground (arith, e, i, h.idle, starts);
  }
  | inr e ↦ record {
    loop = ground (arith, e, h.loop, starts);
    thread = ground (arith, e, h.thread, starts);
    idle = λ i. ground (arith, e, h.idle, starts);
  }
]
step-Fits s t (runs has_stream _ r) h = run_task-Fits has_stream s r h
step-Fits s t (is_called e _ r) h =
    let same = step-Alike e s.impl in
    record {
      loop = same.loop ∙ h.loop;
      thread = same.thread ∙ h.thread;
      idle = λ i. same.tasks ∙ h.idle i;
    }
step-Fits s t (leaves _ l) h = record {
  loop = refl;
  thread = h.thread ∙ ap is_thread l;
  idle = λ i. refl;
}

abbrev finished-out : {A : Type 0} → A → Outcome A → A
finished-out a (finished b) = b
finished-out a waits_forever = a

join_at-Fits : (p : Phase) (s t : Server) → s.phase ≡ p → join_at p s ≡ finished t → Fits s → Fits t
unfolding wait_for_close
join_at-Fits no_thread s t q e h = subst Fits (ap (finished-out s) e) h
join_at-Fits over s t q e h =
    subst Fits (ap (finished-out s) e)
      (record { loop = h.loop ∙ ap in_loop q; thread = refl; idle = λ i. h.idle (ap in_loop q) })
join_at-Fits starting s t q e h = absurd (cc)
join_at-Fits running s t q e h = absurd (cc)
join_at-Fits leaving s t q e h = absurd (cc)

pub reachable-Fits : (s : Server) → Reachable s → Fits s
unfolding new new_server join
reachable-Fits s begin = record { loop = refl; thread = refl; idle = λ i. refl }
reachable-Fits s (called k t r) = call-Fits k t (reachable-Fits t r)
reachable-Fits s (stepped t _ r step) = step-Fits t s step (reachable-Fits t r)
reachable-Fits s (joined t _ r e) = join_at-Fits t.phase t s refl e (reachable-Fits t r)
