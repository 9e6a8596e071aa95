-- ===== src/Raw/ServerImpl/Thread.antt =====
-- The server's thread of RawServerImpl in quic_io/src/wrapper/quic_raw_lib.cc: InitAndRun from its start
-- to its end, between the calls of the user, and waiting for it.
pub mod Invariant
pub mod Stopping
use owt_sdk_quic.Prelude.{ℕ, suc, ◌≡◌, Bool, not, List, [], ◌∷◌, if◌then◌else◌}
use owt_sdk_quic.Streams.{Outcome, finished, waits_forever}
use owt_sdk_quic.Raw.ServerImpl.{
  ServerImpl, send_on_session_task, quit_task, new_server, listen, stop, wait_for_close,
  set_listener, send, send_to, loop_started, loop_ended, send_on_session,
}
use owt_sdk_quic.Raw.ServerImpl.Registry.{Event, step}

-- Where InitAndRun is: not started, before Listen returned, in the loop, after the loop and before it
-- takes the pointer to the loop back, or at its end.
pub data Phase : Type 0 where
  no_thread : Phase
  starting : Phase
  running : Phase
  leaving : Phase
  over : Phase

-- RawServerImpl with its thread, its `server_port_`, and how often the listener heard onReady.
pub record Server : Type 0 where
  pub impl : ServerImpl
  pub phase : Phase
  pub port : ℕ
  pub ready_calls : ℕ

unfoldable pub new : Server
new = record { impl = new_server; phase = no_thread; port = 0; ready_calls = 0 }

-- InitAndRun after Listen returned: whether it succeeded, and the port of the server's address.
unfoldable pub after_listen : Bool → ℕ → Server → Server
after_listen ok port s = if not ok then record s { phase = over } else record s {
  impl = loop_started s.impl;
  phase = running;
  port = port;
  ready_calls = if s.impl.has_listener then suc s.ready_calls else s.ready_calls;
}

-- The loop runs the oldest task; for a SendOnSession, with whether the session gets or makes the stream.
unfoldable pub run_task : Bool → Server → Server
run_task has_stream s = elim s.impl.tasks [
  | [] ↦ s
  | task ∷ tasks ↦ elim task [
    | quit_task ↦ record s { impl = record s.impl { tasks = tasks }; phase = leaving }
    | send_on_session_task session_id stream_id content ↦ record s {
      impl =
          send_on_session has_stream session_id stream_id content (record s.impl { tasks = tasks });
    }
  ]
]

-- InitAndRun after the loop: the pointer to the loop is taken back, and the loop is destroyed with the
-- tasks that it has left.
unfoldable pub leave : Server → Server
leave s = record s { impl = record (loop_ended s.impl) { tasks = [] }; phase = over }

-- The thread's steps, and what the dispatcher, the sessions and the streams call from its loop.
pub data ThreadStep : Server → Server → Type 0 where
  listens :
      (ok : Bool) (port : ℕ) (s : Server)
      → s.phase ≡ starting
      → ThreadStep s (after_listen ok port s)
  runs : (has_stream : Bool) (s : Server) → s.phase ≡ running → ThreadStep s (run_task has_stream s)
  is_called :
      (e : Event) (s : Server)
      → s.phase ≡ running
      → ThreadStep s (record s { impl = step e s.impl })
  leaves : (s : Server) → s.phase ≡ leaving → ThreadStep s (leave s)

-- What the thread does by itself.
pub data ThreadRun (s : Server) : Server → Type 0 where
  none_yet : ThreadRun s s
  then_step : (t u : Server) → ThreadRun s t → ThreadStep t u → ThreadRun s u

-- The user's calls but for waitForClose.
pub data Call : Type 0 where
  calls_listen : Call
  calls_stop : Call
  calls_set_listener : Bool → Call
  calls_send : List ℕ → ℕ → Call
  calls_send_to : ℕ → ℕ → List ℕ → ℕ → Call

unfoldable pub call : Call → Server → Server
call calls_listen s = record s {
  impl = (listen s.impl).1;
  phase = if (listen s.impl).0 then starting else s.phase;
}
call calls_stop s = record s { impl = stop s.impl }
call (calls_set_listener given) s = record s { impl = set_listener given s.impl }
call (calls_send memory len) s = record s { impl = send memory len s.impl }
call (calls_send_to session_id stream_id memory len) s = record s {
  impl = send_to session_id stream_id memory len s.impl;
}

-- waitForClose, where the thread does not get to its end by itself any more: it joins a thread that is
-- at its end.
abbrev pub join_at : Phase → Server → Outcome Server
join_at no_thread s = finished s
join_at over s = finished (record s { impl = wait_for_close s.impl; phase = no_thread })
join_at p s = waits_forever

unfoldable pub join : Server → Outcome Server
join s = join_at s.phase s

-- The states that calls and steps lead to.
pub data Reachable : Server → Type 0 where
  begin : Reachable new
  called : (k : Call) (s : Server) → Reachable s → Reachable (call k s)
  stepped : (s t : Server) → Reachable s → ThreadStep s t → Reachable t
  joined : (s t : Server) → Reachable s → join s ≡ finished t → Reachable t
