-- ===== src/Transport/Server/Sessions.antt =====
-- What the visitor of a server hears of its sessions.
use owt_sdk_quic.Prelude.{
  ◌≡◌, refl, ◌∙◌, ap, sym, Bool, true, false, List, [], ◌∷◌, ◌++◌, arith, if_elim,
}
use mathlib.Core.List.{append_assoc, append-nil}
use owt_sdk_quic.Net.{ReadResult}
use owt_sdk_quic.Transport.Server.{
  Task, start_task, stop_task, start_reading_task, read_complete_task, SessionCall, Server,
  new_server, start, stop, post, complete_read, on_read_complete, ListenAnswers,
  start_on_current_thread, stop_on_current_thread, on_session, run_event_task, run_task,
}
use owt_sdk_quic.Transport.Server.Reading.{SameSessions, start_reading-SameSessions}
use owt_sdk_quic.Transport.Server.Running.{
  Event, socket_result, task_due, event_task_due, stop_called, session_changed, Round, handle, run,
}

-- The sessions that the dispatcher speaks of.
abbrev pub session_of : Event → List SessionCall
session_of (session_changed c) = c ∷ []
session_of e = []

abbrev pub sessions_of : List Round → List SessionCall
sessions_of [] = []
sessions_of (e ∷ es) = session_of e.event ++ sessions_of es

-- What changes nothing for sessions may come first.
same_after : (s s' s'' : Server) → SameSessions s s' → SameSessions s' s'' → SameSessions s s''
same_after s s' s'' h k = record {
  same_calls = k.same_calls ∙ h.same_calls;
  same_event_tasks = k.same_event_tasks ∙ h.same_event_tasks;
  same_visitor = k.same_visitor ∙ h.same_visitor;
}

other_tasks : (ts : List Task) (s : Server) → SameSessions s (record s { tasks = ts })
other_tasks ts s = record { same_calls = refl; same_event_tasks = refl; same_visitor = refl }

complete_read-SameSessions : (r : ReadResult) (s : Server) → SameSessions s (complete_read r s)
unfolding complete_read stop post
complete_read-SameSessions r s = ground arith

on_read_complete-SameSessions :
    (h : Bool) (r : ReadResult) (rs : List ReadResult) (s : Server)
    → SameSessions s (on_read_complete h r rs s).1
unfolding on_read_complete
on_read_complete-SameSessions h r rs s =
    let first = complete_read-SameSessions r s in
    let later = start_reading-SameSessions h rs (complete_read r s) in
    ground (
      arith, first.same_calls, first.same_event_tasks, first.same_visitor, later.same_calls,
      later.same_event_tasks, later.same_visitor,
    )

stop-SameSessions : (s : Server) → SameSessions s (stop_on_current_thread s)
unfolding stop_on_current_thread
stop-SameSessions s = ground arith

run_task-SameSessions :
    (a : ListenAnswers) (h : Bool) (ts : List Task) (rs : List ReadResult) (s : Server)
    → SameSessions s (run_task a h ts rs s).1
unfolding run_task start_on_current_thread
run_task-SameSessions a h [] rs s = ground arith
run_task-SameSessions a h (start_task ∷ ts) rs s =
    let later = start_reading-SameSessions h rs _ in
    record {
      same_calls = later.same_calls;
      same_event_tasks = later.same_event_tasks;
      same_visitor = later.same_visitor;
    }
run_task-SameSessions a h (stop_task ∷ ts) rs s =
    same_after s _ _ (other_tasks ts s) (stop-SameSessions (record s { tasks = ts }))
run_task-SameSessions a h (start_reading_task ∷ ts) rs s =
    same_after s _ _ (other_tasks ts s) (start_reading-SameSessions h rs (record s { tasks = ts }))
run_task-SameSessions a h (read_complete_task r ∷ ts) rs s =
    same_after s _ _ (other_tasks ts s)
      (on_read_complete-SameSessions h r rs (record s { tasks = ts }))

-- What the visitor has heard and what the event thread has yet to tell it, with that of an event.
record Heard (s s' : Server) (cs : List SessionCall) : Type 0 where
  heard : s'.calls ++ s'.event_tasks ≡ (s.calls ++ s.event_tasks) ++ cs
  visited : s'.has_visitor ≡ true

same-Heard : (s s' : Server) → s.has_visitor ≡ true → SameSessions s s' → Heard s s' []
same-Heard s s' v h = record {
  heard = rw (h.same_calls, h.same_event_tasks) (sym (append-nil (s.calls ++ s.event_tasks)));
  visited = h.same_visitor ∙ v;
}

event_task-Heard :
    (cs : List SessionCall) (s : Server)
    → s.event_tasks ≡ cs
    → s.has_visitor ≡ true
    → Heard s (run_event_task cs s) []
unfolding run_event_task
event_task-Heard [] s e v =
    same-Heard s s v (record { same_calls = refl; same_event_tasks = refl; same_visitor = refl })
event_task-Heard (c ∷ cs) s e v = record {
  heard = ground (arith, e, v, append_assoc s.calls (c ∷ []) cs, append-nil (s.calls ++ (c ∷ cs)));
  visited = v;
}

handle-Heard :
    (a : ListenAnswers) (e : Event) (rs : List ReadResult) (h : Bool) (s : Server)
    → s.has_visitor ≡ true
    → Heard s (handle a e rs h s) (session_of e)
unfolding handle on_session stop post
handle-Heard a (socket_result r) rs h s v =
    if_elim (λ s'. Heard s s' []) s.waiting
      (λ waits. same-Heard s (on_read_complete h r rs (record s { waiting = false })).1 v (
        same_after s _ _
          (record { same_calls = refl; same_event_tasks = refl; same_visitor = refl })
          (on_read_complete-SameSessions h r rs (record s { waiting = false }))))
      (λ no_callback.
        same-Heard s s v
          (record { same_calls = refl; same_event_tasks = refl; same_visitor = refl }))
handle-Heard a task_due rs h s v =
    same-Heard s (run_task a h s.tasks rs s).1 v (run_task-SameSessions a h s.tasks rs s)
handle-Heard a event_task_due rs h s v = event_task-Heard s.event_tasks s refl v
handle-Heard a stop_called rs h s v =
    same-Heard s (stop s) v
      (record { same_calls = refl; same_event_tasks = refl; same_visitor = refl })
handle-Heard a (session_changed c) rs h s v = record {
  heard = sym (append_assoc s.calls s.event_tasks (c ∷ []));
  visited = v;
}

run-Heard :
    (a : ListenAnswers) (es : List Round) (s : Server)
    → s.has_visitor ≡ true
    → Heard s (run a es s) (sessions_of es)
unfolding run
run-Heard a [] s v =
    same-Heard s s v (record { same_calls = refl; same_event_tasks = refl; same_visitor = refl })
run-Heard a (e ∷ es) s v =
    let s' = handle a e.event e.stock e.has_chlos s in
    let first = handle-Heard a e.event e.stock e.has_chlos s v in
    let later = run-Heard a es s' first.visited in
    record {
      heard =
          later.heard
          ∙ ap (λ xs. xs ++ sessions_of es) first.heard
          ∙ append_assoc (s.calls ++ s.event_tasks) (session_of e.event) (sessions_of es);
      visited = later.visited;
    }

-- A visitor that a server has from the start hears, through the tasks of the event thread, of each
-- session that the dispatcher makes or closes, each once and in order, whatever the IO thread does
-- in between: what it has heard, followed by the tasks that have not run, is all that the dispatcher
-- spoke of.
pub sessions_are_told :
    (a : ListenAnswers) (es : List Round)
    → let s = run a es (start (new_server true)).1 in s.calls ++ s.event_tasks ≡ sessions_of es
unfolding start post new_server
sessions_are_told a es = (run-Heard a es (start (new_server true)).1 refl).heard
