-- ===== src/WebClient/Connection/Closing.antt =====
-- What the API's user hears when the connection closes.
use owt_sdk_quic.Prelude.{
  ℕ, ◌≡◌, refl, ap, ◌∙◌, true, false, Option, none, some, List, [], ◌∷◌, ◌++◌, arith,
}
use mathlib.Core.List.{append_assoc}
use owt_sdk_quic.Net.{QuicErrorCode, no_error, is_invalid_version}
use owt_sdk_quic.Http3Client.State as State
use owt_sdk_quic.Http3Client.State.{Details, transition_to_state, connected}
use owt_sdk_quic.Http3Client.Connect.{Answers}
use owt_sdk_quic.Http3Client.Events as Events
use owt_sdk_quic.Http3Client.Events.{handle}
use owt_sdk_quic.Http3Client.Telling.{told_since, told_since-of}
use owt_sdk_quic.WebClient as User
use owt_sdk_quic.WebClient.Connection.{Connection, relay, relay_all, transport_event, run_task}
use owt_sdk_quic.WebClient.Connection.Connected.{transport, task_due, run, step}

-- The connection's HTTP/3 client is CONNECTED, with this close info.
pub record IsConnected (s : Connection) (info : Option State.CloseInfo) (tasks : List State.Task)
    : Type 0 where
  pub client : State.Client
  pub is_there : s.client ≡ some client
  pub is_connected : client.state ≡ connected
  pub has_info : client.close_info ≡ info
  pub has_tasks : client.tasks ≡ tasks

close_task_tells :
    (ts rest : List State.Task) (a : Answers) (c : State.Client)
    → ts ≡ State.close_task ∷ rest
    → told_since c (Events.run_task ts a c) ≡ State.on_closed c.close_info ∷ []
unfolding Events.run_task transition_to_state
close_task_tells ts rest a c e = rw e (told_since-of (State.on_closed c.close_info ∷ []) c _ refl)

clean_close_tells :
    (details : Details) (session_error : QuicErrorCode) (vs : List ℕ) (a : Answers)
    (c : State.Client)
    → c.state ≡ connected
    → is_invalid_version session_error ≡ false
    → told_since c (Events.on_connection_closed no_error details session_error vs a c)
      ≡ State.on_closed c.close_info ∷ []
unfolding Events.on_connection_closed Events.end_connection transition_to_state
clean_close_tells details session_error vs a c is_connected e =
    told_since-of (State.on_closed c.close_info ∷ []) c _ (ground (arith, is_connected, e))

module _ (s : Connection) (info : Option State.CloseInfo) (tasks : List State.Task) (a : Answers)
    (h : IsConnected s info tasks) where
  -- The posted task of the HTTP/3 client closes it.
  close_task-user :
      (rest : List State.Task)
      → tasks ≡ State.close_task ∷ rest
      → (step (transport Events.task_due a) s).user ≡ relay (State.on_closed info) s.user
  unfolding step transport_event relay_all handle
  close_task-user rest e =
      let told = close_task_tells h.client.tasks rest a h.client (h.has_tasks ∙ e) in
      rw h.is_there (rw told (ap (λ i. relay (State.on_closed i) s.user) h.has_info))

  -- The connection closes without an error.
  clean_close-user :
      (details : Details) (session_error : QuicErrorCode) (vs : List ℕ)
      → is_invalid_version session_error ≡ false
      → (step (transport (Events.connection_was_closed no_error details session_error vs) a) s).user
        ≡ relay (State.on_closed info) s.user
  unfolding step transport_event relay_all handle
  clean_close-user details session_error vs e =
      let told = clean_close_tells details session_error vs a h.client h.is_connected e in
      rw h.is_there (rw told (ap (λ i. relay (State.on_closed i) s.user) h.has_info))

closed_then_task :
    (info : State.CloseInfo) (u : User.Client) (later : List User.Task)
    → u.has_visitor ≡ true
    → u.tasks ≡ User.fire_on_connected ∷ later
    → let closed_user = relay (State.on_closed (some info)) u in
      (User.run_task none closed_user.tasks closed_user).calls
      ≡ u.calls ++ User.closed_call info.code none ∷ User.connected_call ∷ []
unfolding relay User.on_closed User.call User.run_task User.fire_event
closed_then_task info u later visitor waiting = rw visitor (
    rw waiting (
      ground (
        arith,
        append_assoc u.calls (User.closed_call info.code none ∷ []) (User.connected_call ∷ []),
      )))

task_due-user :
    (s : Connection) → (step (task_due none) s).user ≡ User.run_task none s.user.tasks s.user
unfolding step run_task
task_due-user s = refl

-- When the task that closes the HTTP/3 client runs, after the session was closed with a code and a
-- reason, before the event thread has told of the connection: the visitor hears OnClosed first, with
-- the code and null for the reason, and OnConnected after it.
pub closed_before_connected :
    (s : Connection) (info : State.CloseInfo) (rest : List State.Task) (a : Answers)
    (later : List User.Task)
    → IsConnected s (some info) (State.close_task ∷ rest)
    → s.user.has_visitor ≡ true
    → s.user.tasks ≡ User.fire_on_connected ∷ later
    → (run (transport Events.task_due a ∷ task_due none ∷ []) s).user.calls
      ≡ s.user.calls ++ User.closed_call info.code none ∷ User.connected_call ∷ []
unfolding run
closed_before_connected s info rest a later h visitor waiting =
    let s' = step (transport Events.task_due a) s in
    ap (λ (u : User.Client). u.calls) (task_due-user s')
    ∙ ap (λ (u : User.Client). (User.run_task none u.tasks u).calls)
        (close_task-user s (some info) (State.close_task ∷ rest) a h rest refl)
    ∙ closed_then_task info s.user later visitor waiting

-- When the connection of a CONNECTED client with a visitor closes without an error, for another
-- reason than its version, and the session gave no close info, an empty optional is used, and the
-- visitor hears nothing.
pub clean_close_crashes :
    (s : Connection) (tasks : List State.Task) (a : Answers) (details : Details)
    (session_error : QuicErrorCode) (vs : List ℕ)
    → IsConnected s none tasks
    → s.user.has_visitor ≡ true
    → is_invalid_version session_error ≡ false
    → let closes = Events.connection_was_closed no_error details session_error vs in
      let u = (step (transport closes a) s).user in (u.crashed ≡ true) × (u.calls ≡ s.user.calls)
unfolding relay User.on_closed
clean_close_crashes s tasks a details session_error vs h visitor e =
    rw (clean_close-user s none tasks a h details session_error vs e) (rw visitor (refl, refl))
