-- ===== src/Examples/RawThread.antt =====
-- The raw server's thread and its sessions on concrete inputs.
use owt_sdk_quic.Prelude.{◌≡◌, refl, true, false, [], ◌∷◌, arith}
use owt_sdk_quic.Streams.{finished, waits_forever}
use owt_sdk_quic.Raw.ServerImpl.{new_server, listen, send_to, loop_started, set_listener}
use owt_sdk_quic.Raw.Dispatcher.{Dispatcher, new_dispatcher}
use owt_sdk_quic.Raw.Dispatcher as Dispatcher
use owt_sdk_quic.Raw.ServerImpl.Registry as Registry
use owt_sdk_quic.Raw.Sessions as Sessions
use owt_sdk_quic.Raw.Sessions.{start, connect}
use owt_sdk_quic.Raw.ServerImpl.Thread.{
  Server, new, after_listen, leave, running, leaving, listens, ThreadRun, none_yet, calls_listen,
  calls_stop, calls_send_to, call, join, Reachable, begin, called, stepped,
}
use owt_sdk_quic.Raw.ServerImpl.Thread.Stopping.{run_tasks, stop_ends_server, early_stop_is_lost}

abbrev waiting : Server
waiting = call (calls_send_to 3 4 (1 ∷ 0 ∷ []) 2) (after_listen true 443 (call calls_listen new))

waiting-Reachable : Reachable waiting
unfolding new call listen new_server
waiting-Reachable =
    called (calls_send_to 3 4 (1 ∷ 0 ∷ []) 2) (after_listen true 443 (call calls_listen new)) (
      stepped (call calls_listen new) (after_listen true 443 (call calls_listen new))
        (called calls_listen new begin) (listens true 443 (call calls_listen new) refl))

stop_ends_server_example :
    let stopped = call calls_stop waiting in
    let t = run_tasks (true ∷ true ∷ []) stopped in
    (t.phase ≡ leaving)
    × ThreadRun stopped (leave t)
    × ((u : Server) × (join (leave t) ≡ finished u)
        × (u.impl.tasks ≡ [])
        × (u.impl.has_message_loop ≡ false)
        × ((listen u.impl).0 ≡ true))
unfolding new call listen new_server after_listen send_to loop_started
stop_ends_server_example =
    stop_ends_server waiting (true ∷ true ∷ []) waiting-Reachable refl (omega arith)

early_stop_is_lost_example :
    let s = call calls_listen new in
    let t = after_listen true 443 (call calls_stop s) in
    (call calls_stop s ≡ s) × (t.phase ≡ running) × (join t ≡ waits_forever)
unfolding new call listen new_server
early_stop_is_lost_example =
    early_stop_is_lost (call calls_listen new)
      (after_listen true 443 (call calls_stop (call calls_listen new))) 443
      (called calls_listen new begin) refl none_yet

-- One session is made while Listen runs, and one later.
abbrev listened : Dispatcher
listened = Dispatcher.create_quic_session 3 90 new_dispatcher

abbrev two_sessions : Sessions.Server
two_sessions = connect 5 100 (start listened (set_listener true new_server))
