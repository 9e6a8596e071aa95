-- ===== src/Examples/Http3.antt =====
-- web_transport/sdk/impl/web_transport_http3_client.cc on concrete inputs.
use Prim.Native.String.{String}
use owt_sdk_quic.Prelude.{
  ℕ, ◌≡◌, ◌≤◌, refl, Bool, true, not, ◌||◌, ◌==◌, some, List, [], ◌∷◌, is_some, arith,
}
use owt_sdk_quic.Net.{ok, timed_out, failed}
use owt_sdk_quic.Http3Client.State.{Config, new_client, state_eq}
use owt_sdk_quic.Http3Client.State
use owt_sdk_quic.Http3Client.Connect.{Answers}
use owt_sdk_quic.Http3Client.Loop.{loop_rounds, do_loop}
use owt_sdk_quic.Http3Client.Events.{
  Event, connect_called, settings_received, headers_complete, session_became_ready, task_due,
  read_failed, connect_client, run,
}
use owt_sdk_quic.Http3Client.Bounds.{loop_rounds-do_loop}
use owt_sdk_quic.Http3Client.Invariant.{connected_calls, is_legal, life}
use owt_sdk_quic.Http3Client.Runs.{client_life}
use owt_sdk_quic.Http3Client.Errors.{run_first_error}
use owt_sdk_quic.Http3Client.Attempt.{Outcome, first_not_ok, connect_steps, error_of}
use owt_sdk_quic.Http3Client.Outcome.{connect-Outcome}

abbrev pub any_version : ℕ → Bool
any_version v = true

abbrev pub any_port : ℕ → String → Bool
any_port port scheme = true

abbrev pub page : Config
page = record {
  url_is_valid = true;
  url_scheme = "https";
  url_effective_int_port = 443;
  url_host_and_optional_port = "a.example";
  url_path_for_request = "/wt";
  origin = "https://a.example";
  is_port_allowed_for_scheme = any_port;
  rfc_v1 = 1;
  context_versions = 1 ∷ 29 ∷ [];
  uses_http3 = any_version;
}

-- A server that is reached, and a host that is not found.
abbrev pub reachable : Answers
reachable = record {
  resolve_proxy = ok;
  proxy_is_direct = true;
  resolve_host_start = ok;
  socket_connect = ok;
  set_receive_buffer_size = ok;
  set_do_not_fragment = ok;
  set_send_buffer_size = ok;
  connection_connected = true;
  supports_web_transport = true;
  should_create_outgoing_stream = true;
  next_stream_id = 0;
  stream_web_transport = some 0;
}

abbrev unknown_host : Answers
unknown_host = record reachable { resolve_host_start = timed_out }

abbrev session_events : List (Event × Answers)
session_events =
    (connect_called, reachable)
    ∷ (settings_received, reachable)
    ∷ (task_due, reachable)
    ∷ (task_due, reachable)
    ∷ (session_became_ready, reachable)
    ∷ (headers_complete, reachable)
    ∷ (read_failed failed, reachable)
    ∷ []

loop_rounds-do_loop_example :
    loop_rounds 11 reachable ok (record (new_client page) { next_connect_state = State.init })
    ≡ some (do_loop reachable ok (record (new_client page) { next_connect_state = State.init }))
loop_rounds-do_loop_example =
    loop_rounds-do_loop 11 reachable ok
      (record (new_client page) { next_connect_state = State.init }) (omega arith)

client_life_example :
    let c = run session_events (new_client page) in
    (connected_calls c ≤ 1)
    × ((not (state_eq c.state State.failed) || is_some c.error) ≡ true)
    × ((not (c.violations == 0) || is_legal c.state (life c.visitor_calls)) ≡ true)
client_life_example = client_life page session_events

run_first_error_example :
    (run session_events (record (new_client page) { error = some (error_of timed_out) })).error
    ≡ some (error_of timed_out)
run_first_error_example =
    run_first_error (error_of timed_out) session_events
      (record (new_client page) { error = some (error_of timed_out) }) refl

connect-Outcome_example :
    Outcome
      (first_not_ok (connect_steps page unknown_host))
      (connect_client unknown_host (new_client page))
connect-Outcome_example = connect-Outcome page unknown_host
