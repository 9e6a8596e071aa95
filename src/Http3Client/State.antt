-- ===== src/Http3Client/State.antt =====
-- The state of WebTransportHttp3Client, its transitions and its error, from
-- web_transport/sdk/impl/web_transport_http3_client.h and .cc.
use Prim.Native.String.{String}
use owt_sdk_quic.Prelude.{
  ℕ, suc, Bool, false, Option, none, some, List, [], ◌∷◌, ◌++◌, ◌==◌, if◌then◌else◌, is_some,
}
use owt_sdk_quic.Net.{NetError, QuicErrorCode, no_error, internal_error, QuicMessageStatus}

-- net::WebTransportState
pub data WebTransportState : Type 0 where
  new connecting connected closed failed : WebTransportState

abbrev pub state_code : WebTransportState → ℕ
state_code new = 0
state_code connecting = 1
state_code connected = 2
state_code closed = 3
state_code failed = 4

abbrev pub state_eq : WebTransportState → WebTransportState → Bool
state_eq a b = state_code a == state_code b

-- CONNECT_STATE_NONE is `no_state`.
pub data ConnectState : Type 0 where
  no_state init check_proxy check_proxy_complete resolve_host resolve_host_complete : ConnectState
  connect connect_complete send_request confirm_connection num_states : ConnectState

-- The enumerators' values.
abbrev pub connect_code : ConnectState → ℕ
connect_code no_state = 0
connect_code init = 1
connect_code check_proxy = 2
connect_code check_proxy_complete = 3
connect_code resolve_host = 4
connect_code resolve_host_complete = 5
connect_code connect = 6
connect_code connect_complete = 7
connect_code send_request = 8
connect_code confirm_connection = 9
connect_code num_states = 10

-- A text that is passed on unread: ErrorToString of a code, or a message of the peer's.
pub data Details : Type 0 where
  error_to_string : NetError → Details
  message : List ℕ → Details

-- net::WebTransportError
pub record WebTransportError : Type 0 where
  pub net_error : NetError
  pub quic_error : QuicErrorCode
  pub details : Details
  pub safe_to_report_details : Bool

-- net::WebTransportCloseInfo
pub record CloseInfo : Type 0 where
  pub code : ℕ
  pub reason : List ℕ

-- A call of `visitor_`.
pub data VisitorCall : Type 0 where
  on_connected : VisitorCall
  on_connection_failed on_error : WebTransportError → VisitorCall
  on_closed : Option CloseInfo → VisitorCall
  on_incoming_bidirectional_stream on_incoming_unidirectional_stream : VisitorCall
  on_datagram_received : List ℕ → VisitorCall
  on_can_create_bidirectional on_can_create_unidirectional : VisitorCall
  on_datagram_processed : Option QuicMessageStatus → VisitorCall

-- A closure that waits in `task_runner_`.
pub data Task : Type 0 where
  do_loop_task close_task create_connection_task : Task

-- What the constructor is given: the URL as GURL has parsed it, the port check of
-- net/base/port_util.h, and the versions of the context and which of them use HTTP/3.
pub record Config : Type 0 where
  pub url_is_valid : Bool
  pub url_scheme : String
  pub url_effective_int_port : ℕ
  pub url_host_and_optional_port : String
  pub url_path_for_request : String
  pub origin : String
  pub is_port_allowed_for_scheme : ℕ → String → Bool
  pub rfc_v1 : ℕ
  pub context_versions : List ℕ
  pub uses_http3 : ℕ → Bool

-- The members that the methods read or write, then what they did outside: the tasks posted and
-- not yet run, oldest first, and, newest first, the calls of the visitor, the errors that the
-- connection was closed with, the header blocks written and the CloseSession calls.
-- `violations` counts failed DCHECKs, NOTREACHED and null pointers that were followed.
pub record Client : Type 0 where
  pub config : Config
  pub state : WebTransportState
  pub next_connect_state : ConnectState
  pub error : Option WebTransportError
  pub retried_with_new_version : Bool
  pub session_ready : Bool
  pub safe_to_report_error_details : Bool
  pub has_http_response_info : Bool
  pub supported_versions : List ℕ
  pub connections : ℕ
  pub connect_stream : Option ℕ
  pub web_transport_session : Option ℕ
  pub close_info : Option CloseInfo
  pub close_timeout : Option ℕ
  pub tasks : List Task
  pub visitor_calls : List VisitorCall
  pub connection_closes : List QuicErrorCode
  pub headers_written : List (List (String × String))
  pub session_closes : List CloseInfo
  pub violations : ℕ

-- WebTransportHttp3Client::WebTransportHttp3Client
unfoldable pub new_client : Config → Client
new_client k = record {
  config = k;
  state = new;
  next_connect_state = no_state;
  error = none;
  retried_with_new_version = false;
  session_ready = false;
  safe_to_report_error_details = false;
  has_http_response_info = false;
  supported_versions = [];
  connections = 0;
  connect_stream = none;
  web_transport_session = none;
  close_info = none;
  close_timeout = none;
  tasks = [];
  visitor_calls = [];
  connection_closes = [];
  headers_written = [];
  session_closes = [];
  violations = 0;
}

-- DCHECK(b), which goes on in a release build.
abbrev pub dcheck : Bool → Client → Client
dcheck b c = record c { violations = if b then c.violations else suc c.violations }

abbrev pub emit : VisitorCall → Client → Client
emit v c = record c { visitor_calls = v ∷ c.visitor_calls }

abbrev pub post : Task → Client → Client
post t c = record c { tasks = c.tasks ++ t ∷ [] }

-- connection_->CloseConnection(e, ..., SILENT_CLOSE). What the connection calls back is an event.
abbrev pub close_connection : QuicErrorCode → Client → Client
close_connection e c = record c { connection_closes = e ∷ c.connection_closes }

-- SetErrorIfNecessary(error, quic_error, details)
unfoldable pub set_error_with : NetError → QuicErrorCode → Details → Client → Client
set_error_with e q d c = if is_some c.error then c else record c {
  error = some (record {
    net_error = e;
    quic_error = q;
    details = d;
    safe_to_report_details = c.safe_to_report_error_details;
  });
}

-- SetErrorIfNecessary(error)
unfoldable pub set_error_if_necessary : NetError → Client → Client
unfolding set_error_with
set_error_if_necessary e c = set_error_with e no_error (error_to_string e) c

-- `*error_`; a missing value is read as garbage, here an error with no code, and counted.
abbrev pub garbage_error : WebTransportError
garbage_error = record {
  net_error = NetError.ok;
  quic_error = no_error;
  details = message [];
  safe_to_report_details = false;
}

abbrev pub value_of : Option WebTransportError → WebTransportError
value_of none = garbage_error
value_of (some e) = e

-- The `switch` of TransitionToState, with `last` for `last_state`.
unfoldable pub enter_state : WebTransportState → WebTransportState → Client → Client
enter_state connecting last c = dcheck (state_eq last new) c
enter_state connected last c =
    emit on_connected (dcheck c.has_http_response_info (dcheck (state_eq last connecting) c))
enter_state closed last c =
    emit (on_closed c.close_info) (close_connection no_error (dcheck (state_eq last connected) c))
enter_state failed last c =
    let c' = dcheck (is_some c.error) c in
    if state_eq last connecting
    then emit (on_connection_failed (value_of c.error)) c'
    else emit (on_error (value_of c.error))
        (close_connection internal_error (dcheck (state_eq last connected) c'))
enter_state new last c = dcheck false c

-- TransitionToState
unfoldable pub transition_to_state : WebTransportState → Client → Client
unfolding enter_state
transition_to_state next c = enter_state next c.state (record c { state = next })
