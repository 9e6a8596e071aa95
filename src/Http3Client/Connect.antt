-- ===== src/Http3Client/Connect.antt =====
-- The Do* steps of the connection attempt, from
-- web_transport/sdk/impl/web_transport_http3_client.cc.
use Prim.Native.String.{String}
use text.Mathlib.Text.{◌==◌ as str_eq}
use owt_sdk_quic.Prelude.{
  ℕ, suc, Bool, true, false, not, ◌||◌, Option, none, some, List, [], ◌∷◌, ◌++◌, if◌then◌else◌,
  contains,
}
use owt_sdk_quic.Net.{
  NetError, ok, io_pending, not_implemented, tunnel_connection_failed, invalid_url,
  disallowed_url_scheme, unsafe_port, method_not_supported, quic_protocol_error, is_ok,
  is_not_implemented,
}
use owt_sdk_quic.Http3Client.State.{
  Client, Config, connected, check_proxy, check_proxy_complete, resolve_host, resolve_host_complete,
  connect, connect_complete, send_request, confirm_connection, transition_to_state, dcheck,
}

-- What the calls into net/ and quiche return while one task of the client runs.
pub record Answers : Type 0 where
  pub resolve_proxy : NetError
  pub proxy_is_direct : Bool
  pub resolve_host_start : NetError
  pub socket_connect : NetError
  pub set_receive_buffer_size : NetError
  pub set_do_not_fragment : NetError
  pub set_send_buffer_size : NetError
  pub connection_connected : Bool
  pub supports_web_transport : Bool
  pub should_create_outgoing_stream : Bool
  pub next_stream_id : ℕ
  pub stream_web_transport : Option ℕ

-- The loop of DoInit over the context's versions.
unfoldable pub add_versions : (ℕ → Bool) → List ℕ → List ℕ → List ℕ
add_versions uses_http3 versions [] = versions
add_versions uses_http3 versions (v ∷ vs) =
    add_versions uses_http3
      (if not (uses_http3 v) || contains versions v then versions else versions ++ v ∷ []) vs

abbrev pub is_empty : List ℕ → Bool
is_empty [] = true
is_empty (x ∷ xs) = false

unfoldable pub do_init : Client → NetError × Client
do_init c =
    if not k.url_is_valid
    then (invalid_url, c)
    else if not (str_eq k.url_scheme "https")
    then (disallowed_url_scheme, c)
    else if not (k.is_port_allowed_for_scheme k.url_effective_int_port k.url_scheme)
    then (unsafe_port, c)
    else let versions = add_versions k.uses_http3 (k.rfc_v1 ∷ []) k.context_versions in
      let c' = record c { supported_versions = versions } in
      if is_empty versions
      then (not_implemented, c')
      else (ok, record c' { next_connect_state = check_proxy })
  where
    open c use {config as k}

unfoldable pub do_check_proxy : Answers → Client → NetError × Client
do_check_proxy a c = (a.resolve_proxy, record c { next_connect_state = check_proxy_complete })

unfoldable pub do_check_proxy_complete : Answers → NetError → Client → NetError × Client
do_check_proxy_complete a rv c =
    if not (is_ok rv)
    then (rv, c)
    else if not a.proxy_is_direct
    then (tunnel_connection_failed, c)
    else (ok, record c { next_connect_state = resolve_host })

unfoldable pub do_resolve_host : Answers → Client → NetError × Client
do_resolve_host a c =
    (a.resolve_host_start, record c { next_connect_state = resolve_host_complete })

unfoldable pub do_resolve_host_complete : NetError → Client → NetError × Client
do_resolve_host_complete rv c =
    if not (is_ok rv) then (rv, c) else (ok, record c { next_connect_state = connect })

-- CreateConnection replaces the session and the connection by new ones.
unfoldable pub create_connection : Client → Client
create_connection c = record c { connections = suc c.connections }

-- The `rv` after SetDoNotFragment.
abbrev pub tolerate_not_implemented : NetError → NetError
tolerate_not_implemented rv = if is_not_implemented rv then ok else rv

unfoldable pub do_connect : Answers → Client → NetError × Client
unfolding create_connection
do_connect a c =
    if not (is_ok a.socket_connect)
    then (a.socket_connect, c)
    else if not (is_ok a.set_receive_buffer_size)
    then (a.set_receive_buffer_size, c)
    else if not (is_ok (tolerate_not_implemented a.set_do_not_fragment))
    then (tolerate_not_implemented a.set_do_not_fragment, c)
    else if not (is_ok a.set_send_buffer_size)
    then (a.set_send_buffer_size, c)
    else (io_pending, record (create_connection c) { next_connect_state = connect_complete })

unfoldable pub do_connect_complete : Answers → Client → NetError × Client
do_connect_complete a c =
    if not a.connection_connected
    then (quic_protocol_error, c)
    else if not a.supports_web_transport
    then (method_not_supported, c)
    else (ok, record c { safe_to_report_error_details = true; next_connect_state = send_request })

-- WebTransportHttp3ClientSession::CreateConnectStream
unfoldable pub create_connect_stream : Answers → Option ℕ
create_connect_stream a =
    if not a.should_create_outgoing_stream then none else some a.next_stream_id

-- The header block of the extended CONNECT request.
unfoldable pub request_headers : Config → List (String × String)
request_headers k =
    (":scheme", k.url_scheme)
    ∷ (":method", "CONNECT")
    ∷ (":authority", k.url_host_and_optional_port)
    ∷ (":path", k.url_path_for_request)
    ∷ (":protocol", "webtransport")
    ∷ ("origin", k.origin)
    ∷ []

-- DoSendRequest after the stream was made.
unfoldable pub send_on_stream : Answers → ℕ → Client → NetError × Client
unfolding request_headers
send_on_stream a stream c =
    let c' = record (dcheck (str_eq c.config.url_scheme "https") c) {
      connect_stream = some stream;
      headers_written = request_headers c.config ∷ c.headers_written;
      web_transport_session = a.stream_web_transport;
    } in
    elim a.stream_web_transport [
      | none ↦ (method_not_supported, c')
      | some session ↦ (io_pending, record c' { next_connect_state = confirm_connection })
    ]

unfoldable pub do_send_request : Answers → Client → NetError × Client
unfolding create_connect_stream send_on_stream
do_send_request a c = elim (create_connect_stream a) [
  | none ↦ (quic_protocol_error, c)
  | some stream ↦ send_on_stream a stream c
]

unfoldable pub do_confirm_connection : Client → NetError × Client
unfolding transition_to_state
do_confirm_connection c =
    if not c.session_ready then (method_not_supported, c) else (ok, transition_to_state connected c)
