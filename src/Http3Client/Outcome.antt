-- ===== src/Http3Client/Outcome.antt =====
-- What Connect comes to, for a client that is new.
use text.Mathlib.Text.{◌==◌ as str_eq}
use owt_sdk_quic.Prelude.{◌≡◌, not, refl, [], ◌∷◌, if◌then◌else◌, arith}
use owt_sdk_quic.Net.{
  NetError, ok, invalid_url, disallowed_url_scheme, unsafe_port, tunnel_connection_failed, is_ok,
}
use owt_sdk_quic.Http3Client.State.{
  Client, Config, transition_to_state, no_state, init, check_proxy, new_client, connecting,
}
use owt_sdk_quic.Http3Client.Connect.{Answers, do_init, add_versions}
use owt_sdk_quic.Http3Client.Events.{connect_client}
use owt_sdk_quic.Http3Client.Loop.{do_state, do_round, do_loop}
use owt_sdk_quic.Http3Client.Versions.{add_versions-is_empty}
use owt_sdk_quic.Http3Client.Bounds.{do_loop_more, do_loop_done}
use owt_sdk_quic.Http3Client.Attempt.{
  first_not_ok, check, connect_steps, Outcome, IsUnderWay, connect_tail, at, after_loop-Outcome,
  check_proxy-Outcome,
}

-- What is wrong with the URL, or `ok`.
abbrev url_error : Config → NetError
url_error k =
    if not k.url_is_valid
    then invalid_url
    else if not (str_eq k.url_scheme "https")
    then disallowed_url_scheme
    else check (k.is_port_allowed_for_scheme k.url_effective_int_port k.url_scheme) unsafe_port

abbrev offered : Client → Client
offered c = record c {
  supported_versions =
      add_versions c.config.uses_http3 (c.config.rfc_v1 ∷ []) c.config.context_versions;
}

do_init-url_error :
    (c : Client)
    → do_init c ≡ (
        if is_ok (url_error c.config)
        then (ok, at check_proxy (offered c))
        else (url_error c.config, c))
unfolding do_init
do_init-url_error c = ground (
  arith,
  add_versions-is_empty c.config.uses_http3 (c.config.rfc_v1 ∷ []) c.config.context_versions,
)

first_not_ok-url_error :
    (k : Config) (a : Answers)
    → first_not_ok (connect_steps k a) ≡ (
        if is_ok (url_error k)
        then first_not_ok (
            a.resolve_proxy
            ∷ check a.proxy_is_direct tunnel_connection_failed
            ∷ a.resolve_host_start
            ∷ connect_tail a)
        else url_error k)
first_not_ok-url_error k a = ground arith

init_round : (a : Answers) (c : Client) → do_round a ok (at init c) ≡ do_init (at no_state c)
unfolding do_round do_state
init_round a c = refl

do_init_run-Outcome :
    (a : Answers) (c : Client)
    → IsUnderWay c
    → Outcome (first_not_ok (connect_steps c.config a)) (do_loop a ok (at init c))
do_init_run-Outcome a c u = ground (
  arith,
  do_loop_done a ok (at init c),
  do_loop_more a ok (at init c),
  init_round a c,
  do_init-url_error (at no_state c),
  first_not_ok-url_error c.config a,
  after_loop-Outcome (url_error c.config) (at no_state c),
  check_proxy-Outcome a (offered (at no_state c)),
)

-- Connect of a new client goes through the checks of the URL, the proxy, the host and the socket in
-- that order, and the first that is not OK decides: if it is pending, or all are OK, the client is
-- CONNECTING, with no error and nothing told; otherwise it is FAILED with that error, and has told
-- its visitor OnConnectionFailed with it and nothing else.
pub connect-Outcome :
    (k : Config) (a : Answers)
    → Outcome (first_not_ok (connect_steps k a)) (connect_client a (new_client k))
unfolding connect_client new_client transition_to_state
connect-Outcome k a =
    ground (arith, do_init_run-Outcome a (transition_to_state connecting (new_client k)))
