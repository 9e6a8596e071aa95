-- ===== src/Http3Server/Requests.antt =====
-- From the requests of clients to the sessions of the backend.
use owt_sdk_quic.Prelude.{
  ℕ, ◌+◌, ◌≡◌, ◌∙◌, ap, Bool, true, false, not, ◌&&◌, ◌||◌, if_elim, some, List, [], ◌∷◌, ◌==◌,
  length, count_if, count_if-append, is_some, if◌then◌else◌, arith, Bool-cases, inl, inr,
}
use owt_sdk_quic.Prelude.Maps.{lookup, lookup-insert}
use owt_sdk_quic.Backend as Backend
use owt_sdk_quic.Backend.Registry.{ready_counts, ready_lookup}
use owt_sdk_quic.ServerStream as ServerStream
use owt_sdk_quic.ServerStream.{Request, Response, success, error}
use owt_sdk_quic.ServerStream.Responses.{responses_lem}
use owt_sdk_quic.Http3Server.{
  new_session, Dispatcher, new_dispatcher, create_quic_session, on_request,
}

-- A connection that comes in, and a request on a stream of a connection, for which the backend would
-- make this session.
pub data Event : Type 0 where
  connection_made : ℕ → Event
  request_read : ℕ → Request → ℕ → Event

-- Requests are read for the connections that have a session.
unfoldable pub step : Event → Dispatcher → Dispatcher
step (connection_made connection) d = create_quic_session connection d
step (request_read connection request made) d =
    if is_some (lookup connection d.sessions) then on_request connection request made d else d

unfoldable pub run : List Event → Dispatcher → Dispatcher
run [] d = d
run (e ∷ es) d = run es (step e d)

abbrev pub is_success : Response → Bool
is_success (success code) = true
is_success (error code) = false

abbrev pub successes : Dispatcher → ℕ
successes d = count_if is_success d.responses

-- What a request adds.
record Adds (request : Request) (d d' : Dispatcher) : Type 0 where
  same_sessions : d'.sessions ≡ d.sessions
  answered : successes d' ≡ successes d + (if request.has_web_transport then 1 else 0)
  kept :
      length d'.backend.sessions + length d'.backend.destroyed
      ≡ length d.backend.sessions
        + length d.backend.destroyed
        + (if request.has_web_transport then 1 else 0)
  announced :
      length d'.backend.announced
      ≡ length d.backend.announced
        + (if d.backend.has_visitor && request.has_web_transport then 1 else 0)

answers_successes :
    (request : Request)
    → count_if is_success
        (ServerStream.on_initial_headers_complete request ServerStream.new_stream).responses
      ≡ (if request.has_web_transport then 1 else 0)
answers_successes request = rw ((responses_lem request).0) (ground arith)

ready_Adds :
    (connection made : ℕ) (b : Backend.Backend)
    → length (Backend.on_session_ready connection made b).announced
      ≡ length b.announced + (if b.has_visitor then 1 else 0)
unfolding Backend.on_session_ready
ready_Adds connection made b = ground arith

request-Adds :
    (connection made : ℕ) (request : Request) (d : Dispatcher)
    → Adds request d (on_request connection request made d)
unfolding on_request
request-Adds connection made request d =
    let answered = ServerStream.on_initial_headers_complete request ServerStream.new_stream in
    let ready = (responses_lem request).2 in
    let counted = count_if-append is_success answered.responses d.responses in
    elim (Bool-cases request.has_web_transport) [
      | inl has ↦ ground (
        arith,
        has,
        ready,
        counted,
        answers_successes request,
        ready_counts connection made d.backend,
        ready_Adds connection made d.backend,
      )
      | inr has_none ↦ ground (arith, has_none, ready, counted, answers_successes request)
    ]

request_visitor :
    (connection made : ℕ) (request : Request) (d : Dispatcher)
    → (on_request connection request made d).backend.has_visitor ≡ d.backend.has_visitor
unfolding on_request Backend.on_session_ready
request_visitor connection made request d =
    let ready = (responses_lem request).2 in
    elim (Bool-cases request.has_web_transport) [
      | inl has ↦ ground (arith, has, ready)
      | inr has_none ↦ ground (arith, has_none, ready)
    ]

request_lookup :
    (connection made asked : ℕ) (request : Request) (d : Dispatcher)
    → lookup asked (on_request connection request made d).backend.sessions ≡ (
        if request.has_web_transport && (connection == asked)
        then some made
        else lookup asked d.backend.sessions)
unfolding on_request
request_lookup connection made asked request d =
    let ready = (responses_lem request).2 in
    elim (Bool-cases request.has_web_transport) [
      | inl has ↦ ground (arith, has, ready, ready_lookup connection made asked d.backend)
      | inr has_none ↦ ground (arith, has_none, ready)
    ]

module _ (visitor : Bool) (connection : ℕ) where
  record Inv (d : Dispatcher) : Type 0 where
    visited : d.backend.has_visitor ≡ visitor
    accounted : length d.backend.sessions + length d.backend.destroyed ≡ successes d
    announced : length d.backend.announced ≡ (if visitor then successes d else 0)
    connected :
        (not (is_some (lookup connection d.backend.sessions))
          || is_some (lookup connection d.sessions))
        ≡ true

  request-Inv :
      (asked made : ℕ) (request : Request) (d : Dispatcher)
      → is_some (lookup asked d.sessions) ≡ true
      → Inv d
      → Inv (on_request asked request made d)
  request-Inv asked made request d there v =
      let a = request-Adds asked made request d in
      record {
        visited = request_visitor asked made request d ∙ v.visited;
        accounted = ground (arith, a.answered, a.kept, v.accounted);
        announced = ground (arith, a.answered, a.announced, v.announced, v.visited);
        connected = ground (
          arith,
          there,
          a.same_sessions,
          v.connected,
          request_lookup asked made connection request d,
          ap (λ (c : ℕ). is_some (lookup c d.sessions)) {x = asked} {y = connection},
        );
      }

  step-Inv : (e : Event) (d : Dispatcher) → Inv d → Inv (step e d)
  unfolding step create_quic_session
  step-Inv (connection_made c) d v = record {
    visited = v.visited;
    accounted = v.accounted;
    announced = v.announced;
    connected = ground (
      arith,
      v.connected,
      lookup-insert c connection (record new_session { initialized = true }) d.sessions,
    );
  }
  step-Inv (request_read asked request made) d v =
      if_elim Inv (is_some (lookup asked d.sessions))
        (λ there. request-Inv asked made request d there v) (λ missing. v)

  run-Inv : (es : List Event) (d : Dispatcher) → Inv d → Inv (run es d)
  unfolding run
  run-Inv [] d v = v
  run-Inv (e ∷ es) d v = run-Inv es (step e d) (step-Inv e d v)

new_dispatcher-Inv :
    (visitor : Bool) (connection : ℕ) → Inv visitor connection (new_dispatcher visitor)
unfolding new_dispatcher Backend.set_visitor Backend.new_backend lookup
new_dispatcher-Inv visitor connection = ground arith

-- Whatever connections come in and whatever requests are read for them: the server has answered with
-- 200 once for each session that the backend keeps or has destroyed for a later one of its connection,
-- a visitor that the backend has was given each of them, and the backend keeps sessions only for
-- connections that the dispatcher has made a session for. No session is let go otherwise.
pub requests_account :
    (visitor : Bool) (es : List Event) (connection : ℕ)
    → let d = run es (new_dispatcher visitor) in
      (length d.backend.sessions + length d.backend.destroyed ≡ successes d)
      × (length d.backend.announced ≡ (if visitor then successes d else 0))
      × ((not (is_some (lookup connection d.backend.sessions))
            || is_some (lookup connection d.sessions))
          ≡ true)
requests_account visitor es connection =
    let v =
      run-Inv visitor connection es (new_dispatcher visitor)
        (new_dispatcher-Inv visitor connection) in
    (v.accounted, v.announced, v.connected)
