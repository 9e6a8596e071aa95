-- ===== src/ServerSession.antt =====
-- web_transport/sdk/impl/web_transport_server_session.h and .cc: a WebTransport session of the
-- server, and its streams.
pub mod Closing
pub mod Streams
pub mod Life
use owt_sdk_quic.Prelude.{
  ℕ, ◌+◌, Bool, false, Option, none, some, List, [], ◌∷◌, ◌++◌, leb, if◌then◌else◌, length, map,
}
use owt_sdk_quic.Net.{QuicMessageStatus, MessageStatus, convert_message_status}
use owt_sdk_quic.Stream.{StreamImpl, new_stream}
use owt_sdk_quic.Stream

-- A call of `visitor_`; a stream is named by its place in `streams`.
pub data VisitorCall : Type 0 where
  on_incoming_stream : ℕ → VisitorCall
  on_connection_closed : VisitorCall
  on_datagram_received : List ℕ → VisitorCall

-- What is passed to quiche's CloseSession: a code and a reason, or no reason (a null pointer).
pub record SessionClose : Type 0 where
  pub code : ℕ
  pub reason : Option (List ℕ)

-- The members, then what the session did outside: the calls of the visitor, newest first, the
-- CloseSession calls and the datagrams handed to quiche. `streams` is in the order of creation.
pub record Session (S : Type 0) : Type 0 where
  pub streams : List (StreamImpl S)
  pub has_visitor : Bool
  pub estimated_bandwidth : ℕ
  pub visitor_calls : List VisitorCall
  pub session_closes : List SessionClose
  pub datagrams : List (List ℕ)

-- kMaxSize
abbrev pub max_reason_size : ℕ
max_reason_size = 1024

module _ {S : Type 0} where
  -- WebTransportServerSession::WebTransportServerSession
  unfoldable pub new_session : Session S
  new_session = record {
    streams = [];
    has_visitor = false;
    estimated_bandwidth = 0;
    visitor_calls = [];
    session_closes = [];
    datagrams = [];
  }

  abbrev tell : VisitorCall → Session S → Session S
  tell v s = if s.has_visitor then record s { visitor_calls = v ∷ s.visitor_calls } else s

  -- CreateBidirectionalStreamOnCurrentThread, with the stream that quiche has opened. The result is
  -- the new stream's place. CreateBidirectionalStream runs it on the IO thread and waits.
  unfoldable pub create_bidirectional_stream : S → Session S → ℕ × Session S
  create_bidirectional_stream opened s =
      (length s.streams, record s { streams = s.streams ++ new_stream opened ∷ [] })

  -- AcceptIncomingStream, which both On...StreamAvailable callbacks call with the stream that they
  -- have accepted.
  unfoldable pub accept_incoming_stream : S → Session S → Session S
  accept_incoming_stream accepted s =
      tell (on_incoming_stream (length s.streams))
        (record s { streams = s.streams ++ new_stream accepted ∷ [] })

  -- OnSessionClosed
  unfoldable pub on_session_closed : Session S → Session S
  on_session_closed s =
      tell on_connection_closed (record s { streams = map Stream.on_session_closed s.streams })

  -- OnDatagramReceived
  unfoldable pub on_datagram : List ℕ → Session S → Session S
  on_datagram d s = tell (on_datagram_received d) s

  unfoldable pub set_visitor : Bool → Session S → Session S
  set_visitor given s = record s { has_visitor = given }

  -- SendOrQueueDatagram, where quiche answers `status`.
  unfoldable pub send_or_queue_datagram :
      QuicMessageStatus → List ℕ → Session S → MessageStatus × Session S
  unfolding convert_message_status
  send_or_queue_datagram status d s =
      (convert_message_status (some status), record s { datagrams = d ∷ s.datagrams })

  -- GetStats: the number that it refreshes and returns.
  unfoldable pub get_stats : ℕ → Session S → ℕ × Session S
  get_stats bits_per_second s =
      (bits_per_second, record s { estimated_bandwidth = bits_per_second })

  -- CloseOnCurrentThread, with base::TruncateUTF8ToByteSize as `truncate`; Close runs it on the IO
  -- thread.
  unfoldable pub close : (List ℕ → ℕ → List ℕ) → ℕ → Option (List ℕ) → Session S → Session S
  close truncate code none s = record s {
    session_closes = record { code = code; reason = none } ∷ s.session_closes;
  }
  close truncate code (some reason) s =
      let cut =
        if leb (length reason) max_reason_size then truncate reason max_reason_size else reason in
      record s { session_closes = record { code = code; reason = some cut } ∷ s.session_closes }
