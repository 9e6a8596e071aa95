-- ===== src/Stream.antt =====
-- web_transport/sdk/impl/web_transport_stream_impl.h and .cc: a stream of a WebTransport session,
-- used from the IO thread or from another one.
pub mod Writes
pub mod Delivery
use owt_sdk_quic.Prelude.{
  ℕ, suc, Bool, true, false, not, ◌&&◌, ◌||◌, List, [], ◌∷◌, if◌then◌else◌, length,
}

-- quiche's stream: what WebTransportStream and QuicStream do, on a state `S` of theirs.
pub record QuicheStream (S : Type 0) : Type 0 where
  pub stream_id : S → ℕ
  pub write : S → List ℕ → Bool × S
  pub read : S → ℕ → List ℕ × S
  pub readable_bytes : S → ℕ
  pub send_fin : S → Bool × S
  pub buffered_data_bytes : S → ℕ
  pub can_write : S → Bool

-- The members; `inner` is the state behind `stream_` and `quic_stream_`, and `can_read_calls` and
-- `can_write_calls` count the calls of the visitor.
pub record StreamImpl (S : Type 0) : Type 0 where
  pub inner : S
  pub has_visitor : Bool
  pub write_side_closed : Bool
  pub can_read_calls : ℕ
  pub can_write_calls : ℕ

-- Which thread calls: the IO thread, or another one, whose task then finds the weak pointer to the
-- stream alive or not.
pub data Caller : Type 0 where
  io_thread : Caller
  other_thread : Bool → Caller

-- A `bool` as the `size_t` that it converts to.
abbrev pub size_of_bool : Bool → ℕ
size_of_bool true = 1
size_of_bool false = 0

module _ {S : Type 0} where
  -- WebTransportStreamImpl::WebTransportStreamImpl
  unfoldable pub new_stream : S → StreamImpl S
  new_stream inner = record {
    inner = inner;
    has_visitor = false;
    write_side_closed = false;
    can_read_calls = 0;
    can_write_calls = 0;
  }

  unfoldable pub set_visitor : Bool → StreamImpl S → StreamImpl S
  set_visitor given s = record s { has_visitor = given }

  unfoldable pub on_can_read : StreamImpl S → StreamImpl S
  on_can_read s = if s.has_visitor then record s { can_read_calls = suc s.can_read_calls } else s

  unfoldable pub on_can_write : StreamImpl S → StreamImpl S
  on_can_write s = if s.has_visitor then record s { can_write_calls = suc s.can_write_calls } else s

  unfoldable pub on_reset_stream_received : StreamImpl S → StreamImpl S
  on_reset_stream_received s = record s { write_side_closed = true }

  unfoldable pub on_stop_sending_received : StreamImpl S → StreamImpl S
  on_stop_sending_received s = s

  unfoldable pub on_session_closed : StreamImpl S → StreamImpl S
  on_session_closed s = record s { write_side_closed = true }

module _ {S : Type 0} (q : QuicheStream S) where
  unfoldable pub id : StreamImpl S → ℕ
  id s = q.stream_id s.inner

  -- Write: the size that it returns, and the stream after it.
  unfoldable pub write : Caller → List ℕ → StreamImpl S → ℕ × StreamImpl S
  write io_thread bytes s =
      let (done, inner) = q.write s.inner bytes in
      if s.write_side_closed then (0, s) else (size_of_bool done, record s { inner = inner })
  write (other_thread alive) bytes s =
      let (done, inner) = q.write s.inner bytes in
      if not alive || s.write_side_closed
      then (0, s)
      else if q.can_write s.inner
      then (if done then length bytes else 0, record s { inner = inner })
      else (0, s)

  -- The task of another thread does nothing where the stream is gone.
  abbrev reaches : Caller → Bool
  reaches io_thread = true
  reaches (other_thread alive) = alive

  -- Read: the bytes that it copies out.
  unfoldable pub read : Caller → ℕ → StreamImpl S → List ℕ × StreamImpl S
  read t size s =
      let (bytes, inner) = q.read s.inner size in
      if reaches t then (bytes, record s { inner = inner }) else ([], s)

  unfoldable pub readable_bytes : Caller → StreamImpl S → ℕ
  readable_bytes t s = if reaches t then q.readable_bytes s.inner else 0

  -- Close: a FIN that cannot be sent is logged only.
  unfoldable pub close : Caller → StreamImpl S → StreamImpl S
  close t s = if reaches t then record s { inner = (q.send_fin s.inner).1 } else s

  unfoldable pub buffered_data_bytes : Caller → StreamImpl S → ℕ
  buffered_data_bytes t s = if reaches t then q.buffered_data_bytes s.inner else 0

  unfoldable pub can_write : Caller → StreamImpl S → Bool
  can_write t s = if reaches t then q.can_write s.inner else false

-- The calls and callbacks of a stream that change it.
pub data Operation : Type 0 where
  writes : Caller → List ℕ → Operation
  reads : Caller → ℕ → Operation
  closes : Caller → Operation
  sets_visitor : Bool → Operation
  can_read_seen can_write_seen reset_seen stop_sending_seen session_closed_seen : Operation

module _ {S : Type 0} (q : QuicheStream S) where
  unfoldable pub step : Operation → StreamImpl S → StreamImpl S
  step (writes t bytes) s = (write q t bytes s).1
  step (reads t size) s = (read q t size s).1
  step (closes t) s = close q t s
  step (sets_visitor given) s = set_visitor given s
  step can_read_seen s = on_can_read s
  step can_write_seen s = on_can_write s
  step reset_seen s = on_reset_stream_received s
  step stop_sending_seen s = on_stop_sending_received s
  step session_closed_seen s = on_session_closed s

  unfoldable pub run : List Operation → StreamImpl S → StreamImpl S
  run [] s = s
  run (o ∷ os) s = run os (step o s)
