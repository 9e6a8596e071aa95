-- ===== src/Stream/Writes.antt =====
-- Write: what it returns, and when it reaches quiche.
use owt_sdk_quic.Prelude.{ℕ, ◌≡◌, ◌↔◌, refl, true, false, List, [], ◌∷◌, length, arith}
use owt_sdk_quic.Stream.{
  QuicheStream, StreamImpl, Caller, io_thread, other_thread, write, read, close, set_visitor,
  on_can_read, on_can_write, on_reset_stream_received, on_stop_sending_received, on_session_closed,
  Operation, writes, step, run,
}

module _ {S : Type 0} (q : QuicheStream S) where
  -- On the IO thread, Write returns 1 for data that quiche has taken, whatever its size: that is the
  -- size exactly when the size is 1.
  pub write-io_thread :
      (bytes : List ℕ) (s : StreamImpl S)
      → s.write_side_closed ≡ false
      → (q.write s.inner bytes).0 ≡ true
      → ((write q io_thread bytes s).0 ≡ 1)
        × (((write q io_thread bytes s).0 ≡ length bytes) ↔ (length bytes ≡ 1))
  unfolding write
  write-io_thread bytes s open_side taken = ground arith

  pub step-closed :
      (o : Operation) (s : StreamImpl S)
      → s.write_side_closed ≡ true
      → (step q o s).write_side_closed ≡ true
  unfolding step write read close set_visitor on_can_read on_can_write on_reset_stream_received
      on_stop_sending_received on_session_closed
  step-closed (writes io_thread bytes) s h = ground arith
  step-closed (writes (other_thread alive) bytes) s h = ground arith
  step-closed _ s h = ground arith

  run-closed :
      (os : List Operation) (s : StreamImpl S)
      → s.write_side_closed ≡ true
      → (run q os s).write_side_closed ≡ true
  unfolding run
  run-closed [] s h = h
  run-closed (o ∷ os) s h = run-closed os (step q o s) (step-closed o s h)

  pub write_refused :
      (t : Caller) (bytes : List ℕ) (s : StreamImpl S)
      → s.write_side_closed ≡ true
      → write q t bytes s ≡ (0, s)
  unfolding write
  write_refused io_thread bytes s h = rw h
  write_refused (other_thread true) bytes s h = rw h
  write_refused (other_thread false) bytes s h = refl

  -- Once the peer has reset the stream or the session was closed, no write reaches quiche again,
  -- whatever is called in between and from whatever thread: Write returns 0 and changes nothing.
  pub closed_stream_refuses :
      (os : List Operation) (t : Caller) (bytes : List ℕ) (s : StreamImpl S)
      → (write q t bytes (run q os (on_session_closed s)) ≡ (0, run q os (on_session_closed s)))
        × (write q t bytes (run q os (on_reset_stream_received s))
            ≡ (0, run q os (on_reset_stream_received s)))
  unfolding on_session_closed on_reset_stream_received
  closed_stream_refuses os t bytes s = (
    write_refused t bytes _ (run-closed os (record s { write_side_closed = true }) refl),
    write_refused t bytes _ (run-closed os (record s { write_side_closed = true }) refl),
  )
