-- ===== src/Stream/Delivery.antt =====
-- That the results of Write say what was sent.
use owt_sdk_quic.Prelude.{
  ℕ, ◌≡◌, refl, ◌∙◌, ap, sym, true, List, [], ◌∷◌, ◌++◌, ◌==◌, if◌then◌else◌, length, arith,
}
use mathlib.Core.List.{append_assoc, append-nil}
use owt_sdk_quic.Stream.{
  QuicheStream, StreamImpl, Caller, io_thread, other_thread, write, read, close, set_visitor,
  on_can_read, on_can_write, on_reset_stream_received, on_stop_sending_received, on_session_closed,
  Operation, writes, reads, closes, sets_visitor, can_read_seen, can_write_seen, reset_seen,
  stop_sending_seen, session_closed_seen, step, run,
}

-- What quiche documents of a stream: Write takes all of the data or none of it, and what the stream
-- has taken is not changed by reading or by the FIN.
pub record WriteLaws {S : Type 0} (q : QuicheStream S) : Type 0 where
  pub taken : S → List ℕ
  pub takes_all :
      (s : S) (bytes : List ℕ)
      → taken (q.write s bytes).1 ≡ (if (q.write s bytes).0 then taken s ++ bytes else taken s)
  pub read_keeps : (s : S) (size : ℕ) → taken (q.read s size).1 ≡ taken s
  pub fin_keeps : (s : S) → taken (q.send_fin s).1 ≡ taken s

module _ {S : Type 0} (q : QuicheStream S) (laws : WriteLaws q) where
  -- The data of a write that did not return 0.
  abbrev pub delivered_by : Operation → StreamImpl S → List ℕ
  delivered_by (writes t bytes) s = if (write q t bytes s).0 == 0 then [] else bytes
  delivered_by o s = []

  abbrev pub delivered : List Operation → StreamImpl S → List ℕ
  delivered [] s = []
  delivered (o ∷ os) s = delivered_by o s ++ delivered os (step q o s)

  length_zero : (bytes : List ℕ) → (length bytes == 0) ≡ true → bytes ≡ []
  length_zero [] e = refl
  length_zero (b ∷ bs) e = absurd (ground (arith, e))

  write-taken :
      (t : Caller) (bytes : List ℕ) (s : StreamImpl S)
      → laws.taken (write q t bytes s).1.inner
        ≡ laws.taken s.inner ++ (if (write q t bytes s).0 == 0 then [] else bytes)
  unfolding write
  write-taken io_thread bytes s =
      ground (arith, laws.takes_all s.inner bytes, append-nil (laws.taken s.inner))
  write-taken (other_thread alive) bytes s =
      ground
        (arith, laws.takes_all s.inner bytes, append-nil (laws.taken s.inner), length_zero bytes)

  step-taken :
      (o : Operation) (s : StreamImpl S)
      → laws.taken (step q o s).inner ≡ laws.taken s.inner ++ delivered_by o s
  unfolding step read close set_visitor on_can_read on_can_write on_reset_stream_received
      on_stop_sending_received on_session_closed
  step-taken (writes t bytes) s = write-taken t bytes s
  step-taken (reads t size) s =
      ground (arith, laws.read_keeps s.inner size, append-nil (laws.taken s.inner))
  step-taken (closes t) s = ground (arith, laws.fin_keeps s.inner, append-nil (laws.taken s.inner))
  step-taken (sets_visitor given) s = sym (append-nil (laws.taken s.inner))
  step-taken can_read_seen s = ground (arith, append-nil (laws.taken s.inner))
  step-taken can_write_seen s = ground (arith, append-nil (laws.taken s.inner))
  step-taken reset_seen s = sym (append-nil (laws.taken s.inner))
  step-taken stop_sending_seen s = sym (append-nil (laws.taken s.inner))
  step-taken session_closed_seen s = sym (append-nil (laws.taken s.inner))

  -- Whatever is called on the stream, from the IO thread or from others, and whatever it is told: the
  -- data that quiche has taken is, in order, the data of exactly those writes that did not return 0.
  pub taken_is_delivered :
      (os : List Operation) (s : StreamImpl S)
      → laws.taken (run q os s).inner ≡ laws.taken s.inner ++ delivered os s
  unfolding run
  taken_is_delivered [] s = sym (append-nil (laws.taken s.inner))
  taken_is_delivered (o ∷ os) s =
      taken_is_delivered os (step q o s)
      ∙ ap (λ xs. xs ++ delivered os (step q o s)) (step-taken o s)
      ∙ append_assoc (laws.taken s.inner) (delivered_by o s) (delivered os (step q o s))
