-- ===== src/ServerSession/Life.antt =====
-- A session with what is called on its streams in between.
use owt_sdk_quic.Prelude.{
  ℕ, zero, suc, ◌≡◌, ◌<◌, refl, Bool, true, false, length, Option, none, some, List, [], ◌∷◌, ◌++◌,
  get_elem?, map, arith,
}
use owt_sdk_quic.Stream as Stream
use owt_sdk_quic.Stream.{QuicheStream, StreamImpl, Operation, Caller, write, new_stream}
use owt_sdk_quic.Stream.Writes.{step-closed, write_refused}
use owt_sdk_quic.ServerSession.{
  Session, create_bidirectional_stream, accept_incoming_stream, on_session_closed, on_datagram,
  set_visitor, close,
}

-- The stream at a place, changed; nothing where there is none.
abbrev pub changed_at {ℓ} : {A : Type ℓ} → (A → A) → ℕ → List A → List A
changed_at f place [] = []
changed_at f zero (x ∷ xs) = f x ∷ xs
changed_at f (suc place) (x ∷ xs) = x ∷ changed_at f place xs

-- What happens to a session: calls of its own, callbacks of quiche, and calls and callbacks of the
-- stream at a place.
pub data Event (S : Type 0) : Type 0 where
  opens : S → Event S
  accepts : S → Event S
  session_closed : Event S
  datagram_received : List ℕ → Event S
  sets_visitor : Bool → Event S
  closes : ℕ → Option (List ℕ) → Event S
  on_stream : ℕ → Operation → Event S

module _ {S : Type 0} (q : QuicheStream S) (truncate : List ℕ → ℕ → List ℕ) where
  unfoldable pub step : Event S → Session S → Session S
  step (opens inner) s = (create_bidirectional_stream inner s).1
  step (accepts inner) s = accept_incoming_stream inner s
  step session_closed s = on_session_closed s
  step (datagram_received d) s = on_datagram d s
  step (sets_visitor given) s = set_visitor given s
  step (closes code reason) s = close truncate code reason s
  step (on_stream place o) s = record s { streams = changed_at (Stream.step q o) place s.streams }

  unfoldable pub run : List (Event S) → Session S → Session S
  run [] s = s
  run (e ∷ es) s = run es (step e s)

  -- There is a stream at the place, and its write side is closed.
  abbrev is_closed_at : ℕ → List (StreamImpl S) → Bool
  is_closed_at place [] = false
  is_closed_at zero (x ∷ xs) = x.write_side_closed
  is_closed_at (suc place) (x ∷ xs) = is_closed_at place xs

  kept-closed :
      (place : ℕ) (xs ys : List (StreamImpl S))
      → is_closed_at place xs ≡ true
      → is_closed_at place (xs ++ ys) ≡ true
  kept-closed place [] ys h = absurd (cc)
  kept-closed zero (x ∷ xs) ys h = h
  kept-closed (suc place) (x ∷ xs) ys h = kept-closed place xs ys h

  changed-closed :
      (o : Operation) (at place : ℕ) (xs : List (StreamImpl S))
      → is_closed_at place xs ≡ true
      → is_closed_at place (changed_at (Stream.step q o) at xs) ≡ true
  changed-closed o at place [] h = absurd (cc)
  changed-closed o zero zero (x ∷ xs) h = step-closed q o x h
  changed-closed o zero (suc place) (x ∷ xs) h = h
  changed-closed o (suc at) zero (x ∷ xs) h = h
  changed-closed o (suc at) (suc place) (x ∷ xs) h = changed-closed o at place xs h

  all-closed :
      (place : ℕ) (xs : List (StreamImpl S))
      → place < length xs
      → is_closed_at place (map Stream.on_session_closed xs) ≡ true
  unfolding Stream.on_session_closed
  all-closed place [] h = absurd (omega (arith, h))
  all-closed zero (x ∷ xs) h = refl
  all-closed (suc place) (x ∷ xs) h = all-closed place xs (omega (arith, h))

  closed-lt :
      (place : ℕ) (xs : List (StreamImpl S)) → is_closed_at place xs ≡ true → place < length xs
  closed-lt place [] h = absurd (cc)
  closed-lt zero (x ∷ xs) h = omega arith
  closed-lt (suc place) (x ∷ xs) h = omega (arith, closed-lt place xs h)

  step-keeps :
      (e : Event S) (place : ℕ) (s : Session S)
      → is_closed_at place s.streams ≡ true
      → is_closed_at place (step e s).streams ≡ true
  unfolding step create_bidirectional_stream accept_incoming_stream on_session_closed on_datagram
      set_visitor close
  step-keeps (opens inner) place s h = kept-closed place s.streams (new_stream inner ∷ []) h
  step-keeps (accepts inner) place s h =
      ground (arith, kept-closed place s.streams (new_stream inner ∷ []) h)
  step-keeps session_closed place s h =
      ground (arith, all-closed place s.streams (closed-lt place s.streams h))
  step-keeps (datagram_received d) place s h = ground (arith, h)
  step-keeps (sets_visitor given) place s h = h
  step-keeps (closes code none) place s h = h
  step-keeps (closes code (some reason)) place s h = h
  step-keeps (on_stream at o) place s h = changed-closed o at place s.streams h

  run-keeps :
      (es : List (Event S)) (place : ℕ) (s : Session S)
      → is_closed_at place s.streams ≡ true
      → is_closed_at place (run es s).streams ≡ true
  unfolding run
  run-keeps [] place s h = h
  run-keeps (e ∷ es) place s h = run-keeps es place (step e s) (step-keeps e place s h)

  closed_refuses :
      (t : Caller) (bytes : List ℕ) (place : ℕ) (xs : List (StreamImpl S))
      → is_closed_at place xs ≡ true
      → (x : StreamImpl S) × (get_elem? xs place ≡ some x) × (write q t bytes x ≡ (0, x))
  closed_refuses t bytes place [] h = absurd (cc)
  closed_refuses t bytes zero (x ∷ xs) h = (x, refl, write_refused q t bytes x h)
  closed_refuses t bytes (suc place) (x ∷ xs) h = closed_refuses t bytes place xs h

  ended-closed :
      (s : Session S) (place : ℕ)
      → place < length s.streams
      → is_closed_at place (on_session_closed s).streams ≡ true
  unfolding on_session_closed
  ended-closed s place there = ground (arith, all-closed place s.streams there)

  -- After quiche has reported a session closed, whatever is called on the session and on its streams:
  -- every stream that the session had is still there under its place, and a write on it, from whatever
  -- thread, returns 0 and changes nothing.
  pub closed_session_writes_nothing :
      (s : Session S) (es : List (Event S)) (place : ℕ) (t : Caller) (bytes : List ℕ)
      → place < length s.streams
      → (x : StreamImpl S) × (get_elem? (run es (on_session_closed s)).streams place ≡ some x)
        × (write q t bytes x ≡ (0, x))
  closed_session_writes_nothing s es place t bytes there =
      closed_refuses t bytes place _
        (run-keeps es place (on_session_closed s) (ended-closed s place there))
