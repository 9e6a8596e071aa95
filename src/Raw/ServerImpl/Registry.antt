-- ===== src/Raw/ServerImpl/Registry.antt =====
-- That the two maps of sessions agree, and what follows for an answer to received data.
use owt_sdk_quic.Prelude.{
  ℕ, ◌+◌, ◌^◌, ◌≤◌, ◌<◌, ◌≡◌, refl, Bool, true, false, not, ◌&&◌, Option, none, some, List, ◌∷◌,
  ltb, is_some, arith,
}
use owt_sdk_quic.Prelude.Maps.{lookup, erase, lookup-insert, lookup-erase}
use owt_sdk_quic.Raw.ServerImpl.{
  Stream, ServerImpl, new_server, set_listener, on_session_created, on_session_closed,
  on_incoming_stream, on_close, on_data, send_on_session, loop_started, loop_ended, listen,
  wait_for_close,
}

-- The ID of a session leads back to the session; no ID from `next_session_id` on is given yet. As long
-- as no session was made at an address that had an ID, which `clean` says, an ID also leads only to the
-- session that has it.
pub record Agrees (clean : Bool) (s : ServerImpl) : Type 0 where
  pub forth :
      (session i : ℕ)
      → lookup session s.session_ids ≡ some i
      → lookup i s.session_ptrs ≡ some session
  pub back :
      (session i : ℕ)
      → clean ≡ true
      → lookup i s.session_ptrs ≡ some session
      → lookup session s.session_ids ≡ some i
  pub fresh : (i : ℕ) → s.next_session_id ≤ i → lookup i s.session_ptrs ≡ none

-- What happens on the server's thread.
pub data Event : Type 0 where
  session_created : ℕ → Event
  session_closed : ℕ → Event
  stream_opened : ℕ → Stream → Event
  stream_closed : Stream → Event
  data_received : Stream → List ℕ → Event

unfoldable pub step : Event → ServerImpl → ServerImpl
step (session_created session) s = on_session_created session s
step (session_closed session) s = on_session_closed session s
step (stream_opened session t) s = on_incoming_stream session t s
step (stream_closed t) s = on_close t s
step (data_received t content) s = on_data t content s

-- Fewer sessions are made than a uint32_t counts.
abbrev pub is_possible : Event → ServerImpl → Bool
is_possible (session_created session) s = ltb (s.next_session_id + 1) (2 ^ 32)
is_possible e s = true

-- A session that is made has an address that has no ID.
abbrev pub is_clean : Event → ServerImpl → Bool
is_clean (session_created session) s = not (is_some (lookup session s.session_ids))
is_clean e s = true

-- The loop ends, the user waits for it and listens again, and the loop starts.
abbrev pub listen_again : ServerImpl → ServerImpl
listen_again s = loop_started (listen (wait_for_close (loop_ended s))).1

-- The states that the server comes to, in its first loop or a later one, and whether each session was
-- made at an address that had no ID.
pub data Reachable : Bool → ServerImpl → Type 0 where
  start : (listener : Bool) → Reachable true (set_listener listener new_server)
  next :
      (clean : Bool) (e : Event) (s : ServerImpl)
      → Reachable clean s
      → is_possible e s ≡ true
      → Reachable (clean && is_clean e s) (step e s)
  again : (clean : Bool) (s : ServerImpl) → Reachable clean s → Reachable clean (listen_again s)

created-Agrees :
    (clean : Bool) (session : ℕ) (s : ServerImpl)
    → Agrees clean s
    → s.next_session_id + 1 < 2 ^ 32
    → Agrees (clean && not (is_some (lookup session s.session_ids))) (on_session_created session s)
unfolding on_session_created
created-Agrees clean session s h room = record {
  forth = λ x i e. ground (
    arith,
    e,
    lookup-insert session x s.next_session_id s.session_ids,
    lookup-insert s.next_session_id i session s.session_ptrs,
    h.forth x i,
    h.fresh s.next_session_id,
  );
  back = λ x i new e. ground (
    arith,
    e,
    new,
    lookup-insert session x s.next_session_id s.session_ids,
    lookup-insert s.next_session_id i session s.session_ptrs,
    h.back x i,
  );
  fresh = λ i below.
      ground
        (arith, below, room, lookup-insert s.next_session_id i session s.session_ptrs, h.fresh i);
}

erased-Agrees :
    (clean : Bool) (session n : ℕ) (s : ServerImpl)
    → Agrees clean s
    → lookup session s.session_ids ≡ some n
    → Agrees clean (record s {
      session_ids = erase session s.session_ids;
      session_ptrs = erase n s.session_ptrs;
    })
erased-Agrees clean session n s h known = record {
  forth = λ x i e. ground (
    arith,
    e,
    lookup-erase session x s.session_ids,
    lookup-erase n i s.session_ptrs,
    h.forth x i,
    h.forth session n known,
  );
  back = λ x i all_new e. ground (
    arith,
    e,
    all_new,
    known,
    lookup-erase session x s.session_ids,
    lookup-erase n i s.session_ptrs,
    h.back x i,
  );
  fresh = λ i below. ground (arith, below, lookup-erase n i s.session_ptrs, h.fresh i);
}

closed-Agrees :
    (clean : Bool) (session : ℕ) (s : ServerImpl)
    → Agrees clean s
    → Agrees clean (on_session_closed session s)
unfolding on_session_closed
closed-Agrees clean session s h = by_id (lookup session s.session_ids) refl
  where
    by_id :
        (o : Option ℕ)
        → lookup session s.session_ids ≡ o
        → Agrees clean (elim o [
          | none ↦ s
          | some session_id ↦ record s {
            session_ids = erase session s.session_ids;
            session_ptrs = erase session_id s.session_ptrs;
          }
        ])
    by_id none e = h
    by_id (some n) e = erased-Agrees clean session n s h e

same-Agrees :
    (clean : Bool) (s t : ServerImpl)
    → Agrees clean s
    → (t.session_ids ≡ s.session_ids)
      × (t.session_ptrs ≡ s.session_ptrs)
      × (t.next_session_id ≡ s.next_session_id)
    → Agrees clean t
same-Agrees clean s t h (ids, ptrs, count) = record {
  forth = λ x i e. ground (arith, e, ids, ptrs, h.forth x i);
  back = λ x i all_new e. ground (arith, e, all_new, ids, ptrs, h.back x i);
  fresh = λ i below. ground (arith, below, ptrs, count, h.fresh i);
}

and_true : (b : Bool) → (b && true) ≡ b
and_true true = refl
and_true false = refl

step-Agrees :
    (clean : Bool) (e : Event) (s : ServerImpl)
    → is_possible e s ≡ true
    → Agrees clean s
    → Agrees (clean && is_clean e s) (step e s)
unfolding step on_incoming_stream on_close on_data
step-Agrees clean (session_created session) s p h =
    created-Agrees clean session s h (ground (arith, p))
step-Agrees clean (session_closed session) s p h =
    rw (and_true clean) (closed-Agrees clean session s h)
step-Agrees clean (stream_opened session t) s p h =
    rw (and_true clean) (same-Agrees clean s _ h (refl, refl, refl))
step-Agrees clean (stream_closed t) s p h =
    rw (and_true clean) (same-Agrees clean s _ h (refl, refl, refl))
step-Agrees clean (data_received t content) s p h =
    rw (and_true clean) (same-Agrees clean s _ h (ground arith, ground arith, ground arith))

-- In every state that the server comes to, also when it has listened again, and whatever addresses its
-- sessions have, as long as fewer than 2 ^ 32 - 1 sessions were made: the ID of a session leads to the
-- session, and the next ID and those after it are not in use. As long as besides no session was made
-- at an address that still had an ID, the two maps of sessions are inverse to each other.
pub reachable-Agrees : (clean : Bool) (s : ServerImpl) → Reachable clean s → Agrees clean s
unfolding set_listener new_server lookup loop_started listen wait_for_close loop_ended
reachable-Agrees _ _ (start listener) = record {
  forth = λ x i e. ground (arith, e);
  back = λ x i all_new e. ground (arith, e);
  fresh = λ i below. refl;
}
reachable-Agrees _ _ (next clean e s r p) = step-Agrees clean e s p (reachable-Agrees clean s r)
reachable-Agrees _ _ (again clean s r) =
    same-Agrees clean s _ (reachable-Agrees clean s r) (refl, refl, refl)

pub opened_session :
    (session i : ℕ) (t : Stream) (s : ServerImpl)
    → lookup session s.session_ids ≡ some i
    → lookup t.address (on_incoming_stream session t s).stream_sessions ≡ some i
unfolding on_incoming_stream
opened_session session i t s known =
    ground (arith, known, lookup-insert t.address t.address i s.stream_sessions)

-- In every state that the server comes to, in its first loop or a later one, as long as fewer than
-- 2 ^ 32 - 1 sessions were made: when a session that has an ID opens a stream and data arrives on it,
-- the listener gets the stream's ID, the data and an ID with which an answer is sent on that
-- stream of the same session.
pub answer_reaches_sender :
    (clean : Bool) (s : ServerImpl)
    → Reachable clean s
    → (session i : ℕ) (t : Stream) (content answer : List ℕ) → lookup session s.session_ids ≡ some i
    → s.has_listener ≡ true
    → let after = on_data t content (on_incoming_stream session t s) in
      (after.data_calls
        ≡ record { session_id = i; stream_id = t.id; content = content } ∷ s.data_calls)
      × ((send_on_session true i t.id answer after).sent
          ≡ record { session = session; stream_id = t.id; content = answer } ∷ s.sent)
unfolding on_data on_incoming_stream send_on_session
answer_reaches_sender clean s r session i t content answer known listening = (
  ground (arith, listening, opened_session session i t s known),
  ground (arith, listening, (reachable-Agrees clean s r).forth session i known),
)
