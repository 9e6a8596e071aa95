-- ===== src/Raw/Sessions/Registered.antt =====
-- That the user's numbers are those of the sessions that are connected.
use owt_sdk_quic.Prelude.{
  ℕ, ◌+◌, ◌^◌, ◌≤◌, ◌≡◌, refl, Bool, true, Option, none, some, List, ltb, arith,
}
use mathlib.Core.Path.{subst}
use owt_sdk_quic.Prelude.Maps.{lookup, erase}
use owt_sdk_quic.Raw.Dispatcher as Dispatcher
use owt_sdk_quic.Raw.ServerImpl as Impl
use owt_sdk_quic.Raw.ServerImpl.{Stream, ServerImpl}
use owt_sdk_quic.Raw.ServerImpl.Registry as Registry
use owt_sdk_quic.Raw.ServerImpl.Registry.{
  reachable-Agrees, session_created, session_closed, stream_opened, stream_closed, data_received,
  step,
}
use owt_sdk_quic.Raw.Sessions.{
  Server, is_new, Listened, start, connect, disconnect, Reachable, starts, connects, disconnects,
  resets, opens, closes, receives,
}
use owt_sdk_quic.Raw.Sessions.Numbers.{
  Listened-Apart, Registered, insert-Registered, gone-Registered, erase-Registered,
}

-- What is kept: the sessions are registered, the numbers go on from the first one, and the wrapper is in
-- a state that it comes to.
record Kept (first : ℕ) (early : List (ℕ × ℕ)) (s : Server) : Type 0 where
  registered : Registered first early s.dispatcher.sessions s.impl.session_ids s.impl.session_ptrs
  goes_on : first ≤ s.impl.next_session_id
  reached : (clean : Bool) × Registry.Reachable clean s.impl

-- The wrapper goes on without touching its maps.
alike-Kept :
    (first : ℕ) (early : List (ℕ × ℕ)) (s : Server) (d : Dispatcher.Dispatcher) (impl : ServerImpl)
    → Kept first early s
    → d.sessions ≡ s.dispatcher.sessions
    → (impl.session_ids ≡ s.impl.session_ids)
      × (impl.session_ptrs ≡ s.impl.session_ptrs)
      × (impl.next_session_id ≡ s.impl.next_session_id)
    → (clean : Bool) × Registry.Reachable clean impl
    → Kept first early (record { dispatcher = d; impl = impl })
alike-Kept first early s d impl h sessions (ids, ptrs, count) reached = record {
  registered = rw (sessions, ids, ptrs) h.registered;
  goes_on = rw count h.goes_on;
  reached = reached;
}

goes_to :
    (e : Registry.Event) (impl : ServerImpl)
    → Registry.is_possible e impl ≡ true
    → (clean : Bool) × Registry.Reachable clean impl
    → (clean : Bool) × Registry.Reachable clean (step e impl)
goes_to e impl p (clean, r) = (_, Registry.next clean e impl r p)

connect-Kept :
    (first c x : ℕ) (early : List (ℕ × ℕ)) (s : Server)
    → is_new c x s.dispatcher ≡ true
    → ltb (s.impl.next_session_id + 1) (2 ^ 32) ≡ true
    → Kept first early s
    → Kept first early (connect c x s)
unfolding connect Dispatcher.create_quic_session Impl.on_session_created step
connect-Kept first c x early s new room h = record {
  registered =
      insert-Registered first c x s.impl.next_session_id early s.dispatcher.sessions
        s.impl.session_ids s.impl.session_ptrs (ground (arith, new)) (ground (arith, new)) h.goes_on
        h.registered;
  goes_on = ground (arith, room, h.goes_on);
  reached = goes_to (session_created x) s.impl room h.reached;
}

closed-Kept :
    (first c x : ℕ) (early : List (ℕ × ℕ)) (s : Server) (number : Option ℕ)
    → lookup c s.dispatcher.sessions ≡ some x
    → lookup x s.impl.session_ids ≡ number
    → Kept first early s
    → Kept first (erase c early) (record {
      dispatcher = Dispatcher.on_connection_closed c s.dispatcher;
      impl = Impl.on_session_closed x s.impl;
    })
unfolding Dispatcher.on_connection_closed Impl.on_session_closed step
closed-Kept first c x early s none there e h = record {
  registered =
      rw (e, Impl.on_session_closed)
        (gone-Registered first c early s.dispatcher.sessions s.impl.session_ids s.impl.session_ptrs
          (λ y other. ground (arith, there, other, e)) h.registered);
  goes_on = rw (e, Impl.on_session_closed) h.goes_on;
  reached = goes_to (session_closed x) s.impl refl h.reached;
}
closed-Kept first c x early s (some n) there e h = record {
  registered =
      rw (e, Impl.on_session_closed)
        (erase-Registered first c x n early s.dispatcher.sessions s.impl.session_ids
          s.impl.session_ptrs there e h.registered);
  goes_on = rw (e, Impl.on_session_closed) h.goes_on;
  reached = goes_to (session_closed x) s.impl refl h.reached;
}

closed_sessions :
    (c : ℕ) (d : Dispatcher.Dispatcher)
    → (Dispatcher.on_connection_closed c d).sessions ≡ erase c d.sessions
unfolding Dispatcher.on_connection_closed
closed_sessions c d = refl

disconnect-Kept :
    (first c : ℕ) (early : List (ℕ × ℕ)) (s : Server) (session : Option ℕ)
    → lookup c s.dispatcher.sessions ≡ session
    → Kept first early s
    → Kept first (erase c early) (disconnect c s)
unfolding disconnect
disconnect-Kept first c early s none e h = rw e (record {
  registered = rw (closed_sessions c s.dispatcher) (
      gone-Registered first c early s.dispatcher.sessions s.impl.session_ids s.impl.session_ptrs
        (λ x other. absurd (ground (arith, e, other))) h.registered);
  goes_on = h.goes_on;
  reached = h.reached;
})
disconnect-Kept first c early s (some x) e h =
    rw e (closed-Kept first c x early s (lookup x s.impl.session_ids) e refl h)

started-Kept :
    (clean : Bool) (d : Dispatcher.Dispatcher) (impl : ServerImpl)
    → Listened d
    → Registry.Reachable clean impl
    → Kept impl.next_session_id d.sessions (start d impl)
unfolding start Dispatcher.set_visitor
started-Kept clean d impl l r =
    let agrees = reachable-Agrees clean impl r in
    record {
      registered = record {
        apart = Listened-Apart d l;
        early_there = λ c e. e;
        live = λ c x e none_there. absurd (ground (arith, e, none_there));
        late = λ i x from e. absurd (ground (arith, e, agrees.fresh i from));
        connected = λ i x from e. absurd (ground (arith, e, agrees.fresh i from));
      };
      goes_on = omega arith;
      reached = (clean, r);
    }

opened :
    (x : ℕ) (t : Stream) (s : ServerImpl)
    → let after = Impl.on_incoming_stream x t s in
      (after.session_ids ≡ s.session_ids)
      × (after.session_ptrs ≡ s.session_ptrs)
      × (after.next_session_id ≡ s.next_session_id)
unfolding Impl.on_incoming_stream
opened x t s = (refl, refl, refl)

received :
    (t : Stream) (content : List ℕ) (s : ServerImpl)
    → let after = Impl.on_data t content s in
      (after.session_ids ≡ s.session_ids)
      × (after.session_ptrs ≡ s.session_ptrs)
      × (after.next_session_id ≡ s.next_session_id)
unfolding Impl.on_data
received t content s = (ground arith, ground arith, ground arith)

reachable-Kept :
    (first : ℕ) (early : List (ℕ × ℕ)) (s : Server) → Reachable first early s → Kept first early s
unfolding Dispatcher.on_rst_stream_received Impl.on_close step
reachable-Kept first _ _ (starts clean d impl l r e) =
    subst (λ n. Kept n d.sessions (start d impl)) e (started-Kept clean d impl l r)
reachable-Kept first _ _ (connects c x early t r new room) =
    connect-Kept first c x early t new room (reachable-Kept first early t r)
reachable-Kept first _ _ (disconnects c early t r) =
    disconnect-Kept first c early t (lookup c t.dispatcher.sessions) refl
      (reachable-Kept first early t r)
reachable-Kept first _ _ (resets code early t r) =
    let h = reachable-Kept first early t r in
    alike-Kept first early t _ t.impl h refl (refl, refl, refl) h.reached
reachable-Kept first _ _ (opens x stream early t r) =
    let h = reachable-Kept first early t r in
    alike-Kept first early t t.dispatcher _ h refl (opened x stream t.impl)
      (goes_to (stream_opened x stream) t.impl refl h.reached)
reachable-Kept first _ _ (closes stream early t r) =
    let h = reachable-Kept first early t r in
    alike-Kept first early t t.dispatcher _ h refl (refl, refl, refl)
      (goes_to (stream_closed stream) t.impl refl h.reached)
reachable-Kept first _ _ (receives stream content early t r) =
    let h = reachable-Kept first early t r in
    alike-Kept first early t t.dispatcher _ h refl (received stream content t.impl)
      (goes_to (data_received stream content) t.impl refl h.reached)

-- The number of a session leads to it.
pub number_leads :
    (first : ℕ) (early : List (ℕ × ℕ)) (s : Server) (session i : ℕ)
    → Reachable first early s
    → lookup session s.impl.session_ids ≡ some i
    → lookup i s.impl.session_ptrs ≡ some session
number_leads first early s session i reach has_number =
    let (clean, r) = (reachable-Kept first early s reach).reached in
    (reachable-Agrees clean s.impl r).forth session i has_number
