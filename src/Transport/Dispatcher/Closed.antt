-- ===== src/Transport/Dispatcher/Closed.antt =====
-- What the dispatcher hands packets to once connections have closed.
use owt_sdk_quic.Prelude.{
  ℕ, ◌≡◌, refl, ◌∙◌, ap, sym, true, Option, none, some, List, [], ◌∷◌, ◌++◌, ◌==◌, if◌then◌else◌,
  arith,
}
use mathlib.Core.List.{append_assoc, append-nil}
use owt_sdk_quic.Transport.Dispatcher.{
  Base, VisitorCall, created, closed, Dispatcher, new_dispatcher, set_visitor, create_quic_session,
  on_connection_closed,
}

pub data Event : Type 0 where
  session_wanted : ℕ → ℕ → Event
  connection_lost : ℕ → Event

-- The session first made for a connection, where it had none before.
abbrev pub first_made : ℕ → List Event → Option ℕ → Option ℕ
first_made connection es (some session) = some session
first_made connection [] none = none
first_made connection (session_wanted made session ∷ es) none =
    let later = first_made connection es none in if made == connection then some session else later
first_made connection (connection_lost lost ∷ es) none = first_made connection es none

-- What happened, as the visitor is told of it.
abbrev pub told_of : List Event → List VisitorCall
told_of [] = []
told_of (session_wanted made session ∷ es) = created session ∷ told_of es
told_of (connection_lost lost ∷ es) = closed lost ∷ told_of es

module _ {State : Type 0} (quiche : Base State) where
  unfoldable pub run : List Event → Dispatcher State → Dispatcher State
  run [] d = d
  run (session_wanted connection session ∷ es) d =
      run es (create_quic_session quiche connection session d)
  run (connection_lost connection ∷ es) d = run es (on_connection_closed quiche connection d)

  closed_base :
      (lost : ℕ) (d : Dispatcher State) → (on_connection_closed quiche lost d).base ≡ d.base
  unfolding on_connection_closed
  closed_base lost d = ground arith

  closed_visitor :
      (lost : ℕ) (d : Dispatcher State)
      → (on_connection_closed quiche lost d).has_visitor ≡ d.has_visitor
  unfolding on_connection_closed
  closed_visitor lost d = ground arith

  -- A connection that has a session keeps it.
  run-kept :
      (connection session : ℕ) (es : List Event) (d : Dispatcher State)
      → quiche.session_of connection d.base ≡ some session
      → quiche.session_of connection (run es d).base ≡ some session
  unfolding run create_quic_session
  run-kept connection session [] d e = e
  run-kept connection session (session_wanted made new ∷ es) d e =
      run-kept connection session es (create_quic_session quiche made new d)
        (ground (arith, e, quiche.session_of-keep connection made new d.base))
  run-kept connection session (connection_lost lost ∷ es) d e =
      run-kept connection session es (on_connection_closed quiche lost d)
        (ap (quiche.session_of connection) (closed_base lost d) ∙ e)

  run-session_of :
      (connection : ℕ) (es : List Event) (d : Dispatcher State)
      → quiche.session_of connection d.base ≡ none
      → quiche.session_of connection (run es d).base ≡ first_made connection es none
  unfolding run create_quic_session
  run-session_of connection [] d e = e
  run-session_of connection (session_wanted made session ∷ es) d e = ground (
    arith,
    e,
    quiche.session_of-keep connection made session d.base,
    run-kept connection session es (create_quic_session quiche made session d),
    run-session_of connection es (create_quic_session quiche made session d),
  )
  run-session_of connection (connection_lost lost ∷ es) d e =
      run-session_of connection es (on_connection_closed quiche lost d)
        (ap (quiche.session_of connection) (closed_base lost d) ∙ e)

  run-calls :
      (es : List Event) (d : Dispatcher State)
      → d.has_visitor ≡ true
      → (run es d).calls ≡ d.calls ++ told_of es
  unfolding run create_quic_session on_connection_closed
  run-calls [] d v = sym (append-nil d.calls)
  run-calls (session_wanted made session ∷ es) d v = ground (
    arith,
    v,
    run-calls es (create_quic_session quiche made session d) v,
    append_assoc d.calls (created session ∷ []) (told_of es),
  )
  run-calls (connection_lost lost ∷ es) d v = ground (
    arith,
    v,
    run-calls es (on_connection_closed quiche lost d) (closed_visitor lost d ∙ v),
    append_assoc d.calls (closed lost ∷ []) (told_of es),
  )

  -- The visitor of a new dispatcher is told of each session that is made and of each connection that is
  -- closed, once and in order. But the session of a closed connection is never taken from
  -- QuicDispatcher: whatever connections are made and closed, packets for a connection that had no
  -- session go to the session first made for it, also once it is closed and another one was made,
  -- where the call of QuicDispatcher's OnConnectionClosed that is missing would leave it none.
  pub closed_connections_stay :
      (base : State) (es : List Event) (connection : ℕ)
      → quiche.session_of connection base ≡ none
      → let d = run es (set_visitor true (new_dispatcher base)) in
        let closed_one = on_connection_closed quiche connection d in
        (d.calls ≡ told_of es)
        × (quiche.session_of connection d.base ≡ first_made connection es none)
        × (quiche.session_of connection closed_one.base ≡ first_made connection es none)
        × (quiche.session_of connection (quiche.on_connection_closed connection d.base) ≡ none)
  unfolding new_dispatcher set_visitor
  closed_connections_stay base es connection e =
      let d = run es (set_visitor true (new_dispatcher base)) in
      let first = run-session_of connection es (set_visitor true (new_dispatcher base)) e in
      (
        run-calls es (set_visitor true (new_dispatcher base)) refl,
        first,
        ap (quiche.session_of connection) (closed_base connection d) ∙ first,
        ground (arith, quiche.session_of-on_connection_closed connection connection d.base),
      )
