-- ===== src/Backend.antt =====
-- web_transport/sdk/impl/web_transport_server_backend.h and .cc: the sessions of a server, one for
-- each QUIC connection.
pub mod Registry
use owt_sdk_quic.Prelude.{ℕ, Bool, false, Option, none, some, List, [], ◌∷◌, if◌then◌else◌}
use owt_sdk_quic.Prelude.Maps.{lookup, insert}

-- A WebTransportServerSession is named by a number, its address; a connection by a number that
-- stands for the text of its ID. `destroyed` holds the sessions whose last owner has let go, and
-- `announced` those that the visitor was given by OnSession, newest first.
pub record Backend : Type 0 where
  pub sessions : List (ℕ × ℕ)
  pub has_visitor : Bool
  pub destroyed : List ℕ
  pub announced : List ℕ

-- WebTransportServerBackend::WebTransportServerBackend
unfoldable pub new_backend : Backend
new_backend = record { sessions = []; has_visitor = false; destroyed = []; announced = [] }

unfoldable pub set_visitor : Bool → Backend → Backend
set_visitor given b = record b { has_visitor = given }

-- The session that an assignment to the map's entry destroys.
abbrev pub cons_option : Option ℕ → List ℕ → List ℕ
cons_option none xs = xs
cons_option (some x) xs = x ∷ xs

-- OnSessionReady, which makes `session` for `connection`.
unfoldable pub on_session_ready : ℕ → ℕ → Backend → Backend
on_session_ready connection session b = record b {
  sessions = insert connection session b.sessions;
  destroyed = cons_option (lookup connection b.sessions) b.destroyed;
  announced = if b.has_visitor then session ∷ b.announced else b.announced;
}

-- OnSessionClosed has an empty body.
unfoldable pub on_session_closed : ℕ → Backend → Backend
on_session_closed id b = b
