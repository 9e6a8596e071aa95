-- ===== src/Raw/Dispatcher.antt =====
-- quic_io/src/quic_raw_dispatcher.h and .cc: the sessions of the raw server by connection, and the
-- counters of stream resets.
pub mod Counting
use owt_sdk_quic.Prelude.{
  ℕ, suc, Bool, true, false, Option, none, some, List, [], ◌∷◌, if◌then◌else◌,
}
use owt_sdk_quic.Prelude.Maps.{lookup, insert, erase}

-- A session is named by a number, its address, and a connection by a number that stands for its ID.
-- The counters are unbounded here; the source's are `int`. The last three lists hold, newest first,
-- the visitor's OnSessionCreated and OnSessionClosed calls and the calls of
-- QuicDispatcher::OnConnectionClosed.
pub record Dispatcher : Type 0 where
  pub rst_error_map : List (ℕ × ℕ)
  pub sessions : List (ℕ × ℕ)
  pub has_visitor : Bool
  pub created_calls : List ℕ
  pub closed_calls : List ℕ
  pub base_closed_calls : List ℕ

unfoldable pub new_dispatcher : Dispatcher
new_dispatcher = record {
  rst_error_map = [];
  sessions = [];
  has_visitor = false;
  created_calls = [];
  closed_calls = [];
  base_closed_calls = [];
}

unfoldable pub set_visitor : Bool → Dispatcher → Dispatcher
set_visitor given d = record d { has_visitor = given }

-- GetRstErrorCount
unfoldable pub get_rst_error_count : ℕ → Dispatcher → ℕ
get_rst_error_count code d = elim (lookup code d.rst_error_map) [ none ↦ 0 | some n ↦ n ]

-- OnRstStreamReceived, for a frame with this error code.
unfoldable pub on_rst_stream_received : ℕ → Dispatcher → Dispatcher
on_rst_stream_received code d = record d {
  rst_error_map = elim (lookup code d.rst_error_map) [
    | none ↦ insert code 1 d.rst_error_map
    | some n ↦ insert code (suc n) d.rst_error_map
  ];
}

abbrev pub closed_calls_with : Bool → Option ℕ → List ℕ → List ℕ
closed_calls_with true (some session) xs = session ∷ xs
closed_calls_with _ _ xs = xs

-- OnConnectionClosed
unfoldable pub on_connection_closed : ℕ → Dispatcher → Dispatcher
on_connection_closed connection d = record d {
  closed_calls = closed_calls_with d.has_visitor (lookup connection d.sessions) d.closed_calls;
  sessions = erase connection d.sessions;
  base_closed_calls = connection ∷ d.base_closed_calls;
}

-- CreateQuicSession, which makes `session`.
unfoldable pub create_quic_session : ℕ → ℕ → Dispatcher → Dispatcher
create_quic_session connection session d = record d {
  sessions = insert connection session d.sessions;
  created_calls = if d.has_visitor then session ∷ d.created_calls else d.created_calls;
}
