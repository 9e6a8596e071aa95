-- ===== src/Raw/ServerImpl.antt =====
-- RawServerImpl of quic_io/src/wrapper/quic_raw_lib.cc: the sessions and streams of the raw server
-- under numbers, and what the user sends to them.
pub mod Registry
pub mod Sending
pub mod Thread
use owt_sdk_quic.Prelude.{
  ℕ, ◌+◌, ◌%◌, ◌^◌, Bool, true, false, Option, none, some, List, [], ◌∷◌, ◌++◌, ◌==◌, if◌then◌else◌,
}
use owt_sdk_quic.Prelude.Maps.{lookup, insert, erase}

-- A QuicRawStream: its address and its stream ID.
pub record Stream : Type 0 where
  pub address : ℕ
  pub id : ℕ

-- A SendOnSession task, or the loop's QuitClosure.
pub data Task : Type 0 where
  send_on_session_task : ℕ → ℕ → List ℕ → Task
  quit_task : Task

-- A call of the listener's onData.
pub record DataCall : Type 0 where
  pub session_id : ℕ
  pub stream_id : ℕ
  pub content : List ℕ

-- Data that went to a stream: the session's address, the stream's ID and the bytes.
pub record Sent : Type 0 where
  pub session : ℕ
  pub stream_id : ℕ
  pub content : List ℕ

-- The members; a session is named by its address. `has_message_loop` says whether the server's
-- thread runs its loop. Then the tasks posted, oldest first, and, newest first, the listener's
-- calls and what was sent.
pub record ServerImpl : Type 0 where
  pub session_ids : List (ℕ × ℕ)
  pub session_ptrs : List (ℕ × ℕ)
  pub stream_sessions : List (ℕ × ℕ)
  pub stream : Option Stream
  pub next_session_id : ℕ
  pub has_listener : Bool
  pub has_thread : Bool
  pub has_message_loop : Bool
  pub tasks : List Task
  pub data_calls : List DataCall
  pub sent : List Sent

unfoldable pub new_server : ServerImpl
new_server = record {
  session_ids = [];
  session_ptrs = [];
  stream_sessions = [];
  stream = none;
  next_session_id = 0;
  has_listener = false;
  has_thread = false;
  has_message_loop = false;
  tasks = [];
  data_calls = [];
  sent = [];
}

-- uint32_t addition of 1.
abbrev pub next_u32 : ℕ → ℕ
next_u32 n = (n + 1) % 2 ^ 32

unfoldable pub listen : ServerImpl → Bool × ServerImpl
listen s = if s.has_thread then (false, s) else (true, record s { has_thread = true })

-- InitAndRun, when the loop starts and when it has ended.
unfoldable pub loop_started : ServerImpl → ServerImpl
loop_started s = record s { has_message_loop = true }

unfoldable pub loop_ended : ServerImpl → ServerImpl
loop_ended s = record s { has_message_loop = false }

unfoldable pub stop : ServerImpl → ServerImpl
stop s = if s.has_message_loop then record s { tasks = s.tasks ++ quit_task ∷ [] } else s

-- waitForClose, when the thread has ended.
unfoldable pub wait_for_close : ServerImpl → ServerImpl
wait_for_close s = record s { has_thread = false }

unfoldable pub set_listener : Bool → ServerImpl → ServerImpl
set_listener given s = record s { has_listener = given }

-- std::string(data) of a pointer: the memory from there up to the first 0.
abbrev pub c_string : List ℕ → List ℕ
c_string [] = []
c_string (b ∷ bs) = let rest = c_string bs in if b == 0 then [] else b ∷ rest

-- send(session_id, stream_id, data, len), where `memory` starts at `data`.
unfoldable pub send_to : ℕ → ℕ → List ℕ → ℕ → ServerImpl → ServerImpl
send_to session_id stream_id memory len s =
    if s.has_message_loop
    then record s {
      tasks = s.tasks ++ send_on_session_task session_id stream_id (c_string memory) ∷ [];
    }
    else s

-- send(data, len)
unfoldable pub send : List ℕ → ℕ → ServerImpl → ServerImpl
unfolding send_to
send memory len s = elim s.stream [ none ↦ s | some t ↦ send_to 0 t.id memory len s ]

-- OnSessionCreated
unfoldable pub on_session_created : ℕ → ServerImpl → ServerImpl
on_session_created session s = record s {
  session_ids = insert session s.next_session_id s.session_ids;
  session_ptrs = insert s.next_session_id session s.session_ptrs;
  next_session_id = next_u32 s.next_session_id;
}

-- OnSessionClosed
unfoldable pub on_session_closed : ℕ → ServerImpl → ServerImpl
on_session_closed session s = elim (lookup session s.session_ids) [
  | none ↦ s
  | some session_id ↦ record s {
    session_ids = erase session s.session_ids;
    session_ptrs = erase session_id s.session_ptrs;
  }
]

-- OnIncomingStream
unfoldable pub on_incoming_stream : ℕ → Stream → ServerImpl → ServerImpl
on_incoming_stream session t s = record s {
  stream_sessions = elim (lookup session s.session_ids) [
    | none ↦ s.stream_sessions
    | some session_id ↦ insert t.address session_id s.stream_sessions
  ];
  stream = elim s.stream [ none ↦ some t | some first ↦ some first ];
}

abbrev pub is_same_stream : Stream → Option Stream → Bool
is_same_stream t none = false
is_same_stream t (some u) = t.address == u.address

-- OnClose
unfoldable pub on_close : Stream → ServerImpl → ServerImpl
on_close t s = record s {
  stream_sessions = erase t.address s.stream_sessions;
  stream = if is_same_stream t s.stream then none else s.stream;
}

-- `stream_sessions_[stream]`: the entry, which is made with 0 where there is none.
abbrev pub entry_or_zero : Option ℕ → ℕ
entry_or_zero none = 0
entry_or_zero (some n) = n

-- OnData
unfoldable pub on_data : Stream → List ℕ → ServerImpl → ServerImpl
on_data t content s =
    let session_id = entry_or_zero (lookup t.address s.stream_sessions) in
    if s.has_listener
    then record s {
      stream_sessions = insert t.address session_id s.stream_sessions;
      data_calls =
          record { session_id = session_id; stream_id = t.id; content = content } ∷ s.data_calls;
    }
    else s

-- SendOnSession, where `has_stream` says whether the session gets or makes the stream.
unfoldable pub send_on_session : Bool → ℕ → ℕ → List ℕ → ServerImpl → ServerImpl
send_on_session has_stream session_id stream_id content s =
    elim (lookup session_id s.session_ptrs) [
      | none ↦ s
      | some session ↦
          if has_stream
          then record s {
            sent = record { session = session; stream_id = stream_id; content = content } ∷ s.sent;
          }
          else s
    ]
