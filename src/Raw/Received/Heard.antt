-- ===== src/Raw/Received/Heard.antt =====
-- That the listener hears what was received.
use owt_sdk_quic.Prelude.{ℕ, ◌≡◌, true, ◌&&◌, some, List, [], ◌∷◌, ◌++◌, ◌==◌, if◌then◌else◌}
use owt_sdk_quic.Prelude.Maps.{lookup}
use owt_sdk_quic.Sequencer.{Sequencer}
use owt_sdk_quic.Raw.Stream as RawStream
use owt_sdk_quic.Raw.ServerImpl.{Stream, ServerImpl, DataCall}

-- What the listener has heard of a session's stream, from its calls, newest first.
abbrev pub heard : ℕ → ℕ → List DataCall → List ℕ
heard session_id stream_id [] = []
heard session_id stream_id (call ∷ calls) =
    let before = heard session_id stream_id calls in
    if call.session_id == session_id && call.stream_id == stream_id
    then before ++ call.content
    else before

-- The stream is known under this session's number, and there is a listener.
record Listens (t : Stream) (i : ℕ) (s : ServerImpl) : Type 0 where
  is_known : lookup t.address s.stream_sessions ≡ some i
  has_listener : s.has_listener ≡ true
