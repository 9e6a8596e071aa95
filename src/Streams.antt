-- ===== src/Streams.antt =====
-- What quiche's sessions keep of a stream, and waiting for a task of another thread.
use owt_sdk_quic.Prelude.{
  ℕ, zero, suc, Bool, true, false, ◌&&◌, Option, none, some, List, [], ◌∷◌, if◌then◌else◌,
}

-- ::quic::StreamType, as the sources use it.
pub data StreamType : Type 0 where
  bidirectional write_unidirectional read_unidirectional : StreamType

abbrev pub is_bidirectional : StreamType → Bool
is_bidirectional bidirectional = true
is_bidirectional _ = false

abbrev pub is_write_unidirectional : StreamType → Bool
is_write_unidirectional write_unidirectional = true
is_write_unidirectional _ = false

abbrev pub is_read_unidirectional : StreamType → Bool
is_read_unidirectional read_unidirectional = true
is_read_unidirectional _ = false

-- A stream that a session has activated. `incoming` says which side opened it.
pub record ActiveStream : Type 0 where
  pub id : ℕ
  pub kind : StreamType
  pub incoming : Bool

abbrev pub incoming_stream : StreamType → ℕ → ActiveStream
incoming_stream kind id = record { id = id; kind = kind; incoming = true }

abbrev pub outgoing_stream : StreamType → ℕ → ActiveStream
outgoing_stream kind id = record { id = id; kind = kind; incoming = false }

abbrev pub all_of {ℓ} : {A : Type ℓ} → (A → Bool) → List A → Bool
all_of p [] = true
all_of p (x ∷ xs) = p x && all_of p xs

-- The IDs of the streams that the peer opened.
abbrev pub incoming_ids : List ActiveStream → List ℕ
incoming_ids [] = []
incoming_ids (t ∷ ts) = let rest = incoming_ids ts in if t.incoming then t.id ∷ rest else rest

-- The IDs of the first `k` streams that a session opens, newest first.
abbrev pub opened_ids : (ℕ → ℕ) → ℕ → List ℕ
opened_ids nth zero = []
opened_ids nth (suc k) = nth k ∷ opened_ids nth k

-- What comes of a call that posts a task to another thread and waits for the task's signal: its
-- result with the state after it, or no end.
pub data Outcome (A : Type 0) : Type 0 where
  finished : A → Outcome A
  waits_forever : Outcome A

-- The call, on the task's own thread or on another: on its own thread the task never comes to run.
-- A task that ends without its signal gives none.
unfoldable pub post_and_wait : {A : Type 0} → Bool → Option A → Outcome A
post_and_wait true task = waits_forever
post_and_wait false none = waits_forever
post_and_wait false (some a) = finished a

-- A pointer to what a call made, from what comes of the call.
abbrev pub pointer_to : {A : Type 0} → Outcome A → Outcome (Option A)
pointer_to (finished a) = finished (some a)
pointer_to waits_forever = waits_forever
