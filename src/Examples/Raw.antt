-- ===== src/Examples/Raw.antt =====
-- The raw server and the streams of quic_io on concrete inputs.
use owt_sdk_quic.Prelude.{
  ℕ, suc, ◌+◌, ◌≡◌, refl, Bool, true, false, not, Option, none, some, List, [], ◌∷◌, ◌++◌, length,
  if◌then◌else◌, arith,
}
use owt_sdk_quic.Prelude.Maps.{lookup, insert}
use owt_sdk_quic.Net.{ReadResult, bytes, code, failed}
use owt_sdk_quic.Sequencer.{Sequencer, SequencerLaws}
use owt_sdk_quic.Raw.Server
use owt_sdk_quic.Raw.Server.{start_reading, shutdown}
use owt_sdk_quic.Raw.Server.Reading
use owt_sdk_quic.Raw.Server.Reading.{read_loop-Inv}
use owt_sdk_quic.Raw.ServerImpl
use owt_sdk_quic.Raw.ServerImpl.{
  on_data, on_incoming_stream, send_on_session, set_listener, new_server,
}
use owt_sdk_quic.Raw.ServerImpl.Registry.{
  Reachable, Agrees, session_created, reachable-Agrees, answer_reaches_sender, step,
}
use owt_sdk_quic.Raw.Dispatcher
use owt_sdk_quic.Raw.Sessions
use owt_sdk_quic.Raw.Stream
use owt_sdk_quic.Raw.Stream.{on_data_available, set_visitor, new_stream}
use owt_sdk_quic.Raw.Stream.Receiving.{concat, on_data_available_lem}

abbrev burst : List ReadResult
burst = bytes 1200 ∷ bytes 40 ∷ []

abbrev reading_events : List (Server.Event × List ReadResult × Bool)
reading_events =
    (Server.socket_result (bytes 9), burst, true)
    ∷ (Server.task_due, [], false)
    ∷ (Server.socket_result (code failed), [], false)
    ∷ []

read_loop-Inv_example :
    Reading.Inv (Server.run shutdown reading_events (start_reading true burst Server.new_server).1)
read_loop-Inv_example = read_loop-Inv true burst reading_events

abbrev one_session : ServerImpl.ServerImpl
one_session = step (session_created 100) (set_listener true new_server)

one_session-Reachable : Reachable true one_session
unfolding set_listener new_server lookup
one_session-Reachable =
    Reachable.next true (session_created 100) (set_listener true new_server) (Reachable.start true)
      refl

reachable-Agrees_example : Agrees true one_session
reachable-Agrees_example = reachable-Agrees true one_session one_session-Reachable

abbrev a_stream : ServerImpl.Stream
a_stream = record { address = 500; id = 4 }

answer_reaches_sender_example :
    let after = on_data a_stream (104 ∷ 105 ∷ []) (on_incoming_stream 100 a_stream one_session) in
    (after.data_calls
      ≡ record { session_id = 0; stream_id = a_stream.id; content = 104 ∷ 105 ∷ [] }
        ∷ one_session.data_calls)
    × ((send_on_session true 0 a_stream.id (111 ∷ 107 ∷ []) after).sent
        ≡ record { session = 100; stream_id = a_stream.id; content = 111 ∷ 107 ∷ [] }
          ∷ one_session.sent)
unfolding step set_listener new_server lookup ServerImpl.on_session_created insert
answer_reaches_sender_example =
    answer_reaches_sender true one_session one_session-Reachable 100 0 a_stream (104 ∷ 105 ∷ [])
      (111 ∷ 107 ∷ []) refl refl

-- A sequencer that holds the bytes in one region and is closed when it has given them all.
abbrev is_nonempty : List ℕ → Bool
is_nonempty [] = false
is_nonempty (b ∷ bs) = true

abbrev region_of : List ℕ → Option (List ℕ)
region_of [] = none
region_of (b ∷ bs) = some (b ∷ [])

abbrev drop_bytes : ℕ → List ℕ → List ℕ
drop_bytes ℕ.zero bs = bs
drop_bytes (suc n) [] = []
drop_bytes (suc n) (b ∷ bs) = drop_bytes n bs

abbrev buffer : Sequencer (List ℕ)
buffer = record {
  has_bytes_to_read = is_nonempty;
  readable_region = region_of;
  mark_consumed = drop_bytes;
  is_closed = λ bs. not (is_nonempty bs);
}

buffer-nothing : (bs : List ℕ) → is_nonempty bs ≡ false → bs ≡ []
buffer-nothing [] h = refl
buffer-nothing (b ∷ bs) h = absurd (ground (arith, h))

buffer-split :
    (s : List ℕ)
    → is_nonempty s ≡ true
    → (b : ℕ) × (bs : List ℕ) × (region_of s ≡ some (b ∷ bs))
      × (s ≡ b ∷ bs ++ drop_bytes (length (b ∷ bs)) s)
buffer-split [] h = absurd (ground (arith, h))
buffer-split (b ∷ bs) h = (b, [], refl, refl)

abbrev buffer_laws : SequencerLaws buffer
buffer_laws = record {
  readable = λ bs. bs;
  nothing_to_read = buffer-nothing;
  region_split = buffer-split;
}

abbrev watched_stream : Stream.Stream (List ℕ)
watched_stream = set_visitor true (new_stream (7 ∷ 8 ∷ 9 ∷ []))

on_data_available_lem_example :
    let after = on_data_available buffer 3 watched_stream in
    (concat after.data_calls ≡ concat watched_stream.data_calls ++ watched_stream.sequencer)
    × (after.sequencer ≡ [])
    × (after.fin_read
        ≡ watched_stream.fin_read + (if buffer.is_closed after.sequencer then 1 else 0))
    × (after.unblocked
        ≡ watched_stream.unblocked + (if buffer.is_closed after.sequencer then 0 else 1))
unfolding set_visitor new_stream
on_data_available_lem_example =
    on_data_available_lem buffer buffer_laws 3 watched_stream refl (omega arith)

-- One session is made while Listen runs, and one later.
abbrev listened : Dispatcher.Dispatcher
listened = Dispatcher.create_quic_session 3 90 Dispatcher.new_dispatcher

abbrev idle_impl : ServerImpl.ServerImpl
idle_impl = set_listener true new_server

abbrev connected_server : Sessions.Server
connected_server = Sessions.connect 5 100 (Sessions.start listened idle_impl)

abbrev fourth_stream : ServerImpl.Stream
fourth_stream = record { address = 7000; id = 4 }
