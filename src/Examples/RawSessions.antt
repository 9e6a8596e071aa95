-- ===== src/Examples/RawSessions.antt =====
-- The raw client and the sessions of quic_io on concrete inputs.
use owt_sdk_quic.Prelude.{ℕ, suc, ◌+◌, ◌%◌, ◌≡◌, refl, Bool, true, false, ◌==◌, List, [], ◌∷◌}
use owt_sdk_quic.Raw.ClientImpl
use owt_sdk_quic.Raw.ClientImpl.{
  calls, calls_send, calls_send_to, calls_stop, init_and_run, start, new_client, run_loop,
}
use owt_sdk_quic.Raw.ClientImpl.Sending.{messages, all_succeed, started_client_sends}
use owt_sdk_quic.Raw.ServerSession
use owt_sdk_quic.Raw.ServerSession.Guards
use owt_sdk_quic.Raw.ServerSession.Guards.{wrong_id_ends_raw_session}

abbrev own_stream : ClientImpl.Stream
own_stream = record { address = 500; id = 4 }

abbrev client_calls : List ClientImpl.Call
client_calls =
    calls_send (104 ∷ 0 ∷ 105 ∷ []) 2
    ∷ calls_send_to 8 (33 ∷ []) 1
    ∷ calls_stop
    ∷ calls_send (34 ∷ []) 1
    ∷ []

abbrev has_any_stream : ℕ → Bool
has_any_stream id = true

started_client_sends_example :
    let c = init_and_run (all_succeed own_stream) (start new_client).1 in
    (run_loop has_any_stream (calls client_calls c).tasks (calls client_calls c)).sent
    ≡ messages has_any_stream own_stream client_calls
started_client_sends_example = started_client_sends has_any_stream own_stream client_calls

-- IDs of the server's side are odd.
abbrev is_odd : ℕ → Bool
is_odd id = (id % 2) == 1

abbrev odd_id : ℕ → ℕ
odd_id n = n + n + 1

abbrev server_events : List Guards.Event
server_events =
    Guards.stream_arrives 4
    ∷ Guards.handshake_done
    ∷ Guards.unidirectional_wanted
    ∷ Guards.stream_arrives 5
    ∷ Guards.stream_arrives 8
    ∷ []

wrong_id_ends_raw_session_example :
    let s = ServerSession.new_session true in
    let s' = Guards.run is_odd odd_id (Guards.stream_arrives 5 ∷ server_events) s in
    (s'.connected ≡ false)
    × (s'.streams ≡ s.streams)
    × (s'.incoming_calls ≡ s.incoming_calls)
    × (s'.invalid_id_closes ≡ suc s.invalid_id_closes)
unfolding ServerSession.new_session
wrong_id_ends_raw_session_example =
    wrong_id_ends_raw_session is_odd odd_id 5 server_events (ServerSession.new_session true) refl
      refl
