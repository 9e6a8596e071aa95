-- ===== src/Raw/Dispatcher/Counting.antt =====
-- What the counters count.
use owt_sdk_quic.Prelude.{
  ℕ, suc, ◌+◌, ◌≡◌, refl, List, [], ◌∷◌, ◌==◌, if◌then◌else◌, arith, inl, inr, Option-cases,
}
use owt_sdk_quic.Prelude.Maps.{lookup, lookup-insert}
use owt_sdk_quic.Raw.Dispatcher.{
  Dispatcher, get_rst_error_count, on_rst_stream_received, on_connection_closed,
  create_quic_session,
}

pub data Event : Type 0 where
  reset_received : ℕ → Event
  session_wanted : ℕ → ℕ → Event
  connection_lost : ℕ → Event

unfoldable pub step : Event → Dispatcher → Dispatcher
step (reset_received code) d = on_rst_stream_received code d
step (session_wanted connection session) d = create_quic_session connection session d
step (connection_lost connection) d = on_connection_closed connection d

unfoldable pub run : List Event → Dispatcher → Dispatcher
run [] d = d
run (e ∷ es) d = run es (step e d)

-- How many of the frames carry the code.
abbrev pub resets_with : ℕ → List Event → ℕ
resets_with code [] = 0
resets_with code (reset_received c ∷ es) =
    let rest = resets_with code es in if c == code then suc rest else rest
resets_with code (session_wanted c s ∷ es) = resets_with code es
resets_with code (connection_lost c ∷ es) = resets_with code es

received_count :
    (c code : ℕ) (d : Dispatcher)
    → get_rst_error_count code (on_rst_stream_received c d)
      ≡ (if c == code then suc (get_rst_error_count code d) else get_rst_error_count code d)
unfolding get_rst_error_count on_rst_stream_received
received_count c code d = elim (Option-cases (lookup c d.rst_error_map)) [
  | inl e ↦ ground (arith, e, lookup-insert c code 1 d.rst_error_map)
  | inr (n, e) ↦ ground (arith, e, lookup-insert c code (suc n) d.rst_error_map)
]

same_counters :
    (code c s : ℕ) (d : Dispatcher)
    → get_rst_error_count code (create_quic_session c s d) ≡ get_rst_error_count code d
unfolding get_rst_error_count create_quic_session
same_counters code c s d = refl

same_counters_closed :
    (code c : ℕ) (d : Dispatcher)
    → get_rst_error_count code (on_connection_closed c d) ≡ get_rst_error_count code d
unfolding get_rst_error_count on_connection_closed
same_counters_closed code c d = refl

-- The counter of an error code has counted the reset frames that carried it, whatever sessions came
-- and went between them.
pub run_counts :
    (code : ℕ) (es : List Event) (d : Dispatcher)
    → get_rst_error_count code (run es d) ≡ get_rst_error_count code d + resets_with code es
unfolding run step
run_counts code [] d = omega arith
run_counts code (reset_received c ∷ es) d =
    ground (arith, run_counts code es (on_rst_stream_received c d), received_count c code d)
run_counts code (session_wanted c s ∷ es) d =
    rw (run_counts code es (create_quic_session c s d), same_counters code c s d)
run_counts code (connection_lost c ∷ es) d =
    rw (run_counts code es (on_connection_closed c d), same_counters_closed code c d)
