-- ===== src/Raw/ClientSession/Guards.antt =====
-- Which streams a raw client's session comes to have.
use owt_sdk_quic.Prelude.{
  ℕ, ◌≡◌, Bool, true, false, Option, none, some, List, [], ◌∷◌, if◌then◌else◌, arith,
}
use owt_sdk_quic.Streams.{
  ActiveStream, all_of, is_bidirectional, is_read_unidirectional, opened_ids,
}
use owt_sdk_quic.Raw.ClientSession.{
  Session, new_session, set_respect_goaway, should_create_outgoing_bidirectional_stream,
  should_create_incoming_stream, create_incoming_stream, create_outgoing_unidirectional_stream,
  create_outgoing_bidirectional_stream, create_client_stream, give_visitor,
}

-- What a session is asked, and what happens to it.
pub data Event : Type 0 where
  stream_arrives : ℕ → Event
  bidirectional_wanted unidirectional_wanted client_stream_wanted : Event
  respect_set : Bool → Event
  handshake_done goaway_arrives connection_lost : Event

module _ (nth_outgoing_id : ℕ → ℕ) where
  unfoldable pub step : Event → Session → Session
  step (stream_arrives id) s = (create_incoming_stream id s).1
  step bidirectional_wanted s = (create_outgoing_bidirectional_stream nth_outgoing_id s).1
  step unidirectional_wanted s = (create_outgoing_unidirectional_stream s).1
  step client_stream_wanted s = (create_client_stream nth_outgoing_id s).1
  step (respect_set respect) s = set_respect_goaway respect s
  step handshake_done s = record s { encryption_established = true }
  step goaway_arrives s = record s { goaway_received = true }
  step connection_lost s = record s { connected = false }

  unfoldable pub run : List Event → Session → Session
  run [] s = s
  run (e ∷ es) s = run es (step e s)

  -- A stream of the peer's is for reading only, one of the client's has two directions.
  abbrev pub is_proper : ActiveStream → Bool
  is_proper t = if t.incoming then is_read_unidirectional t.kind else is_bidirectional t.kind

  -- The IDs of the client's own streams.
  abbrev pub own_ids : List ActiveStream → List ℕ
  own_ids [] = []
  own_ids (t ∷ ts) = let rest = own_ids ts in if t.incoming then rest else t.id ∷ rest

  record Inv (s : Session) : Type 0 where
    proper : all_of is_proper s.streams ≡ true
    own : own_ids s.streams ≡ opened_ids nth_outgoing_id s.outgoing_count

  outgoing-Inv :
      (s : Session) → Inv s → Inv (create_outgoing_bidirectional_stream nth_outgoing_id s).1
  unfolding create_outgoing_bidirectional_stream should_create_outgoing_bidirectional_stream
  outgoing-Inv s v = ground (arith, v.proper, v.own)

  visitor-Inv :
      (r : Option ActiveStream × Session) → Inv r.1 → Inv (give_visitor nth_outgoing_id r).1
  visitor-Inv (none, s) v = v
  visitor-Inv (some t, s) v = record { proper = v.proper; own = v.own }

  step-Inv : (e : Event) (s : Session) → Inv s → Inv (step e s)
  unfolding step create_incoming_stream should_create_incoming_stream create_client_stream
      create_outgoing_unidirectional_stream set_respect_goaway
  step-Inv (stream_arrives id) s v = ground (arith, v.proper, v.own)
  step-Inv bidirectional_wanted s v = outgoing-Inv s v
  step-Inv unidirectional_wanted s v = v
  step-Inv client_stream_wanted s v = ground (
    arith,
    v.proper,
    v.own,
    visitor-Inv (create_outgoing_bidirectional_stream nth_outgoing_id s) (outgoing-Inv s v),
  )
  step-Inv (respect_set respect) s v = ground (arith, v.proper, v.own)
  step-Inv handshake_done s v = ground (arith, v.proper, v.own)
  step-Inv goaway_arrives s v = ground (arith, v.proper, v.own)
  step-Inv connection_lost s v = ground (arith, v.proper, v.own)

  run-Inv : (es : List Event) (s : Session) → Inv s → Inv (run es s)
  unfolding run
  run-Inv [] s v = v
  run-Inv (e ∷ es) s v = run-Inv es (step e s) (step-Inv e s v)

  -- Whatever a new client's session goes through, each stream of the peer's is for reading only,
  -- each of its own has two directions, and its own have the IDs that quiche gives out, each once,
  -- in order and with none left out.
  pub raw_client_streams_account :
      (es : List Event)
      → let s = run es new_session in
        (all_of is_proper s.streams ≡ true)
        × (own_ids s.streams ≡ opened_ids nth_outgoing_id s.outgoing_count)
  unfolding new_session
  raw_client_streams_account es = let v = run-Inv es new_session (ground arith) in (v.proper, v.own)
