-- ===== src/Transport/ServerSession/Guards.antt =====
-- Which streams a server's session comes to have, and which calls come to an end.
use owt_sdk_quic.Prelude.{
  ℕ, suc, ◌≡◌, refl, Bool, true, false, not, ◌&&◌, none, some, List, [], ◌∷◌, ◌++◌, if◌then◌else◌,
  arith, ◌∙◌,
}
use mathlib.Core.List.{append_assoc}
use owt_sdk_quic.Net.{peer_going_away}
use owt_sdk_quic.Streams.{
  ActiveStream, opened_ids, incoming_ids, is_bidirectional, outgoing_stream, bidirectional,
  finished, waits_forever, post_and_wait, all_of,
}
use owt_sdk_quic.Transport.ServerSession.{
  Task, Session, new_session, close_connection, on_connection_closed, on_stream_closed,
  on_encryption_established, stop_on_current_thread, stop, close_stream_on_current_thread, run_task,
  set_visitor, activate_incoming, create_incoming_stream_pending, should_create_incoming_stream,
  should_create_outgoing_bidirectional_stream, should_create_outgoing_unidirectional_stream,
  create_incoming_stream_on_current_thread, create_bidirectional_stream_on_current_thread,
  create_outgoing_bidirectional_stream, create_bidirectional_stream,
  create_outgoing_unidirectional_stream,
}

-- What a session is asked on the threads that make its streams, and what happens to it.
pub data Event : Type 0 where
  stream_arrives pending_arrives stream_ends : ℕ → Event
  bidirectional_wanted unidirectional_wanted : Bool → Event
  task_due : Task → Event
  handshake_done connection_lost : Event
  sets_visitor : Bool → Event

abbrev pub sets_no_visitor : Event → Bool
sets_no_visitor (sets_visitor given) = false
sets_no_visitor e = true

-- The IDs of the session's own streams with two directions, or with one.
abbrev pub own_ids : Bool → List ActiveStream → List ℕ
own_ids two_way [] = []
own_ids two_way (t ∷ ts) =
    let rest = own_ids two_way ts in
    if t.incoming
    then rest
    else if is_bidirectional t.kind
    then (if two_way then t.id ∷ rest else rest)
    else if two_way
    then rest
    else t.id ∷ rest

module _ (is_server_initiated : ℕ → Bool) (nth_bidirectional_id nth_unidirectional_id : ℕ → ℕ) where
  unfoldable pub step : Event → Session → Session
  step (stream_arrives id) s =
      (create_incoming_stream_on_current_thread is_server_initiated nth_bidirectional_id
        nth_unidirectional_id id s).1
  step (pending_arrives id) s = (create_incoming_stream_pending id s).1
  step (stream_ends id) s = on_stream_closed id s
  step (bidirectional_wanted can_open) s =
      (create_bidirectional_stream_on_current_thread is_server_initiated nth_bidirectional_id
        nth_unidirectional_id can_open s).1
  step (unidirectional_wanted can_open) s =
      (create_outgoing_unidirectional_stream is_server_initiated nth_bidirectional_id
        nth_unidirectional_id can_open s).1
  step (task_due t) s = run_task t s
  step handshake_done s = on_encryption_established s
  step connection_lost s = on_connection_closed s
  step (sets_visitor given) s = set_visitor given s

  unfoldable pub run : List Event → Session → Session
  run [] s = s
  run (e ∷ es) s = run es (step e s)

  -- The session's own streams of each kind have the IDs that quiche gives out for it.
  record OwnIds (s : Session) : Type 0 where
    two_way : own_ids true s.streams ≡ opened_ids nth_bidirectional_id s.bidirectional_count
    one_way : own_ids false s.streams ≡ opened_ids nth_unidirectional_id s.unidirectional_count

  step-OwnIds : (e : Event) (s : Session) → OwnIds s → OwnIds (step e s)
  unfolding step create_incoming_stream_on_current_thread should_create_incoming_stream
      create_incoming_stream_pending activate_incoming on_stream_closed close_connection
      create_bidirectional_stream_on_current_thread create_outgoing_unidirectional_stream
      should_create_outgoing_bidirectional_stream should_create_outgoing_unidirectional_stream
      run_task stop_on_current_thread close_stream_on_current_thread on_encryption_established
      on_connection_closed set_visitor
  step-OwnIds (stream_arrives id) s v = ground (arith, v.two_way, v.one_way)
  step-OwnIds (pending_arrives id) s v = ground (arith, v.two_way, v.one_way)
  step-OwnIds (stream_ends id) s v = ground (arith, v.two_way, v.one_way)
  step-OwnIds (bidirectional_wanted can_open) s v = ground (arith, v.two_way, v.one_way)
  step-OwnIds (unidirectional_wanted can_open) s v = ground (arith, v.two_way, v.one_way)
  step-OwnIds (task_due Task.stop_task) s v = ground (arith, v.two_way, v.one_way)
  step-OwnIds (task_due (Task.close_stream_task id)) s v = ground (arith, v.two_way, v.one_way)
  step-OwnIds handshake_done s v = ground (arith, v.two_way, v.one_way)
  step-OwnIds connection_lost s v = ground (arith, v.two_way, v.one_way)
  step-OwnIds (sets_visitor given) s v = ground (arith, v.two_way, v.one_way)

  run-OwnIds : (es : List Event) (s : Session) → OwnIds s → OwnIds (run es s)
  unfolding run
  run-OwnIds [] s v = v
  run-OwnIds (e ∷ es) s v = run-OwnIds es (step e s) (step-OwnIds e s v)

  -- The second session comes from the first by taking these streams of the peer's, newest first, and
  -- telling a visitor that is set of each.
  record Takes (taken : List ℕ) (s s' : Session) : Type 0 where
    same_visitor : s'.has_visitor ≡ s.has_visitor
    all_taken : incoming_ids s'.streams ≡ taken ++ incoming_ids s.streams
    told : s'.incoming_calls ≡ (if s.has_visitor then taken else []) ++ s.incoming_calls

  -- The stream of the peer's that an event brings in.
  abbrev taken_at : Event → Session → List ℕ
  taken_at (stream_arrives id) s =
      if s.connected && not (is_server_initiated id) then id ∷ [] else []
  taken_at (pending_arrives id) s = id ∷ []
  taken_at e s = []

  step-Takes :
      (e : Event) (s : Session) → sets_no_visitor e ≡ true → Takes (taken_at e s) s (step e s)
  unfolding step create_incoming_stream_on_current_thread should_create_incoming_stream
      create_incoming_stream_pending activate_incoming on_stream_closed close_connection
      create_bidirectional_stream_on_current_thread create_outgoing_unidirectional_stream
      should_create_outgoing_bidirectional_stream should_create_outgoing_unidirectional_stream
      run_task stop_on_current_thread close_stream_on_current_thread on_encryption_established
      on_connection_closed
  step-Takes (stream_arrives id) s quiet = ground arith
  step-Takes (pending_arrives id) s quiet = ground arith
  step-Takes (stream_ends id) s quiet = ground arith
  step-Takes (bidirectional_wanted can_open) s quiet = ground arith
  step-Takes (unidirectional_wanted can_open) s quiet = ground arith
  step-Takes (task_due Task.stop_task) s quiet = ground arith
  step-Takes (task_due (Task.close_stream_task id)) s quiet = ground arith
  step-Takes handshake_done s quiet = ground arith
  step-Takes connection_lost s quiet = ground arith
  step-Takes (sets_visitor given) s quiet = absurd (cc)

  Takes-join :
      (xs ys : List ℕ) (s t u : Session) → Takes xs s t → Takes ys t u → Takes (ys ++ xs) s u
  Takes-join xs ys s t u first later = record {
    same_visitor = later.same_visitor ∙ first.same_visitor;
    all_taken =
        ground
          (arith, first.all_taken, later.all_taken, append_assoc ys xs (incoming_ids s.streams));
    told =
        ground
          (arith, first.told, later.told, first.same_visitor, append_assoc ys xs s.incoming_calls);
  }

  run-Takes :
      (es : List Event) (s : Session)
      → all_of sets_no_visitor es ≡ true
      → (taken : List ℕ) × Takes taken s (run es s)
  unfolding run
  run-Takes [] s quiet = ([], record { same_visitor = refl; all_taken = refl; told = ground arith })
  run-Takes (e ∷ es) s quiet =
      let first = step-Takes e s (ground (arith, quiet)) in
      let (later, takes) = run-Takes es (step e s) (ground (arith, quiet)) in
      (
        later ++ taken_at e s,
        Takes-join (taken_at e s) later s (step e s) (run es (step e s)) first takes,
      )

  visited-OwnIds : (given : Bool) (s : Session) → OwnIds s → OwnIds (set_visitor given s)
  unfolding set_visitor
  visited-OwnIds given s v = ground (arith, v.two_way, v.one_way)

  new-OwnIds : (es : List Event) → OwnIds (run es new_session)
  unfolding new_session
  new-OwnIds es = run-OwnIds es new_session (ground arith)

  -- Whatever a new session goes through, with visitors set or not, when SetVisitor is called, and
  -- whatever follows until it is called again: of the streams that the session takes from the peer
  -- since, the visitor is told of each, once and in order, if one was given, and otherwise nothing is
  -- told; of those before, nothing more is told. The session's own streams of each kind have the IDs
  -- that quiche gives out for that kind, each once, in order and with none left out.
  pub transport_streams_account :
      (before after : List Event) (given : Bool)
      → all_of sets_no_visitor after ≡ true
      → let s = run before new_session in
        let t = run after (set_visitor given s) in
        ((taken : List ℕ) × (incoming_ids t.streams ≡ taken ++ incoming_ids s.streams)
          × (t.incoming_calls ≡ (if given then taken else []) ++ s.incoming_calls))
        × (own_ids true t.streams ≡ opened_ids nth_bidirectional_id t.bidirectional_count)
        × (own_ids false t.streams ≡ opened_ids nth_unidirectional_id t.unidirectional_count)
  unfolding set_visitor
  transport_streams_account before after given quiet =
      let s = run before new_session in
      let (taken, takes) = run-Takes after (set_visitor given s) quiet in
      let own =
        run-OwnIds after (set_visitor given s) (visited-OwnIds given s (new-OwnIds before)) in
      ((taken, takes.all_taken, takes.told), own.two_way, own.one_way)

abbrev pub OpenedNothing : Session → Session → Type 0
OpenedNothing s s' =
    (s'.connected ≡ false)
    × (s'.bidirectional_count ≡ s.bidirectional_count)
    × (s'.unidirectional_count ≡ s.unidirectional_count)

module _ (is_server_initiated : ℕ → Bool) (nth_bidirectional_id nth_unidirectional_id : ℕ → ℕ) where
  step-OpenedNothing :
      (e : Event) (s : Session)
      → s.connected ≡ false
      → OpenedNothing s (step is_server_initiated nth_bidirectional_id nth_unidirectional_id e s)
  unfolding step create_incoming_stream_on_current_thread should_create_incoming_stream
      create_incoming_stream_pending activate_incoming on_stream_closed close_connection
      create_bidirectional_stream_on_current_thread create_outgoing_unidirectional_stream
      should_create_outgoing_bidirectional_stream should_create_outgoing_unidirectional_stream
      run_task stop_on_current_thread close_stream_on_current_thread on_encryption_established
      on_connection_closed set_visitor
  step-OpenedNothing (stream_arrives id) s d = ground (arith, d)
  step-OpenedNothing (pending_arrives id) s d = ground (arith, d)
  step-OpenedNothing (stream_ends id) s d = ground (arith, d)
  step-OpenedNothing (bidirectional_wanted can_open) s d = ground (arith, d)
  step-OpenedNothing (unidirectional_wanted can_open) s d = ground (arith, d)
  step-OpenedNothing (task_due Task.stop_task) s d = ground (arith, d)
  step-OpenedNothing (task_due (Task.close_stream_task id)) s d = ground (arith, d)
  step-OpenedNothing handshake_done s d = ground (arith, d)
  step-OpenedNothing connection_lost s d = ground (arith, d)
  step-OpenedNothing (sets_visitor given) s d = ground (arith, d)

  run-OpenedNothing :
      (es : List Event) (s : Session)
      → s.connected ≡ false
      → OpenedNothing s (run is_server_initiated nth_bidirectional_id nth_unidirectional_id es s)
  unfolding run
  run-OpenedNothing [] s d = (d, refl, refl)
  run-OpenedNothing (e ∷ es) s d =
      let (lost, two, one) = step-OpenedNothing e s d in
      let (lost', two', one') =
        run-OpenedNothing es
          (step is_server_initiated nth_bidirectional_id nth_unidirectional_id e s) lost in
      (lost', two' ∙ two, one' ∙ one)

  -- Stop, called on the IO thread or on another one whose task then runs, closes the connection as
  -- going away, once; after it the session opens no stream of its own, whatever comes, and the
  -- calls of its user for a stream return none.
  pub stopped_session_opens_nothing :
      (on_io_thread on_event_thread can_open : Bool) (es : List Event) (s : Session)
      → let asked = stop on_io_thread s in
        let stopped = if on_io_thread then asked else run_task Task.stop_task asked in
        let later = run is_server_initiated nth_bidirectional_id nth_unidirectional_id es stopped in
        (stopped.closes ≡ peer_going_away ∷ s.closes)
        × (later.bidirectional_count ≡ s.bidirectional_count)
        × (later.unidirectional_count ≡ s.unidirectional_count)
        × (create_bidirectional_stream is_server_initiated nth_bidirectional_id
              nth_unidirectional_id on_event_thread can_open later
            ≡ finished (none, later))
  unfolding stop run_task stop_on_current_thread close_connection create_bidirectional_stream
  stopped_session_opens_nothing true on_event_thread can_open es s =
      let stopped = stop true s in
      let (lost, two, one) = run-OpenedNothing es stopped refl in (refl, two, one, rw lost refl)
  stopped_session_opens_nothing false on_event_thread can_open es s =
      let stopped = run_task Task.stop_task (stop false s) in
      let (lost, two, one) = run-OpenedNothing es stopped refl in (refl, two, one, rw lost refl)

  -- The user's call for a stream with two directions returns none on a session that is disconnected.
  -- On the event thread of a connected one it never returns, since it waits for a task of its own
  -- thread. On another thread it returns: the stream with the next ID, which the session keeps, if
  -- the handshake is done and there is room for a stream, and none otherwise.
  pub create_bidirectional_stream_lem :
      (on_event_thread can_open : Bool) (s : Session)
      → let stream = outgoing_stream bidirectional (nth_bidirectional_id s.bidirectional_count) in
        create_bidirectional_stream is_server_initiated nth_bidirectional_id nth_unidirectional_id
          on_event_thread can_open s
        ≡ (if s.connected && on_event_thread
            then waits_forever
            else if s.connected && s.encryption_established && can_open
            then finished (
              some stream,
              record s {
                streams = stream ∷ s.streams;
                bidirectional_count = suc s.bidirectional_count;
              },
            )
            else finished (none, s))
  unfolding create_bidirectional_stream create_outgoing_bidirectional_stream post_and_wait
      create_bidirectional_stream_on_current_thread should_create_outgoing_bidirectional_stream
  create_bidirectional_stream_lem on_event_thread can_open s = ground arith
