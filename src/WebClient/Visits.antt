-- ===== src/WebClient/Visits.antt =====
-- What the visitor of the WebTransport client gets, and what becomes of incoming streams.
use owt_sdk_quic.Prelude.{
  ℕ, suc, ◌+◌, ◌≡◌, refl, Bool, true, Option, none, some, List, [], ◌∷◌, ◌++◌, if◌then◌else◌, arith,
  length,
}
use owt_sdk_quic.Net.{QuicMessageStatus, convert_message_status}
use owt_sdk_quic.WebClient.{
  Task, fire_on_connected, fire_on_connection_failed, incoming_available, CloseInfo, VisitorCall,
  connected_call, closed_call, incoming_stream_call, Client, new_client, call, fire_event, post,
  on_connected, on_connection_failed, on_closed, on_incoming_available,
  owt_stream_for_native_stream, on_incoming_stream_available, on_datagram_processed,
  create_outgoing_stream_on_current_thread, run_task, set_visitor,
}

-- What happens to the client, with the answers of its session.
pub data Event : Type 0 where
  connects fails : Event
  closes : Option CloseInfo → Event
  incoming : Bool → Event
  datagram_done : Option QuicMessageStatus → Event
  opens : Bool → ℕ → Event
  task_due : Option ℕ → Event
  sets_visitor : Bool → Event

unfoldable pub step : Event → Client → Client
step connects c = on_connected c
step fails c = on_connection_failed c
step (closes info) c = on_closed info c
step (incoming bidirectional) c = on_incoming_available bidirectional c
step (datagram_done status) c = on_datagram_processed status c
step (opens can_open stream) c = (create_outgoing_stream_on_current_thread can_open stream c).1
step (task_due stream) c = run_task stream c.tasks c
step (sets_visitor given) c = set_visitor given c

unfoldable pub run : List Event → Client → Client
run [] c = c
run (e ∷ es) c = run es (step e c)

-- How many streams the visitor was shown, and how many the client has opened.
abbrev pub shown : List VisitorCall → ℕ
shown [] = 0
shown (incoming_stream_call t ∷ vs) = suc (shown vs)
shown (v ∷ vs) = shown vs

abbrev is_shown : VisitorCall → ℕ
is_shown (incoming_stream_call t) = 1
is_shown v = 0

abbrev pub opened : List Event → ℕ
opened [] = 0
opened (opens can_open stream ∷ es) = let rest = opened es in if can_open then suc rest else rest
opened (e ∷ es) = opened es

abbrev opened_by : Event → ℕ
opened_by (opens can_open stream) = if can_open then 1 else 0
opened_by e = 0

shown-append :
    (vs : List VisitorCall) (v : VisitorCall) → shown (vs ++ v ∷ []) ≡ shown vs + is_shown v
shown-append [] v = ground arith
shown-append (w ∷ vs) v = ground (arith, shown-append vs v)

opened-step : (e : Event) (es : List Event) → opened (e ∷ es) ≡ opened_by e + opened es
opened-step connects es = omega arith
opened-step fails es = omega arith
opened-step (closes info) es = omega arith
opened-step (incoming bidirectional) es = omega arith
opened-step (datagram_done status) es = omega arith
opened-step (opens can_open stream) es = ground arith
opened-step (task_due stream) es = omega arith
opened-step (sets_visitor given) es = omega arith

module _ (debug : Bool) where
  -- A client keeps the streams that it opened or showed. In a build with DCHECKs every stream taken
  -- from the session was shown or got a FIN; in one without them none got a FIN.
  pub record Counts (c : Client) (n : ℕ) : Type 0 where
    pub build : c.is_debug ≡ debug
    pub kept : length c.streams ≡ shown c.calls + n
    pub taken :
        (if debug then shown c.calls + length c.fins else length c.accepted) ≡ length c.accepted
    pub finished_only_in_debug : (if debug then [] else c.fins) ≡ []

  on_incoming_stream_available-Counts :
      (stream : Option ℕ) (c : Client) (n : ℕ)
      → Counts c n
      → Counts (on_incoming_stream_available stream c) n
  unfolding on_incoming_stream_available call owt_stream_for_native_stream
  on_incoming_stream_available-Counts none c n v =
      ground (arith, v.build, v.kept, v.taken, v.finished_only_in_debug)
  on_incoming_stream_available-Counts (some t) c n v = ground (
    arith,
    v.build,
    v.kept,
    v.taken,
    v.finished_only_in_debug,
    shown-append c.calls (incoming_stream_call t),
  )

  call-Counts :
      (w : VisitorCall) (c : Client) (n : ℕ) → is_shown w ≡ 0 → Counts c n → Counts (call w c) n
  unfolding call
  call-Counts w c n z v =
      ground (arith, z, v.build, v.kept, v.taken, v.finished_only_in_debug, shown-append c.calls w)

  fire_event-Counts :
      (w : VisitorCall) (ts : List Task) (c : Client) (n : ℕ)
      → is_shown w ≡ 0
      → Counts c n
      → Counts (fire_event w (record c { tasks = ts })) n
  unfolding fire_event
  fire_event-Counts w ts c n z v =
      let c' = record c { tasks = ts } in
      ground (arith, v.build, v.kept, v.taken, v.finished_only_in_debug, call-Counts w c' n z)

  run_task-Counts :
      (stream : Option ℕ) (ts : List Task) (c : Client) (n : ℕ)
      → Counts c n
      → Counts (run_task stream ts c) n
  unfolding run_task
  run_task-Counts stream [] c n v = v
  run_task-Counts stream (fire_on_connected ∷ ts) c n v =
      fire_event-Counts connected_call ts c n refl v
  run_task-Counts stream (fire_on_connection_failed ∷ ts) c n v =
      fire_event-Counts VisitorCall.connection_failed_call ts c n refl v
  run_task-Counts stream (incoming_available bidirectional ∷ ts) c n v =
      on_incoming_stream_available-Counts stream (record c { tasks = ts }) n
        (record {
          build = v.build;
          kept = v.kept;
          taken = v.taken;
          finished_only_in_debug = v.finished_only_in_debug;
        })

  step-Counts : (e : Event) (c : Client) (n : ℕ) → Counts c n → Counts (step e c) (n + opened_by e)
  unfolding step on_connected on_connection_failed on_incoming_available post on_closed
      on_datagram_processed create_outgoing_stream_on_current_thread owt_stream_for_native_stream
      set_visitor
  step-Counts connects c n v = ground (arith, v.build, v.kept, v.taken, v.finished_only_in_debug)
  step-Counts fails c n v = ground (arith, v.build, v.kept, v.taken, v.finished_only_in_debug)
  step-Counts (closes none) c n v =
      ground (arith, v.build, v.kept, v.taken, v.finished_only_in_debug)
  step-Counts (closes (some info)) c n v = ground (
    arith,
    v.build,
    v.kept,
    v.taken,
    v.finished_only_in_debug,
    call-Counts (closed_call info.code none) c n refl v,
  )
  step-Counts (incoming bidirectional) c n v =
      ground (arith, v.build, v.kept, v.taken, v.finished_only_in_debug)
  step-Counts (datagram_done status) c n v = ground (
    arith,
    v.build,
    v.kept,
    v.taken,
    v.finished_only_in_debug,
    call-Counts (VisitorCall.datagram_processed_call (convert_message_status status)) c n refl v,
  )
  step-Counts (opens can_open stream) c n v =
      ground (arith, v.build, v.kept, v.taken, v.finished_only_in_debug)
  step-Counts (task_due stream) c n v = ground (arith, run_task-Counts stream c.tasks c n v)
  step-Counts (sets_visitor given) c n v =
      ground (arith, v.build, v.kept, v.taken, v.finished_only_in_debug)

  run-Counts :
      (es : List Event) (c : Client) (n : ℕ) → Counts c n → Counts (run es c) (n + opened es)
  unfolding run
  run-Counts [] c n v = ground (arith, v.build, v.kept, v.taken, v.finished_only_in_debug)
  run-Counts (e ∷ es) c n v =
      let later = run-Counts es (step e c) (n + opened_by e) (step-Counts e c n v) in
      ground (
        arith,
        later.build,
        later.kept,
        later.taken,
        later.finished_only_in_debug,
        opened-step e es,
      )

  -- Whatever happens to a new client, it keeps one object for each stream that it opened or showed to
  -- its visitor, and lets none go. In a build with DCHECKs each incoming stream was shown or got a FIN,
  -- and in one without them no stream got a FIN, shown or not.
  pub streams_are_kept : (es : List Event) → Counts (run es (new_client debug)) (opened es)
  unfolding new_client
  streams_are_kept es =
      let v = run-Counts es (new_client debug) 0 (ground arith) in
      ground (arith, v.build, v.kept, v.taken, v.finished_only_in_debug)

-- When the session closes with a code and a reason, the visitor gets the code, and null for the
-- reason, whatever it was. When it closes without them, an empty optional is used. Without a visitor
-- nothing happens.
pub close_reason_is_lost :
    (info : CloseInfo) (c : Client)
    → let seen = on_closed (some info) c in
      (seen.calls ≡ (if c.has_visitor then c.calls ++ closed_call info.code none ∷ [] else c.calls))
      × (seen.crashed ≡ c.crashed)
      × ((on_closed none c).crashed ≡ (if c.has_visitor then true else c.crashed))
      × ((on_closed none c).calls ≡ c.calls)
unfolding on_closed call
close_reason_is_lost info c = ground arith
