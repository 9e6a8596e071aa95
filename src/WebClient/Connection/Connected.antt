-- ===== src/WebClient/Connection/Connected.antt =====
-- What the API's user hears of the connection that Connect makes.
use owt_sdk_quic.Prelude.{
  ℕ, ◌+◌, ◌≤◌, ◌≡◌, refl, sym, ap, ◌∙◌, Bool, true, false, not, ◌||◌, ◌==◌, leb, Option, none, some,
  List, [], ◌∷◌, ◌++◌, count_if, count_if-append, arith,
}
use owt_sdk_quic.Net.{convert_message_status}
use owt_sdk_quic.Http3Client.State as State
use owt_sdk_quic.Http3Client.State.{Config, new_client}
use owt_sdk_quic.Http3Client.Connect.{Answers}
use owt_sdk_quic.Http3Client.Events as Events
use owt_sdk_quic.Http3Client.Events.{handle, connect_client}
use owt_sdk_quic.Http3Client.Invariant.{
  Inv, is_on_connected, connected_calls, is_legal, life, Life, told_connected, told_failed,
}
use owt_sdk_quic.Http3Client.Runs.{new_client-Inv, connect_client-Inv, handle-Inv}
use owt_sdk_quic.Http3Client.Telling.{told_since, told_since-handle}
use owt_sdk_quic.WebClient as User
use owt_sdk_quic.WebClient.Connection.{
  Connection, new_connection, relay, relay_all, connect_on_current_thread, transport_event,
  run_task, create_outgoing_stream,
}

-- What happens after Connect, on either thread.
pub data Event : Type 0 where
  transport : Events.Event → Answers → Event
  task_due : Option ℕ → Event
  opens : Bool → ℕ → Event

unfoldable pub step : Event → Connection → Connection
step (transport e a) s = transport_event e a s
step (task_due stream) s = run_task stream s
step (opens can_open stream) s = create_outgoing_stream can_open stream s

unfoldable pub run : List Event → Connection → Connection
run [] s = s
run (e ∷ es) s = run es (step e s)

-- A new object that has a visitor.
abbrev pub visited : Bool → Connection
visited is_debug = record (new_connection is_debug) {
  user = record (User.new_client is_debug) { has_visitor = true };
}

abbrev pub is_on_connection_failed : State.VisitorCall → Bool
is_on_connection_failed (State.on_connection_failed e) = true
is_on_connection_failed _ = false

abbrev pub failed_calls : State.Client → ℕ
failed_calls c = count_if is_on_connection_failed c.visitor_calls

-- What the user has heard, and is going to hear by a task of the event thread.
abbrev hears_connected : User.VisitorCall → Bool
hears_connected User.connected_call = true
hears_connected _ = false

abbrev hears_failed : User.VisitorCall → Bool
hears_failed User.connection_failed_call = true
hears_failed _ = false

abbrev fires_connected : User.Task → Bool
fires_connected User.fire_on_connected = true
fires_connected _ = false

abbrev fires_failed : User.Task → Bool
fires_failed User.fire_on_connection_failed = true
fires_failed _ = false

abbrev pub connected_heard : User.Client → ℕ
connected_heard u = count_if hears_connected u.calls

abbrev pub connected_waiting : User.Client → ℕ
connected_waiting u = count_if fires_connected u.tasks

abbrev pub failed_heard : User.Client → ℕ
failed_heard u = count_if hears_failed u.calls

abbrev pub failed_waiting : User.Client → ℕ
failed_waiting u = count_if fires_failed u.tasks

-- The user's visitor is there, and the news for it are these many.
record News (u : User.Client) (connected failed : ℕ) : Type 0 where
  visitor : u.has_visitor ≡ true
  connected_news : connected_heard u + connected_waiting u ≡ connected
  failed_news : failed_heard u + failed_waiting u ≡ failed

abbrev by : Bool → ℕ
by true = 1
by false = 0

call-News :
    (w : User.VisitorCall) (u : User.Client) (m n : ℕ)
    → News u m n
    → News (User.call w u) (by (hears_connected w) + m) (by (hears_failed w) + n)
unfolding User.call
call-News w u m n h = ground (
  arith,
  h.visitor,
  h.connected_news,
  h.failed_news,
  count_if-append hears_connected u.calls (w ∷ []),
  count_if-append hears_failed u.calls (w ∷ []),
)

post-News :
    (t : User.Task) (u : User.Client) (m n : ℕ)
    → News u m n
    → News (User.post t u) (by (fires_connected t) + m) (by (fires_failed t) + n)
unfolding User.post
post-News t u m n h = ground (
  arith,
  h.visitor,
  h.connected_news,
  h.failed_news,
  count_if-append fires_connected u.tasks (t ∷ []),
  count_if-append fires_failed u.tasks (t ∷ []),
)

same-News : (u : User.Client) (m n : ℕ) → News u m n → News u (0 + m) (0 + n)
same-News u m n h = ground (arith, h.visitor, h.connected_news, h.failed_news)

relay-News :
    (v : State.VisitorCall) (u : User.Client) (m n : ℕ)
    → News u m n
    → News (relay v u) (by (is_on_connected v) + m) (by (is_on_connection_failed v) + n)
unfolding relay User.on_connected User.on_connection_failed User.on_error User.on_closed
    User.on_incoming_available User.on_datagram_processed
relay-News State.on_connected u m n h = post-News User.fire_on_connected u m n h
relay-News (State.on_connection_failed e) u m n h = post-News User.fire_on_connection_failed u m n h
relay-News State.on_incoming_bidirectional_stream u m n h =
    post-News (User.incoming_available true) u m n h
relay-News State.on_incoming_unidirectional_stream u m n h =
    post-News (User.incoming_available false) u m n h
relay-News (State.on_closed none) u m n h =
    ground (arith, h.visitor, h.connected_news, h.failed_news)
relay-News (State.on_closed (some info)) u m n h =
    let told = call-News (User.closed_call info.code none) u m n h in
    ground (arith, h.visitor, told.visitor, told.connected_news, told.failed_news)
relay-News (State.on_datagram_processed status) u m n h =
    let told = call-News (User.datagram_processed_call (convert_message_status status)) u m n h in
    ground (arith, h.visitor, told.visitor, told.connected_news, told.failed_news)
relay-News v u m n h = same-News u m n h

relay_all-News :
    (vs : List State.VisitorCall) (u : User.Client) (m n : ℕ)
    → News u m n
    → News
        (relay_all vs u)
        (count_if is_on_connected vs + m)
        (count_if is_on_connection_failed vs + n)
unfolding relay_all
relay_all-News [] u m n h = same-News u m n h
relay_all-News (v ∷ vs) u m n h =
    let later = relay-News v (relay_all vs u) _ _ (relay_all-News vs u m n h) in
    ground (arith, later.visitor, later.connected_news, later.failed_news)

-- The first task is off the queue, and told.
fire_event-News :
    (w : User.VisitorCall) (t : User.Task) (ts : List User.Task) (u : User.Client) (m n : ℕ)
    → t ∷ ts ≡ u.tasks
    → hears_connected w ≡ fires_connected t
    → hears_failed w ≡ fires_failed t
    → News u m n
    → News (User.fire_event w (record u { tasks = ts })) m n
unfolding User.fire_event User.call
fire_event-News w t ts u m n e c f h = ground (
  arith,
  c,
  f,
  h.visitor,
  h.connected_news,
  h.failed_news,
  ap (count_if fires_connected) e,
  ap (count_if fires_failed) e,
  count_if-append hears_connected u.calls (w ∷ []),
  count_if-append hears_failed u.calls (w ∷ []),
)

run_task-News :
    (stream : Option ℕ) (ts : List User.Task) (u : User.Client) (m n : ℕ)
    → ts ≡ u.tasks
    → News u m n
    → News (User.run_task stream ts u) m n
unfolding User.run_task User.on_incoming_stream_available User.call
    User.owt_stream_for_native_stream
run_task-News stream [] u m n e h = h
run_task-News stream (User.fire_on_connected ∷ ts) u m n e h =
    fire_event-News User.connected_call User.fire_on_connected ts u m n e refl refl h
run_task-News stream (User.fire_on_connection_failed ∷ ts) u m n e h =
    fire_event-News User.connection_failed_call User.fire_on_connection_failed ts u m n e refl refl
      h
run_task-News none (User.incoming_available b ∷ ts) u m n e h = ground (
  arith,
  h.visitor,
  h.connected_news,
  h.failed_news,
  ap (count_if fires_connected) e,
  ap (count_if fires_failed) e,
)
run_task-News (some stream) (User.incoming_available b ∷ ts) u m n e h = ground (
  arith,
  h.visitor,
  h.connected_news,
  h.failed_news,
  ap (count_if fires_connected) e,
  ap (count_if fires_failed) e,
  count_if-append hears_connected u.calls (User.incoming_stream_call stream ∷ []),
  count_if-append hears_failed u.calls (User.incoming_stream_call stream ∷ []),
)

create-News :
    (can_open : Bool) (stream : ℕ) (u : User.Client) (m n : ℕ)
    → News u m n
    → News (User.create_outgoing_stream_on_current_thread can_open stream u).1 m n
unfolding User.create_outgoing_stream_on_current_thread User.owt_stream_for_native_stream
create-News can_open stream u m n h = ground (arith, h.visitor, h.connected_news, h.failed_news)

-- The HTTP/3 client is there, it is as its invariant says, and the user's news are what it told.
record Told (s : Connection) : Type 0 where
  client : State.Client
  is_there : s.client ≡ some client
  inv : Inv client
  news : News s.user (connected_calls client) (failed_calls client)

told_counts :
    (test : State.VisitorCall → Bool) (c d : State.Client)
    → d.visitor_calls ≡ told_since c d ++ c.visitor_calls
    → count_if test (told_since c d) + count_if test c.visitor_calls ≡ count_if test d.visitor_calls
told_counts test c d e =
    sym (count_if-append test (told_since c d) c.visitor_calls) ∙ ap (count_if test) (sym e)

relayed-News :
    (c d : State.Client) (u : User.Client)
    → d.visitor_calls ≡ told_since c d ++ c.visitor_calls
    → News u (connected_calls c) (failed_calls c)
    → News (relay_all (told_since c d) u) (connected_calls d) (failed_calls d)
relayed-News c d u e h =
    let later = relay_all-News (told_since c d) u _ _ h in
    record {
      visitor = later.visitor;
      connected_news = later.connected_news ∙ told_counts is_on_connected c d e;
      failed_news = later.failed_news ∙ told_counts is_on_connection_failed c d e;
    }

step-Told : (e : Event) (s : Connection) → Told s → Told (step e s)
unfolding step transport_event run_task create_outgoing_stream
step-Told (transport e a) s t = rw t.is_there (record {
  client = handle e a t.client;
  is_there = refl;
  inv = handle-Inv e a t.client t.inv;
  news = relayed-News t.client (handle e a t.client) s.user (told_since-handle e a t.client) t.news;
})
step-Told (task_due stream) s t = record {
  client = t.client;
  is_there = t.is_there;
  inv = t.inv;
  news = run_task-News stream s.user.tasks s.user _ _ refl t.news;
}
step-Told (opens can_open stream) s t = rw t.is_there (record {
  client = t.client;
  is_there = refl;
  inv = t.inv;
  news = create-News can_open stream s.user _ _ t.news;
})

run-Told : (es : List Event) (s : Connection) → Told s → Told (run es s)
unfolding run
run-Told [] s t = t
run-Told (e ∷ es) s t = run-Told es (step e s) (step-Told e s t)

visited-News :
    (is_debug : Bool) (k : Config)
    → News (visited is_debug).user (connected_calls (new_client k)) (failed_calls (new_client k))
unfolding new_client new_connection User.new_client
visited-News is_debug k = ground arith

connected-Told :
    (is_debug : Bool) (k : Config) (a : Answers)
    → Told (connect_on_current_thread k a (visited is_debug))
unfolding connect_on_current_thread handle
connected-Told is_debug k a =
    let fresh = new_client k in
    record {
      client = connect_client a fresh;
      is_there = refl;
      inv = connect_client-Inv a fresh (new_client-Inv k);
      news =
          relayed-News fresh (connect_client a fresh) (visited is_debug).user
            (told_since-handle Events.connect_called a fresh) (visited-News is_debug k);
    }

abbrev is_told_connected : Life → Bool
is_told_connected told_connected = true
is_told_connected _ = false

abbrev is_told_failed : Life → Bool
is_told_failed told_failed = true
is_told_failed _ = false

life_counts :
    (vs : List State.VisitorCall)
    → (count_if is_told_connected (life vs) ≡ count_if is_on_connected vs)
      × (count_if is_told_failed (life vs) ≡ count_if is_on_connection_failed vs)
life_counts [] = (refl, refl)
life_counts (State.on_connected ∷ vs) = ground (arith, life_counts vs)
life_counts (State.on_connection_failed e ∷ vs) = ground (arith, life_counts vs)
life_counts (State.on_closed i ∷ vs) = ground (arith, life_counts vs)
life_counts (State.on_error e ∷ vs) = ground (arith, life_counts vs)
life_counts (v ∷ vs) = life_counts vs

legal_counts :
    (state : State.WebTransportState) (told : List Life)
    → is_legal state told ≡ true
    → count_if is_told_connected told + count_if is_told_failed told ≤ 1
legal_counts state [] e = omega arith
legal_counts state (told ∷ []) e = ground arith
legal_counts state (told ∷ later ∷ []) e = ground arith
legal_counts state (told ∷ later ∷ last ∷ rest) e = ground arith

one_outcome :
    (c : State.Client)
    → Inv c
    → (not (c.violations == 0) || leb (connected_calls c + failed_calls c) 1) ≡ true
one_outcome c v =
    let (connected, failed) = life_counts c.visitor_calls in
    ground (arith, v.legal, connected, failed, legal_counts c.state (life c.visitor_calls))

-- After Connect with a visitor, whatever happens on the IO thread, whatever tasks the event thread
-- runs and whatever streams are opened: of each OnConnected and each OnConnectionFailed that the
-- HTTP/3 client tells, the visitor has heard exactly once or a posted task is going to tell it, and of
-- nothing else. OnConnected is told at most once, and as long as no DCHECK has failed, the two
-- together are.
pub user_hears_connection :
    (is_debug : Bool) (k : Config) (a : Answers) (es : List Event)
    → let s = run es (connect_on_current_thread k a (visited is_debug)) in
      (c : State.Client) × (s.client ≡ some c)
      × (connected_heard s.user + connected_waiting s.user ≡ connected_calls c)
      × (failed_heard s.user + failed_waiting s.user ≡ failed_calls c)
      × (connected_calls c ≤ 1)
      × ((not (c.violations == 0) || leb (connected_calls c + failed_calls c) 1) ≡ true)
user_hears_connection is_debug k a es =
    let t = run-Told es _ (connected-Told is_debug k a) in
    (
      t.client,
      t.is_there,
      t.news.connected_news,
      t.news.failed_news,
      t.inv.once,
      one_outcome t.client t.inv,
    )
