-- ===== src/Raw/ClientImpl/Sending.antt =====
-- What the calls of the raw client send.
use owt_sdk_quic.Prelude.{
  ℕ, ◌≡◌, refl, ◌∙◌, ap, sym, Bool, true, some, List, [], ◌∷◌, ◌++◌, if◌then◌else◌, take, arith,
}
use mathlib.Core.List.{append_assoc, append-nil}
use owt_sdk_quic.Raw.ClientImpl.{
  Stream, Task, send_on_stream_task, quit_task, Sent, ClientImpl, InitAnswers, new_client, start,
  init_and_run, stop, send_to, send, send_on_stream, loop_ended, run_loop, Call, calls_stop,
  calls_send, calls_send_to, call, calls,
}

abbrev pub message : ℕ → List ℕ → ℕ → Sent
message stream_id memory len = record { stream_id = stream_id; content = take len memory }

-- What the calls send up to the first stop, where the client's own stream is the one given.
abbrev pub messages : (ℕ → Bool) → Stream → List Call → List Sent
messages has_stream own [] = []
messages has_stream own (calls_stop ∷ ks) = []
messages has_stream own (calls_send memory len ∷ ks) =
    let rest = messages has_stream own ks in
    if has_stream own.id then message own.id memory len ∷ rest else rest
messages has_stream own (calls_send_to stream_id memory len ∷ ks) =
    let rest = messages has_stream own ks in
    if has_stream stream_id then message stream_id memory len ∷ rest else rest

abbrev task_of : Stream → Call → Task
task_of own calls_stop = quit_task
task_of own (calls_send memory len) = send_on_stream_task own.id (take len memory)
task_of own (calls_send_to stream_id memory len) = send_on_stream_task stream_id (take len memory)

abbrev tasks_of : Stream → List Call → List Task
tasks_of own [] = []
tasks_of own (k ∷ ks) = task_of own k ∷ tasks_of own ks

call-tasks :
    (own : Stream) (k : Call) (c : ClientImpl)
    → c.has_message_loop ≡ true
    → c.stream ≡ some own
    → call k c ≡ record c { tasks = c.tasks ++ task_of own k ∷ [] }
unfolding call stop send_to send
call-tasks own calls_stop c running e = ground (arith, running)
call-tasks own (calls_send memory len) c running e = ground (arith, running, e)
call-tasks own (calls_send_to stream_id memory len) c running e = ground (arith, running)

calls-tasks :
    (own : Stream) (ks : List Call) (c : ClientImpl)
    → c.has_message_loop ≡ true
    → c.stream ≡ some own
    → calls ks c ≡ record c { tasks = c.tasks ++ tasks_of own ks }
unfolding calls
calls-tasks own [] c running e = ap (λ ts. record c { tasks = ts }) (sym (append-nil c.tasks))
calls-tasks own (k ∷ ks) c running e =
    ap (calls ks) (call-tasks own k c running e)
    ∙ calls-tasks own ks (record c { tasks = c.tasks ++ task_of own k ∷ [] }) running e
    ∙ ap (λ ts. record c { tasks = ts })
        (append_assoc c.tasks (task_of own k ∷ []) (tasks_of own ks))

run_loop-messages :
    (has_stream : ℕ → Bool) (own : Stream) (ks : List Call) (c : ClientImpl)
    → (run_loop has_stream (tasks_of own ks) c).sent ≡ c.sent ++ messages has_stream own ks
unfolding run_loop loop_ended send_on_stream
run_loop-messages has_stream own [] c = sym (append-nil c.sent)
run_loop-messages has_stream own (calls_stop ∷ ks) c = sym (append-nil c.sent)
run_loop-messages has_stream own (calls_send memory len ∷ ks) c = ground (
  arith,
  run_loop-messages has_stream own ks (send_on_stream has_stream own.id (take len memory) c),
  append_assoc c.sent (message own.id memory len ∷ []) (messages has_stream own ks),
)
run_loop-messages has_stream own (calls_send_to stream_id memory len ∷ ks) c = ground (
  arith,
  run_loop-messages has_stream own ks (send_on_stream has_stream stream_id (take len memory) c),
  append_assoc c.sent (message stream_id memory len ∷ []) (messages has_stream own ks),
)

abbrev pub all_succeed : Stream → InitAnswers
all_succeed own = record {
  has_address = true;
  initialize = true;
  connect = true;
  stream = some own;
}

-- After a start that succeeds, with a stream of the client's own: the loop sends the messages of any
-- calls in their order, each with as many bytes as its length says, zeros among them too, on the
-- client's own stream where none is named, and none that follow the first stop; messages for a
-- stream that the session does not have are left out.
pub started_client_sends :
    (has_stream : ℕ → Bool) (own : Stream) (ks : List Call)
    → let c = init_and_run (all_succeed own) (start new_client).1 in
      (run_loop has_stream (calls ks c).tasks (calls ks c)).sent ≡ messages has_stream own ks
unfolding init_and_run start new_client
started_client_sends has_stream own ks =
    let c = init_and_run (all_succeed own) (start new_client).1 in
    ap (λ t. (run_loop has_stream t.tasks t).sent) (calls-tasks own ks c refl refl)
    ∙ run_loop-messages has_stream own ks (record c { tasks = tasks_of own ks })
