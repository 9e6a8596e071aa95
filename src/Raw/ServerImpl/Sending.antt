-- ===== src/Raw/ServerImpl/Sending.antt =====
-- What `send` and `stop` hand to the server's loop.
use owt_sdk_quic.Prelude.{ℕ, ◌≡◌, refl, none, some, List, [], ◌∷◌, ◌++◌, if◌then◌else◌, arith}
use owt_sdk_quic.Raw.ServerImpl.{ServerImpl, send_on_session_task, c_string, send_to, send}

-- A message's bytes without the first 0 and what follows it stay as they are.
pub c_string-cut : (bs rest : List ℕ) → c_string (c_string bs ++ 0 ∷ rest) ≡ c_string bs
c_string-cut [] rest = refl
c_string-cut (b ∷ bs) rest = ground (arith, c_string-cut bs rest)

-- What a send hands to the loop does not depend on the length it is given: with any two lengths the
-- state is the same, a message that holds a byte 0 is cut there, whatever bytes follow it, and what
-- goes out is for the session with the ID 0 when no session is named. Without a loop nothing is
-- handed over.
pub send_ignores_length :
    (s : ServerImpl) (session_id stream_id len len' : ℕ) (bs rest : List ℕ)
    → (send_to session_id stream_id bs len s ≡ send_to session_id stream_id bs len' s)
      × (send_to session_id stream_id (c_string bs ++ 0 ∷ rest) len s
          ≡ send_to session_id stream_id bs len' s)
      × ((send bs len s).tasks ≡ elim s.stream [
        | none ↦ s.tasks
        | some t ↦
            if s.has_message_loop
            then s.tasks ++ send_on_session_task 0 t.id (c_string bs) ∷ []
            else s.tasks
      ])
unfolding send_to send
send_ignores_length s session_id stream_id len len' bs rest =
    (refl, rw (c_string-cut bs rest) refl, ground arith)
