-- ===== src/ServerStream/Responses.antt =====
-- What a request is answered with.
use owt_sdk_quic.Prelude.{
  ◌≡◌, ◌↔◌, Bool, true, false, ◌&&◌, List, [], ◌∷◌, ◌++◌, if◌then◌else◌, arith, length,
}
use owt_sdk_quic.ServerStream.{
  Request, Response, success, error, new_stream, is_connect, on_initial_headers_complete,
}

abbrev pub when_not : Bool → Response → List Response
when_not true r = []
when_not false r = r ∷ []

-- The answers to a request, newest first: 400 where its headers are not valid, 405 where it is no
-- CONNECT, and then in every case 200 or, without a WebTransport session, 500. So a request gets a
-- single answer exactly when it is valid and a CONNECT; but the backend gets the session of every
-- request that has one, also of a refused one.
pub responses_lem :
    (r : Request)
    → let answered = on_initial_headers_complete r new_stream in
      let answers = answered.responses in
      (answers
        ≡ (if r.has_web_transport then success 200 else error 500)
            ∷ when_not (is_connect r) (error 405)
          ++ when_not r.is_valid (error 400))
      × ((length answers ≡ 1) ↔ ((r.is_valid && is_connect r) ≡ true))
      × (answered.sessions_ready ≡ (if r.has_web_transport then 1 else 0))
unfolding on_initial_headers_complete new_stream
responses_lem r = ground arith
