-- ===== src/Http3Client/Errors.antt =====
-- The error of WebTransportHttp3Client is set once.
use owt_sdk_quic.Prelude.{◌≡◌, ◌∙◌, some, List, [], ◌∷◌, arith}
use owt_sdk_quic.Net.{NetError, QuicErrorCode}
use owt_sdk_quic.Http3Client.State.{
  Client, WebTransportState, Details, WebTransportError, transition_to_state, set_error_with,
}
use owt_sdk_quic.Http3Client.Connect.{Answers}
use owt_sdk_quic.Http3Client.Events.{Event, handle, run}
use owt_sdk_quic.Http3Client.Preserving.{handle-Holds}

-- The client holds the error `w`.
record HoldsError (w : WebTransportError) (c : Client) : Type 0 where
  kept : c.error ≡ some w

module _ (w : WebTransportError) where
  transition-HoldsError :
      (s : WebTransportState) (c : Client) → HoldsError w c → HoldsError w (transition_to_state s c)
  unfolding transition_to_state
  transition-HoldsError s c h = ground arith

  set_error_with-HoldsError :
      (e : NetError) (q : QuicErrorCode) (d : Details) (c : Client)
      → HoldsError w c
      → HoldsError w (set_error_with e q d c)
  unfolding set_error_with
  set_error_with-HoldsError e q d c h = ground arith

  handle-HoldsError :
      (e : Event) (a : Answers) (c : Client) → HoldsError w c → HoldsError w (handle e a c)
  handle-HoldsError =
      handle-Holds (HoldsError w) (λ c d error calls h. record { kept = error ∙ h.kept })
        transition-HoldsError set_error_with-HoldsError (λ v c h. record { kept = h.kept })

  -- The first error is the one that is kept: no call, callback or posted task replaces it.
  pub run_first_error :
      (es : List (Event × Answers)) (c : Client) → c.error ≡ some w → (run es c).error ≡ some w
  unfolding run
  run_first_error [] c h = h
  run_first_error ((e, a) ∷ es) c h =
      run_first_error es (handle e a c) (handle-HoldsError e a c (record { kept = h })).kept
