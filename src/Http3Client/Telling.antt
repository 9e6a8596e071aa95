-- ===== src/Http3Client/Telling.antt =====
-- What the client tells its visitor is only ever added to.
use owt_sdk_quic.Prelude.{
  ◌-◌, ◌≡◌, refl, sym, ap, ◌∙◌, List, [], ◌∷◌, ◌++◌, length, take, length-append,
  take-append_length, if_elim, arith,
}
use owt_sdk_quic.Net.{NetError, QuicErrorCode}
use owt_sdk_quic.Http3Client.State.{
  Client, WebTransportState, new, connecting, connected, closed, failed, VisitorCall, state_eq,
  emit, Details, transition_to_state, set_error_with,
}
use owt_sdk_quic.Http3Client.Connect.{Answers}
use owt_sdk_quic.Http3Client.Events.{Event, handle}
use owt_sdk_quic.Http3Client.Preserving.{handle-Holds}

-- The client has told its visitor what was told before, and then some more; newest first.
pub record HasTold (before : List VisitorCall) (c : Client) : Type 0 where
  pub since : List VisitorCall
  pub calls : c.visitor_calls ≡ since ++ before

-- What was told since.
unfoldable pub told_since : Client → Client → List VisitorCall
told_since c d = take (length d.visitor_calls - length c.visitor_calls) d.visitor_calls

module _ (before : List VisitorCall) where
  emit-HasTold : (v : VisitorCall) (c : Client) → HasTold before c → HasTold before (emit v c)
  emit-HasTold v c h = record { since = v ∷ h.since; calls = ap (λ vs. v ∷ vs) h.calls }

  transition-HasTold :
      (s : WebTransportState) (c : Client)
      → HasTold before c
      → HasTold before (transition_to_state s c)
  unfolding transition_to_state
  transition-HasTold new c h = record { since = h.since; calls = h.calls }
  transition-HasTold connecting c h = record { since = h.since; calls = h.calls }
  transition-HasTold connected c h = emit-HasTold _ _ (record { since = h.since; calls = h.calls })
  transition-HasTold closed c h = emit-HasTold _ _ (record { since = h.since; calls = h.calls })
  transition-HasTold failed c h =
      if_elim (HasTold before) (state_eq c.state connecting)
        (λ _. emit-HasTold _ _ (record { since = h.since; calls = h.calls }))
        (λ _. emit-HasTold _ _ (record { since = h.since; calls = h.calls }))

  set_error_with-HasTold :
      (e : NetError) (q : QuicErrorCode) (d : Details) (c : Client)
      → HasTold before c
      → HasTold before (set_error_with e q d c)
  unfolding set_error_with
  set_error_with-HasTold e q d c h = record { since = h.since; calls = ground arith }

  handle-HasTold :
      (e : Event) (a : Answers) (c : Client) → HasTold before c → HasTold before (handle e a c)
  handle-HasTold =
      handle-Holds (HasTold before)
        (λ c d error calls h. record { since = h.since; calls = calls ∙ h.calls })
        transition-HasTold set_error_with-HasTold emit-HasTold

take-since :
    (since before : List VisitorCall)
    → take (length (since ++ before) - length before) (since ++ before) ≡ since
take-since since before =
    let size : length (since ++ before) - length before ≡ length since =
      omega (arith, length-append since before) in
    rw size (take-append_length since before)

pub told_since-of :
    (since : List VisitorCall) (c d : Client)
    → d.visitor_calls ≡ since ++ c.visitor_calls
    → told_since c d ≡ since
unfolding told_since
told_since-of since c d e = rw e (take-since since c.visitor_calls)

-- What the client tells in a call or callback is put in front of what it told before.
pub told_since-handle :
    (e : Event) (a : Answers) (c : Client)
    → (handle e a c).visitor_calls ≡ told_since c (handle e a c) ++ c.visitor_calls
told_since-handle e a c =
    let h = handle-HasTold c.visitor_calls e a c (record { since = []; calls = refl }) in
    h.calls ∙ ap (λ vs. vs ++ c.visitor_calls) (sym (told_since-of h.since c _ h.calls))
