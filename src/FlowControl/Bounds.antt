-- ===== src/FlowControl/Bounds.antt =====
-- The windows after Initialize.
use owt_sdk_quic.Prelude.{ℕ, ◌≤◌, ◌<◌, ◌≡◌, ◌≢◌, refl, ◌==◌, if◌then◌else◌, arith}
use owt_sdk_quic.FlowControl.{Windows}
use owt_sdk_quic.FlowControl.Raw as Raw
use owt_sdk_quic.FlowControl.Transport as Transport

module _ {Config : Type 0} (quiche : Windows Config) (small : quiche.minimum < 65536) where
  same_initialize : (c : Config) → Transport.initialize quiche c ≡ Raw.initialize quiche c
  unfolding Transport.initialize Raw.initialize
  same_initialize c = refl

  -- The windows of a configuration are these.
  record Has (stream session : ℕ) (c : Config) : Type 0 where
    stream_is : quiche.stream_window c ≡ stream
    session_is : quiche.session_window c ≡ session

  -- The window that Initialize leaves, for one that it finds and its own.
  abbrev pub window_after : ℕ → ℕ → ℕ
  window_after default found = if found == quiche.minimum then default else found

  initialize-Has :
      (c : Config) (stream session : ℕ)
      → Has stream session c
      → Has (window_after 65536 stream) (window_after 1048576 session) (Raw.initialize quiche c)
  unfolding Raw.initialize
  initialize-Has c stream session h =
      let c' = quiche.set_stream_window 65536 c in
      ground (
        arith,
        small,
        h.stream_is,
        h.session_is,
        quiche.stream_window-set_stream_window 65536 c,
        quiche.session_window-set_stream_window 65536 c,
        quiche.session_window-set_session_window 1048576 c,
        quiche.session_window-set_session_window 1048576 c',
        quiche.stream_window-set_session_window 1048576 c,
        quiche.stream_window-set_session_window 1048576 c',
      )

  -- Where quiche's minimum is below 64 KB: Initialize of either server leaves a window that is not the
  -- minimum as it is, and makes one that is the minimum 64 KB for a stream and 1 MB for the session. So
  -- no window of the minimum is left, none has shrunk, and a second Initialize changes no window.
  pub windows_are_set :
      (c : Config)
      → let d = Raw.initialize quiche c in
        let stream = window_after 65536 (quiche.stream_window c) in
        let session = window_after 1048576 (quiche.session_window c) in
        (Transport.initialize quiche c ≡ d)
        × (quiche.stream_window d ≡ stream)
        × (quiche.session_window d ≡ session)
        × (stream ≢ quiche.minimum)
        × (session ≢ quiche.minimum)
        × (quiche.stream_window c ≤ quiche.stream_window d)
        × (quiche.session_window c ≤ quiche.session_window d)
        × (quiche.stream_window (Raw.initialize quiche d) ≡ quiche.stream_window d)
        × (quiche.session_window (Raw.initialize quiche d) ≡ quiche.session_window d)
  windows_are_set c =
      let d = Raw.initialize quiche c in
      let h = initialize-Has c _ _ (record { stream_is = refl; session_is = refl }) in
      let again = initialize-Has d _ _ (record { stream_is = refl; session_is = refl }) in
      (
        same_initialize c,
        h.stream_is,
        h.session_is,
        ground (arith, small),
        ground (arith, small),
        ground (arith, small, h.stream_is),
        ground (arith, small, h.session_is),
        ground (arith, small, h.stream_is, again.stream_is),
        ground (arith, small, h.session_is, again.session_is),
      )
