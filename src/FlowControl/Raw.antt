-- ===== src/FlowControl/Raw.antt =====
-- Initialize of quic_io/src/quic_raw_server.cc.
use owt_sdk_quic.Prelude.{ℕ, ◌*◌, ◌==◌, if◌then◌else◌}
use owt_sdk_quic.FlowControl.{Windows}

-- kInitialSessionFlowControlWindow and kInitialStreamFlowControlWindow
abbrev pub initial_session_window : ℕ
initial_session_window = 1 * 1024 * 1024

abbrev pub initial_stream_window : ℕ
initial_stream_window = 64 * 1024

module _ {Config : Type 0} (quiche : Windows Config) where
  unfoldable pub initialize : Config → Config
  initialize c =
      let c' =
        if quiche.stream_window c == quiche.minimum
        then quiche.set_stream_window initial_stream_window c
        else c in
      if quiche.session_window c' == quiche.minimum
      then quiche.set_session_window initial_session_window c'
      else c'
