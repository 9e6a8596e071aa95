-- ===== src/FlowControl.antt =====
-- The flow control windows that the servers set: Initialize of quic_io/src/quic_raw_server.cc and of
-- quic_transport/sdk/impl/quic_transport_owt_server_impl.cc, over quiche's QuicConfig.
pub mod Raw
pub mod Transport
pub mod Bounds
use owt_sdk_quic.Prelude.{ℕ, ◌≤◌, ◌≡◌}

-- The initial windows to send of a QuicConfig, for a stream and for the session, and
-- kMinimumFlowControlSendWindow. A window that is not below it can be set.
pub record Windows (Config : Type 0) : Type 0 where
  pub minimum : ℕ
  pub stream_window : Config → ℕ
  pub session_window : Config → ℕ
  pub set_stream_window : ℕ → Config → Config
  pub set_session_window : ℕ → Config → Config
  pub stream_window-set_stream_window :
      (n : ℕ) (c : Config) → minimum ≤ n → stream_window (set_stream_window n c) ≡ n
  pub session_window-set_session_window :
      (n : ℕ) (c : Config) → minimum ≤ n → session_window (set_session_window n c) ≡ n
  pub session_window-set_stream_window :
      (n : ℕ) (c : Config) → session_window (set_stream_window n c) ≡ session_window c
  pub stream_window-set_session_window :
      (n : ℕ) (c : Config) → stream_window (set_session_window n c) ≡ stream_window c
