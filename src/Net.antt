-- ===== src/Net.antt =====
-- Vocabulary of net/ and quiche that the sources compare and pass on, and
-- web_transport/sdk/impl/utilities.cc. Codes are told apart by the names that the sources use; a
-- code that they never name is `other` with a number that stands for it.
use owt_sdk_quic.Prelude.{ℕ, zero, suc, Bool, true, false, Option, none, some}

-- The `int` of net/base/net_errors.h: OK, and the negative codes.
pub data NetError : Type 0 where
  ok io_pending failed timed_out not_implemented connection_closed : NetError
  tunnel_connection_failed invalid_url disallowed_url_scheme unsafe_port : NetError
  method_not_supported quic_protocol_error : NetError
  other : ℕ → NetError

abbrev pub is_ok : NetError → Bool
is_ok ok = true
is_ok _ = false

abbrev pub is_io_pending : NetError → Bool
is_io_pending io_pending = true
is_io_pending _ = false

abbrev pub is_not_implemented : NetError → Bool
is_not_implemented not_implemented = true
is_not_implemented _ = false

pub data QuicErrorCode : Type 0 where
  no_error internal_error packet_read_error invalid_version : QuicErrorCode
  invalid_stream_id peer_going_away : QuicErrorCode
  other_error : ℕ → QuicErrorCode

abbrev pub is_no_error : QuicErrorCode → Bool
is_no_error no_error = true
is_no_error _ = false

abbrev pub is_invalid_version : QuicErrorCode → Bool
is_invalid_version invalid_version = true
is_invalid_version _ = false

-- ::quic::MessageStatus. `out_of_enum` stands for a value that no enumerator has.
pub data QuicMessageStatus : Type 0 where
  success encryption_not_established unsupported blocked too_large : QuicMessageStatus
  internal_message_error out_of_enum : QuicMessageStatus

-- owt::quic::MessageStatus.
pub data MessageStatus : Type 0 where
  k_success k_encryption_not_established k_unsupported k_blocked k_too_large : MessageStatus
  k_internal_error k_unavailable : MessageStatus

-- Utilities::ConvertMessageStatus
unfoldable pub convert_message_status : Option QuicMessageStatus → MessageStatus
convert_message_status none = k_unavailable
convert_message_status (some success) = k_success
convert_message_status (some encryption_not_established) = k_encryption_not_established
convert_message_status (some unsupported) = k_unsupported
convert_message_status (some blocked) = k_blocked
convert_message_status (some too_large) = k_too_large
convert_message_status (some internal_message_error) = k_internal_error
convert_message_status (some out_of_enum) = k_unavailable

-- The `int` that RecvFrom returns or its callback gets: a size, or a code below 0.
pub data ReadResult : Type 0 where
  bytes : ℕ → ReadResult
  code : NetError → ReadResult

abbrev pub is_pending : ReadResult → Bool
is_pending (bytes n) = false
is_pending (code e) = is_io_pending e

-- A packet: a size above 0. Both read loops take the size 0 for ERR_CONNECTION_CLOSED.
abbrev pub is_packet : ReadResult → Bool
is_packet (bytes zero) = false
is_packet (bytes (suc n)) = true
is_packet (code e) = false
