-- ===== src/Raw/Received.antt =====
-- What a raw server's stream receives, up to the user's listener: the OnDataAvailable of
-- quic_io/src/quic_raw_stream.cc with the RawServerImpl of quic_io/src/wrapper/quic_raw_lib.cc as the
-- stream's visitor, as OnIncomingStream sets it.
pub mod Heard
use owt_sdk_quic.Prelude.{ℕ, List, [], ◌∷◌}
use owt_sdk_quic.Sequencer.{Sequencer}
use owt_sdk_quic.Raw.Stream as RawStream
use owt_sdk_quic.Raw.ServerImpl as Impl
use owt_sdk_quic.Raw.ServerImpl.{ServerImpl}

-- OnData for each region in turn.
unfoldable pub hear : Impl.Stream → List (List ℕ) → ServerImpl → ServerImpl
hear t [] s = s
hear t (region ∷ regions) s = hear t regions (Impl.on_data t region s)

-- OnDataAvailable of the stream `t`, whose object is `stream`, with its calls of OnData.
unfoldable pub receive :
    {Q : Type 0} → Sequencer Q → ℕ → Impl.Stream → RawStream.Stream Q → ServerImpl → ServerImpl
unfolding hear
receive q fuel t stream s =
    hear t (RawStream.on_data_available q fuel (record stream { data_calls = [] })).data_calls s
