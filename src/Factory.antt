-- ===== src/Factory.antt =====
-- quic_transport/sdk/impl/quic_transport_factory_impl.cc: the fingerprints that the factory reads
-- and the clients and servers that it makes.
pub mod Making
use owt_sdk_quic.Prelude.{
  ℕ, Bool, false, not, Option, none, some, List, [], ◌∷◌, ◌++◌, ◌==◌, if◌then◌else◌,
}
use owt_sdk_quic.Streams.{Outcome, finished, post_and_wait, pointer_to}
use owt_sdk_quic.Transport.Server as Server

-- The ASCII code of ','.
abbrev pub comma : ℕ
comma = 44

-- What std::getline reads: up to the delimiter, which it takes away, or to the end; nothing more
-- where the stream is at its end. `piece` holds what it has read so far.
abbrev pub lines_from : List ℕ → List ℕ → List (List ℕ)
lines_from piece [] = piece ∷ []
lines_from piece (c ∷ cs) =
    let same = lines_from (piece ++ c ∷ []) cs in
    let next = lines_from [] cs in
    if c == comma then (elim cs [ [] ↦ piece ∷ [] | d ∷ ds ↦ piece ∷ next ]) else same

abbrev pub lines : List ℕ → List (List ℕ)
lines [] = []
lines (c ∷ cs) = lines_from [] (c ∷ cs)

-- Init, for the value of QUIC_SERVER_FINGERPRINTS, if it is set: the fingerprints it adds.
unfoldable pub init : Option (List ℕ) → List (List ℕ) → List (List ℕ)
init none fingerprints = fingerprints
init (some str) fingerprints = fingerprints ++ lines str

-- A client as the factory makes it: the server's address and port, the host of the server ID and
-- the fingerprints.
pub record Client : Type 0 where
  pub address : ℕ
  pub port : ℕ
  pub host : List ℕ
  pub fingerprints : List (List ℕ)

-- The task of CreateQuicTransportClient on the IO thread: none where it ends without its signal.
-- The host is an address, or is resolved to one.
unfoldable pub create_client_task : Option ℕ → Option ℕ → List ℕ → ℕ → List (List ℕ) → Option Client
create_client_task (some address) resolved host port fingerprints =
    some (record { address = address; port = port; host = host; fingerprints = fingerprints })
create_client_task none (some address) host port fingerprints =
    some (record { address = address; port = port; host = host; fingerprints = fingerprints })
create_client_task none none host port fingerprints = none

-- CreateQuicTransportClient, called on the IO thread or on another one.
unfoldable pub create_quic_transport_client :
    Bool → Option ℕ → Option ℕ → List ℕ → ℕ → List (List ℕ) → Outcome Client
unfolding post_and_wait create_client_task
create_quic_transport_client on_io_thread parsed resolved host port fingerprints =
    post_and_wait on_io_thread (create_client_task parsed resolved host port fingerprints)

-- A server as the factory makes it, from a port and a proof source.
pub record MadeServer (Source : Type 0) : Type 0 where
  pub port : ℕ
  pub proof_source : Source
  pub server : Server.Server

-- CreateQuicTransportServerOnIOThread, called on the IO thread or on another one.
unfoldable pub create_quic_transport_server_on_io_thread :
    {Source : Type 0} → Bool → ℕ → Source → Outcome (MadeServer Source)
unfolding post_and_wait
create_quic_transport_server_on_io_thread on_io_thread port proof_source =
    post_and_wait on_io_thread
      (some (record { port = port; proof_source = proof_source; server = Server.new_server false }))

-- CreateQuicTransportServer with a certificate and a key, or with a PKCS12 file: what Initialize of
-- the new proof source returns, and the source.
unfoldable pub create_quic_transport_server :
    {Source : Type 0} → Bool → ℕ → Bool × Source → Outcome (Option (MadeServer Source))
unfolding create_quic_transport_server_on_io_thread
create_quic_transport_server on_io_thread port (initialized, proof_source) =
    if not initialized
    then finished none
    else pointer_to (create_quic_transport_server_on_io_thread on_io_thread port proof_source)
