-- ===== src/WebFactory.antt =====
-- web_transport/sdk/impl/web_transport_factory_impl.cc: the making of servers, with the proof source of
-- a PKCS12 file or of PEM files, and of clients, with the fingerprints they are given.
pub mod Servers
pub mod Clients
pub mod Trust
use owt_sdk_quic.Prelude.{
  ℕ, zero, suc, Bool, not, Option, none, some, List, [], ◌∷◌, ◌++◌, get_elem?, if◌then◌else◌,
}
use owt_sdk_quic.Streams.{Outcome, finished, post_and_wait, pointer_to}
use owt_sdk_quic.ProofSource.{Certificates, ProofSource, new_proof_source, initialize}
use owt_sdk_quic.WebServer as WebServer
use owt_sdk_quic.WebClient.Connection as Connection

-- A WebTransportOwtServerImpl: its port, its proof source and its members.
pub record MadeServer (Source : Type 0) : Type 0 where
  pub port : ℕ
  pub proof_source : Source
  pub server : WebServer.Server

-- CreateWebTransportServerOnIOThread, called on the IO thread or on another one.
unfoldable pub create_web_transport_server_on_io_thread :
    {Source : Type 0} → Bool → ℕ → Source → Outcome (MadeServer Source)
unfolding post_and_wait
create_web_transport_server_on_io_thread on_io_thread port proof_source =
    post_and_wait on_io_thread
      (some (record { port = port; proof_source = proof_source; server = WebServer.new_server }))

-- CreateWebTransportServer with a certificate and a key, where the new ProofSourceChromium's Initialize
-- returns this.
unfoldable pub create_web_transport_server_from_pem :
    {Source : Type 0} → Bool → ℕ → Bool × Source → Outcome (Option (MadeServer Source))
unfolding create_web_transport_server_on_io_thread
create_web_transport_server_from_pem on_io_thread port (initialized, proof_source) =
    if not initialized
    then finished none
    else pointer_to (create_web_transport_server_on_io_thread on_io_thread port proof_source)

-- CreateWebTransportServer with a PKCS12 file, of which these bytes or none can be read.
unfoldable pub create_web_transport_server_from_pfx :
    {Key X509 Certificate : Type 0}
    → Certificates Key X509 Certificate
    → Bool
    → ℕ
    → Option (List ℕ)
    → List ℕ
    → Outcome (Option (MadeServer (ProofSource Key Certificate)))
unfolding create_web_transport_server_on_io_thread
create_web_transport_server_from_pfx lib on_io_thread port file password =
    let (initialized, proof_source) = initialize lib file password new_proof_source in
    if not initialized
    then finished none
    else pointer_to (create_web_transport_server_on_io_thread on_io_thread port proof_source)

-- The loop of CreateWebTransportClient, with the rounds left, `i` and what was copied; none where it
-- reads past the end of the array. The algorithm is kSha256 in each entry.
unfoldable pub copy_fingerprints : ℕ → ℕ → List (List ℕ) → List (List ℕ) → Option (List (List ℕ))
copy_fingerprints zero i fingerprints copied = some copied
copy_fingerprints (suc left) i fingerprints copied = elim (get_elem? fingerprints i) [
  | none ↦ none
  | some fingerprint ↦ copy_fingerprints left (suc i) fingerprints (copied ++ fingerprint ∷ [])
]

-- A WebTransportOwtClientImpl: its URL, the fingerprints of its parameters and its members.
pub record MadeClient : Type 0 where
  pub url : List ℕ
  pub fingerprints : List (List ℕ)
  pub connection : Connection.Connection

-- CreateWebTransportClient with parameters, for an array of fingerprints and the length that is given
-- for it; none where the loop reads past the array's end.
unfoldable pub create_web_transport_client_with :
    Bool → Bool → List ℕ → ℕ → List (List ℕ) → Option (Outcome MadeClient)
unfolding copy_fingerprints post_and_wait
create_web_transport_client_with is_debug on_io_thread url fingerprints_length fingerprints =
    elim (copy_fingerprints fingerprints_length 0 fingerprints []) [
      | none ↦ none
      | some copied ↦ some (
          post_and_wait on_io_thread (
            some (record {
              url = url;
              fingerprints = copied;
              connection = Connection.new_connection is_debug;
            })))
    ]

-- CreateWebTransportClient with a URL alone.
unfoldable pub create_web_transport_client : Bool → Bool → List ℕ → Option (Outcome MadeClient)
unfolding create_web_transport_client_with
create_web_transport_client is_debug on_io_thread url =
    create_web_transport_client_with is_debug on_io_thread url 0 []
