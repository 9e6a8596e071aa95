-- ===== src/Transport/Verifier.antt =====
-- CreateProofVerifier of quic_transport/sdk/impl/quic_transport_owt_client_impl.cc: which server
-- certificates a client of the QUIC transport API takes.
pub mod Environment
use owt_sdk_quic.Prelude.{ℕ, List, [], ◌∷◌, if◌then◌else◌}
use owt_sdk_quic.Fingerprints.{Verifiers}

module _ {Verifier : Type 0} (quiche : Verifiers Verifier) where
  -- The loop of CreateProofVerifier, with the verifier and the fingerprints whose addition failed and
  -- was logged, newest first.
  unfoldable pub add_all : List (List ℕ) → Verifier → List (List ℕ) → Verifier × List (List ℕ)
  add_all [] verifier logged = (verifier, logged)
  add_all (fingerprint ∷ rest) verifier logged =
      let (success, verifier') = quiche.add_fingerprint fingerprint verifier in
      add_all rest verifier' (if success then logged else fingerprint ∷ logged)

  unfoldable pub create_proof_verifier : List (List ℕ) → Verifier × List (List ℕ)
  unfolding add_all
  create_proof_verifier server_certificate_fingerprints =
      add_all server_certificate_fingerprints quiche.new_verifier []
