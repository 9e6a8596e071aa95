-- ===== src/Http3Client/Verifier.antt =====
-- CreateProofVerifier of web_transport/sdk/impl/web_transport_http3_client.cc: which server
-- certificates a client of the WebTransport API takes.
use owt_sdk_quic.Prelude.{ℕ, List, [], ◌∷◌, if◌then◌else◌}
use owt_sdk_quic.Fingerprints.{Verifiers}

-- The verifier that a client has: a ProofVerifierChromium, or one of quiche's with fingerprints.
pub data ProofVerifier (Chromium Verifier : Type 0) : Type 0 where
  proof_verifier_chromium : Chromium → ProofVerifier Chromium Verifier
  fingerprint_verifier : Verifier → ProofVerifier Chromium Verifier

module _ {Verifier : Type 0} (quiche : Verifiers Verifier) where
  -- The loop of CreateProofVerifier, with the verifier and the fingerprints whose addition failed and
  -- was logged, newest first.
  unfoldable pub add_each : List (List ℕ) → Verifier → List (List ℕ) → Verifier × List (List ℕ)
  add_each [] verifier logged = (verifier, logged)
  add_each (fingerprint ∷ rest) verifier logged =
      let (success, verifier') = quiche.add_fingerprint fingerprint verifier in
      add_each rest verifier' (if success then logged else fingerprint ∷ logged)

  -- CreateProofVerifier, for the verifier that the context makes for the origin, and the fingerprints
  -- of the parameters.
  unfoldable pub create_proof_verifier :
      {Chromium : Type 0}
      → Chromium
      → List (List ℕ)
      → ProofVerifier Chromium Verifier × List (List ℕ)
  unfolding add_each
  create_proof_verifier chromium [] = (proof_verifier_chromium chromium, [])
  create_proof_verifier chromium (fingerprint ∷ rest) =
      let (verifier, logged) = add_each (fingerprint ∷ rest) quiche.new_verifier [] in
      (fingerprint_verifier verifier, logged)
