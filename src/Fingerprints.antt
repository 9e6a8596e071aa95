-- ===== src/Fingerprints.antt =====
-- Certificates that are known by their fingerprints, as quiche's verifier keeps them for the clients of
-- web_transport/sdk/impl/web_transport_http3_client.cc and
-- quic_transport/sdk/impl/quic_transport_owt_client_impl.cc.
use owt_sdk_quic.Prelude.{ℕ, ◌≡◌, Bool, List, [], ◌∷◌, ◌++◌, if◌then◌else◌}

-- WebTransportFingerprintProofVerifier: a new one, AddFingerprint with what it returns, the
-- fingerprints that it then compares certificates with, and which of them it accepts as fingerprints.
pub record Verifiers (Verifier : Type 0) : Type 0 where
  pub new_verifier : Verifier
  pub add_fingerprint : List ℕ → Verifier → Bool × Verifier
  pub fingerprints : Verifier → List (List ℕ)
  pub is_fingerprint : List ℕ → Bool
  pub fingerprints-new_verifier : fingerprints new_verifier ≡ []
  pub fingerprints-add_fingerprint :
      (f : List ℕ) (v : Verifier)
      → fingerprints (add_fingerprint f v).1
        ≡ (if is_fingerprint f then fingerprints v ++ f ∷ [] else fingerprints v)
