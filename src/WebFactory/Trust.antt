-- ===== src/WebFactory/Trust.antt =====
-- Which certificates a client of either API takes.
use owt_sdk_quic.Prelude.{
  ℕ, zero, suc, ◌≤◌, ◌≡◌, refl, ap, sym, Bool, false, Option, none, some, List, [], ◌∷◌, take,
  length, arith, if◌then◌else◌, ◌==◌, keep_if,
}
use owt_sdk_quic.Streams.{finished}
use owt_sdk_quic.Fingerprints.{Verifiers}
use owt_sdk_quic.WebClient.Connection.{new_connection}
use owt_sdk_quic.WebFactory.{MadeClient, create_web_transport_client_with}
use owt_sdk_quic.WebFactory.Clients.{client_gets_fingerprints}
use owt_sdk_quic.Http3Client.Verifier.{
  ProofVerifier, proof_verifier_chromium, fingerprint_verifier, add_each, create_proof_verifier,
}
use owt_sdk_quic.Transport.Verifier as Transport
use owt_sdk_quic.Transport.Verifier.Environment.{created_goes_by}

module _ {Chromium Verifier : Type 0} (quiche : Verifiers Verifier) (chromium : Chromium) where
  -- The fingerprints that a verifier goes by; none where Chromium verifies the chain.
  abbrev pub goes_by : ProofVerifier Chromium Verifier → Option (List (List ℕ))
  goes_by (proof_verifier_chromium c) = none
  goes_by (fingerprint_verifier v) = some (quiche.fingerprints v)

  same_loops :
      (fs : List (List ℕ)) (v : Verifier) (logged : List (List ℕ))
      → add_each quiche fs v logged ≡ Transport.add_all quiche fs v logged
  unfolding add_each Transport.add_all
  same_loops [] v logged = refl
  same_loops (f ∷ fs) v logged =
      let (success, v') = quiche.add_fingerprint f v in
      same_loops fs v' (if success then logged else f ∷ logged)

  goes_by-created :
      (f : List ℕ) (fs : List (List ℕ))
      → goes_by (create_proof_verifier quiche chromium (f ∷ fs)).0
        ≡ some (quiche.fingerprints (Transport.create_proof_verifier quiche (f ∷ fs)).0)
  unfolding create_proof_verifier Transport.create_proof_verifier
  goes_by-created f fs =
      ap (λ (r : Verifier × List (List ℕ)). some (quiche.fingerprints r.0))
        (same_loops (f ∷ fs) quiche.new_verifier [])

  goes_by-take :
      (size : ℕ) (fs : List (List ℕ))
      → size ≤ length fs
      → goes_by (create_proof_verifier quiche chromium (take size fs)).0 ≡ (
          if size == 0
          then none
          else some (quiche.fingerprints (Transport.create_proof_verifier quiche (take size fs)).0))
  unfolding create_proof_verifier
  goes_by-take zero fs fits = refl
  goes_by-take (suc size) [] fits = absurd (omega (arith, fits))
  goes_by-take (suc size) (f ∷ fs) fits =
      let some_left : (suc size == 0) ≡ false = ground arith in
      rw some_left (goes_by-created f (take size fs))

  -- A client of the WebTransport API that the factory makes from another thread than the IO thread,
  -- with an array of fingerprints and a length that the array has: with the length 0 Chromium verifies
  -- its servers. Otherwise the client goes by the fingerprints that quiche accepts of that many, in
  -- their order, even if those are none, just as a client of the QUIC transport API with the same
  -- fingerprints does; but the latter goes by no fingerprint at all where the length is 0.
  pub made_client_trusts :
      (is_debug : Bool) (url : List ℕ) (size : ℕ) (fingerprints : List (List ℕ))
      → size ≤ length fingerprints
      → let given = take size fingerprints in
        let accepted = keep_if quiche.is_fingerprint given in
        (c : MadeClient) × (create_web_transport_client_with is_debug false url size fingerprints
          ≡ some (finished c))
        × (goes_by (create_proof_verifier quiche chromium c.fingerprints).0
            ≡ (if size == 0 then none else some accepted))
        × (quiche.fingerprints (Transport.create_proof_verifier quiche given).0 ≡ accepted)
  made_client_trusts is_debug url size fingerprints fits =
      let given = take size fingerprints in
      let made : MadeClient = record {
        url = url;
        fingerprints = given;
        connection = new_connection is_debug;
      } in
      let e = client_gets_fingerprints is_debug url size fingerprints in
      let agrees = created_goes_by quiche given in
      (made, ground (arith, fits, e), rw (sym agrees) (goes_by-take size fingerprints fits), agrees)
