-- ===== src/Transport/Verifier/Environment.antt =====
-- From the environment to the certificates that a client takes.
use owt_sdk_quic.Prelude.{
  ℕ, ◌≡◌, refl, ◌∙◌, ap, sym, true, false, Option, some, List, [], ◌∷◌, ◌++◌, if◌then◌else◌,
  keep_if, keep_if-nil, keep_if-cons, arith,
}
use mathlib.Core.List.{append_assoc, append-nil}
use owt_sdk_quic.Streams.{finished, post_and_wait, all_of}
use owt_sdk_quic.Factory.{Client, init, create_client_task, create_quic_transport_client}
use owt_sdk_quic.Factory.Making.{joined, is_fingerprint, fingerprints_are_read}
use owt_sdk_quic.Fingerprints.{Verifiers}
use owt_sdk_quic.Transport.Verifier.{add_all, create_proof_verifier}

module _ {Verifier : Type 0} (quiche : Verifiers Verifier) where
  add_all-adds :
      (fs : List (List ℕ)) (v : Verifier) (logged : List (List ℕ))
      → quiche.fingerprints (add_all quiche fs v logged).0
        ≡ quiche.fingerprints v ++ keep_if quiche.is_fingerprint fs
  unfolding add_all
  add_all-adds [] v logged =
      rw (keep_if-nil quiche.is_fingerprint) (sym (append-nil (quiche.fingerprints v)))
  add_all-adds (f ∷ fs) v logged =
      let (success, v') = quiche.add_fingerprint f v in
      let later = add_all-adds fs v' (if success then logged else f ∷ logged) in
      ground (
        arith,
        later,
        quiche.fingerprints-add_fingerprint f v,
        keep_if-cons quiche.is_fingerprint f fs,
        append_assoc (quiche.fingerprints v) (f ∷ []) (keep_if quiche.is_fingerprint fs),
      )

  pub created_goes_by :
      (fs : List (List ℕ))
      → quiche.fingerprints (create_proof_verifier quiche fs).0 ≡ keep_if quiche.is_fingerprint fs
  unfolding create_proof_verifier
  created_goes_by fs =
      add_all-adds fs quiche.new_verifier []
      ∙ ap (λ (known : List (List ℕ)). known ++ keep_if quiche.is_fingerprint fs)
          quiche.fingerprints-new_verifier

  -- Fingerprints that are not empty and hold no comma, written with commas between them in the
  -- environment, reach the client that the factory makes for an address from another thread than the
  -- IO thread: the client takes a server's certificate by exactly those of them that quiche accepts,
  -- in order.
  pub environment_reaches_verifier :
      (t : List ℕ) (us : List (List ℕ)) (address port : ℕ) (resolved : Option ℕ) (host : List ℕ)
      → is_fingerprint t ≡ true
      → all_of is_fingerprint us ≡ true
      → (c : Client) × (create_quic_transport_client false
            (some address)
            resolved
            host
            port
            (init (some (joined t us)) [])
          ≡ finished c)
        × (quiche.fingerprints (create_proof_verifier quiche c.fingerprints).0
            ≡ keep_if quiche.is_fingerprint (t ∷ us))
  unfolding create_quic_transport_client create_client_task post_and_wait
  environment_reaches_verifier t us address port resolved host p ps = (
    record {
      address = address;
      port = port;
      host = host;
      fingerprints = init (some (joined t us)) [];
    },
    refl,
    created_goes_by (init (some (joined t us)) [])
        ∙ ap (keep_if quiche.is_fingerprint) (fingerprints_are_read t us [] p ps),
  )
