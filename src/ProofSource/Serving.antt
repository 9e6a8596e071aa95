-- ===== src/ProofSource/Serving.antt =====
-- A proof source from its key stores to its signatures.
use owt_sdk_quic.Prelude.{
  ℕ, ◌≡◌, refl, Bool, false, ◌&&◌, Option, none, some, List, is_some, arith, Option-cases, inl, inr,
}
use owt_sdk_quic.ProofSource.{
  Certificates, Crypto, ProofSource, new_proof_source, ProofAnswer, get_proof_inner, get_proof,
  digest_tls, compute_tls_signature,
}
use owt_sdk_quic.ProofSource.Loading.{initialize_all, some_true, HasStore, initialize_all-HasStore}
use owt_sdk_quic.ProofSource.Signing.{
  Works, get_proof_inner-ne-none, digest_tls-ne-none, finish_tls-true,
}

-- Whether an answer came, and came with success and a chain.
abbrev pub proof_given : Option ProofAnswer → Bool
proof_given none = false
proof_given (some answer) = answer.ok && is_some answer.chain

abbrev pub signature_given : Option (Bool × List ℕ) → Bool
signature_given none = false
signature_given (some (ok, signature)) = ok

module _ {Key Context Certificate : Type 0} (crypto : Crypto Key Context) (works : Works crypto)
    (label hash config input : List ℕ) (taken : Bool) (p : ProofSource Key Certificate)
    (h : HasStore taken p) where
  proof_given-HasStore : proof_given (get_proof crypto label hash config p) ≡ taken
  unfolding get_proof
  proof_given-HasStore = elim (Option-cases p.private_key) [
    | inl no_key ↦ ground (arith, no_key, h)
    | inr (key, has_key) ↦ elim (Option-cases (get_proof_inner crypto label hash config key)) [
      | inl failed ↦ absurd (get_proof_inner-ne-none crypto works label hash config key failed)
      | inr (s, done) ↦ ground (arith, has_key, done, h)
    ]
  ]

  signature_given-HasStore : signature_given (compute_tls_signature crypto input p) ≡ taken
  unfolding compute_tls_signature
  signature_given-HasStore = elim (Option-cases p.private_key) [
    | inl no_key ↦ ground (arith, no_key, h)
    | inr (key, has_key) ↦ ground (
      arith,
      has_key,
      h,
      finish_tls-true crypto works (digest_tls crypto input key)
          (digest_tls-ne-none crypto works input key),
    )
  ]

key_given-HasStore :
    {Key Context Certificate : Type 0} (crypto : Crypto Key Context) (label hash config : List ℕ)
    (taken : Bool) (p : ProofSource Key Certificate)
    → HasStore taken p
    → is_some (get_proof crypto label hash config p) ≡ taken
unfolding get_proof
key_given-HasStore crypto label hash config taken p h = elim (Option-cases p.private_key) [
  | inl no_key ↦ ground (arith, no_key, h)
  | inr (key, has_key) ↦ ground (arith, has_key, h)
]

-- Where no call of BoringSSL fails: after any calls of Initialize on a new source, GetProof gives a
-- signature and a chain, and ComputeTlsSignature a signature, exactly when one of the calls returned
-- true. Otherwise the null key is followed.
pub loaded_source_signs :
    {Key X509 Context Certificate : Type 0} (lib : Certificates Key X509 Certificate)
    (crypto : Crypto Key Context) (stores : List (Option (List ℕ) × List ℕ))
    (label hash config input : List ℕ)
    → Works crypto
    → let (oks, p) = initialize_all lib stores new_proof_source in
      (proof_given (get_proof crypto label hash config p) ≡ some_true oks false)
      × (signature_given (compute_tls_signature crypto input p) ≡ some_true oks false)
      × (is_some (get_proof crypto label hash config p) ≡ some_true oks false)
unfolding new_proof_source
loaded_source_signs lib crypto stores label hash config input works =
    let h = initialize_all-HasStore lib stores false new_proof_source (refl, refl) in
    (
      proof_given-HasStore crypto works label hash config input _ _ h,
      signature_given-HasStore crypto works label hash config input _ _ h,
      key_given-HasStore crypto label hash config _ _ h,
    )
