-- ===== src/ProofSource.antt =====
-- web_transport/sdk/impl/proof_source_owt.h and .cc: the certificates and the key that a server reads
-- from a PKCS12 file, and the signatures that it makes with the key.
-- quic_transport/sdk/impl/proof_source_owt.cc is a copy of the same code. BoringSSL and net's X.509
-- classes are the records `Crypto` and `Certificates`.
pub mod Loading
pub mod Message
pub mod Signing
pub mod Serving
use owt_sdk_quic.Prelude.{
  ℕ, ◌-◌, ◌%◌, ◌^◌, Bool, true, false, Option, none, some, List, [], ◌∷◌, ◌++◌, length, take,
  replicate, if◌then◌else◌, ◌>>=◌,
}
use Prim.Native.Nat.{◌/◌}

-- What is done with certificates: PKCS12_get_key_and_certs for a file's bytes and a password,
-- i2d_X509, CreateCertificateListFromBytes and VerifyNameMatch.
pub record Certificates (Key X509 Certificate : Type 0) : Type 0 where
  pub get_key_and_certs : List ℕ → List ℕ → Option (Key × List X509)
  pub i2d_x509 : X509 → Option (List ℕ)
  pub create_list : List ℕ → List Certificate
  pub verify_name_match : Certificate → List ℕ → Bool

-- The calls of EVP_DigestSign... in a context of theirs; none where a call returns 0. `final_size` is
-- EVP_DigestSignFinal without a buffer. With a buffer of the given size it writes the signature, or
-- fails and leaves `left_in_buffer` there.
pub record Crypto (Key Context : Type 0) : Type 0 where
  pub digest_sign_init : Key → Option Context
  pub is_rsa : Key → Bool
  pub set_rsa_padding : Context → Option Context
  pub set_rsa_pss_saltlen : Context → Option Context
  pub digest_sign_update : List ℕ → Context → Option Context
  pub final_size : Context → Option ℕ
  pub digest_sign_final : ℕ → Context → Option (List ℕ)
  pub left_in_buffer : ℕ → Context → List ℕ

-- The members but the ticket crypter. A chain is the texts of its certificates.
pub record ProofSource (Key Certificate : Type 0) : Type 0 where
  pub private_key : Option Key
  pub certs_in_file : List Certificate
  pub chain : Option (List (List ℕ))

unfoldable pub new_proof_source : {Key Certificate : Type 0} → ProofSource Key Certificate
new_proof_source = record { private_key = none; certs_in_file = []; chain = none }

module _ {Key X509 Certificate : Type 0} (lib : Certificates Key X509 Certificate) where
  -- The loop of Initialize over the certificates, with certs_in_file_ and certs_string so far; none
  -- for certs_string where a certificate has no encoding.
  unfoldable pub load_certs :
      List X509 → List Certificate → List (List ℕ) → Option (List (List ℕ)) × List Certificate
  load_certs [] in_file strings = (some strings, in_file)
  load_certs (cert ∷ certs) in_file strings = elim (lib.i2d_x509 cert) [
    | none ↦ (none, in_file)
    | some buffer ↦ load_certs certs (in_file ++ lib.create_list buffer) (strings ++ buffer ∷ [])
  ]

  -- Initialize from the certificates on.
  unfoldable pub finish_initialize :
      Key
      → Option (List (List ℕ))
      → List Certificate
      → ProofSource Key Certificate
      → Bool × ProofSource Key Certificate
  finish_initialize key none in_file p = (false, record p { certs_in_file = in_file })
  finish_initialize key (some strings) [] p = (false, record p { certs_in_file = [] })
  finish_initialize key (some strings) (cert ∷ certs) p =
      (true, record { private_key = some key; certs_in_file = cert ∷ certs; chain = some strings })

  -- Initialize from PKCS12_get_key_and_certs on.
  unfoldable pub take_store :
      Option (Key × List X509) → ProofSource Key Certificate → Bool × ProofSource Key Certificate
  unfolding load_certs finish_initialize
  take_store none p = (false, p)
  take_store (some (key, certs)) p =
      let (strings, in_file) = load_certs certs p.certs_in_file [] in
      finish_initialize key strings in_file p

  -- Initialize, where ReadFileToString reads these bytes or none.
  unfoldable pub initialize :
      Option (List ℕ) → List ℕ → ProofSource Key Certificate → Bool × ProofSource Key Certificate
  unfolding take_store
  initialize none password p = (false, p)
  initialize (some pfx_data) password p = take_store (lib.get_key_and_certs pfx_data password) p

  -- The loop of GetCertChain with its break.
  unfoldable pub some_cert_matches : List ℕ → List Certificate → Bool
  some_cert_matches hostname [] = false
  some_cert_matches hostname (cert ∷ certs) =
      if lib.verify_name_match cert hostname then true else some_cert_matches hostname certs

  -- GetCertChain: the chain, and `cert_matched_sni`.
  unfoldable pub get_cert_chain :
      List ℕ → ProofSource Key Certificate → Option (List (List ℕ)) × Bool
  unfolding some_cert_matches
  get_cert_chain [] p = (p.chain, false)
  get_cert_chain (c ∷ cs) p = (p.chain, some_cert_matches (c ∷ cs) p.certs_in_file)

-- The bytes of a `uint32_t` on a little-endian host.
unfoldable pub uint32_bytes : ℕ → List ℕ
uint32_bytes n = (n % 256) ∷ (n / 256 % 256) ∷ (n / 65536 % 256) ∷ (n / 16777216 % 256) ∷ []

-- `std::vector<uint8_t> signature(n)`, written to from its start.
unfoldable pub written_into : ℕ → List ℕ → List ℕ
written_into n bytes = bytes ++ replicate (n - length bytes) 0

-- What GetProof gives its callback.
pub record ProofAnswer : Type 0 where
  pub ok : Bool
  pub chain : Option (List (List ℕ))
  pub signature : List ℕ

abbrev pub proof_answer : Option (List ℕ) → Option (List (List ℕ)) → ProofAnswer
proof_answer none chain = record { ok = false; chain = none; signature = [] }
proof_answer (some signature) chain = record { ok = true; chain = chain; signature = signature }

module _ {Key Context : Type 0} (crypto : Crypto Key Context) where
  -- EVP_DigestSignInit, with the padding for an RSA key.
  unfoldable pub start_signing : Key → Option Context
  start_signing key = do
    context ← crypto.digest_sign_init key
    if crypto.is_rsa key
        then crypto.set_rsa_padding context >>= crypto.set_rsa_pss_saltlen
        else some context

  -- The condition of GetProofInner, where `label` is the bytes of kProofSignatureLabel and
  -- `chlo_hash` is read for as many bytes as `len_tmp` says.
  unfoldable pub digest_proof : List ℕ → List ℕ → List ℕ → Key → Option Context
  unfolding start_signing uint32_bytes
  digest_proof label chlo_hash server_config key =
      let len_tmp = length chlo_hash % 2 ^ 32 in
      do
        context ← start_signing key
        labelled ← crypto.digest_sign_update label context
        counted ← crypto.digest_sign_update (uint32_bytes len_tmp) labelled
        hashed ← crypto.digest_sign_update (take len_tmp chlo_hash) counted
        crypto.digest_sign_update server_config hashed

  -- GetProofInner with a key: the signature where it returns true.
  unfoldable pub get_proof_inner : List ℕ → List ℕ → List ℕ → Key → Option (List ℕ)
  unfolding digest_proof written_into
  get_proof_inner label chlo_hash server_config key = do
    context ← digest_proof label chlo_hash server_config key
    len ← crypto.final_size context
    signature ← crypto.digest_sign_final len context
    some (take (length signature) (written_into len signature))

  -- GetProof; none where `private_key_` is null and is followed.
  unfoldable pub get_proof :
      {Certificate : Type 0}
      → List ℕ
      → List ℕ
      → List ℕ
      → ProofSource Key Certificate
      → Option ProofAnswer
  unfolding get_proof_inner
  get_proof label chlo_hash server_config p = elim p.private_key [
    | none ↦ none
    | some key ↦ some (proof_answer (get_proof_inner label chlo_hash server_config key) p.chain)
  ]

  -- The condition of ComputeTlsSignature: the context and the size of a signature.
  unfoldable pub digest_tls : List ℕ → Key → Option (Context × ℕ)
  unfolding start_signing
  digest_tls input key = do
    context ← start_signing key
    updated ← crypto.digest_sign_update input context
    siglen ← crypto.final_size updated
    some (updated, siglen)

  -- What ComputeTlsSignature gives its callback after the condition.
  unfoldable pub finish_tls : Option (Context × ℕ) → Bool × List ℕ
  unfolding written_into
  finish_tls none = (false, [])
  finish_tls (some (context, siglen)) = elim (crypto.digest_sign_final siglen context) [
    | none ↦ (false, crypto.left_in_buffer siglen context)
    | some signature ↦ (true, take (length signature) (written_into siglen signature))
  ]

  -- ComputeTlsSignature; none where `private_key_` is null and is followed.
  unfoldable pub compute_tls_signature :
      {Certificate : Type 0} → List ℕ → ProofSource Key Certificate → Option (Bool × List ℕ)
  unfolding digest_tls finish_tls
  compute_tls_signature input p = elim p.private_key [
    | none ↦ none
    | some key ↦ some (finish_tls (digest_tls input key))
  ]
