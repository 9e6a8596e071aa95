-- ===== src/ProofSource/Signing.antt =====
-- What the signatures of GetProof and ComputeTlsSignature are good for, and when they are made.
use owt_sdk_quic.Prelude.{
  ℕ, ◌-◌, ◌^◌, ◌<◌, ◌≡◌, refl, sym, ap, ◌∙◌, ◌≢◌, inl, inr, Bool, true, false, Option, none, some,
  List, [], ◌++◌, length, take, replicate, arith, Option-cases, Bool-cases, Ensures, gives,
  Ensures-of, Ensures-bind, Ensures-value, >>=-ne-none, take-all, take-append_length,
}
use mathlib.Core.Path.{subst}
use native.Mathlib.Nat.{mod-eq_of_lt}
use owt_sdk_quic.ProofSource.{
  Crypto, ProofSource, uint32_bytes, written_into, ProofAnswer, start_signing, digest_proof,
  get_proof_inner, get_proof, digest_tls, finish_tls, compute_tls_signature,
}
use owt_sdk_quic.ProofSource.Message.{proof_message, proof_message-inj}

-- What a context signs: the key, whether RSA's padding and salt length were set, and the bytes so far.
pub record Signing (Key : Type 0) : Type 0 where
  pub key : Key
  pub padded : Bool
  pub salted : Bool
  pub message : List ℕ

-- What BoringSSL's documentation says of the calls: each changes what a context signs by its own part,
-- and a signature verifies for what was signed.
pub record Laws {Key Context : Type 0} (crypto : Crypto Key Context)
    (signing : Context → Signing Key) (verifies : Signing Key → List ℕ → Bool) : Type 0 where
  pub started :
      (key : Key) (c : Context)
      → crypto.digest_sign_init key ≡ some c
      → signing c ≡ record { key = key; padded = false; salted = false; message = [] }
  pub padding :
      (c d : Context)
      → crypto.set_rsa_padding c ≡ some d
      → signing d ≡ record (signing c) { padded = true }
  pub salting :
      (c d : Context)
      → crypto.set_rsa_pss_saltlen c ≡ some d
      → signing d ≡ record (signing c) { salted = true }
  pub updated :
      (bytes : List ℕ) (c d : Context)
      → crypto.digest_sign_update bytes c ≡ some d
      → signing d ≡ record (signing c) { message = (signing c).message ++ bytes }
  pub signed :
      (n : ℕ) (c : Context) (signature : List ℕ)
      → crypto.final_size c ≡ some n
      → crypto.digest_sign_final n c ≡ some signature
      → verifies (signing c) signature ≡ true

take-written_into : (n : ℕ) (bytes : List ℕ) → take (length bytes) (written_into n bytes) ≡ bytes
unfolding written_into
take-written_into n bytes = take-append_length bytes (replicate (n - length bytes) 0)

-- A message with a key, with the padding that the key wants.
abbrev pub signs : {Key Context : Type 0} → Crypto Key Context → Key → List ℕ → Signing Key
signs crypto key message = record {
  key = key;
  padded = crypto.is_rsa key;
  salted = crypto.is_rsa key;
  message = message;
}

module _ {Key Context : Type 0} (crypto : Crypto Key Context) (signing : Context → Signing Key)
    (verifies : Signing Key → List ℕ → Bool) (laws : Laws crypto signing verifies) where
  start_signing-signs :
      (key : Key) → Ensures (λ c. signing c ≡ signs crypto key []) (start_signing crypto key)
  unfolding start_signing
  start_signing-signs key =
      Ensures-bind (Ensures-of (crypto.digest_sign_init key) (laws.started key)) (λ c fresh.
        elim (Bool-cases (crypto.is_rsa key)) [
          | inl rsa ↦ rw rsa (
              Ensures-bind (Ensures-of (crypto.set_rsa_padding c) (laws.padding c)) (λ d padded.
                Ensures-of (crypto.set_rsa_pss_saltlen d)
                  (λ e salted. ground (arith, laws.salting d e salted, padded, fresh))))
          | inr other ↦ rw other (gives c (ground (arith, fresh)))
        ])

  update-signs :
      (key : Key) (message bytes : List ℕ) (c : Context)
      → signing c ≡ signs crypto key message
      → Ensures
          (λ d. signing d ≡ signs crypto key (message ++ bytes))
          (crypto.digest_sign_update bytes c)
  update-signs key message bytes c before =
      Ensures-of (crypto.digest_sign_update bytes c)
        (λ d done. ground (arith, laws.updated bytes c d done, before))

  digest_proof-signs :
      (label hash config : List ℕ) (key : Key)
      → length hash < 2 ^ 32
      → Ensures
          (λ c. signing c ≡ signs crypto key (proof_message label hash config))
          (digest_proof crypto label hash config key)
  unfolding digest_proof
  digest_proof-signs label hash config key short =
      rw (mod-eq_of_lt short, take-all (length hash) hash (omega arith))
        (Ensures-bind (start_signing-signs key) (λ c c_signs.
          Ensures-bind (update-signs key [] label c c_signs) (λ d d_signs.
            Ensures-bind (update-signs key label (uint32_bytes (length hash)) d d_signs)
              (λ e e_signs.
                Ensures-bind (update-signs key _ hash e e_signs)
                  (λ f f_signs. update-signs key _ config f f_signs)))))

  -- What the second EVP_DigestSignFinal writes into the buffer, cut to its size, verifies.
  final-verifies :
      (key : Key) (message : List ℕ) (n : ℕ) (c : Context) (s : List ℕ)
      → signing c ≡ signs crypto key message
      → crypto.final_size c ≡ some n
      → crypto.digest_sign_final n c ≡ some s
      → verifies (signs crypto key message) (take (length s) (written_into n s)) ≡ true
  final-verifies key message n c s same size done =
      rw (take-written_into n s)
        (subst (λ v. verifies v s ≡ true) same (laws.signed n c s size done))

  get_proof_inner-verifies :
      (label hash config : List ℕ) (key : Key)
      → length hash < 2 ^ 32
      → Ensures
          (λ s. verifies (signs crypto key (proof_message label hash config)) s ≡ true)
          (get_proof_inner crypto label hash config key)
  unfolding get_proof_inner
  get_proof_inner-verifies label hash config key short =
      Ensures-bind (digest_proof-signs label hash config key short) (λ c same.
        Ensures-bind (Ensures-of (crypto.final_size c) (λ n size. size)) (λ n size.
          Ensures-bind (Ensures-of (crypto.digest_sign_final n c) (λ s done. done))
            (λ s done. gives _ (final-verifies key _ n c s same size done))))

  digest_tls-signs :
      (input : List ℕ) (key : Key)
      → Ensures
          (λ (found : Context × ℕ).
            (signing found.0 ≡ signs crypto key input) × (crypto.final_size found.0 ≡ some found.1))
          (digest_tls crypto input key)
  unfolding digest_tls
  digest_tls-signs input key = Ensures-bind (start_signing-signs key) (λ c c_signs.
      Ensures-bind (update-signs key [] input c c_signs) (λ d d_signs.
        Ensures-bind (Ensures-of (crypto.final_size d) (λ n size. size))
          (λ n size. gives (d, n) (d_signs, size))))

  finish_tls-verifies :
      (input : List ℕ) (key : Key) (digested : Option (Context × ℕ)) (s : List ℕ)
      → Ensures
          (λ (found : Context × ℕ).
            (signing found.0 ≡ signs crypto key input) × (crypto.final_size found.0 ≡ some found.1))
          digested
      → finish_tls crypto digested ≡ (true, s)
      → verifies (signs crypto key input) s ≡ true
  unfolding finish_tls
  finish_tls-verifies input key none s good e = absurd (cc)
  finish_tls-verifies input key (some (c, n)) s good e =
      let (same, size) = Ensures-value good refl in
      elim (Option-cases (crypto.digest_sign_final n c)) [
        | inl failed ↦ ground (arith, failed, e)
        | inr (found, done) ↦
            ground (arith, e, done, final-verifies key input n c found same size done)
      ]

  -- What GetProof has a context sign determines what the proof is for: if the context that
  -- GetProofInner makes for one hash, configuration and key signs the same as the one that it makes
  -- for others under the same label, then the keys, the hashes and the configurations are the same,
  -- where both hashes are shorter than 2 ^ 32 bytes.
  pub digest_proof-inj :
      (label hash hash' config config' : List ℕ) (key key' : Key) (c c' : Context)
      → length hash < 2 ^ 32
      → length hash' < 2 ^ 32
      → digest_proof crypto label hash config key ≡ some c
      → digest_proof crypto label hash' config' key' ≡ some c'
      → signing c ≡ signing c'
      → (key ≡ key') × (hash ≡ hash') × (config ≡ config')
  digest_proof-inj label hash hash' config config' key key' c c' short short' done done' same =
      let signed = Ensures-value (digest_proof-signs label hash config key short) done in
      let signed' = Ensures-value (digest_proof-signs label hash' config' key' short') done' in
      let equal = sym signed ∙ same ∙ signed' in
      let (hashes, configs) =
        proof_message-inj label hash hash' config config' short short'
          (ap (λ (s : Signing Key). s.message) equal) in
      (ap (λ (s : Signing Key). s.key) equal, hashes, configs)

  -- Where GetProof answers with success, it has a key, it answers with the chain of the source, and
  -- for a hash of less than 2 ^ 32 bytes the signature verifies, with the key and for an RSA key with
  -- its padding and salt length, for the label, the hash's length in four bytes, the hash and the
  -- server's configuration.
  pub proof_verifies :
      {Certificate : Type 0} (label hash config : List ℕ) (p : ProofSource Key Certificate)
      (r : ProofAnswer)
      → get_proof crypto label hash config p ≡ some r
      → r.ok ≡ true
      → length hash < 2 ^ 32
      → (key : Key) × (p.private_key ≡ some key)
        × (r.chain ≡ p.chain)
        × (verifies (signs crypto key (proof_message label hash config)) r.signature ≡ true)
  unfolding get_proof
  proof_verifies label hash config p r e fine short = elim (Option-cases p.private_key) [
    | inl no_key ↦ absurd (ground (arith, no_key, e))
    | inr (key, has_key) ↦ elim (Option-cases (get_proof_inner crypto label hash config key)) [
      | inl failed ↦ absurd (ground (arith, has_key, failed, e, fine))
      | inr (s, done) ↦ (
        key,
        has_key,
        ground (arith, has_key, done, e),
        let good = Ensures-value (get_proof_inner-verifies label hash config key short) done in
            ground (arith, has_key, done, e, good),
      )
    ]
  ]

  -- Where ComputeTlsSignature answers with success, it has a key, and the signature verifies for the
  -- input, with the key and for an RSA key with its padding and salt length.
  pub tls_signature_verifies :
      {Certificate : Type 0} (input signature : List ℕ) (p : ProofSource Key Certificate)
      → compute_tls_signature crypto input p ≡ some (true, signature)
      → (key : Key) × (p.private_key ≡ some key)
        × (verifies (signs crypto key input) signature ≡ true)
  unfolding compute_tls_signature
  tls_signature_verifies input signature p e = elim (Option-cases p.private_key) [
    | inl no_key ↦ absurd (ground (arith, no_key, e))
    | inr (key, has_key) ↦ (
      key,
      has_key,
      finish_tls-verifies input key (digest_tls crypto input key) signature
          (digest_tls-signs input key) (ground (arith, has_key, e)),
    )
  ]

-- No call of the library fails.
pub record Works {Key Context : Type 0} (crypto : Crypto Key Context) : Type 0 where
  pub starts : (key : Key) → crypto.digest_sign_init key ≢ none
  pub pads : (c : Context) → crypto.set_rsa_padding c ≢ none
  pub salts : (c : Context) → crypto.set_rsa_pss_saltlen c ≢ none
  pub updates : (bytes : List ℕ) (c : Context) → crypto.digest_sign_update bytes c ≢ none
  pub sizes : (c : Context) → crypto.final_size c ≢ none
  pub finals : (n : ℕ) (c : Context) → crypto.digest_sign_final n c ≢ none

module _ {Key Context : Type 0} (crypto : Crypto Key Context) (works : Works crypto) where
  start_signing-ne-none : (key : Key) → start_signing crypto key ≢ none
  unfolding start_signing
  start_signing-ne-none key = >>=-ne-none _ _ (works.starts key) (λ c.
      elim (Bool-cases (crypto.is_rsa key)) [
        | inl rsa ↦ rw rsa (>>=-ne-none _ _ (works.pads c) works.salts)
        | inr other ↦ rw other (λ e. cc)
      ])

  pub get_proof_inner-ne-none :
      (label hash config : List ℕ) (key : Key) → get_proof_inner crypto label hash config key ≢ none
  unfolding get_proof_inner digest_proof
  get_proof_inner-ne-none label hash config key =
      >>=-ne-none _ _
        (>>=-ne-none _ _ (start_signing-ne-none key) (λ c. >>=-ne-none _ _ (works.updates _ c) (λ d.
          >>=-ne-none _ _ (works.updates _ d)
            (λ e. >>=-ne-none _ _ (works.updates _ e) (works.updates _)))))
        (λ c. >>=-ne-none _ _ (works.sizes c) (λ n. >>=-ne-none _ _ (works.finals n c) (λ s e. cc)))

  pub digest_tls-ne-none : (input : List ℕ) (key : Key) → digest_tls crypto input key ≢ none
  unfolding digest_tls
  digest_tls-ne-none input key = >>=-ne-none _ _ (start_signing-ne-none key) (λ c.
      >>=-ne-none _ _ (works.updates input c) (λ d. >>=-ne-none _ _ (works.sizes d) (λ n e. cc)))

  pub finish_tls-true :
      (digested : Option (Context × ℕ)) → digested ≢ none → (finish_tls crypto digested).0 ≡ true
  unfolding finish_tls
  finish_tls-true none given = absurd (given refl)
  finish_tls-true (some (c, n)) given = elim (Option-cases (crypto.digest_sign_final n c)) [
    | inl failed ↦ absurd (works.finals n c failed)
    | inr (s, done) ↦ ground (arith, done)
  ]
