-- ===== src/Examples/Keys.antt =====
-- The proof source and the WebTransport factory on concrete inputs.
use owt_sdk_quic.Prelude.{
  ℕ, ◌+◌, ◌≡◌, ◌↔◌, refl, sym, Bool, true, false, ◌&&◌, none, some, Option, List, [], ◌∷◌, ◌++◌,
  ◌==◌, length, is_some, some_inj, ==_refl, if◌then◌else◌, arith,
}
use mathlib.Core.Path.{subst}
use owt_sdk_quic.ProofSource.{
  Certificates, Crypto, ProofSource, new_proof_source, ProofAnswer, initialize, get_proof,
  digest_proof, compute_tls_signature,
}
use owt_sdk_quic.ProofSource.Loading.{Taken, Kept, initialize_lem, initialize_all, some_true}
use owt_sdk_quic.ProofSource.Message.{proof_message}
use owt_sdk_quic.ProofSource.Signing.{Signing, Laws, Works, signs, proof_verifies, digest_proof-inj}
use owt_sdk_quic.ProofSource.Serving.{proof_given, signature_given, loaded_source_signs}

-- A key store is a key, which is also its password, and one certificate, which is its encoding.
abbrev open_store : List ℕ → List ℕ → Option (ℕ × List (List ℕ))
open_store (key ∷ cert) (password ∷ rest) = if key == password then some (key, cert ∷ []) else none
open_store _ _ = none

abbrev equal : List ℕ → List ℕ → Bool
equal [] [] = true
equal (x ∷ xs) (y ∷ ys) = (x == y) && equal xs ys
equal _ _ = false

equal_refl : (xs : List ℕ) → equal xs xs ≡ true
equal_refl [] = refl
equal_refl (x ∷ xs) = ground (arith, ==_refl x, equal_refl xs)

abbrev stores : Certificates ℕ (List ℕ) (List ℕ)
stores = record {
  get_key_and_certs = open_store;
  i2d_x509 = λ cert. some cert;
  create_list = λ bytes. bytes ∷ [];
  verify_name_match = equal;
}

-- A signature is the key and the message, and the key 1 is an RSA key.
abbrev signer : Crypto ℕ (Signing ℕ)
signer = record {
  digest_sign_init =
      λ key. some (record { key = key; padded = false; salted = false; message = [] });
  is_rsa = λ key. key == 1;
  set_rsa_padding = λ c. some (record c { padded = true });
  set_rsa_pss_saltlen = λ c. some (record c { salted = true });
  digest_sign_update = λ bytes c. some (record c { message = c.message ++ bytes });
  final_size = λ c. some (length c.message + 8);
  digest_sign_final = λ n c. some (c.key ∷ c.message);
  left_in_buffer = λ n c. [];
}

abbrev signing : Signing ℕ → Signing ℕ
signing c = c

abbrev verifies : Signing ℕ → List ℕ → Bool
verifies c signature = equal (c.key ∷ c.message) signature

abbrev signer_laws : Laws signer signing verifies
signer_laws = record {
  started = λ key c e. sym (some_inj e);
  padding = λ c d e. sym (some_inj e);
  salting = λ c d e. sym (some_inj e);
  updated = λ bytes c d e. sym (some_inj e);
  signed = λ n c signature size e.
      subst (λ s. equal (c.key ∷ c.message) s ≡ true) (some_inj e) (equal_refl (c.key ∷ c.message));
}

signer-Works : Works signer
signer-Works = record {
  starts = λ key e. cc;
  pads = λ c e. cc;
  salts = λ c e. cc;
  updates = λ bytes c e. cc;
  sizes = λ c e. cc;
  finals = λ n c e. cc;
}

abbrev loaded : ProofSource ℕ (List ℕ)
loaded = record {
  private_key = some 1;
  certs_in_file = (7 ∷ []) ∷ [];
  chain = some ((7 ∷ []) ∷ []);
}

abbrev proof_of_loaded : ProofAnswer
proof_of_loaded = record {
  ok = true;
  chain = some ((7 ∷ []) ∷ []);
  signature = 1 ∷ 5 ∷ 2 ∷ 0 ∷ 0 ∷ 0 ∷ 8 ∷ 9 ∷ 4 ∷ [];
}

proof_verifies_example :
    (key : ℕ) × (loaded.private_key ≡ some key)
    × (proof_of_loaded.chain ≡ loaded.chain)
    × (verifies
          (signs signer key (proof_message (5 ∷ []) (8 ∷ 9 ∷ []) (4 ∷ [])))
          proof_of_loaded.signature
        ≡ true)
unfolding get_proof
proof_verifies_example =
    proof_verifies signer signing verifies signer_laws (5 ∷ []) (8 ∷ 9 ∷ []) (4 ∷ []) loaded
      proof_of_loaded refl refl (omega arith)

-- A file that cannot be read, one with a wrong password, and one that is taken.
abbrev three_stores : List (Option (List ℕ) × List ℕ)
three_stores = (none, 1 ∷ []) ∷ (some (1 ∷ 7 ∷ []), 3 ∷ []) ∷ (some (1 ∷ 7 ∷ []), 1 ∷ []) ∷ []

loaded_source_signs_example :
    let (oks, p) = initialize_all stores three_stores new_proof_source in
    (proof_given (get_proof signer (5 ∷ []) (8 ∷ []) (4 ∷ []) p) ≡ some_true oks false)
    × (signature_given (compute_tls_signature signer (6 ∷ []) p) ≡ some_true oks false)
    × (is_some (get_proof signer (5 ∷ []) (8 ∷ []) (4 ∷ []) p) ≡ some_true oks false)
loaded_source_signs_example =
    loaded_source_signs stores signer three_stores (5 ∷ []) (8 ∷ []) (4 ∷ []) (6 ∷ []) signer-Works

initialize_lem_example :
    let (ok, p) = initialize stores (some (1 ∷ 7 ∷ [])) (1 ∷ []) new_proof_source in
    ((ok ≡ true) ↔ Taken stores (some (1 ∷ 7 ∷ [])) (1 ∷ []) new_proof_source p)
    × Kept stores new_proof_source (if ok then new_proof_source else p)
initialize_lem_example = initialize_lem stores (some (1 ∷ 7 ∷ [])) (1 ∷ []) new_proof_source

abbrev hash : List ℕ
hash = 8 ∷ 9 ∷ []

abbrev config : List ℕ
config = 4 ∷ 3 ∷ []

abbrev plain_key : ℕ
plain_key = 3

abbrev signed_context : Signing ℕ
signed_context = record {
  key = 3;
  padded = false;
  salted = false;
  message = 5 ∷ 2 ∷ 0 ∷ 0 ∷ 0 ∷ 8 ∷ 9 ∷ 4 ∷ 3 ∷ [];
}

digest_proof-inj_example : (plain_key ≡ plain_key) × (hash ≡ hash) × (config ≡ config)
unfolding digest_proof
digest_proof-inj_example =
    digest_proof-inj signer signing verifies signer_laws (5 ∷ []) hash hash config config plain_key
      plain_key signed_context signed_context (omega arith) (omega arith) refl refl refl
