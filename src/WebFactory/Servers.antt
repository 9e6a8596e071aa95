-- ===== src/WebFactory/Servers.antt =====
-- When a server is made from a PKCS12 file, and what its proof source can do.
use owt_sdk_quic.Prelude.{
  ℕ, ◌≡◌, refl, ◌∙◌, ap, ◌↔◌, Bool, true, false, not, ◌||◌, if◌then◌else◌, Option, none, some, List,
  [], ◌∷◌, arith,
}
use owt_sdk_quic.Streams.{Outcome, finished, waits_forever, post_and_wait, pointer_to}
use owt_sdk_quic.ProofSource.{
  Certificates, Crypto, ProofSource, new_proof_source, initialize, get_proof, compute_tls_signature,
}
use owt_sdk_quic.ProofSource.Loading.{Taken, initialize_lem, initialize_all}
use owt_sdk_quic.ProofSource.Signing.{Works}
use owt_sdk_quic.ProofSource.Serving.{proof_given, signature_given, loaded_source_signs}
use owt_sdk_quic.WebFactory.{
  MadeServer, create_web_transport_server_from_pfx, create_web_transport_server_on_io_thread,
}
use owt_sdk_quic.WebServer as WebServer

abbrev made : {Source : Type 0} → ℕ → Source → MadeServer Source
made port p = record { port = port; proof_source = p; server = WebServer.new_server }

not_true→false : (b : Bool) → ¬ (b ≡ true) → b ≡ false
not_true→false true n = absurd (n refl)
not_true→false false n = refl

from_some :
    {Source : Type 0} (ok on_io_thread : Bool) (port : ℕ) (p : Source) (s : MadeServer Source)
    → let r : Outcome (Option (MadeServer Source)) =
        if not ok
        then finished none
        else pointer_to (create_web_transport_server_on_io_thread on_io_thread port p) in
      r ≡ finished (some s) → (ok ≡ true) × (s ≡ made port p)
unfolding create_web_transport_server_on_io_thread post_and_wait
from_some true true port p s e = absurd (cc)
from_some true false port p s e = (refl, cc)
from_some false on_io_thread port p s e = absurd (cc)

from_cases :
    {Source : Type 0} (ok on_io_thread : Bool) (port : ℕ) (p : Source)
    → let r : Outcome (Option (MadeServer Source)) =
        if not ok
        then finished none
        else pointer_to (create_web_transport_server_on_io_thread on_io_thread port p) in
      ((r ≡ finished none) ↔ (ok ≡ false))
      × ((r ≡ waits_forever) ↔ ((on_io_thread ≡ true) × (ok ≡ true)))
      × ((r ≡ finished (some (made port p))) ↔ ((on_io_thread ≡ false) × (ok ≡ true)))
unfolding create_web_transport_server_on_io_thread post_and_wait
from_cases true true port p = ground arith
from_cases true false port p = ground arith
from_cases false true port p = ground arith
from_cases false false port p = ground arith

module _ {Key X509 Certificate : Type 0} (lib : Certificates Key X509 Certificate)
    (on_io_thread : Bool) (port : ℕ) (file : Option (List ℕ)) (password : List ℕ) where
  -- The call for a server ends with null exactly when the key store is not taken by the new proof
  -- source, on whatever thread. Where it is taken the call waits without end exactly on the IO thread,
  -- and elsewhere ends with a server for the port that has read no packet and has the loaded source.
  pub server_from_pfx_lem :
      let r = create_web_transport_server_from_pfx lib on_io_thread port file password in
      let p = (initialize lib file password new_proof_source).1 in
      ((r ≡ finished none) ↔ ¬ Taken lib file password new_proof_source p)
      × ((r ≡ waits_forever) ↔ ((on_io_thread ≡ true) × Taken lib file password new_proof_source p))
      × ((r
            ≡ finished
                (some (record { port = port; proof_source = p; server = WebServer.new_server })))
          ↔ ((on_io_thread ≡ false) × Taken lib file password new_proof_source p))
  unfolding create_web_transport_server_from_pfx create_web_transport_server_on_io_thread
      post_and_wait
  server_from_pfx_lem =
      let p = (initialize lib file password new_proof_source).1 in
      let (taken, kept) = initialize_lem lib file password new_proof_source in
      let (null, forever, server) =
        from_cases (initialize lib file password new_proof_source).0 on_io_thread port p in
      (
        (
          λ e t. let failed = null.0 e in let fine = taken.1 t in cc,
          λ t. null.1 (not_true→false _ (λ fine. t (taken.0 fine))),
        ),
        (λ e. ((forever.0 e).0, taken.0 (forever.0 e).1), λ t. forever.1 (t.0, taken.1 t.1)),
        (λ e. ((server.0 e).0, taken.0 (server.0 e).1), λ t. server.1 (t.0, taken.1 t.1)),
      )

  -- Where no call of BoringSSL fails, a server that the call ends with is for the given port, and its
  -- proof source gives proofs with a chain and signatures.
  pub made_server_signs :
      {Context : Type 0} (crypto : Crypto Key Context)
      (made_server : MadeServer (ProofSource Key Certificate)) (label hash config input : List ℕ)
      → Works crypto
      → create_web_transport_server_from_pfx lib on_io_thread port file password
        ≡ finished (some made_server)
      → (made_server.port ≡ port)
        × (proof_given (get_proof crypto label hash config made_server.proof_source) ≡ true)
        × (signature_given (compute_tls_signature crypto input made_server.proof_source) ≡ true)
  unfolding create_web_transport_server_from_pfx initialize_all
  made_server_signs crypto s label hash config input works e =
      let (ok, p) = initialize lib file password new_proof_source in
      let (fine, same) = from_some ok on_io_thread port p s e in
      let (proof, signature, key) =
        loaded_source_signs lib crypto ((file, password) ∷ []) label hash config input works in
      let given : (ok || false) ≡ true = rw fine refl in
      (
        ap (λ (m : MadeServer (ProofSource Key Certificate)). m.port) same,
        rw same (proof ∙ given),
        rw same (signature ∙ given),
      )
