-- ===== src/Examples/Configs.antt =====
-- Configurations on concrete inputs: the flow control windows of a server, and the fingerprints of the
-- environment.
use owt_sdk_quic.Prelude.{
  ℕ, ◌≡◌, ◌≢◌, ◌≤◌, refl, Bool, true, false, none, some, List, [], ◌∷◌, ◌++◌, leb, length, keep_if,
  if◌then◌else◌, arith, ◌==◌,
}
use owt_sdk_quic.Streams.{finished}
use owt_sdk_quic.FlowControl.{Windows}
use owt_sdk_quic.FlowControl.Raw as Raw
use owt_sdk_quic.FlowControl.Transport as Transport
use owt_sdk_quic.FlowControl.Bounds.{window_after, windows_are_set}
use owt_sdk_quic.Factory.{Client, init, create_quic_transport_client}
use owt_sdk_quic.Factory.Making.{joined}
use owt_sdk_quic.Fingerprints.{Verifiers}
use owt_sdk_quic.Http3Client.Verifier as Http3
use owt_sdk_quic.WebFactory.{MadeClient, create_web_transport_client_with}
use owt_sdk_quic.WebFactory.Trust.{goes_by, made_client_trusts}
use owt_sdk_quic.Transport.Verifier.{create_proof_verifier}
use owt_sdk_quic.Transport.Verifier.Environment.{environment_reaches_verifier}

-- A configuration is its two windows, and the minimum is 16 KB.
record TwoWindows : Type 0 where
  stream : ℕ
  session : ℕ

abbrev two_windows : Windows TwoWindows
two_windows = record {
  minimum = 16384;
  stream_window = λ c. c.stream;
  session_window = λ c. c.session;
  set_stream_window = λ n c. record c { stream = n };
  set_session_window = λ n c. record c { session = n };
  stream_window-set_stream_window = λ n c fits. refl;
  session_window-set_session_window = λ n c fits. refl;
  session_window-set_stream_window = λ n c. refl;
  stream_window-set_session_window = λ n c. refl;
}

abbrev session_set : TwoWindows
session_set = record { stream = 16384; session = 2000000 }

windows_are_set_example :
    let d = Raw.initialize two_windows session_set in
    let stream = window_after two_windows (omega arith) 65536 16384 in
    let session = window_after two_windows (omega arith) 1048576 2000000 in
    (Transport.initialize two_windows session_set ≡ d)
    × (d.stream ≡ stream)
    × (d.session ≡ session)
    × (stream ≢ 16384)
    × (session ≢ 16384)
    × (16384 ≤ d.stream)
    × (2000000 ≤ d.session)
    × ((Raw.initialize two_windows d).stream ≡ d.stream)
    × ((Raw.initialize two_windows d).session ≡ d.session)
windows_are_set_example = windows_are_set two_windows (omega arith) session_set

-- A verifier is the list of its fingerprints, which have two characters or more.
abbrev is_long : List ℕ → Bool
is_long f = leb 2 (length f)

abbrev lists : Verifiers (List (List ℕ))
lists = record {
  new_verifier = [];
  add_fingerprint = λ f v. (is_long f, if is_long f then v ++ f ∷ [] else v);
  fingerprints = λ v. v;
  is_fingerprint = is_long;
  fingerprints-new_verifier = refl;
  fingerprints-add_fingerprint = λ f v. refl;
}

abbrev first : List ℕ
first = 65 ∷ 66 ∷ []

abbrev others : List (List ℕ)
others = (67 ∷ []) ∷ (68 ∷ 69 ∷ []) ∷ []

environment_reaches_verifier_example :
    (c : Client) × (create_quic_transport_client false
        (some 1)
        none
        (104 ∷ [])
        443
        (init (some (joined first others)) [])
      ≡ finished c)
    × ((create_proof_verifier lists c.fingerprints).0 ≡ keep_if is_long (first ∷ others))
environment_reaches_verifier_example =
    environment_reaches_verifier lists first others 1 443 none (104 ∷ []) refl refl

abbrev first_two : List (List ℕ)
first_two = (1 ∷ []) ∷ (2 ∷ 3 ∷ []) ∷ []

-- The verifier of Chromium stands for itself.
abbrev chromium_verifier : ℕ
chromium_verifier = 7

made_client_trusts_example :
    let accepted = keep_if is_long first_two in
    (c : MadeClient) × (create_web_transport_client_with true false (104 ∷ []) 2 first_two
      ≡ some (finished c))
    × (goes_by lists chromium_verifier
          (Http3.create_proof_verifier lists chromium_verifier c.fingerprints).0
        ≡ (if 2 == 0 then none else some accepted))
    × ((create_proof_verifier lists first_two).0 ≡ accepted)
made_client_trusts_example =
    made_client_trusts lists chromium_verifier true (104 ∷ []) 2 first_two (omega arith)
