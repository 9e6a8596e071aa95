-- ===== src/WebFactory/Clients.antt =====
-- What a client is made with.
use owt_sdk_quic.Prelude.{
  ℕ, zero, suc, ◌+◌, ◌≤◌, ◌<◌, ◌≡◌, refl, ◌∙◌, ap, sym, inl, inr, Bool, false, none, some, List, [],
  ◌∷◌, ◌++◌, take, length, get_elem?, arith, if◌then◌else◌, leb, Option-cases, Bool-cases,
  get_elem?-append_cons, get_elem?-lt, length-append,
}
use mathlib.Core.List.{append_assoc, append-nil}
use owt_sdk_quic.Streams.{finished, post_and_wait}
use owt_sdk_quic.WebClient.Connection.{new_connection}
use owt_sdk_quic.WebFactory.{copy_fingerprints, create_web_transport_client_with}

copy_step :
    (left i : ℕ) (fingerprints copied : List (List ℕ)) (f : List ℕ)
    → get_elem? fingerprints i ≡ some f
    → copy_fingerprints (suc left) i fingerprints copied
      ≡ copy_fingerprints left (suc i) fingerprints (copied ++ f ∷ [])
unfolding copy_fingerprints
copy_step left i fingerprints copied f e = ground (arith, e)

copy_rounds :
    (left : ℕ) (behind ahead copied : List (List ℕ))
    → left ≤ length ahead
    → copy_fingerprints left (length behind) (behind ++ ahead) copied
      ≡ some (copied ++ take left ahead)
unfolding copy_fingerprints
copy_rounds zero behind ahead copied fits = rw (append-nil copied) refl
copy_rounds (suc left) behind [] copied fits = absurd (omega arith)
copy_rounds (suc left) behind (f ∷ ahead) copied fits =
    let place : length (behind ++ f ∷ []) ≡ suc (length behind) =
      omega (arith, length-append behind (f ∷ [])) in
    let C = copied ++ f ∷ [] in
    copy_step left (length behind) (behind ++ f ∷ ahead) copied f
      (get_elem?-append_cons behind ahead f)
    ∙ ap (λ (i : ℕ). copy_fingerprints left i (behind ++ f ∷ ahead) C) (sym place)
    ∙ ap (λ (fs : List (List ℕ)). copy_fingerprints left (length (behind ++ f ∷ [])) fs C)
        (sym (append_assoc behind (f ∷ []) ahead))
    ∙ copy_rounds left (behind ++ f ∷ []) ahead C (omega (arith, fits))
    ∙ ap some (append_assoc copied (f ∷ []) (take left ahead))

copy_past_end :
    (left i : ℕ) (fingerprints copied : List (List ℕ))
    → i ≤ length fingerprints
    → length fingerprints < i + left
    → copy_fingerprints left i fingerprints copied ≡ none
unfolding copy_fingerprints
copy_past_end zero i fingerprints copied inside past = absurd (omega arith)
copy_past_end (suc left) i fingerprints copied inside past =
    elim (Option-cases (get_elem? fingerprints i)) [
      | inl none_there ↦ rw (none_there, copy_fingerprints) refl
      | inr (f, there) ↦
          rw (there, copy_fingerprints)
            (copy_past_end left (suc i) fingerprints (copied ++ f ∷ [])
              (omega (arith, get_elem?-lt fingerprints i there)) (omega (arith, past)))
    ]

-- A client is made with as many of the fingerprints as the given length says, in their order, and with
-- nothing else: where the length is that of the array or less, and the call comes from another thread
-- than the IO thread, the call ends with such a client. Where the length is larger the call reads past
-- the end of the array.
pub client_gets_fingerprints :
    (is_debug : Bool) (url : List ℕ) (size : ℕ) (fingerprints : List (List ℕ))
    → create_web_transport_client_with is_debug false url size fingerprints ≡ (
        if leb size (length fingerprints)
        then some (
            finished (record {
              url = url;
              fingerprints = take size fingerprints;
              connection = new_connection is_debug;
            }))
        else none)
unfolding create_web_transport_client_with post_and_wait
client_gets_fingerprints is_debug url size fingerprints =
    elim (Bool-cases (leb size (length fingerprints))) [
      | inl fits ↦ ground (arith, fits, copy_rounds size [] fingerprints [])
      | inr larger ↦ ground (arith, larger, copy_past_end size 0 fingerprints [])
    ]
