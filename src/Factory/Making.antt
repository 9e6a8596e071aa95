-- ===== src/Factory/Making.antt =====
-- The fingerprints that are read, and when the making of a client ends.
use owt_sdk_quic.Prelude.{
  ℕ, ◌≡◌, ◌↔◌, refl, Bool, true, false, not, ◌||◌, ◌&&◌, none, Option, some, List, [], ◌∷◌, ◌++◌,
  arith, is_some, contains,
}
use mathlib.Core.List.{append_assoc, append-nil}
use owt_sdk_quic.Streams.{finished, waits_forever, post_and_wait, all_of}
use owt_sdk_quic.Factory.{
  comma, lines_from, lines, init, create_client_task, create_quic_transport_client,
  create_quic_transport_server, create_quic_transport_server_on_io_thread,
}

-- Texts with commas between them.
abbrev pub joined : List ℕ → List (List ℕ) → List ℕ
joined t [] = t
joined t (u ∷ us) = t ++ comma ∷ joined u us

-- A text that is not empty and has no comma.
abbrev pub is_fingerprint : List ℕ → Bool
is_fingerprint [] = false
is_fingerprint (c ∷ cs) = not (contains (c ∷ cs) comma)

lines_from-joined :
    (piece t : List ℕ) (us : List (List ℕ))
    → contains t comma ≡ false
    → all_of is_fingerprint us ≡ true
    → lines_from piece (joined t us) ≡ (piece ++ t) ∷ us
lines_from-joined piece [] [] n f = rw (append-nil piece) refl
lines_from-joined piece [] ([] ∷ us) n f = ground (arith, f)
lines_from-joined piece [] ((d ∷ ds) ∷ []) n f =
    ground (arith, f, append-nil piece, lines_from-joined [] (d ∷ ds) [])
lines_from-joined piece [] ((d ∷ ds) ∷ v ∷ vs) n f =
    ground (arith, f, append-nil piece, lines_from-joined [] (d ∷ ds) (v ∷ vs))
lines_from-joined piece (c ∷ cs) [] n f =
    ground (arith, n, append_assoc piece (c ∷ []) cs, lines_from-joined (piece ++ c ∷ []) cs [])
lines_from-joined piece (c ∷ cs) (u ∷ us) n f =
    ground
      (arith, n, f, append_assoc piece (c ∷ []) cs, lines_from-joined (piece ++ c ∷ []) cs (u ∷ us))

lines-joined :
    (t : List ℕ) (us : List (List ℕ))
    → is_fingerprint t ≡ true
    → all_of is_fingerprint us ≡ true
    → lines (joined t us) ≡ t ∷ us
lines-joined [] us p f = ground (arith, p)
lines-joined (c ∷ cs) [] p f = ground (arith, p, lines_from-joined [] (c ∷ cs) [])
lines-joined (c ∷ cs) (u ∷ us) p f = ground (arith, p, f, lines_from-joined [] (c ∷ cs) (u ∷ us))

-- Fingerprints that are not empty and hold no comma, written with commas between them in the
-- environment, are read back as they are, in order, after those that the factory has.
pub fingerprints_are_read :
    (t : List ℕ) (us old : List (List ℕ))
    → is_fingerprint t ≡ true
    → all_of is_fingerprint us ≡ true
    → init (some (joined t us)) old ≡ old ++ t ∷ us
unfolding init
fingerprints_are_read t us old p f = rw (lines-joined t us p f) refl

-- The making of a client never ends exactly when it is asked for on the IO thread, or when the host
-- is no address and cannot be resolved.
pub create_client_ends :
    (on_io_thread : Bool) (parsed resolved : Option ℕ) (host : List ℕ) (port : ℕ)
    (fs : List (List ℕ))
    → let result = create_quic_transport_client on_io_thread parsed resolved host port fs in
      ((result ≡ waits_forever)
        ↔ ((on_io_thread || not (is_some parsed || is_some resolved)) ≡ true))
unfolding create_quic_transport_client create_client_task post_and_wait
create_client_ends true parsed resolved host port fs = ground arith
create_client_ends false parsed resolved host port fs = ground arith

-- A server is asked for in vain exactly where the proof source could not be initialized, and never
-- where the caller is on the IO thread and it could; then the call has no end.
pub create_server_ends :
    {Source : Type 0} (on_io_thread initialized : Bool) (port : ℕ) (source : Source)
    → let result = create_quic_transport_server on_io_thread port (initialized, source) in
      ((result ≡ finished none) ↔ (initialized ≡ false))
      × ((result ≡ waits_forever) ↔ ((on_io_thread && initialized) ≡ true))
unfolding create_quic_transport_server create_quic_transport_server_on_io_thread post_and_wait
create_server_ends true true port source = ground arith
create_server_ends true false port source = ground arith
create_server_ends false true port source = ground arith
create_server_ends false false port source = ground arith
