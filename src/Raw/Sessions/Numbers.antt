-- ===== src/Raw/Sessions/Numbers.antt =====
-- The numbers of the raw server's connected sessions in its maps, as its dispatcher's connections and the
-- maps of quic_io/src/wrapper/quic_raw_lib.cc change.
use owt_sdk_quic.Prelude.{
  ℕ, ◌≤◌, ◌≡◌, Bool, true, false, Option, none, some, List, [], ◌∷◌, leb, is_some, arith, ◌==◌,
  Bool-cases, inl, inr,
}
use owt_sdk_quic.Prelude.Maps.{lookup, insert, erase, lookup-insert, lookup-erase}
use owt_sdk_quic.Raw.Dispatcher as Dispatcher
use owt_sdk_quic.Raw.Dispatcher.{new_dispatcher}
use owt_sdk_quic.Raw.Sessions.{has_session, Listened, listens, makes, loses, counts}

lookup-has_session :
    (c x : ℕ) (sessions : List (ℕ × ℕ)) → lookup c sessions ≡ some x → has_session x sessions ≡ true
unfolding lookup
lookup-has_session c x [] e = absurd (cc)
lookup-has_session c x ((d, y) ∷ rest) e = ground (arith, e, lookup-has_session c x rest)

-- No two connections have one session.
pub record Apart (sessions : List (ℕ × ℕ)) : Type 0 where
  pub apart : (c d x : ℕ) → lookup c sessions ≡ some x → lookup d sessions ≡ some x → c ≡ d

insert-Apart :
    (c x : ℕ) (sessions : List (ℕ × ℕ))
    → has_session x sessions ≡ false
    → Apart sessions
    → Apart (insert c x sessions)
insert-Apart c x sessions new h = record {
  apart = λ d d' y e e'. ground (
    arith,
    e,
    e',
    new,
    lookup-insert c d x sessions,
    lookup-insert c d' x sessions,
    lookup-has_session d y sessions,
    lookup-has_session d' y sessions,
    h.apart d d' y,
  );
}

erase-Apart : (c : ℕ) (sessions : List (ℕ × ℕ)) → Apart sessions → Apart (erase c sessions)
erase-Apart c sessions h = record {
  apart = λ d d' y e e'.
      ground (arith, e, e', lookup-erase c d sessions, lookup-erase c d' sessions, h.apart d d' y);
}

pub Listened-Apart : (d : Dispatcher.Dispatcher) → Listened d → Apart d.sessions
unfolding new_dispatcher lookup Dispatcher.create_quic_session Dispatcher.on_connection_closed
    Dispatcher.on_rst_stream_received
Listened-Apart _ listens = record { apart = λ c d x e e'. ground (arith, e) }
Listened-Apart _ (makes c x d l new) =
    insert-Apart c x d.sessions (ground (arith, new)) (Listened-Apart d l)
Listened-Apart _ (loses c d l) = erase-Apart c d.sessions (Listened-Apart d l)
Listened-Apart _ (counts code d l) = record { apart = (Listened-Apart d l).apart }

abbrev pub number_from : ℕ → Option ℕ → Bool
number_from first none = false
number_from first (some i) = leb first i

-- The numbers from `first` on are those of the connected sessions but for the early ones.
pub record Registered (first : ℕ) (early sessions ids ptrs : List (ℕ × ℕ)) : Type 0 where
  pub apart : Apart sessions
  pub early_there : (c : ℕ) → is_some (lookup c early) ≡ true → is_some (lookup c sessions) ≡ true
  pub live :
      (c x : ℕ)
      → lookup c sessions ≡ some x
      → lookup c early ≡ none
      → number_from first (lookup x ids) ≡ true
  pub late : (i x : ℕ) → first ≤ i → lookup i ptrs ≡ some x → lookup x ids ≡ some i
  pub connected :
      (i x : ℕ)
      → first ≤ i
      → lookup i ptrs ≡ some x
      → (c : ℕ) × (lookup c sessions ≡ some x) × (lookup c early ≡ none)

pub insert-Registered :
    (first c x n : ℕ) (early sessions ids ptrs : List (ℕ × ℕ))
    → lookup c sessions ≡ none
    → has_session x sessions ≡ false
    → first ≤ n
    → Registered first early sessions ids ptrs
    → Registered first early (insert c x sessions) (insert x n ids) (insert n x ptrs)
insert-Registered first c x n early sessions ids ptrs new unused later h = record {
  apart = insert-Apart c x sessions unused h.apart;
  early_there = λ d e. ground (arith, e, lookup-insert c d x sessions, h.early_there d);
  live = λ d y e not_early. ground (
    arith,
    e,
    not_early,
    later,
    lookup-insert c d x sessions,
    lookup-insert x y n ids,
    h.live d y,
  );
  late = λ i y from e. elim (Bool-cases (n == i)) [
    | inl same ↦ ground (arith, same, e, lookup-insert n i x ptrs, lookup-insert x y n ids)
    | inr other ↦
        let before : lookup i ptrs ≡ some y = ground (arith, e, other, lookup-insert n i x ptrs) in
        let (d, there, not_early) = h.connected i y from before in
        ground (
          arith,
          from,
          unused,
          h.late i y from before,
          lookup-has_session d y sessions there,
          lookup-insert x y n ids,
        )
  ];
  connected = λ i y from e. elim (Bool-cases (n == i)) [
    | inl same ↦ (
      c,
      ground (arith, same, e, lookup-insert n i x ptrs, lookup-insert c c x sessions),
      ground (arith, new, h.early_there c),
    )
    | inr other ↦
        let (d, there, not_early) =
          h.connected i y from (ground (arith, e, other, lookup-insert n i x ptrs)) in
        (d, ground (arith, there, new, lookup-insert c d x sessions), not_early)
  ];
}

-- The connection's session, if it has one, has no number.
pub gone-Registered :
    (first c : ℕ) (early sessions ids ptrs : List (ℕ × ℕ))
    → ((x : ℕ) → lookup c sessions ≡ some x → lookup x ids ≡ none)
    → Registered first early sessions ids ptrs
    → Registered first (erase c early) (erase c sessions) ids ptrs
gone-Registered first c early sessions ids ptrs no_number h = record {
  apart = erase-Apart c sessions h.apart;
  early_there =
      λ d e. ground (arith, e, lookup-erase c d early, lookup-erase c d sessions, h.early_there d);
  live = λ d y e not_early.
      ground (arith, e, not_early, lookup-erase c d early, lookup-erase c d sessions, h.live d y);
  late = h.late;
  connected = λ i y from e.
      let (d, there, not_early) = h.connected i y from e in
      (
        d,
        ground (arith, there, h.late i y from e, no_number y, lookup-erase c d sessions),
        ground (arith, not_early, lookup-erase c d early),
      );
}

-- The connection's session has this number.
pub erase-Registered :
    (first c x n : ℕ) (early sessions ids ptrs : List (ℕ × ℕ))
    → lookup c sessions ≡ some x
    → lookup x ids ≡ some n
    → Registered first early sessions ids ptrs
    → Registered first (erase c early) (erase c sessions) (erase x ids) (erase n ptrs)
erase-Registered first c x n early sessions ids ptrs there number h = record {
  apart = erase-Apart c sessions h.apart;
  early_there =
      λ d e. ground (arith, e, lookup-erase c d early, lookup-erase c d sessions, h.early_there d);
  live = λ d y e not_early. ground (
    arith,
    e,
    not_early,
    there,
    lookup-erase c d early,
    lookup-erase c d sessions,
    lookup-erase x y ids,
    h.live d y,
    h.apart.apart c d y,
  );
  late = λ i y from e.
      ground (arith, from, e, number, lookup-erase n i ptrs, lookup-erase x y ids, h.late i y);
  connected = λ i y from e.
      let before : lookup i ptrs ≡ some y = ground (arith, e, lookup-erase n i ptrs) in
      let (d, connected_there, not_early) = h.connected i y from before in
      (
        d,
        ground (
          arith,
          e,
          connected_there,
          there,
          number,
          h.late i y from before,
          lookup-erase n i ptrs,
          lookup-erase c d sessions,
        ),
        ground (arith, not_early, lookup-erase c d early),
      );
}
