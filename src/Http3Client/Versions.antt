-- ===== src/Http3Client/Versions.antt =====
-- The QUIC versions that DoInit offers.
use owt_sdk_quic.Prelude.{
  ℕ, ◌≡◌, refl, Bool, false, not, ◌&&◌, ◌||◌, List, [], ◌∷◌, ◌++◌, if◌then◌else◌, contains, arith,
  inl, inr, Bool-cases, if_elim, ==_iff,
}
use owt_sdk_quic.Http3Client.Connect.{add_versions, is_empty}

-- No number stands twice in the list.
abbrev pub AllDistinct : List ℕ → Type 0
AllDistinct [] = Unit {0}
AllDistinct (x ∷ xs) = (contains xs x ≡ false) × AllDistinct xs

contains-append :
    (xs ys : List ℕ) (v : ℕ) → contains (xs ++ ys) v ≡ (contains xs v || contains ys v)
contains-append [] ys v = refl
contains-append (x ∷ xs) ys v = ground (arith, contains-append xs ys v)

append-AllDistinct :
    (xs : List ℕ) (v : ℕ) → contains xs v ≡ false → AllDistinct xs → AllDistinct (xs ++ v ∷ [])
append-AllDistinct [] v h d = (refl, tt)
append-AllDistinct (x ∷ xs) v h d =
    ground (arith, contains-append xs (v ∷ []) x, append-AllDistinct xs v)

-- DoInit's loop over the context's versions: a version is offered if it was before the loop, or if
-- the context has it and it uses HTTP/3, and no version is offered twice.
pub add_versions_lem :
    (uses_http3 : ℕ → Bool) (versions context : List ℕ)
    → AllDistinct versions
    → AllDistinct (add_versions uses_http3 versions context)
      × ((v : ℕ)
          → contains (add_versions uses_http3 versions context) v
            ≡ (contains versions v || (contains context v && uses_http3 v)))
unfolding add_versions
add_versions_lem u vs [] d = (d, λ v. ground arith)
add_versions_lem u vs (w ∷ ws) d = elim (Bool-cases (not (u w) || contains vs w)) [
  | inl skip ↦ rw skip (
    (add_versions_lem u vs ws d).0,
    λ v. ground (arith, (add_versions_lem u vs ws d).1 v, ==_iff w v),
  )
  | inr new ↦
      let rest = add_versions_lem u (vs ++ w ∷ []) ws (append-AllDistinct vs w (ground arith) d) in
      rw new (rest.0, λ v. ground (arith, rest.1 v, contains-append vs (w ∷ []) v, ==_iff w v))
]

append-is_empty : (xs : List ℕ) (v : ℕ) → is_empty (xs ++ v ∷ []) ≡ false
append-is_empty [] v = refl
append-is_empty (x ∷ xs) v = refl

-- The test `supported_versions_.empty()` never succeeds.
pub add_versions-is_empty :
    (u : ℕ → Bool) (vs ws : List ℕ) → is_empty vs ≡ false → is_empty (add_versions u vs ws) ≡ false
unfolding add_versions
add_versions-is_empty u vs [] h = h
add_versions-is_empty u vs (w ∷ ws) h =
    add_versions-is_empty u (if not (u w) || contains vs w then vs else vs ++ w ∷ []) ws (
      if_elim (λ xs. is_empty xs ≡ false) (not (u w) || contains vs w) (λ _. h)
        (λ _. append-is_empty vs w))
