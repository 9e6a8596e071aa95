-- ===== src/Prelude/Lists.antt =====
-- Lists measured by native numbers, under the library's names.
use Prim.Native.Nat.{ℕ, zero, suc, ◌+◌, ◌≤◌, ◌<◌}
use mathlib.Core.Path.{◌≡◌, refl, ap}
use mathlib.Core.Bool.{Bool, false, ◌||◌}
use mathlib.Core.Logic.{◌⊎◌, inl, inr}
use mathlib.Core.List.{List, [], ◌∷◌, ◌++◌, map}
use mathlib.Core.Option.{Option, none, some}
use native.Mathlib.Omega.{arith}
use owt_sdk_quic.Prelude.Tests.{◌==◌, if◌then◌else◌}

module _ {κ} {Item : Type κ} where
  abbrev pub length : List Item → ℕ
  length [] = 0
  length (item ∷ items) = suc (length items)

  pub List-cases :
      (items : List Item) → (items ≡ []) ⊎ ((i : Item) × (rest : List Item) × (items ≡ i ∷ rest))
  List-cases [] = inl refl
  List-cases (item ∷ items) = inr (item, items, refl)

  -- The first items, all of them where there are fewer.
  abbrev pub take : ℕ → List Item → List Item
  take zero items = []
  take (suc left) [] = []
  take (suc left) (item ∷ items) = item ∷ take left items

  abbrev pub get_elem? : List Item → ℕ → Option Item
  get_elem? [] place = none
  get_elem? (item ∷ items) zero = some item
  get_elem? (item ∷ items) (suc place) = get_elem? items place

  abbrev pub replicate : ℕ → Item → List Item
  replicate zero item = []
  replicate (suc left) item = item ∷ replicate left item

  pub length-append : (front back : List Item) → length (front ++ back) ≡ length front + length back
  length-append [] back = omega arith
  length-append (item ∷ front) back = omega (arith, length-append front back)

  pub get_elem?-append_length :
      (front : List Item) (last : Item) → get_elem? (front ++ last ∷ []) (length front) ≡ some last
  get_elem?-append_length [] last = refl
  get_elem?-append_length (item ∷ front) last = get_elem?-append_length front last

  pub get_elem?-append_cons :
      (front back : List Item) (middle : Item)
      → get_elem? (front ++ middle ∷ back) (length front) ≡ some middle
  get_elem?-append_cons [] back middle = refl
  get_elem?-append_cons (item ∷ front) back middle = get_elem?-append_cons front back middle

  pub get_elem?-lt :
      (items : List Item) (place : ℕ) {found : Item}
      → get_elem? items place ≡ some found
      → place < length items
  get_elem?-lt [] place e = absurd (cc)
  get_elem?-lt (item ∷ items) zero e = omega arith
  get_elem?-lt (item ∷ items) (suc place) e = omega (arith, get_elem?-lt items place e)

  pub take-append_length : (front back : List Item) → take (length front) (front ++ back) ≡ front
  take-append_length [] back = refl
  take-append_length (item ∷ front) back = ap (λ rest. item ∷ rest) (take-append_length front back)

  pub take-all : (size : ℕ) (items : List Item) → length items ≤ size → take size items ≡ items
  take-all size [] fits = nothing size
    where
      nothing : (size : ℕ) → take size [] ≡ []
      nothing zero = refl
      nothing (suc left) = refl
  take-all zero (item ∷ items) fits = absurd (omega (arith, fits))
  take-all (suc left) (item ∷ items) fits =
      ap (λ rest. item ∷ rest) (take-all left items (omega (arith, fits)))

module _ {κ} {Item : Type κ} where
  pub length-map {ι} :
      {Image : Type ι} (items : List Item) (f : Item → Image) → length (map f items) ≡ length items
  length-map [] f = refl
  length-map (item ∷ items) f = ap suc (length-map items f)

-- The items that pass a Boolean test.
pub keep_if {κ} : {Item : Type κ} → (Item → Bool) → List Item → List Item
keep_if test [] = []
keep_if test (item ∷ items) =
    let kept = keep_if test items in if test item then item ∷ kept else kept

pub keep_if-nil {κ} : {Item : Type κ} (test : Item → Bool) → keep_if test [] ≡ []
unfolding keep_if
keep_if-nil test = refl

pub keep_if-cons {κ} :
    {Item : Type κ} (test : Item → Bool) (item : Item) (items : List Item)
    → keep_if test (item ∷ items)
      ≡ (if test item then item ∷ keep_if test items else keep_if test items)
unfolding keep_if
keep_if-cons test item items = refl

-- How many items pass a Boolean test.
abbrev pub count_if {κ} : {Item : Type κ} → (Item → Bool) → List Item → ℕ
count_if test [] = 0
count_if test (item ∷ items) =
    let counted = count_if test items in if test item then suc counted else counted

pub count_if-append {κ} :
    {Item : Type κ} (test : Item → Bool) (front back : List Item)
    → count_if test (front ++ back) ≡ count_if test front + count_if test back
count_if-append test [] back = omega arith
count_if-append test (item ∷ front) back = ground (arith, count_if-append test front back)

-- A number's occurrence in a list.
abbrev pub contains : List ℕ → ℕ → Bool
contains [] wanted = false
contains (item ∷ items) wanted = (item == wanted) || contains items wanted

-- What holds of every item.
abbrev pub All {κ ι} : {Item : Type κ} → (Item → Type ι) → List Item → Type ι
All Holds [] = Unit
All Holds (item ∷ items) = Holds item × All Holds items
