-- ===== src/Prelude/Calls.antt =====
-- Chains of calls that may fail, and what their results satisfy.
use mathlib.Core.Path.{◌≡◌, refl, subst}
use mathlib.Core.Logic.{◌≢◌}
use mathlib.Core.Option.{Option, none, some}
use owt_sdk_quic.Prelude.Tests.{some_inj}

infixl 5 ◌>>=◌
abbrev pub ◌>>=◌ {ℓ κ} : {A : Type ℓ} {B : Type κ} → Option A → (A → Option B) → Option B
none >>= next = none
some a >>= next = next a

module _ {ℓ} {A : Type ℓ} where
  -- A call that fails or gives a value with the property.
  pub data Ensures {κ} (P : A → Type κ) : Option A → Type (ℓ ⊔ κ) where
    fails : Ensures P none
    gives : (a : A) → P a → Ensures P (some a)

  pub Ensures-of {κ} :
      {P : A → Type κ} (call : Option A) → ((a : A) → call ≡ some a → P a) → Ensures P call
  Ensures-of none good = fails
  Ensures-of (some a) good = gives a (good a refl)

  pub Ensures-value {κ} :
      {P : A → Type κ} {call : Option A} {a : A} → Ensures P call → call ≡ some a → P a
  Ensures-value fails e = absurd (cc)
  Ensures-value {P} (gives a holds) e = subst P (some_inj e) holds

-- The rule for a chain.
pub Ensures-bind {ℓ κ ι μ} :
    {A : Type ℓ} {B : Type κ} {P : A → Type ι} {Q : B → Type μ} {call : Option A}
    {next : A → Option B}
    → Ensures P call
    → ((a : A) → P a → Ensures Q (next a))
    → Ensures Q (call >>= next)
Ensures-bind fails good = fails
Ensures-bind (gives a holds) good = good a holds

pub >>=-ne-none {ℓ κ} :
    {A : Type ℓ} {B : Type κ} (call : Option A) (next : A → Option B)
    → call ≢ none
    → ((a : A) → next a ≢ none)
    → (call >>= next) ≢ none
>>=-ne-none none next first later = absurd (first refl)
>>=-ne-none (some a) next first later = later a
