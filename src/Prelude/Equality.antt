-- ===== src/Prelude/Equality.antt =====
-- Branching, and Go's `==` on strings as a test that yields the equation or its negation.
use Prim.Native.String.{String}
use mathlib.Core.Path.{◌≡◌, refl}
use mathlib.Core.Logic.{◌⊎◌, inl, inr, ite, dite}
use mathlib.Core.Bool.{Bool, true, false, cond, Bool-discrete}
use mathlib.Core.Option.{Option, none, some}
use text.Mathlib.Text
use text.Mathlib.TextEquality.{eq_iff}

infix 1 if◌then◌else◌
abbrev pub if◌then◌else◌ {ℓ} : {A : Type ℓ} → Bool → A → A → A
if b then x else y = cond b x y

-- Shut in proofs, where a split on it gives `s ≡ t` or its negation.
unfoldable pub string_discrete : Discrete String
string_discrete s t =
    dite (Bool-discrete (Text.◌==◌ s t) true) (λ same. yes ((eq_iff s t).0 same))
      (λ differ. no (λ p. differ ((eq_iff s t).1 p)))

infix 50 ◌==◌
abbrev pub ◌==◌ : String → String → Bool
s == t = ite (string_discrete s t) true false

pub ==_self : (s : String) → (s == s) ≡ true
==_self s = elim (string_discrete s s) as (λ d. ite d true false ≡ true) [
  | yes p ↦ refl
  | no n ↦ absurd (n refl)
]

-- To split on a computed value and keep the equation.
pub Bool-cases : (b : Bool) → (b ≡ true) ⊎ (b ≡ false)
Bool-cases true = inl refl
Bool-cases false = inr refl

pub Option-cases {ℓ} : {A : Type ℓ} (o : Option A) → (o ≡ none) ⊎ ((a : A) × (o ≡ some a))
Option-cases none = inl refl
Option-cases (some a) = inr (a, refl)
