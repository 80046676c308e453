-- ===== src/Base/Tests.antt =====
-- The conditional, Boolean tests on native numbers and on optional texts, and splits that keep
-- their equation.
use Prim.Native.Nat.{ℕ, compare, Ordering}
use Prim.Native.String.{String}
use mathlib.Core.Path.{◌≡◌, refl, ap}
use mathlib.Core.Logic.{◌↔◌, ◌⊎◌, inl, inr, ◌≢◌}
use mathlib.Core.Bool.{Bool, true, false}
use mathlib.Core.Option.{Option, none, some}
use text.Mathlib.Text.{◌==◌}
use text.Mathlib.TextEquality.{eq_iff}

infix 1 if◌then◌else◌
abbrev pub if◌then◌else◌ {ℓ} : {A : Type ℓ} → Bool → A → A → A
if true then x else y = x
if false then x else y = y

abbrev pub ltb : ℕ → ℕ → Bool
ltb a b = elim (compare a b) [ Ordering.lt ↦ true | _ ↦ false ]

abbrev pub leb : ℕ → ℕ → Bool
leb a b = elim (compare a b) [ Ordering.gt ↦ false | _ ↦ true ]

abbrev pub nat_eq : ℕ → ℕ → Bool
nat_eq a b = elim (compare a b) [ Ordering.eq ↦ true | _ ↦ false ]

-- Python's `==` between two values of type `str | None`.
abbrev pub option_eq : Option String → Option String → Bool
option_eq none none = true
option_eq none (some t) = false
option_eq (some s) none = false
option_eq (some s) (some t) = s == t

abbrev pub is_some {ℓ} : {A : Type ℓ} → Option A → Bool
is_some none = false
is_some (some a) = true

pub Bool-cases : (b : Bool) → (b ≡ true) ⊎ (b ≡ false)
Bool-cases true = inl refl
Bool-cases false = inr refl

pub Option-cases {ℓ} : {A : Type ℓ} (o : Option A) → (o ≡ none) ⊎ ((a : A) × (o ≡ some a))
Option-cases none = inl refl
Option-cases (some a) = inr (a, refl)

pub eq_true : (s t : String) → s ≡ t → (s == t) ≡ true
eq_true s t e = (eq_iff s t).1 e

pub eq_false : (s t : String) → s ≢ t → (s == t) ≡ false
eq_false s t h = elim (Bool-cases (s == t)) [ inl e ↦ absurd (h ((eq_iff s t).0 e)) | inr e ↦ e ]

pub option_eq_iff : (s t : Option String) → (option_eq s t ≡ true) ↔ (s ≡ t)
option_eq_iff none none = (λ _. refl, λ _. refl)
option_eq_iff none (some t) = (λ h. cc, λ h. cc)
option_eq_iff (some s) none = (λ h. cc, λ h. cc)
option_eq_iff (some s) (some t) = (λ h. ap some ((eq_iff s t).0 h), λ h. (eq_iff s t).1 (cc))

pub some-eq {ℓ} : {A : Type ℓ} {a b : A} → some a ≡ some b → a ≡ b
some-eq {a = a} e = ap (λ o. elim o [ some x ↦ x | none ↦ a ]) e
