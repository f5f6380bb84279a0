-- ===== src/Prelude/Tests.antt =====
-- Boolean tests, the conditional, and the case lemmas that keep an equation.
use Prim.Native.Nat.{ℕ, compare, Ordering}
use Prim.Native.String.{String}
use mathlib.Core.Path.{◌≡◌, refl}
use mathlib.Core.Logic.{◌⊎◌, inl, inr}
use mathlib.Core.Bool.{Bool, true, false, not}
use mathlib.Core.Option.{Option, none, some}
use native.Mathlib.Omega.{arith}
use text.Mathlib.Text.{◌==◌}
use text.Mathlib.TextEquality.{eq_iff}

abbrev pub ltb : ℕ → ℕ → Bool
ltb a b = elim (compare a b) [ Ordering.lt ↦ true | _ ↦ false ]

abbrev pub leb : ℕ → ℕ → Bool
leb a b = elim (compare a b) [ Ordering.gt ↦ false | _ ↦ true ]

infix 1 if◌then◌else◌
abbrev pub if◌then◌else◌ {ℓ} : {A : Type ℓ} → Bool → A → A → A
if true then x else y = x
if false then x else y = y

abbrev pub same_number : ℕ → ℕ → Bool
same_number a b = elim (compare a b) [ Ordering.eq ↦ true | _ ↦ false ]

-- Python's truth value of a text, and of a text or `None`.
abbrev pub truthy_text : String → Bool
truthy_text s = not (s == "")

abbrev pub truthy_name : Option String → Bool
truthy_name none = false
truthy_name (some s) = truthy_text s

-- Equality of keys that may be Python's `None`.
abbrev pub opt_eq : Option String → Option String → Bool
opt_eq none none = true
opt_eq (some a) (some b) = a == b
opt_eq _ _ = false

pub opt_eq_sound : (a b : Option String) → opt_eq a b ≡ true → a ≡ b
opt_eq_sound none none h = refl
opt_eq_sound (some a) (some b) h = ground (arith, eq_iff a b)
opt_eq_sound none (some b) h = cc
opt_eq_sound (some a) none h = cc

pub opt_eq_refl : (a : Option String) → opt_eq a a ≡ true
opt_eq_refl none = refl
opt_eq_refl (some a) = ground (arith, eq_iff a a)

pub Bool-cases : (b : Bool) → (b ≡ true) ⊎ (b ≡ false)
Bool-cases true = inl refl
Bool-cases false = inr refl

pub Option-cases {ℓ} : {A : Type ℓ} (o : Option A) → (o ≡ none) ⊎ ((a : A) × (o ≡ some a))
Option-cases none = inl refl
Option-cases (some a) = inr (a, refl)

-- A text's equality test as a decision.
pub text_cases : (s t : String) → (s ≡ t) ⊎ ((s == t) ≡ false)
text_cases s t = ground (arith, eq_iff s t)
