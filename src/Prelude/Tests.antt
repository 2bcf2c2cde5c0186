-- ===== src/Prelude/Tests.antt =====
-- Boolean tests on the native numbers, the conditional, and case splits that keep an equation.
use Prim.Native.Nat.{ℕ, ◌≤◌, ◌<◌, compare, Ordering}
use mathlib.Core.Path.{◌≡◌, refl}
use mathlib.Core.Logic.{◌↔◌, ◌⊎◌, inl, inr}
use mathlib.Core.Bool.{Bool, true, false}
use mathlib.Core.Option.{Option, none, some}
use native.Mathlib.Omega.{arith}

abbrev pub ltb : ℕ → ℕ → Bool
ltb a b = elim (compare a b) [ Ordering.lt ↦ true | _ ↦ false ]

abbrev pub leb : ℕ → ℕ → Bool
leb a b = elim (compare a b) [ Ordering.gt ↦ false | _ ↦ true ]

abbrev pub nat_eq : ℕ → ℕ → Bool
nat_eq a b = elim (compare a b) [ Ordering.eq ↦ true | _ ↦ false ]

infix 1 if◌then◌else◌
abbrev pub if◌then◌else◌ {ℓ} : {A : Type ℓ} → Bool → A → A → A
if true then x else y = x
if false then x else y = y

pub ltb→lt : (a b : ℕ) → ltb a b ≡ true → a < b
ltb→lt a b h = ground arith

pub lt→ltb : (a b : ℕ) → a < b → ltb a b ≡ true
lt→ltb a b h = ground arith

pub ltb-false→le : (a b : ℕ) → ltb a b ≡ false → b ≤ a
ltb-false→le a b h = ground arith

pub nat_eq_iff : (a b : ℕ) → (nat_eq a b ≡ true) ↔ (a ≡ b)
nat_eq_iff a b = ground arith

pub Bool-cases : (b : Bool) → (b ≡ true) ⊎ (b ≡ false)
Bool-cases true = inl refl
Bool-cases false = inr refl

pub Option-cases {ℓ} : {A : Type ℓ} (o : Option A) → (o ≡ none) ⊎ ((a : A) × (o ≡ some a))
Option-cases none = inl refl
Option-cases (some a) = inr (a, refl)

-- What holds of both branches, each under its test, holds of the conditional.
pub if-cases {ℓ κ} :
    {A : Type ℓ} (P : A → Type κ) (b : Bool) (x y : A)
    → (b ≡ true → P x)
    → (b ≡ false → P y)
    → P (if b then x else y)
if-cases P true x y h k = h refl
if-cases P false x y h k = k refl
