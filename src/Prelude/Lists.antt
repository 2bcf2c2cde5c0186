-- ===== src/Prelude/Lists.antt =====
-- Lists measured by native numbers, membership with its position kept, and predicates on all
-- elements.
use Prim.Native.Nat.{ℕ, suc, ◌+◌}
use mathlib.Core.Path.{◌≡◌, refl, sym, ap, subst}
use mathlib.Core.Logic.{◌⊎◌, inl, inr}
use mathlib.Core.Bool.{Bool, true, false}
use mathlib.Core.Option.{Option, none, some}
use mathlib.Core.List.{List, [], ◌∷◌, ◌++◌}
use native.Mathlib.Omega.{arith}
use attractor.Prelude.Tests.{Bool-cases, if◌then◌else◌}

module _ {ℓ} {A : Type ℓ} where
  abbrev pub length : List A → ℕ
  length [] = 0
  length (x ∷ xs) = suc (length xs)

  pub length-append : (xs ys : List A) → length (xs ++ ys) ≡ length xs + length ys
  length-append [] ys = omega arith
  length-append (x ∷ xs) ys = omega (arith, length-append xs ys)

  abbrev pub is_empty : List A → Bool
  is_empty [] = true
  is_empty (x ∷ xs) = false

  -- `std::any_of` and `std::all_of`.
  unfoldable pub any : (A → Bool) → List A → Bool
  any p [] = false
  any p (x ∷ xs) = if p x then true else any p xs

  unfoldable pub all : (A → Bool) → List A → Bool
  all p [] = true
  all p (x ∷ xs) = if p x then all p xs else false

  -- The first element that passes the test, in the order of the list.
  unfoldable pub find : (A → Bool) → List A → Option A
  find p [] = none
  find p (x ∷ xs) = if p x then some x else find p xs

  -- The elements that pass the test, in their order.
  unfoldable pub select : (A → Bool) → List A → List A
  select p [] = []
  select p (x ∷ xs) = let rest = select p xs in if p x then x ∷ rest else rest

-- `a` stands in the list.
abbrev pub In : {A : Type 0} → A → List A → Type 0
In a [] = ⊥
In a (x ∷ xs) = (a ≡ x) ⊎ In a xs

abbrev pub All {ℓ κ} : {A : Type ℓ} → (A → Type κ) → List A → Type κ
All P [] = Unit
All P (x ∷ xs) = P x × All P xs

module _ {A : Type 0} where
  pub find-In : (p : A → Bool) (xs : List A) (a : A) → find p xs ≡ some a → In a xs × (p a ≡ true)
  unfolding find
  find-In p [] a h = absurd (cc)
  find-In p (x ∷ xs) a h = elim (Bool-cases (p x)) [
    | inl e ↦ let q : x ≡ a = ground arith in (inl (sym q), subst (λ y. p y ≡ true) q e)
    | inr e ↦ let r = find-In p xs a (rw e at h) in (inr r.0, r.1)
  ]

  pub find-none : (p : A → Bool) (xs : List A) → find p xs ≡ none → (a : A) → In a xs → p a ≡ false
  unfolding find
  find-none p [] h a m = elim m [ ]
  find-none p (x ∷ xs) h a (inl e) = subst (λ y. p y ≡ false) (sym e) (ground arith)
  find-none p (x ∷ xs) h a (inr m) = find-none p xs (ground arith) a m

  pub In-select : (p : A → Bool) (xs : List A) (a : A) → In a (select p xs) → In a xs × (p a ≡ true)
  unfolding select
  In-select p [] a m = elim m [ ]
  In-select p (x ∷ xs) a m = elim (Bool-cases (p x)) [
    | inl e ↦ split e (rw e at m) (In-select p xs a)
    | inr e ↦ let r = In-select p xs a (rw e at m) in (inr r.0, r.1)
  ]
    where
      split :
          p x ≡ true
          → In a (x ∷ select p xs)
          → (In a (select p xs) → In a xs × (p a ≡ true))
          → In a (x ∷ xs) × (p a ≡ true)
      split e (inl q) k = (inl q, subst (λ y. p y ≡ true) (sym q) e)
      split e (inr r) k = let s = k r in (inr s.0, s.1)

  pub select-In : (p : A → Bool) (xs : List A) (a : A) → In a xs → p a ≡ true → In a (select p xs)
  unfolding select
  select-In p [] a m h = elim m [ ]
  select-In p (x ∷ xs) a (inl e) h =
      let q : p x ≡ true = subst (λ y. p y ≡ true) e h in rw q (inl e)
  select-In p (x ∷ xs) a (inr m) h = elim (Bool-cases (p x)) [
    | inl e ↦ rw e (inr (select-In p xs a m h))
    | inr e ↦ rw e (select-In p xs a m h)
  ]

  pub all-In : (p : A → Bool) (xs : List A) → all p xs ≡ true → (a : A) → In a xs → p a ≡ true
  unfolding all
  all-In p [] h a m = elim m [ ]
  all-In p (x ∷ xs) h a (inl e) = subst (λ y. p y ≡ true) (sym e) (ground arith)
  all-In p (x ∷ xs) h a (inr m) = all-In p xs (ground arith) a m

  pub any-In : (p : A → Bool) (xs : List A) (a : A) → In a xs → p a ≡ true → any p xs ≡ true
  unfolding any
  any-In p [] a m h = elim m [ ]
  any-In p (x ∷ xs) a (inl e) h = let q : p x ≡ true = subst (λ y. p y ≡ true) e h in rw q
  any-In p (x ∷ xs) a (inr m) h = ground (arith, any-In p xs a m h)

  pub any→In : (p : A → Bool) (xs : List A) → any p xs ≡ true → (a : A) × In a xs × (p a ≡ true)
  unfolding any
  any→In p [] h = ground arith
  any→In p (x ∷ xs) h = elim (Bool-cases (p x)) [
    | inl e ↦ (x, inl refl, e)
    | inr e ↦ let r = any→In p xs (rw e at h) in (r.0, inr r.1, r.2)
  ]

  pub All-map : {P Q : A → Type 0} (f : (a : A) → P a → Q a) (xs : List A) → All P xs → All Q xs
  All-map f [] h = tt
  All-map f (x ∷ xs) h = (f x h.0, All-map f xs h.1)

  pub All-append : (P : A → Type 0) (xs ys : List A) → All P xs → All P ys → All P (xs ++ ys)
  All-append P [] ys h k = k
  All-append P (x ∷ xs) ys h k = (h.0, All-append P xs ys h.1 k)

  pub append_assoc : (a b c : List A) → (a ++ b) ++ c ≡ a ++ (b ++ c)
  append_assoc [] b c = refl
  append_assoc (x ∷ a) b c = ap (λ t. x ∷ t) (append_assoc a b c)
