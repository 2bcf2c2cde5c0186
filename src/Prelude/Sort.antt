-- ===== src/Prelude/Sort.antt =====
-- `std::sort` by a comparator, as a stable insertion sort, and its first element.
use mathlib.Core.Path.{◌≡◌, refl, sym, subst}
use mathlib.Core.Logic.{◌⊎◌, inl, inr}
use mathlib.Core.Bool.{Bool, true, false}
use mathlib.Core.Option.{Option, none, some}
use mathlib.Core.List.{List, [], ◌∷◌}
use native.Mathlib.Omega.{arith}
use attractor.Prelude.Tests.{if◌then◌else◌, Bool-cases}
use attractor.Prelude.Lists.{In}

-- What `std::sort` asks of a comparator: a strict weak order.
pub record IsStrictWeak {A : Type 0} (less : A → A → Bool) : Type 0 where
  pub asym : (a b : A) → less a b ≡ true → less b a ≡ false
  pub cotrans : (a b c : A) → less a b ≡ false → less b c ≡ false → less a c ≡ false

module _ {A : Type 0} (less : A → A → Bool) where
  unfoldable pub insert_sorted : A → List A → List A
  insert_sorted x [] = x ∷ []
  insert_sorted x (y ∷ ys) =
      let rest = insert_sorted x ys in if less y x then y ∷ rest else x ∷ y ∷ ys

  unfoldable pub sort : List A → List A
  unfolding insert_sorted
  sort [] = []
  sort (x ∷ xs) = insert_sorted x (sort xs)

abbrev pub first {ℓ} : {A : Type ℓ} → List A → Option A
first [] = none
first (x ∷ xs) = some x

module _ {A : Type 0} (less : A → A → Bool) where
  In-insert : (x : A) (ys : List A) (a : A) → In a (insert_sorted less x ys) → (a ≡ x) ⊎ In a ys
  unfolding insert_sorted
  In-insert x [] a (inl e) = inl e
  In-insert x [] a (inr m) = elim m [ ]
  In-insert x (y ∷ ys) a m = elim (Bool-cases (less y x)) [
    | inl e ↦ later (rw e at m) (In-insert x ys a)
    | inr e ↦ now (rw e at m)
  ]
    where
      later :
          In a (y ∷ insert_sorted less x ys)
          → (In a (insert_sorted less x ys) → (a ≡ x) ⊎ In a ys)
          → (a ≡ x) ⊎ In a (y ∷ ys)
      later (inl q) k = inr (inl q)
      later (inr r) k = elim (k r) [ inl q ↦ inl q | inr s ↦ inr (inr s) ]

      now : In a (x ∷ y ∷ ys) → (a ≡ x) ⊎ In a (y ∷ ys)
      now (inl q) = inl q
      now (inr r) = inr r

  In-sort : (xs : List A) (a : A) → In a (sort less xs) → In a xs
  unfolding sort
  In-sort [] a m = elim m [ ]
  In-sort (x ∷ xs) a m = elim (In-insert x (sort less xs) a m) [
    | inl e ↦ inl e
    | inr r ↦ inr (In-sort xs a r)
  ]

  first-In : (xs : List A) (a : A) → first xs ≡ some a → In a xs
  first-In [] a h = absurd (cc)
  first-In (x ∷ xs) a h = inl (ground arith)

  pub first-sort-In : (xs : List A) (a : A) → first (sort less xs) ≡ some a → In a xs
  first-sort-In xs a h = In-sort xs a (first-In (sort less xs) a h)

  pub first-sort-some : (x : A) (xs : List A) → (a : A) × (first (sort less (x ∷ xs)) ≡ some a)
  unfolding sort
  first-sort-some x xs = head_of (sort less xs)
    where
      head_of : (ys : List A) → (a : A) × (first (insert_sorted less x ys) ≡ some a)
      head_of [] = (x, refl)
      head_of (y ∷ ys) = elim (Bool-cases (less y x)) [ inl e ↦ (y, rw e) | inr e ↦ (x, rw e) ]

  module _ (w : IsStrictWeak less) where
    irrefl : (a : A) → less a a ≡ false
    irrefl a = elim (Bool-cases (less a a)) [ inl e ↦ w.asym a a e | inr e ↦ e ]

    first-insert-least :
        (x : A) (ys : List A) (b : A)
        → first (insert_sorted less x ys) ≡ some b
        → (less x b ≡ false)
          × ((y : A) → first ys ≡ some y → (a : A) → less a y ≡ false → less a b ≡ false)
    unfolding insert_sorted
    first-insert-least x [] b h =
        let e : x ≡ b = ground arith in
        (subst (λ c. less x c ≡ false) e (irrefl x), λ y q a l. absurd (cc))
    first-insert-least x (z ∷ zs) b h = elim (Bool-cases (less z x)) [
      | inl below ↦
          let e : z ≡ b = ground arith in
          (
            subst (λ c. less x c ≡ false) e (w.asym z x below),
            λ y q a l. let p : y ≡ b = ground arith in subst (λ c. less a c ≡ false) p l,
          )
      | inr above ↦
          let e : x ≡ b = ground arith in
          (
            subst (λ c. less x c ≡ false) e (irrefl x),
            λ y q a l.
                let p : y ≡ z = ground arith in
                subst (λ c. less a c ≡ false) e
                  (w.cotrans a z x (subst (λ c. less a c ≡ false) p l) above),
          )
    ]

    -- The element that comes first has none before it.
    pub first-sort-least :
        (xs : List A) (b : A) → first (sort less xs) ≡ some b → (a : A) → In a xs → less a b ≡ false
    unfolding sort
    first-sort-least [] b h a m = elim m [ ]
    first-sort-least (x ∷ xs) b h a (inl e) =
        subst (λ c. less c b ≡ false) (sym e) (first-insert-least x (sort less xs) b h).0
    first-sort-least (x ∷ []) b h a (inr m) = elim m [ ]
    first-sort-least (x ∷ z ∷ zs) b h a (inr m) =
        let f = first-sort-some z zs in
        (first-insert-least x (sort less (z ∷ zs)) b h).1 f.0 f.1 a
          (first-sort-least (z ∷ zs) f.0 f.1 a m)
