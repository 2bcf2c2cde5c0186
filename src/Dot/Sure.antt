-- ===== src/Dot/Sure.antt =====
-- Postconditions of the results that the DOT parser returns.
use attractor.Prelude.{Result, ok, err, ◌>>=◌}
use attractor.Dot.Position.{ParseError}
use attractor.Dot.Parser.{Stop, no_fuel, bad, lift}

-- What is returned satisfies `P`.
abbrev pub Sure : {A : Type 0} → (A → Type 0) → Result ParseError A → Type 0
Sure P (ok a) = P a
Sure P (err e) = Unit

-- What is returned satisfies `P`, and the fuel was enough.
abbrev pub Ends : {A : Type 0} → (A → Type 0) → Result Stop A → Type 0
Ends P (ok a) = P a
Ends P (err no_fuel) = ⊥
Ends P (err (bad e)) = Unit

pub Sure-map :
    {A : Type 0} (P Q : A → Type 0) (r : Result ParseError A)
    → ((a : A) → P a → Q a)
    → Sure P r
    → Sure Q r
Sure-map P Q (ok a) f p = f a p
Sure-map P Q (err e) f p = tt

module _ {A B : Type 0} where
  pub Sure-bind :
      (P : A → Type 0) (Q : B → Type 0) (r : Result ParseError A) (f : A → Result ParseError B)
      → Sure P r
      → ((a : A) → P a → Sure Q (f a))
      → Sure Q (r >>= f)
  Sure-bind P Q (ok a) f p k = k a p
  Sure-bind P Q (err e) f p k = tt

  pub Sure-each :
      (Q : B → Type 0) (r : Result ParseError A) (f : A → Result ParseError B)
      → ((a : A) → Sure Q (f a))
      → Sure Q (r >>= f)
  Sure-each Q (ok a) f k = k a
  Sure-each Q (err e) f k = tt

  pub Ends-bind :
      (P : A → Type 0) (Q : B → Type 0) (r : Result Stop A) (f : A → Result Stop B)
      → Ends P r
      → ((a : A) → P a → Ends Q (f a))
      → Ends Q (r >>= f)
  Ends-bind P Q (ok a) f p k = k a p
  Ends-bind P Q (err no_fuel) f p k = p
  Ends-bind P Q (err (bad e)) f p k = tt

pub lift-Ends : {A : Type 0} (P : A → Type 0) (r : Result ParseError A) → Sure P r → Ends P (lift r)
lift-Ends P (ok a) p = p
lift-Ends P (err e) p = tt
