-- ===== src/Prelude/Errors.antt =====
-- Results of C++ code that may throw, or that returns a `std::expected`.
use mathlib.Core.Path.{◌≡◌, ap, ◌∙◌}

pub data Result {ℓ} (E A : Type ℓ) : Type ℓ where
  ok : A → Result E A
  err : E → Result E A

infixl 5 ◌>>=◌
abbrev pub ◌>>=◌ {ℓ} : {E A B : Type ℓ} → Result E A → (A → Result E B) → Result E B
ok a >>= f = f a
err e >>= f = err e

-- A chain goes on behind a value that is there.
pub bind-ok :
    {E A B : Type 0} (r : Result E A) (f : A → Result E B) (a : A) (x : Result E B)
    → r ≡ ok a
    → f a ≡ x
    → (r >>= f) ≡ x
bind-ok {E} {A} r f a x e h = ap (λ (t : Result E A). t >>= f) e ∙ h
