-- ===== src/Prelude/Scan.antt =====
-- Moves of a parser along a text, and how much of it they leave.
use Prim.Native.Nat.{ℕ, ◌≤◌, ◌<◌}
use mathlib.Core.Path.{◌≡◌}
use mathlib.Core.Bool.{Bool, true, false}
use mathlib.Core.Option.{Option, none, some}
use mathlib.Core.List.{[], ◌∷◌}
use native.Mathlib.Omega.{arith}
use attractor.Prelude.Tests.{nat_eq, if◌then◌else◌}
use attractor.Prelude.Lists.{length}
use attractor.Prelude.Bytes.{Text, drop_while}

-- The bytes from `p` to the first that fails the test.
unfoldable pub take_while : (ℕ → Bool) → Text → Text
take_while p [] = []
take_while p (c ∷ s) = elim (p c) [ true ↦ c ∷ take_while p s | false ↦ [] ]

unfoldable pub skip_semicolon : Text → Text
skip_semicolon [] = []
skip_semicolon (c ∷ s) = if nat_eq c b';' then s else c ∷ s

-- Behind the byte that a parser expects.
unfoldable pub expect : ℕ → Text → Option Text
expect c [] = none
expect c (d ∷ s) = if nat_eq d c then some s else none

pub drop_while-le : (p : ℕ → Bool) (s : Text) → length (drop_while p s) ≤ length s
unfolding drop_while
drop_while-le p [] = omega arith
drop_while-le p (c ∷ s) = ground (arith, drop_while-le p s)

pub skip_semicolon-le : (s : Text) → length (skip_semicolon s) ≤ length s
unfolding skip_semicolon
skip_semicolon-le [] = omega arith
skip_semicolon-le (c ∷ s) = ground arith

pub expect-lt : (c : ℕ) (s r : Text) → expect c s ≡ some r → length r < length s
unfolding expect
expect-lt c [] r h = absurd (cc)
expect-lt c (d ∷ s) r h = ground arith
