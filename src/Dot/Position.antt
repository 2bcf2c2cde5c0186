-- ===== src/Dot/Position.antt =====
-- include/attractor/dot_parser.hpp: the error of the parser, and positions in a text.
use attractor.Prelude.{ℕ, suc, ◌≡◌, refl, [], ◌∷◌, ◌++◌, Text, nat_eq, if◌then◌else◌}

pub record ParseError : Type 0 where
  pub message : Text
  pub line : ℕ
  pub column : ℕ

pub record Pos : Type 0 where
  pub line : ℕ
  pub col : ℕ

-- `step` of strip_comments and the counters of Lexer::advance.
unfoldable pub step : ℕ → Pos → Pos
step c p =
    if nat_eq c 10
    then record { line = suc p.line; col = 1 }
    else record { line = p.line; col = suc p.col }

unfoldable pub step_all : Text → Pos → Pos
unfolding step
step_all [] p = p
step_all (c ∷ s) p = step_all s (step c p)

abbrev pub origin : Pos
origin = record { line = 1; col = 1 }

pub step_all-append : (a b : Text) (p : Pos) → step_all (a ++ b) p ≡ step_all b (step_all a p)
unfolding step_all
step_all-append [] b p = refl
step_all-append (c ∷ a) b p = step_all-append a b (step c p)
