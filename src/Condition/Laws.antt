-- ===== src/Condition/Laws.antt =====
-- A condition is the conjunction of its clauses.
use attractor.Prelude.{◌≡◌, ◌≢◌, refl, false, [], ◌∷◌, ◌++◌, Text, nat_eq, All, all, if◌then◌else◌}
use attractor.Json.{Json}
use attractor.Handler.{Outcome}
use attractor.Condition.{cut_clauses, clauses_of, eval_clause, eval_condition}

-- A clause with no ampersand.
abbrev pub IsPlain : Text → Type 0
IsPlain a = All (λ c. nat_eq c b'&' ≡ false) a

cut_clauses-append :
    (a b : Text) → IsPlain a → cut_clauses (a ++ b'&' ∷ b'&' ∷ b) ≡ (a, clauses_of b)
unfolding cut_clauses clauses_of
cut_clauses-append [] b h = refl
cut_clauses-append (c ∷ []) b h = rw (h.0) refl
cut_clauses-append (c ∷ d ∷ a) b h = rw (h.0) (rw (cut_clauses-append (d ∷ a) b h.1) refl)

-- A condition "a && b" holds exactly when the clause a and the condition b both hold, for a clause
-- a with no ampersand and a condition b that is not empty.
pub eval_condition-append :
    (dump : Json → Text) (a b : Text) (o : Outcome) (snapshot : Json)
    → IsPlain a
    → b ≢ []
    → eval_condition dump (a ++ b'&' ∷ b'&' ∷ b) o snapshot
      ≡ (if eval_clause dump a o snapshot then eval_condition dump b o snapshot else false)
unfolding eval_condition all
eval_condition-append dump a [] o snapshot h n = absurd (n refl)
eval_condition-append dump [] (c ∷ b) o snapshot h n = refl
eval_condition-append dump (x ∷ a) (c ∷ b) o snapshot h n =
    rw (cut_clauses-append (x ∷ a) (c ∷ b) h) refl
