-- ===== src/Validator/Conditions.antt =====
-- The conditions that src/validator.cpp accepts, as src/engine.cpp reads them.
use attractor.Prelude.{
  ◌≡◌, refl, Bool, true, false, ◌&&◌, not, Option, none, some, [], ◌∷◌, Text, text, ◌==◌, all,
  all-In, is_empty, strip_prefix, In, Bool-cases, Option-cases, inl, inr, arith,
}
use attractor.Json.{Json}
use attractor.Handler.{Outcome}
use attractor.Condition.{
  trim, clauses_of, Comparison, parse_comparison, stage_status_to_string, lookup_context, holds,
  actual_value, eval_comparison, eval_clause,
}
use attractor.Validator.Syntax.{
  is_valid_condition_key, is_valid_comparison, is_valid_clause, parse_condition_syntax,
}

-- A clause that is not refused: its comparison, and the value of its key.
pub record IsRead (dump : Json → Text) (s : Text) (outcome : Outcome) (snapshot : Json)
    : Type 0 where
  pub comparison : Comparison
  pub reads : parse_comparison (trim s) ≡ some comparison
  pub actual : Text
  pub value : actual_value dump comparison.key outcome snapshot ≡ some actual
  pub compares : eval_clause dump s outcome snapshot ≡ holds comparison.op actual comparison.val

and-left : (a b : Bool) → (a && b) ≡ true → a ≡ true
and-left a b h = ground arith

comparison-some :
    (o : Option Comparison)
    → is_valid_comparison o ≡ true
    → (c : Comparison) × (o ≡ some c) × (is_valid_condition_key c.key ≡ true)
unfolding is_valid_comparison
comparison-some none h = absurd (cc)
comparison-some (some c) h =
    (c, refl, and-left (is_valid_condition_key c.key) (not (is_empty c.val)) h)

valid_clause-comparison :
    (s : Text)
    → is_valid_clause s ≡ true
    → (c : Comparison) × (parse_comparison s ≡ some c) × (is_valid_condition_key c.key ≡ true)
unfolding is_valid_clause
valid_clause-comparison [] h = absurd (cc)
valid_clause-comparison (b ∷ s) h = comparison-some (parse_comparison (b ∷ s)) h

valid_key-value :
    (dump : Json → Text) (key : Text) (outcome : Outcome) (snapshot : Json)
    → is_valid_condition_key key ≡ true
    → (actual : Text) × (actual_value dump key outcome snapshot ≡ some actual)
unfolding is_valid_condition_key actual_value strip_prefix text
valid_key-value dump key outcome snapshot h = elim (Bool-cases (key == text "outcome")) [
  | inl a ↦ rw a (stage_status_to_string outcome.status, refl)
  | inr a ↦ elim (Bool-cases (key == text "preferred_label")) [
    | inl b ↦ rw (a, b) (outcome.preferred_label, refl)
    | inr b ↦ elim (Option-cases (strip_prefix (text "context.") key)) [
      | inl n ↦ let q : false ≡ true = rw (a, b, n) at h in absurd (cc)
      | inr p ↦ rw (a, b, p.1) (lookup_context dump snapshot p.0, refl)
    ]
  ]
]

eval_clause-reads :
    (dump : Json → Text) (s : Text) (outcome : Outcome) (snapshot : Json) (c : Comparison)
    (actual : Text)
    → parse_comparison (trim s) ≡ some c
    → actual_value dump c.key outcome snapshot ≡ some actual
    → eval_clause dump s outcome snapshot ≡ holds c.op actual c.val
unfolding eval_clause eval_comparison
eval_clause-reads dump s outcome snapshot c actual p v = rw (eval_clause, p, eval_comparison, v)

-- No clause of a condition that the validator accepts is refused at run time: in every outcome
-- and context it parses into a comparison, the key has a value, and the clause holds exactly when
-- the operator holds between that value and the literal.
pub parse_condition_syntax-IsRead :
    (dump : Json → Text) (condition : Text) (outcome : Outcome) (snapshot : Json) (s : Text)
    → is_empty condition ≡ false
    → parse_condition_syntax condition ≡ true
    → In s (clauses_of condition)
    → IsRead dump s outcome snapshot
unfolding parse_condition_syntax eval_clause eval_comparison
parse_condition_syntax-IsRead dump condition outcome snapshot s e h i =
    let every : all (λ t. is_valid_clause (trim t)) (clauses_of condition) ≡ true = rw e at h in
    let c =
      valid_clause-comparison (trim s)
        (all-In (λ t. is_valid_clause (trim t)) (clauses_of condition) every s i) in
    let v = valid_key-value dump c.0.key outcome snapshot c.2 in
    record {
      comparison = c.0;
      reads = c.1;
      actual = v.0;
      value = v.1;
      compares = eval_clause-reads dump s outcome snapshot c.0 v.0 c.1 v.1;
    }
