-- ===== src/Condition.antt =====
-- The condition language of the edges: `trim`, `stage_status_to_string`, `lookup_context`,
-- `eval_clause` and `eval_condition` of src/engine.cpp. `dump` is nlohmann::json's printer.
pub mod Laws
use attractor.Prelude.{
  ℕ, Bool, true, false, ◌&&◌, ◌||◌, not, Option, none, some, List, [], ◌∷◌, Text, text, ◌==◌,
  nat_eq, ltb, length, all, is_empty, drop_while, drop_while_end, strip_prefix, split_on,
  if◌then◌else◌, map, to_lower, is_alnum,
}
use attractor.Json.{Json, null, str, get_member}
use attractor.Types.{
  StageStatus, success, partial_success, fail, retry, skipped, ConditionExpr, EdgeLabel,
}
use attractor.Handler.{Outcome}

unfoldable pub stage_status_to_string : StageStatus → Text
stage_status_to_string success = text "success"
stage_status_to_string partial_success = text "partial_success"
stage_status_to_string fail = text "fail"
stage_status_to_string retry = text "retry"
stage_status_to_string skipped = text "skipped"

-- One of " \t\n\r".
unfoldable pub is_blank : ℕ → Bool
is_blank c = nat_eq c 32 || (nat_eq c 9 || (nat_eq c 10 || nat_eq c 13))

unfoldable pub trim : Text → Text
trim s = drop_while is_blank (drop_while_end is_blank s)

-- The accelerator prefixes "[K] ", "K) " and "K - " of a trimmed label.
unfoldable pub strip_accelerator : Text → Text
strip_accelerator (a ∷ b ∷ c ∷ d ∷ r) =
    if nat_eq a b'['
    then (if nat_eq c b']' && nat_eq d 32 then r else a ∷ b ∷ c ∷ d ∷ r)
    else if is_alnum a && (nat_eq b b')' && nat_eq c 32)
    then d ∷ r
    else if is_alnum a && (nat_eq b 32 && (nat_eq c b'-' && nat_eq d 32))
    then r
    else a ∷ b ∷ c ∷ d ∷ r
strip_accelerator (a ∷ b ∷ c ∷ []) =
    if is_alnum a && (nat_eq b b')' && nat_eq c 32) then [] else a ∷ b ∷ c ∷ []
strip_accelerator t = t

unfoldable pub normalize_label : EdgeLabel → EdgeLabel
normalize_label s = map to_lower (strip_accelerator (trim s))

-- The keys that the loop of `lookup_context` takes from its path, one for each round: the path is
-- cut at its dots, and an empty rest ends the loop.
abbrev extend_first : ℕ → List Text → List Text
extend_first c [] = (c ∷ []) ∷ []
extend_first c (key ∷ keys) = (c ∷ key) ∷ keys

unfoldable pub path_keys : Text → List Text
path_keys [] = []
path_keys (c ∷ path) =
    let rest = path_keys path in if nat_eq c b'.' then [] ∷ rest else extend_first c rest

-- The rounds of the loop: `none` is the early return for a key that is not there.
unfoldable pub walk_keys : Json → List Text → Option Json
walk_keys current [] = some current
walk_keys current (key ∷ keys) = elim (get_member key current) [
  | none ↦ none
  | some next ↦ walk_keys next keys
]

-- What `find("&&", pos)` cuts off first, and the later clauses.
unfoldable pub cut_clauses : Text → Text × List Text
cut_clauses [] = ([], [])
cut_clauses (c ∷ []) = (c ∷ [], [])
cut_clauses (c ∷ d ∷ s) =
    let shorter = cut_clauses s in
    let next = cut_clauses (d ∷ s) in
    if nat_eq c b'&' && nat_eq d b'&' then ([], shorter.0 ∷ shorter.1) else (c ∷ next.0, next.1)

unfoldable pub clauses_of : Text → List Text
unfolding cut_clauses
clauses_of expr = (cut_clauses expr).0 ∷ (cut_clauses expr).1

pub data Operator : Type 0 where
  equals differs : Operator

pub record Comparison : Type 0 where
  pub key : Text
  pub op : Operator
  pub val : Text

abbrev compared : Operator → Text × Text → Comparison
compared op (before, after) = record { key = trim before; op = op; val = trim after }

-- The choice between `!=` and `=`: the one that is found first.
abbrev choose_operator : Option (Text × Text) → Option (Text × Text) → Option Comparison
choose_operator (some neq) (some eq) =
    if ltb (length neq.0) (length eq.0)
    then some (compared differs neq)
    else some (compared equals eq)
choose_operator (some neq) none = some (compared differs neq)
choose_operator none (some eq) = some (compared equals eq)
choose_operator none none = none

unfoldable pub parse_comparison : Text → Option Comparison
unfolding trim
parse_comparison clause = choose_operator (split_on (text "!=") clause) (split_on (text "=") clause)

unfoldable pub holds : Operator → Text → Text → Bool
holds equals actual val = actual == val
holds differs actual val = not (actual == val)

module _ (dump : Json → Text) where
  -- A value as the conditions read it.
  unfoldable pub json_text : Json → Text
  json_text (str s) = s
  json_text null = []
  json_text j = dump j

  unfoldable pub lookup_context : Json → Text → Text
  unfolding path_keys walk_keys json_text
  lookup_context snapshot path = elim (walk_keys snapshot (path_keys path)) [
    | none ↦ []
    | some current ↦ json_text current
  ]

  -- The value of a key; `none` for a key of another form.
  unfoldable pub actual_value : Text → Outcome → Json → Option Text
  unfolding stage_status_to_string
  actual_value key outcome snapshot =
      if key == text "outcome"
      then some (stage_status_to_string outcome.status)
      else if key == text "preferred_label"
      then some outcome.preferred_label
      else elim (strip_prefix (text "context.") key) [
        | some path ↦ some (lookup_context snapshot path)
        | none ↦ none
      ]

  unfoldable pub eval_comparison : Comparison → Outcome → Json → Bool
  unfolding actual_value holds
  eval_comparison c outcome snapshot = elim (actual_value c.key outcome snapshot) [
    | some actual ↦ holds c.op actual c.val
    | none ↦ false
  ]

  unfoldable pub eval_clause : Text → Outcome → Json → Bool
  unfolding parse_comparison eval_comparison
  eval_clause clause_str outcome snapshot = elim (parse_comparison (trim clause_str)) [
    | some c ↦ eval_comparison c outcome snapshot
    | none ↦ false
  ]

  unfoldable pub eval_condition : ConditionExpr → Outcome → Json → Bool
  unfolding clauses_of eval_clause
  eval_condition condition outcome snapshot =
      if is_empty condition
      then true
      else all (λ clause. eval_clause clause outcome snapshot) (clauses_of condition)
