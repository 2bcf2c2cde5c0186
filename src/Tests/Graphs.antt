-- ===== src/Tests/Graphs.antt =====
-- The theorems of the validator, applied to the sample pipeline.
use attractor.Prelude.{
  none, ◌||◌, if◌then◌else◌, ◌≡◌, refl, Bool, true, false, Option, some, List, [], ◌∷◌, Text, ok,
  ◌↔◌, In, inl,
}
use attractor.Json.{object, end}
use attractor.Types.{NodeId, house, triple_octagon, same_shape}
use attractor.Registry.{shape_to_handler_type}
use attractor.Validator.Shapes.{shape_for_handler_type-shape_to_handler_type}
use attractor.Handler.{default_outcome}
use attractor.Condition.{clauses_of}
use attractor.Validator.Reachable.{reachable_ids}
use attractor.Validator.Search.{Reach}
use attractor.Validator.Reached.{reachable_ids-Reach}
use attractor.Validator.Syntax.{parse_condition_syntax}
use attractor.Validator.Rules.{ValidationConfig, shape_for_handler_type}
use attractor.Validator.Warnings.{validate_or_raise}
use attractor.Validator.Accepted.{IsRunnable, validate_or_raise-IsRunnable}
use attractor.Validator.Conditions.{IsRead, parse_condition_syntax-IsRead}
use attractor.Tests.Samples.{pipeline, start_id, no_dump}

reachable_ids-Reach_example :
    (v : List NodeId) × (reachable_ids pipeline start_id ≡ some v)
    × ((id : NodeId) → (In id v ↔ Reach pipeline.edges start_id id))
reachable_ids-Reach_example = reachable_ids-Reach pipeline start_id

abbrev no_types : ValidationConfig
no_types = record { known_types = [] }

pipeline_accepted : validate_or_raise pipeline no_types [] ≡ ok []
unfolding validate_or_raise attractor.Prelude.select attractor.Types.same_shape
    attractor.Graph.to_base attractor.Prelude.◌==◌ attractor.Prelude.text attractor.Prelude.any
    attractor.Prelude.find
pipeline_accepted = refl

validate_or_raise-IsRunnable_example : IsRunnable pipeline
validate_or_raise-IsRunnable_example =
    validate_or_raise-IsRunnable pipeline no_types [] pipeline_accepted

-- outcome=a
abbrev condition : Text
condition = b'o' ∷ b'u' ∷ b't' ∷ b'c' ∷ b'o' ∷ b'm' ∷ b'e' ∷ b'=' ∷ b'a' ∷ []

condition_accepted : parse_condition_syntax condition ≡ true
unfolding parse_condition_syntax attractor.Prelude.all attractor.Prelude.drop_while
    attractor.Prelude.drop_while_end attractor.Condition.is_blank
    attractor.Condition.parse_comparison attractor.Prelude.split_on attractor.Prelude.strip_prefix
    attractor.Prelude.text attractor.Prelude.◌==◌
condition_accepted = refl

condition_clause : In condition (clauses_of condition)
unfolding clauses_of
condition_clause = inl refl

parse_condition_syntax-IsRead_example : IsRead no_dump condition default_outcome (object end)
parse_condition_syntax-IsRead_example =
    parse_condition_syntax-IsRead no_dump condition default_outcome (object end) condition refl
      condition_accepted condition_clause

shape_for_handler_type-shape_to_handler_type_example :
    shape_for_handler_type (shape_to_handler_type house)
    ≡ (if same_shape house house || same_shape house triple_octagon then none else some house)
shape_for_handler_type-shape_to_handler_type_example =
    shape_for_handler_type-shape_to_handler_type house
