-- ===== src/Tests/Styles.antt =====
-- The theorems of the transforms, applied to a stylesheet of two rules and to the sample pipeline.
use attractor.Prelude.{true, none, some, ◌≡◌, refl, List, [], ◌∷◌, Text, All}
use attractor.Graph.{Graph, CodergenNode}
use attractor.Types.{box}
use attractor.Validator.Warnings.{check_shapes}
use attractor.Validator.Rules.{error_rules}
use attractor.Transform.Style.{StyleRule, universal, id, parse_stylesheet}
use attractor.Transform.Parse.{IsRanked, parse_stylesheet-IsRanked}
use attractor.Transform.Apply.{replace_all, apply_transforms}
use attractor.Transform.Expand.{IsReplaced, replace_all-IsReplaced}
use attractor.Transform.Keeps.{IsSameOutline, apply_transforms-error_rules}
use attractor.Tests.Samples.{pipeline, node_of, gate_id}

-- *{llm_model:m;}#g{}
abbrev sheet : Text
sheet =
    b'*' ∷ b'{' ∷ b'l' ∷ b'l' ∷ b'm' ∷ b'_' ∷ b'm' ∷ b'o' ∷ b'd' ∷ b'e' ∷ b'l' ∷ b':' ∷ b'm' ∷ b';'
    ∷ b'}' ∷ b'#' ∷ b'g' ∷ b'{' ∷ b'}' ∷ []

parse_stylesheet-IsRanked_example :
    (rules : List StyleRule) × (parse_stylesheet sheet ≡ some rules) × All IsRanked rules
parse_stylesheet-IsRanked_example = parse_stylesheet-IsRanked sheet

-- $goal in a text: "a$goal" with "x" for "$goal".
abbrev dollar_goal : Text
dollar_goal = b'$' ∷ b'g' ∷ b'o' ∷ b'a' ∷ b'l' ∷ []

replace_all-IsReplaced_example :
    IsReplaced
      (b'a' ∷ dollar_goal)
      dollar_goal
      (b'x' ∷ [])
      (replace_all (b'a' ∷ dollar_goal) dollar_goal (b'x' ∷ []))
replace_all-IsReplaced_example =
    replace_all-IsReplaced (b'a' ∷ dollar_goal) dollar_goal (b'x' ∷ []) refl

abbrev stage : CodergenNode
stage = record {
  base = node_of gate_id box true [];
  prompt = [];
  llm_model = [];
  llm_provider = b'p' ∷ [];
  reasoning_effort = none;
}

abbrev rules : List StyleRule
rules =
    record {
      selector = id;
      selector_value = gate_id;
      specificity = 3;
      llm_model = b'i' ∷ [];
      llm_provider = b'q' ∷ [];
      reasoning_effort = [];
    }
    ∷ record {
      selector = universal;
      selector_value = [];
      specificity = 0;
      llm_model = b'u' ∷ [];
      llm_provider = [];
      reasoning_effort = [];
    }
    ∷ []

apply_transforms-error_rules_example :
    (out : Graph) × (apply_transforms pipeline [] ≡ some out)
    × IsSameOutline pipeline out
    × (error_rules out ≡ error_rules pipeline)
    × (check_shapes out ≡ check_shapes pipeline)
apply_transforms-error_rules_example = apply_transforms-error_rules pipeline
