-- ===== src/Transform/Apply.antt =====
-- `node_matches_rule`, the two transforms and `apply_transforms` of src/transform.cpp.
use attractor.Prelude.{
  ℕ, zero, suc, Bool, true, false, ◌&&◌, not, Option, none, some, List, [], ◌∷◌, ◌++◌, map, Text,
  text, ◌==◌, leb, length, is_empty, if◌then◌else◌, split_on,
}
use attractor.Types.{ReasoningEffort, low, medium, high}
use attractor.Names.{node_shape_to_string}
use attractor.Graph.{
  Graph, Node, NodeVariant, CodergenNode, to_base, start_node, exit_node, codergen_node, tool_node,
  manager_node, wait_human_node, parallel_node, fan_in_node, conditional_node,
}
use attractor.Transform.Style.{
  StyleRule, SelectorType, universal, shape, css_class, id, skip_ws, rtrim, parse_stylesheet,
}

-- The loop of `replace_all`, which ends when `from` is not found. Each round consumes `from`, so
-- that rounds equal in number to the bytes of the text are enough (Expand).
unfoldable pub replace_from : ℕ → Text → Text → Text → Text
unfolding split_on
replace_from zero s from to = s
replace_from (suc fuel) s from to = elim (split_on from s) [
  | none ↦ s
  | some (before, rest) ↦ before ++ (to ++ replace_from fuel rest from to)
]

unfoldable pub replace_all : Text → Text → Text → Text
unfolding replace_from
replace_all s from to = if is_empty from then s else replace_from (length s) s from to

unfoldable pub expand_node : Text → NodeVariant → NodeVariant
unfolding replace_all
expand_node goal (start_node n) = start_node n
expand_node goal (exit_node n) = exit_node n
expand_node goal (codergen_node n) =
    codergen_node (record n { prompt = replace_all n.prompt (text "$goal") goal })
expand_node goal (tool_node n) = tool_node n
expand_node goal (manager_node n) = manager_node n
expand_node goal (wait_human_node n) = wait_human_node n
expand_node goal (parallel_node n) = parallel_node n
expand_node goal (fan_in_node n) =
    fan_in_node (record n { prompt = replace_all n.prompt (text "$goal") goal })
expand_node goal (conditional_node n) = conditional_node n

-- VariableExpansionTransform::apply
unfoldable pub expand_variables : Graph → Graph
unfolding expand_node
expand_variables graph = record graph { nodes = map (expand_node graph.goal) graph.nodes }

-- The loop over the classes of a node, which commas separate. Each round but the last consumes a
-- comma; at the end of the text the remaining part is empty.
unfoldable pub has_class : ℕ → Text → Text → Bool
unfolding split_on skip_ws rtrim
has_class fuel [] value = false
has_class zero (c ∷ s) value = false
has_class (suc fuel) (c ∷ s) value = elim (split_on (b',' ∷ []) (c ∷ s)) [
  | none ↦ rtrim (skip_ws (c ∷ s)) == value
  | some (token, remaining) ↦ elim (rtrim (skip_ws token) == value) [
    | true ↦ true
    | false ↦ has_class fuel remaining value
  ]
]

-- `==` of the name of a shape, which is a view, and a string.
unfoldable pub is_shape_name : Option Text → Text → Bool
is_shape_name none value = is_empty value
is_shape_name (some name) value = name == value

unfoldable pub matches : SelectorType → Node → Text → Bool
unfolding node_shape_to_string is_shape_name has_class
matches universal node value = true
matches shape node value = is_shape_name (node_shape_to_string node.shape) value
matches id node value = node.id == value
matches css_class node value = has_class (length node.css_class) node.css_class value

unfoldable pub node_matches_rule : NodeVariant → StyleRule → Bool
unfolding matches to_base
node_matches_rule nv rule = matches rule.selector (to_base nv) rule.selector_value

-- The value that wins so far and its specificity; `none` is the specificity -1.
pub record Candidate : Type 0 where
  pub value : Text
  pub spec : Option ℕ

unfoldable pub reaches : ℕ → Option ℕ → Bool
reaches n none = true
reaches n (some k) = leb k n

-- One of the three tests of the loop over the rules.
unfoldable pub improve : Text → ℕ → Candidate → Candidate
unfolding reaches
improve val specificity c =
    if not (is_empty val) && reaches specificity c.spec
    then record { value = val; spec = some specificity }
    else c

pub record Best : Type 0 where
  pub model : Candidate
  pub provider : Candidate
  pub effort : Candidate

unfoldable pub consider : NodeVariant → StyleRule → Best → Best
unfolding node_matches_rule improve
consider nv rule b =
    if node_matches_rule nv rule
    then record {
      model = improve rule.llm_model rule.specificity b.model;
      provider = improve rule.llm_provider rule.specificity b.provider;
      effort = improve rule.reasoning_effort rule.specificity b.effort;
    }
    else b

unfoldable pub best_of : NodeVariant → List StyleRule → Best → Best
unfolding consider
best_of nv [] b = b
best_of nv (rule ∷ rules) b = best_of nv rules (consider nv rule b)

abbrev pub no_candidate : Candidate
no_candidate = record { value = []; spec = none }

abbrev pub no_best : Best
no_best = record { model = no_candidate; provider = no_candidate; effort = no_candidate }

-- The assignments to a text field and to the reasoning effort.
unfoldable pub fill_text : Text → Text → Text
fill_text best own = if not (is_empty best) && is_empty own then best else own

unfoldable pub fill_effort : Text → Option ReasoningEffort → Option ReasoningEffort
fill_effort best (some e) = some e
fill_effort best none =
    if best == text "low"
    then some low
    else if best == text "medium"
    then some medium
    else if best == text "high"
    then some high
    else none

unfoldable pub style_codergen : Best → CodergenNode → CodergenNode
unfolding fill_text fill_effort
style_codergen b n = record n {
  llm_model = fill_text b.model.value n.llm_model;
  llm_provider = fill_text b.provider.value n.llm_provider;
  reasoning_effort = fill_effort b.effort.value n.reasoning_effort;
}

unfoldable pub style_node : List StyleRule → NodeVariant → NodeVariant
unfolding best_of style_codergen
style_node rules (start_node n) = start_node n
style_node rules (exit_node n) = exit_node n
style_node rules (codergen_node n) =
    codergen_node (style_codergen (best_of (codergen_node n) rules no_best) n)
style_node rules (tool_node n) = tool_node n
style_node rules (manager_node n) = manager_node n
style_node rules (wait_human_node n) = wait_human_node n
style_node rules (parallel_node n) = parallel_node n
style_node rules (fan_in_node n) = fan_in_node n
style_node rules (conditional_node n) = conditional_node n

unfoldable pub with_rules : Graph → Option (List StyleRule) → Option Graph
unfolding style_node
with_rules graph none = none
with_rules graph (some rules) = some (record graph { nodes = map (style_node rules) graph.nodes })

-- StylesheetTransform::apply
unfoldable pub apply_stylesheet : Graph → Option Graph
unfolding parse_stylesheet with_rules
apply_stylesheet graph =
    if is_empty graph.model_stylesheet
    then some graph
    else with_rules graph (parse_stylesheet graph.model_stylesheet)

-- The loop over the custom transforms; `none` is a null pointer.
unfoldable pub apply_custom : List (Option (Graph → Graph)) → Graph → Graph
apply_custom [] g = g
apply_custom (none ∷ ts) g = apply_custom ts g
apply_custom (some t ∷ ts) g = apply_custom ts (t g)

unfoldable pub apply_transforms : Graph → List (Option (Graph → Graph)) → Option Graph
unfolding expand_variables apply_stylesheet apply_custom
apply_transforms graph custom_transforms = elim (apply_stylesheet (expand_variables graph)) [
  | none ↦ none
  | some g ↦ some (apply_custom custom_transforms g)
]
