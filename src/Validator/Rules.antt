-- ===== src/Validator/Rules.antt =====
-- `validate` and `validate_or_raise` of src/validator.cpp: a rule is a function that gives its
-- diagnostics in the order of the code. The sets of ids are lists, and the fuel of the search and
-- of the stylesheet parser always gives a result (Reached, Stylesheet).
use attractor.Prelude.{
  Bool, true, false, ◌&&◌, ◌||◌, not, Option, none, some, List, [], ◌∷◌, ◌++◌, Text, text, ◌==◌,
  nat_eq, length, select, is_empty, map, if◌then◌else◌,
}
use attractor.Types.{
  NodeId, NodeShape, mdiamond, msquare, box, hexagon, diamond, component, triple_octagon,
  parallelogram, house, Severity, error, HandlerTypeName, RuleId, DiagnosticMessage, SuggestedFix,
  FidelityMode, full, truncate, compact, summary_low, summary_medium, summary_high, same_shape,
}
use attractor.Graph.{Graph, Node, to_base}
use attractor.Validator.Syntax.{parse_condition_syntax, parse_stylesheet_syntax}
use attractor.Validator.Reachable.{contains}

pub record Diagnostic : Type 0 where
  pub rule_id : RuleId
  pub severity : Severity
  pub node_id : Option NodeId
  pub to_node_id : Option NodeId
  pub message : DiagnosticMessage
  pub suggested_fix : SuggestedFix

pub record ValidationConfig : Type 0 where
  pub known_types : List HandlerTypeName

-- `LintRule::apply`; a null pointer is `none`.
abbrev pub LintRule : Type 0
LintRule = Option (Graph → List Diagnostic)

unfoldable pub is_start_node : Node → Bool
is_start_node n = same_shape n.shape mdiamond || (n.id == text "start" || n.id == text "Start")

unfoldable pub is_terminal_node : Node → Bool
is_terminal_node n = same_shape n.shape msquare || (n.id == text "exit" || n.id == text "end")

unfoldable pub shape_for_handler_type : HandlerTypeName → Option NodeShape
shape_for_handler_type nt =
    if nt == text "codergen"
    then some box
    else if nt == text "tool"
    then some parallelogram
    else if nt == text "manager.loop"
    then some house
    else if nt == text "wait.human"
    then some hexagon
    else if nt == text "parallel"
    then some component
    else if nt == text "fan.in"
    then some triple_octagon
    else if nt == text "conditional"
    then some diamond
    else if nt == text "start"
    then some mdiamond
    else if nt == text "exit"
    then some msquare
    else none

unfoldable pub is_known_fidelity_mode : FidelityMode → Bool
is_known_fidelity_mode full = true
is_known_fidelity_mode truncate = true
is_known_fidelity_mode compact = true
is_known_fidelity_mode summary_low = true
is_known_fidelity_mode summary_medium = true
is_known_fidelity_mode summary_high = true

-- A loop that pushes what each element gives.
unfoldable pub push_each : {A : Type 0} → (A → List Diagnostic) → List A → List Diagnostic
push_each f [] = []
push_each f (x ∷ xs) = f x ++ push_each f xs

-- `if (test) diags.push_back(d)`.
abbrev pub push_if : Bool → Diagnostic → List Diagnostic
push_if test d = if test then d ∷ [] else []

abbrev pub diagnostic : Severity → Text → Option NodeId → Option NodeId → Text → Text → Diagnostic
diagnostic s rule node to m fix = record {
  rule_id = rule;
  severity = s;
  node_id = node;
  to_node_id = to;
  message = m;
  suggested_fix = fix;
}

unfoldable pub bases : Graph → List Node
bases graph = map to_base graph.nodes

-- `node_ids.count(id)`.
unfoldable pub has_node : Graph → NodeId → Bool
unfolding contains bases
has_node graph id = contains (map (λ n. n.id) (bases graph)) id

unfoldable pub check_start : Graph → List Diagnostic
unfolding is_start_node bases
check_start graph =
    let starts = select is_start_node (bases graph) in
    push_if (not (nat_eq (length starts) 1)) (
      diagnostic error (text "start_node") none none
        (if is_empty starts
          then text "No start node found (shape=Mdiamond or id='start'/'Start')"
          else text "Multiple start nodes found; exactly one is required")
        (text "Add exactly one start node with shape=Mdiamond"))

unfoldable pub check_terminal : Graph → List Diagnostic
unfolding is_terminal_node bases
check_terminal graph =
    let terminals = select is_terminal_node (bases graph) in
    push_if (not (nat_eq (length terminals) 1)) (
      diagnostic error (text "terminal_node") none none
        (if is_empty terminals
          then text "No terminal node found (shape=Msquare or id='exit'/'end')"
          else text "Multiple terminal nodes found; exactly one is required")
        (text "Add exactly one terminal node with shape=Msquare"))

unfoldable pub is_both : Node → Bool
unfolding is_start_node is_terminal_node
is_both n = is_start_node n && is_terminal_node n

unfoldable pub check_both : Graph → List Diagnostic
unfolding push_each is_both bases
check_both graph =
    push_each
      (λ n. push_if (is_both n) (
        diagnostic error (text "start_node") (some n.id) none
          (text "Node '" ++ (n.id ++ text "' matches both start and terminal criteria"))
          (text "A node cannot be both a start and terminal node; use distinct nodes")))
      (bases graph)

-- `structural_errors`: one of the three rules above has pushed.
unfoldable pub structural_errors : Graph → Bool
unfolding check_start check_terminal check_both
structural_errors graph =
    not (is_empty (check_start graph ++ (check_terminal graph ++ check_both graph)))

unfoldable pub check_edge_ends : Graph → List Diagnostic
unfolding push_each has_node
check_edge_ends graph =
    push_each
      (λ e.
        push_if (not (has_node graph e.source)) (
          diagnostic error (text "edge_target_exists") (some e.source) none
            (text "Edge source '" ++ (e.source ++ text "' does not exist"))
            (text "Ensure all edge targets reference existing node IDs"))
        ++ push_if (not (has_node graph e.to)) (
            diagnostic error (text "edge_target_exists") (some e.source) (some e.to)
              (text "Edge target '" ++ (e.to ++ text "' does not exist"))
              (text "Ensure all edge targets reference existing node IDs")))
      graph.edges

unfoldable pub has_incoming : Graph → NodeId → Bool
unfolding contains
has_incoming graph id = contains (map (λ e. e.to) graph.edges) id

unfoldable pub has_outgoing : Graph → NodeId → Bool
unfolding contains
has_outgoing graph id = contains (map (λ e. e.source) graph.edges) id

unfoldable pub check_degrees : Graph → List Diagnostic
unfolding push_each is_start_node is_terminal_node bases has_incoming has_outgoing
check_degrees graph =
    push_each
      (λ n.
        push_if (is_start_node n && has_incoming graph n.id) (
          diagnostic error (text "start_no_incoming") (some n.id) none
            (text "Start node '" ++ (n.id ++ text "' must not have incoming edges"))
            (text "Remove incoming edges from the start node"))
        ++ push_if (is_terminal_node n && has_outgoing graph n.id) (
            diagnostic error (text "exit_no_outgoing") (some n.id) none
              (text "Terminal node '" ++ (n.id ++ text "' must not have outgoing edges"))
              (text "Remove outgoing edges from the terminal node")))
      (bases graph)

-- An id of a diagnostic, if it is not empty.
abbrev named : NodeId → Option NodeId
named id = if is_empty id then none else some id

unfoldable pub check_conditions : Graph → List Diagnostic
unfolding push_each parse_condition_syntax
check_conditions graph =
    push_each
      (λ e. push_if (not (is_empty e.condition) && not (parse_condition_syntax e.condition)) (
        diagnostic error (text "condition_syntax") (named e.source) (named e.to)
          (text "Edge condition '" ++ (e.condition ++ text "' is not valid syntax"))
          (text
            "Use Key Op Literal format; Key must be outcome, preferred_label, or context.<path>")))
      graph.edges

-- Whether the parser has accepted.
abbrev pub accepts : Option Bool → Bool
accepts (some b) = b
accepts none = false

unfoldable pub check_stylesheet : Graph → List Diagnostic
unfolding parse_stylesheet_syntax
check_stylesheet graph =
    push_if
      (not (is_empty graph.model_stylesheet)
        && not (accepts (parse_stylesheet_syntax graph.model_stylesheet)))
      (diagnostic error (text "stylesheet_syntax") none none
        (text "model_stylesheet is not valid CSS-like syntax")
        (text "Use 'selector { key: value; }' format"))

unfoldable pub error_rules : Graph → List Diagnostic
unfolding check_start check_terminal check_both check_edge_ends check_degrees check_conditions
    check_stylesheet
error_rules graph =
    check_start graph
    ++ (check_terminal graph
        ++ (check_both graph
            ++ (check_edge_ends graph
                ++ (check_degrees graph ++ (check_conditions graph ++ check_stylesheet graph)))))

-- `extra_rules`, at both places where `validate` applies them.
unfoldable pub apply_extra : Graph → List LintRule → List Diagnostic
apply_extra graph [] = []
apply_extra graph (none ∷ rules) = apply_extra graph rules
apply_extra graph (some rule ∷ rules) = rule graph ++ apply_extra graph rules
