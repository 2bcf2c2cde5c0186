-- ===== src/Validator/Warnings.antt =====
-- The rules of `validate` of src/validator.cpp that run on a graph without structural errors, and
-- `validate` and `validate_or_raise` themselves.
use attractor.Prelude.{
  Bool, true, false, ◌&&◌, ◌||◌, not, Option, none, some, List, [], ◌++◌, Text, text, ◌==◌, select,
  find, is_empty, Result, ok, err, if◌then◌else◌,
}
use attractor.Types.{NodeId, error, warning, info, FidelityMode, same_shape, PromptText}
use attractor.Graph.{Graph, Node, NodeVariant, to_base, codergen_node}
use attractor.Validator.Reachable.{contains, reachable_ids}
use attractor.Validator.Rules.{
  Diagnostic, ValidationConfig, LintRule, is_start_node, is_terminal_node, shape_for_handler_type,
  is_known_fidelity_mode, push_each, push_if, diagnostic, bases, has_node, structural_errors,
  error_rules, apply_extra,
}

-- `reachable`; the search always ends (Reached).
unfoldable pub reachable : Graph → NodeId → List NodeId
unfolding reachable_ids
reachable graph start = elim (reachable_ids graph start) [ some visited ↦ visited | none ↦ [] ]

unfoldable pub check_reachability : Graph → List Diagnostic
unfolding bases is_start_node push_each contains reachable
check_reachability graph = elim (find is_start_node (bases graph)) [
  | none ↦ []
  | some start ↦
      let visited = reachable graph start.id in
      push_each
        (λ n. push_if (not (is_start_node n) && not (contains visited n.id)) (
          diagnostic warning (text "reachability") (some n.id) none
            (text "Node '" ++ (n.id ++ text "' is unreachable from start"))
            (text "Remove or connect the unreachable node")))
        (bases graph)
]

unfoldable pub check_known_types : Graph → ValidationConfig → List Diagnostic
unfolding bases push_each contains
check_known_types graph config =
    if is_empty config.known_types
    then []
    else push_each
        (λ n.
          push_if (not (is_empty n.node_type) && not (contains config.known_types n.node_type)) (
            diagnostic warning (text "type_known") (some n.id) none
              (text "Node type '"
                ++ (n.node_type ++ text "' is not registered in the handler registry"))
              (text "Register this handler type or correct the type attribute")))
        (bases graph)

-- Whether an explicit type asks for another shape.
unfoldable pub is_inconsistent : Node → Bool
unfolding shape_for_handler_type
is_inconsistent n = not (is_empty n.node_type) && elim (shape_for_handler_type n.node_type) [
  | some expected ↦ not (same_shape expected n.shape)
  | none ↦ false
]

unfoldable pub check_shapes : Graph → List Diagnostic
unfolding bases push_each is_inconsistent
check_shapes graph =
    push_each
      (λ n. push_if (is_inconsistent n) (
        diagnostic error (text "shape_type_consistency") (some n.id) none
          (text "Node '"
            ++ (n.id
                ++ (text "' has type='"
                    ++ (n.node_type
                        ++ text
                            "' but shape does not match (handler would perform an unsafe cast)"))))
          (text "Remove the explicit shape= attribute or align it with the type= value")))
      (bases graph)

abbrev unknown_mode : Option FidelityMode → Bool
unknown_mode none = false
unknown_mode (some m) = not (is_known_fidelity_mode m)

abbrev bad_fidelity : Option NodeId → Text → Diagnostic
bad_fidelity node m =
    diagnostic warning (text "fidelity_valid") node none m
      (text "Use one of: full, truncate, compact, summary:low, summary:medium, summary:high")

unfoldable pub check_fidelity : Graph → List Diagnostic
unfolding bases push_each is_known_fidelity_mode
check_fidelity graph =
    push_each
      (λ n.
        push_if (unknown_mode n.fidelity)
          (bad_fidelity (some n.id) (text "fidelity attribute has unrecognised value")))
      (bases graph)
    ++ (push_each
          (λ e.
            push_if (unknown_mode e.fidelity) (
              bad_fidelity (some e.source) (text "edge fidelity attribute has unrecognised value")))
          graph.edges
        ++ push_if (unknown_mode graph.default_fidelity)
            (bad_fidelity none (text "graph default_fidelity attribute has unrecognised value")))

unfoldable pub check_retry_target : Graph → NodeId → NodeId → Text → List Diagnostic
unfolding has_node
check_retry_target graph target subject attr =
    push_if (not (is_empty target) && not (has_node graph target)) (
      diagnostic warning (text "retry_target_exists") (some subject) none
        (attr ++ (text " '" ++ (target ++ text "' does not exist")))
        (text "Ensure retry_target references an existing node ID"))

unfoldable pub check_retry_targets : Graph → List Diagnostic
unfolding bases push_each check_retry_target has_node
check_retry_targets graph =
    push_each
      (λ n.
        check_retry_target graph n.retry_target n.id (text "retry_target")
        ++ check_retry_target graph n.fallback_retry_target n.id (text "fallback_retry_target"))
      (bases graph)
    ++ (push_if (not (is_empty graph.retry_target) && not (has_node graph graph.retry_target)) (
          diagnostic warning (text "retry_target_exists") none none
            (text "graph.retry_target '" ++ (graph.retry_target ++ text "' does not exist"))
            (text "Ensure graph-level retry_target references an existing node ID"))
        ++ push_if
            (not (is_empty graph.fallback_retry_target)
              && not (has_node graph graph.fallback_retry_target))
            (diagnostic warning (text "retry_target_exists") none none
              (text "graph.fallback_retry_target '"
                ++ (graph.fallback_retry_target ++ text "' does not exist"))
              (text "Ensure graph-level fallback_retry_target references an existing node ID")))

unfoldable pub check_goal_gates : Graph → List Diagnostic
unfolding bases push_each
check_goal_gates graph =
    push_each
      (λ n.
        let node_has_retry =
          not (is_empty n.retry_target) || not (is_empty n.fallback_retry_target) in
        let graph_has_retry =
          not (is_empty graph.retry_target) || not (is_empty graph.fallback_retry_target) in
        push_if (n.goal_gate && (not node_has_retry && not graph_has_retry)) (
          diagnostic warning (text "goal_gate_has_retry") (some n.id) none
            (text "goal_gate node '" ++ (n.id ++ text "' has no retry_target"))
            (text "Set retry_target on the node or set graph-level retry_target")))
      (bases graph)

-- The prompt of a codergen node.
abbrev codergen_prompt : NodeVariant → Option PromptText
codergen_prompt (codergen_node cn) = some cn.prompt
codergen_prompt nv = none

unfoldable pub check_prompts : Graph → List Diagnostic
unfolding push_each is_start_node is_terminal_node
check_prompts graph =
    push_each
      (λ nv.
        let n = to_base nv in
        let label_is_auto = is_empty n.label || n.label == n.id in
        if is_start_node n || is_terminal_node n then [] else elim (codergen_prompt nv) [
          | none ↦ []
          | some prompt ↦ push_if (is_empty prompt && label_is_auto) (
              diagnostic warning (text "prompt_on_llm_nodes") (some n.id) none
                (text "Codergen node '" ++ (n.id ++ text "' has neither prompt nor label"))
                (text "Add a prompt or label attribute to this codergen node"))
        ])
      graph.nodes

unfoldable pub warning_rules : Graph → ValidationConfig → List Diagnostic
unfolding check_reachability check_known_types check_shapes check_fidelity check_retry_targets
    check_goal_gates check_prompts
warning_rules graph config =
    check_reachability graph
    ++ (check_known_types graph config
        ++ (check_shapes graph
            ++ (check_fidelity graph
                ++ (check_retry_targets graph ++ (check_goal_gates graph ++ check_prompts graph)))))

unfoldable pub validate : Graph → ValidationConfig → List LintRule → List Diagnostic
unfolding error_rules structural_errors warning_rules apply_extra
validate graph config extra_rules =
    error_rules graph
    ++ ((if structural_errors graph then [] else warning_rules graph config)
        ++ apply_extra graph extra_rules)

unfoldable pub is_error : Diagnostic → Bool
is_error d = elim d.severity [ error ↦ true | warning ↦ false | info ↦ false ]

-- `ValidationError` holds the errors.
unfoldable pub validate_or_raise :
    Graph → ValidationConfig → List LintRule → Result (List Diagnostic) (List Diagnostic)
unfolding validate is_error
validate_or_raise graph config extra_rules =
    let errors = select is_error (validate graph config extra_rules) in
    if is_empty errors then ok [] else err errors
