-- ===== src/Dot/Attributes.antt =====
-- What the attributes of nodes, edges and graphs set in src/dot_parser.cpp. An attribute map is in
-- the order of its keys (the program's map has no order of its own, and the loops over it return
-- the first error that they meet).
use attractor.Prelude.{
  ℕ, suc, ◌||◌, Option, none, some, [], ◌∷◌, ◌++◌, Text, text, ◌==◌, is_empty, Map, ℤ, pos, Result,
  ok, err, ◌>>=◌, if◌then◌else◌,
}
use attractor.Types.{JoinPolicy, wait_all, first_success, NodeShape}
use attractor.Names.{node_shape_from_string}
use attractor.Graph.{
  Graph, Node, Edge, CodergenNode, ToolNode, ManagerNode, WaitHumanNode, ParallelNode, FanInNode,
}
use attractor.Dot.Position.{ParseError}
use attractor.Dot.Values.{
  parse_int_attr, parse_duration, parse_fidelity_mode, parse_reasoning_effort, error_at,
}

abbrev pub AttrMap : Type 0
AttrMap = Map Text

-- An error without a position, and that of a value that cannot be read.
abbrev pub attr_error : Text → ParseError
attr_error message = error_at message 0 0

unfoldable pub invalid_value : Text → Text → ParseError
invalid_value key val =
    attr_error (text "invalid value for attribute '" ++ (key ++ (text "': '" ++ (val ++ text "'"))))

-- A loop over the attributes.
unfoldable pub apply_each :
    {A : Type 0} → (A → Text → Text → Result ParseError A) → A → AttrMap → Result ParseError A
apply_each f a [] = ok a
apply_each f a ((key, val) ∷ attrs) = f a key val >>= λ b. apply_each f b attrs

-- The value of an option, or the error.
unfoldable pub need : {A : Type 0} → Text → Text → Option A → Result ParseError A
unfolding invalid_value
need key val none = err (invalid_value key val)
need key val (some a) = ok a

-- An integer that is not negative, and one that is positive.
unfoldable pub non_negative : Option ℤ → Option ℕ
non_negative (some (pos n)) = some n
non_negative _ = none

unfoldable pub positive : Option ℤ → Option ℕ
positive (some (pos (suc n))) = some (suc n)
positive _ = none

-- A class added to those that are there.
unfoldable pub add_class : Text → Text → Text
add_class css_class val = if is_empty css_class then val else css_class ++ (text " " ++ val)

-- A shape that is read, or the error.
unfoldable pub known_shape : Text → Option NodeShape → Result ParseError NodeShape
known_shape val none = err (attr_error (text "unknown shape: '" ++ (val ++ text "'")))
known_shape val (some s) = ok s

unfoldable pub apply_base_attr : Node → Text → Text → Result ParseError Node
unfolding need non_negative add_class known_shape parse_int_attr parse_duration parse_fidelity_mode
    node_shape_from_string
apply_base_attr node key val =
    if key == text "label"
    then ok (record node { label = val })
    else if key == text "shape"
    then (known_shape val (node_shape_from_string val) >>= λ s. ok (record node { shape = s }))
    else if key == text "type"
    then ok (record node { node_type = val })
    else if key == text "max_retries"
    then (need key val (non_negative (parse_int_attr val)) >>= λ n.
        ok (record node { max_retries = some n }))
    else if key == text "goal_gate"
    then ok (record node { goal_gate = val == text "true" })
    else if key == text "retry_target"
    then ok (record node { retry_target = val })
    else if key == text "fallback_retry_target"
    then ok (record node { fallback_retry_target = val })
    else if key == text "fidelity"
    then (need key val (parse_fidelity_mode val) >>= λ f. ok (record node { fidelity = some f }))
    else if key == text "thread_id"
    then ok (record node { thread_id = some val })
    else if key == text "class"
    then ok (record node { css_class = add_class node.css_class val })
    else if key == text "timeout"
    then (need key val (parse_duration val) >>= λ d. ok (record node { timeout = some d }))
    else if key == text "auto_status"
    then ok (record node { auto_status = val == text "true" })
    else if key == text "allow_partial"
    then ok (record node { allow_partial = val == text "true" })
    else ok node

unfoldable pub apply_base_attrs : Node → AttrMap → Result ParseError Node
unfolding apply_each apply_base_attr
apply_base_attrs node attrs = apply_each apply_base_attr node attrs

unfoldable pub apply_codergen_attr : CodergenNode → Text → Text → Result ParseError CodergenNode
unfolding need parse_reasoning_effort
apply_codergen_attr node key val =
    if key == text "prompt"
    then ok (record node { prompt = val })
    else if key == text "llm_model"
    then ok (record node { llm_model = val })
    else if key == text "llm_provider"
    then ok (record node { llm_provider = val })
    else if key == text "reasoning_effort"
    then (need key val (parse_reasoning_effort val) >>= λ r.
        ok (record node { reasoning_effort = some r }))
    else ok node

unfoldable pub apply_tool_attr : ToolNode → Text → Text → Result ParseError ToolNode
apply_tool_attr node key val =
    if key == text "tool_command" then ok (record node { tool_command = val }) else ok node

unfoldable pub apply_manager_attr : ManagerNode → Text → Text → Result ParseError ManagerNode
unfolding need positive parse_int_attr
apply_manager_attr node key val =
    if key == text "manager.stop_condition"
    then ok (record node { manager_stop_condition = val })
    else if key == text "manager.max_cycles"
    then (need key val (positive (parse_int_attr val)) >>= λ n.
        ok (record node { manager_max_cycles = pos n }))
    else ok node

unfoldable pub apply_wait_human_attr : WaitHumanNode → Text → Text → Result ParseError WaitHumanNode
apply_wait_human_attr node key val =
    if key == text "human.default_choice"
    then ok (record node { human_default_choice = val })
    else ok node

unfoldable pub parse_join_policy : Text → Result ParseError JoinPolicy
parse_join_policy val =
    if val == text "wait_all"
    then ok wait_all
    else if val == text "first_success"
    then ok first_success
    else err (attr_error (text "unknown join_policy: " ++ val))

unfoldable pub apply_parallel_attr : ParallelNode → Text → Text → Result ParseError ParallelNode
unfolding need positive parse_int_attr parse_join_policy
apply_parallel_attr node key val =
    if key == text "join_policy"
    then (parse_join_policy val >>= λ j. ok (record node { join_policy = j }))
    else if key == text "max_parallel"
    then (need key val (positive (parse_int_attr val)) >>= λ n.
        ok (record node { max_parallel = n }))
    else ok node

unfoldable pub apply_fan_in_attr : FanInNode → Text → Text → Result ParseError FanInNode
apply_fan_in_attr node key val =
    if key == text "prompt" then ok (record node { prompt = val }) else ok node

unfoldable pub apply_edge_attr : Edge → Text → Text → Result ParseError Edge
unfolding need non_negative parse_int_attr parse_fidelity_mode
apply_edge_attr edge key val =
    if key == text "label"
    then ok (record edge { label = val })
    else if key == text "condition"
    then ok (record edge { condition = val })
    else if key == text "weight"
    then (need key val (non_negative (parse_int_attr val)) >>= λ n. ok (record edge { weight = n }))
    else if key == text "fidelity"
    then (need key val (parse_fidelity_mode val) >>= λ f. ok (record edge { fidelity = some f }))
    else if key == text "thread_id"
    then ok (record edge { thread_id = some val })
    else if key == text "loop_restart"
    then ok (record edge { loop_restart = val == text "true" })
    else ok edge

unfoldable pub apply_attrs_to_edge : Edge → AttrMap → Result ParseError Edge
unfolding apply_each apply_edge_attr
apply_attrs_to_edge edge attrs = apply_each apply_edge_attr edge attrs

unfoldable pub apply_graph_attr : Graph → Text → Text → Result ParseError Graph
unfolding need non_negative parse_int_attr parse_fidelity_mode
apply_graph_attr graph key val =
    if key == text "goal"
    then ok (record graph { goal = val })
    else if key == text "label"
    then ok (record graph { label = val })
    else if key == text "model_stylesheet"
    then ok (record graph { model_stylesheet = val })
    else if key == text "default_max_retries" || key == text "default_max_retry"
    then (need key val (non_negative (parse_int_attr val)) >>= λ n.
        ok (record graph { default_max_retries = n }))
    else if key == text "default_fidelity"
    then (need key val (parse_fidelity_mode val) >>= λ f.
        ok (record graph { default_fidelity = some f }))
    else if key == text "default_thread_id"
    then ok (record graph { default_thread_id = some val })
    else if key == text "retry_target"
    then ok (record graph { retry_target = val })
    else if key == text "fallback_retry_target"
    then ok (record graph { fallback_retry_target = val })
    else if key == text "stack.child_dotfile"
    then ok (record graph { stack_child_dotfile = val })
    else if key == text "stack.child_workdir"
    then ok (record graph { stack_child_workdir = val })
    else if key == text "tool_hooks.pre"
    then ok (record graph { tool_hooks_pre = val })
    else if key == text "tool_hooks.post"
    then ok (record graph { tool_hooks_post = val })
    else ok graph

unfoldable pub apply_attrs_to_graph : Graph → AttrMap → Result ParseError Graph
unfolding apply_each apply_graph_attr
apply_attrs_to_graph graph attrs = apply_each apply_graph_attr graph attrs
