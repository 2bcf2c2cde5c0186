-- ===== src/GraphJson/Nodes.antt =====
-- The JSON forms of nodes in src/graph.cpp. An object is written from the empty value, and a node is
-- read into a fresh one.
use attractor.Prelude.{
  ℕ, Option, none, some, List, [], ◌∷◌, Text, text, ℤ, is_empty, leb, Result, ok, ◌>>=◌,
  if◌then◌else◌,
}
use attractor.Json.{
  Json, null, boolean, integer, str, object, end, JsonError, type_error, library_error,
}
use attractor.Types.{NodeShape, SubgraphId}
use attractor.Names.{
  typedef_to_json, typedef_from_json, get_string, known, node_shape_to_string,
  node_shape_from_string, fidelity_mode_to_json, fidelity_mode_from_json, reasoning_effort_to_json,
  join_policy_to_json,
}
use attractor.Graph.{
  Node, NodeVariant, start_node, exit_node, codergen_node, tool_node, manager_node, wait_human_node,
  parallel_node, fan_in_node, conditional_node, to_base,
}
use attractor.GraphJson.Access.{
  Reader, Write, write_all, get_bool, opt_to_json, read_if, read_present, number_to_json,
  constrained, any_number,
}

unfoldable pub node_shape_to_json : NodeShape → Json
unfolding node_shape_to_string
node_shape_to_json s = elim (node_shape_to_string s) [ some name ↦ str name | none ↦ null ]

unfoldable pub node_shape_from_json : Json → Result JsonError NodeShape
unfolding known get_string node_shape_from_string
node_shape_from_json j = get_string j >>= λ s. known (text "NodeShape") s (node_shape_from_string s)

unfoldable pub node_writes : Node → List Write
unfolding typedef_to_json node_shape_to_json opt_to_json number_to_json fidelity_mode_to_json
node_writes n =
    (text "id", some (typedef_to_json n.id))
    ∷ (text "label", some (typedef_to_json n.label))
    ∷ (text "shape", some (node_shape_to_json n.shape))
    ∷ (text "node_type", some (typedef_to_json n.node_type))
    ∷ (text "max_retries", opt_to_json number_to_json n.max_retries)
    ∷ (text "goal_gate", some (boolean n.goal_gate))
    ∷ (text "retry_target", some (typedef_to_json n.retry_target))
    ∷ (text "fallback_retry_target", some (typedef_to_json n.fallback_retry_target))
    ∷ (text "fidelity", opt_to_json fidelity_mode_to_json n.fidelity)
    ∷ (text "thread_id", opt_to_json typedef_to_json n.thread_id)
    ∷ (text "css_class", some (typedef_to_json n.css_class))
    ∷ (text "timeout", opt_to_json number_to_json n.timeout)
    ∷ (text "auto_status", some (boolean n.auto_status))
    ∷ (text "allow_partial", some (boolean n.allow_partial))
    ∷ (text "enclosing_subgraph", opt_to_json typedef_to_json n.enclosing_subgraph)
    ∷ []

-- What a variant writes behind its base.
unfoldable pub own_writes : NodeVariant → List Write
unfolding typedef_to_json opt_to_json number_to_json reasoning_effort_to_json join_policy_to_json
own_writes (start_node n) = []
own_writes (exit_node n) = []
own_writes (codergen_node n) =
    (text "prompt", some (typedef_to_json n.prompt))
    ∷ (text "llm_model", some (typedef_to_json n.llm_model))
    ∷ (text "llm_provider", some (typedef_to_json n.llm_provider))
    ∷ (text "reasoning_effort", opt_to_json reasoning_effort_to_json n.reasoning_effort)
    ∷ []
own_writes (tool_node n) = (text "tool_command", some (typedef_to_json n.tool_command)) ∷ []
own_writes (manager_node n) =
    (text "manager_stop_condition", some (typedef_to_json n.manager_stop_condition))
    ∷ (text "manager_max_cycles", some (integer n.manager_max_cycles))
    ∷ []
own_writes (wait_human_node n) =
    (text "human_default_choice", some (typedef_to_json n.human_default_choice)) ∷ []
own_writes (parallel_node n) =
    (text "max_parallel", some (number_to_json n.max_parallel))
    ∷ (text "join_policy", some (join_policy_to_json n.join_policy))
    ∷ []
own_writes (fan_in_node n) = (text "prompt", some (typedef_to_json n.prompt)) ∷ []
own_writes (conditional_node n) = []

unfoldable pub node_to_json : NodeVariant → Json
unfolding write_all node_writes own_writes to_base
node_to_json nv = object (write_all (own_writes nv) (write_all (node_writes (to_base nv)) end))

-- A subgraph that is read: an empty one is passed over.
unfoldable pub named_subgraph : Option SubgraphId → Option SubgraphId
named_subgraph none = none
named_subgraph (some s) = if is_empty s then none else some s

module _ (show : ℤ → Text) (rd : Reader) where
  -- A number that is not negative. What the constrained type of the library does with another one
  -- is an error here.
  unfoldable pub plain_retries : Json → Result JsonError ℕ
  unfolding constrained
  plain_retries j = rd.get_int j >>= λ v. constrained any_number library_error v

  unfoldable pub plain_timeout : Json → Result JsonError ℕ
  unfolding constrained
  plain_timeout j = rd.get_int64 j >>= λ v.
      constrained (λ n. leb 1 n) (type_error (text "invalid timeout value: must be positive")) v

  unfoldable pub node_from_json : Json → Node → Result JsonError Node
  unfolding read_if read_present typedef_from_json node_shape_from_json plain_retries plain_timeout
      get_bool get_string fidelity_mode_from_json named_subgraph
  node_from_json j n = read_if (text "id") (typedef_from_json (text "NodeId")) n.id j >>= λ id.
      read_if (text "label") (typedef_from_json (text "NodeLabel")) n.label j >>= λ label.
      read_if (text "shape") node_shape_from_json n.shape j >>= λ shape.
      read_if (text "node_type") (typedef_from_json (text "HandlerTypeName")) n.node_type j
      >>= λ node_type.
          read_present (text "max_retries") plain_retries n.max_retries j >>= λ max_retries.
          read_if (text "goal_gate") get_bool n.goal_gate j >>= λ goal_gate.
          read_if (text "retry_target") (typedef_from_json (text "NodeId")) n.retry_target j
          >>= λ retry_target.
              read_if (text "fallback_retry_target") (typedef_from_json (text "NodeId"))
                n.fallback_retry_target j
              >>= λ fallback.
                  read_present (text "fidelity") fidelity_mode_from_json none j >>= λ fidelity.
                  read_present (text "thread_id") get_string n.thread_id j >>= λ thread_id.
                  read_if (text "css_class") (typedef_from_json (text "CssClass")) n.css_class j
                  >>= λ css_class.
                      read_present (text "timeout") plain_timeout n.timeout j >>= λ timeout.
                      read_if (text "auto_status") get_bool n.auto_status j >>= λ auto_status.
                      read_if (text "allow_partial") get_bool n.allow_partial j >>= λ allow_partial.
                      read_present (text "enclosing_subgraph")
                        (typedef_from_json (text "SubgraphId")) n.enclosing_subgraph j
                      >>= λ enclosing. ok (record {
                        id = id;
                        label = label;
                        shape = shape;
                        node_type = node_type;
                        max_retries = max_retries;
                        goal_gate = goal_gate;
                        retry_target = retry_target;
                        fallback_retry_target = fallback;
                        fidelity = fidelity;
                        thread_id = thread_id;
                        css_class = css_class;
                        timeout = timeout;
                        auto_status = auto_status;
                        allow_partial = allow_partial;
                        enclosing_subgraph = named_subgraph enclosing;
                      })
