-- ===== src/Dot/Variants.antt =====
-- The shapes of nodes in src/dot_parser.cpp, and the attributes of a node of any shape.
use attractor.Prelude.{
  false, Option, none, some, [], Text, text, ◌==◌, map_get, pos, Result, ok, ◌>>=◌, if◌then◌else◌,
}
use attractor.Types.{
  wait_all, NodeShape, mdiamond, msquare, box, hexagon, diamond, component, triple_octagon,
  parallelogram, house,
}
use attractor.Names.{node_shape_from_string}
use attractor.Graph.{
  Node, NodeVariant, start_node, exit_node, codergen_node, tool_node, manager_node, wait_human_node,
  parallel_node, fan_in_node, conditional_node,
}
use attractor.Dot.Position.{ParseError}
use attractor.Dot.Attributes.{
  AttrMap, apply_each, apply_base_attrs, apply_codergen_attr, apply_tool_attr, apply_manager_attr,
  apply_wait_human_attr, apply_parallel_attr, apply_fan_in_attr,
}

unfoldable pub node_shape_from_handler_type : Text → Option NodeShape
node_shape_from_handler_type type =
    if type == text "codergen"
    then some box
    else if type == text "tool"
    then some parallelogram
    else if type == text "manager.loop"
    then some house
    else if type == text "wait.human"
    then some hexagon
    else if type == text "parallel"
    then some component
    else if type == text "fan.in"
    then some triple_octagon
    else if type == text "conditional"
    then some diamond
    else if type == text "start"
    then some mdiamond
    else if type == text "exit"
    then some msquare
    else none

abbrev pub or_shape : Option NodeShape → NodeShape → NodeShape
or_shape (some s) d = s
or_shape none d = d

-- The shape of an attribute `type`, if there is one.
abbrev pub implied_shape : Option Text → NodeShape → NodeShape
implied_shape none d = d
implied_shape (some type) d = or_shape (node_shape_from_handler_type type) d

abbrev pub chosen_shape : Option Text → Option Text → NodeShape → NodeShape
chosen_shape (some val) type d = or_shape (node_shape_from_string val) d
chosen_shape none type d = implied_shape type d

unfoldable pub node_shape_from_attrs : AttrMap → NodeShape → NodeShape
unfolding map_get node_shape_from_string node_shape_from_handler_type
node_shape_from_attrs attrs default_shape =
    chosen_shape (map_get (text "shape") attrs) (map_get (text "type") attrs) default_shape

-- A node as it is before any attribute is set.
abbrev pub default_node : Node
default_node = record {
  id = [];
  label = [];
  shape = box;
  node_type = [];
  max_retries = none;
  goal_gate = false;
  retry_target = [];
  fallback_retry_target = [];
  fidelity = none;
  thread_id = none;
  css_class = [];
  timeout = none;
  auto_status = false;
  allow_partial = false;
  enclosing_subgraph = none;
}

-- make_default_variant, with the base that a caller copies into it.
unfoldable pub variant_of : NodeShape → Node → NodeVariant
variant_of mdiamond n = start_node n
variant_of msquare n = exit_node n
variant_of box n =
    codergen_node
      (record { base = n; prompt = []; llm_model = []; llm_provider = []; reasoning_effort = none })
variant_of parallelogram n = tool_node (record { base = n; tool_command = [] })
variant_of house n =
    manager_node (record { base = n; manager_stop_condition = []; manager_max_cycles = pos 1000 })
variant_of hexagon n = wait_human_node (record { base = n; human_default_choice = [] })
variant_of component n =
    parallel_node (record { base = n; max_parallel = 4; join_policy = wait_all })
variant_of triple_octagon n = fan_in_node (record { base = n; prompt = [] })
variant_of diamond n = conditional_node n

-- `variant_base` as a place to write: a change of the base.
unfoldable pub over_base : (Node → Node) → NodeVariant → NodeVariant
over_base f (start_node n) = start_node (f n)
over_base f (exit_node n) = exit_node (f n)
over_base f (codergen_node n) = codergen_node (record n { base = f n.base })
over_base f (tool_node n) = tool_node (record n { base = f n.base })
over_base f (manager_node n) = manager_node (record n { base = f n.base })
over_base f (wait_human_node n) = wait_human_node (record n { base = f n.base })
over_base f (parallel_node n) = parallel_node (record n { base = f n.base })
over_base f (fan_in_node n) = fan_in_node (record n { base = f n.base })
over_base f (conditional_node n) = conditional_node (f n)

-- The attributes of the base first, then those of the variant.
unfoldable pub apply_attrs_to_variant : NodeVariant → AttrMap → Result ParseError NodeVariant
unfolding apply_each apply_base_attrs apply_codergen_attr apply_tool_attr apply_manager_attr
    apply_wait_human_attr apply_parallel_attr apply_fan_in_attr
apply_attrs_to_variant (start_node n) attrs = apply_base_attrs n attrs >>= λ b. ok (start_node b)
apply_attrs_to_variant (exit_node n) attrs = apply_base_attrs n attrs >>= λ b. ok (exit_node b)
apply_attrs_to_variant (codergen_node n) attrs = apply_base_attrs n.base attrs >>= λ b.
    apply_each apply_codergen_attr (record n { base = b }) attrs >>= λ d. ok (codergen_node d)
apply_attrs_to_variant (tool_node n) attrs = apply_base_attrs n.base attrs >>= λ b.
    apply_each apply_tool_attr (record n { base = b }) attrs >>= λ d. ok (tool_node d)
apply_attrs_to_variant (manager_node n) attrs = apply_base_attrs n.base attrs >>= λ b.
    apply_each apply_manager_attr (record n { base = b }) attrs >>= λ d. ok (manager_node d)
apply_attrs_to_variant (wait_human_node n) attrs = apply_base_attrs n.base attrs >>= λ b.
    apply_each apply_wait_human_attr (record n { base = b }) attrs >>= λ d. ok (wait_human_node d)
apply_attrs_to_variant (parallel_node n) attrs = apply_base_attrs n.base attrs >>= λ b.
    apply_each apply_parallel_attr (record n { base = b }) attrs >>= λ d. ok (parallel_node d)
apply_attrs_to_variant (fan_in_node n) attrs = apply_base_attrs n.base attrs >>= λ b.
    apply_each apply_fan_in_attr (record n { base = b }) attrs >>= λ d. ok (fan_in_node d)
apply_attrs_to_variant (conditional_node n) attrs =
    apply_base_attrs n attrs >>= λ b. ok (conditional_node b)
