-- ===== src/GraphJson/Graphs.antt =====
-- The JSON forms of node variants, edges and graphs in src/graph.cpp, each read into a fresh value.
use attractor.Prelude.{suc, none, some, List, [], ◌∷◌, Text, text, ℤ, pos, Result, ok, ◌>>=◌}
use attractor.Json.{
  Json, null, boolean, integer, float, str, array, object, Items, nil, cons, Fields, end, field,
  JsonError,
}
use attractor.Types.{
  NodeShape, mdiamond, msquare, box, hexagon, diamond, component, triple_octagon, parallelogram,
  house, wait_all,
}
use attractor.Names.{
  typedef_to_json, typedef_from_json, get_string, fidelity_mode_to_json, fidelity_mode_from_json,
  reasoning_effort_from_json, join_policy_from_json,
}
use attractor.Graph.{
  NodeVariant, start_node, exit_node, codergen_node, tool_node, manager_node, wait_human_node,
  parallel_node, fan_in_node, conditional_node, Edge, Graph,
}
use attractor.Dot.Variants.{default_node}
use attractor.GraphJson.Access.{
  Reader, Write, write_all, get_bool, opt_to_json, read_if, read_at, read_present, number_to_json,
  max_retries_from_json, weight_from_json, max_parallel_from_json,
}
use attractor.GraphJson.Nodes.{node_shape_from_json, node_to_json, node_from_json}

-- A number of cycles that is read: one that is not positive is passed over.
unfoldable pub positive_cycles : ℤ → ℤ
positive_cycles (pos (suc n)) = pos (suc n)
positive_cycles c = pos 1000

-- What the loop over a value visits: the elements of an array or the members of an object, nothing
-- of null, and any other value itself.
unfoldable pub listed : Items → List Json
listed nil = []
listed (cons j xs) = j ∷ listed xs

unfoldable pub members : Fields → List Json
members end = []
members (field k j fs) = j ∷ members fs

unfoldable pub elements : Json → List Json
unfolding listed members
elements null = []
elements (array xs) = listed xs
elements (object fs) = members fs
elements (boolean b) = boolean b ∷ []
elements (integer i) = integer i ∷ []
elements (float d) = float d ∷ []
elements (str s) = str s ∷ []

unfoldable pub items_of : {A : Type 0} → (A → Json) → List A → Items
items_of f [] = nil
items_of f (x ∷ xs) = cons (f x) (items_of f xs)

unfoldable pub read_all :
    {A : Type 0} → (Json → Result JsonError A) → List Json → Result JsonError (List A)
read_all read [] = ok []
read_all read (j ∷ js) = read j >>= λ a. read_all read js >>= λ rest. ok (a ∷ rest)

unfoldable pub edge_writes : Edge → List Write
unfolding typedef_to_json number_to_json opt_to_json fidelity_mode_to_json
edge_writes e =
    (text "from", some (typedef_to_json e.source))
    ∷ (text "to", some (typedef_to_json e.to))
    ∷ (text "label", some (typedef_to_json e.label))
    ∷ (text "condition", some (typedef_to_json e.condition))
    ∷ (text "weight", some (number_to_json e.weight))
    ∷ (text "fidelity", opt_to_json fidelity_mode_to_json e.fidelity)
    ∷ (text "thread_id", opt_to_json typedef_to_json e.thread_id)
    ∷ (text "loop_restart", some (boolean e.loop_restart))
    ∷ []

unfoldable pub edge_to_json : Edge → Json
unfolding write_all edge_writes
edge_to_json e = object (write_all (edge_writes e) end)

unfoldable pub graph_writes : Graph → List Write
unfolding typedef_to_json number_to_json opt_to_json fidelity_mode_to_json items_of node_to_json
    edge_to_json
graph_writes g =
    (text "digraph_id", some (typedef_to_json g.digraph_id))
    ∷ (text "goal", some (typedef_to_json g.goal))
    ∷ (text "label", some (typedef_to_json g.label))
    ∷ (text "model_stylesheet", some (typedef_to_json g.model_stylesheet))
    ∷ (text "default_max_retries", some (number_to_json g.default_max_retries))
    ∷ (text "default_fidelity", opt_to_json fidelity_mode_to_json g.default_fidelity)
    ∷ (text "default_thread_id", opt_to_json typedef_to_json g.default_thread_id)
    ∷ (text "retry_target", some (typedef_to_json g.retry_target))
    ∷ (text "fallback_retry_target", some (typedef_to_json g.fallback_retry_target))
    ∷ (text "stack_child_dotfile", some (typedef_to_json g.stack_child_dotfile))
    ∷ (text "stack_child_workdir", some (typedef_to_json g.stack_child_workdir))
    ∷ (text "tool_hooks_pre", some (typedef_to_json g.tool_hooks_pre))
    ∷ (text "tool_hooks_post", some (typedef_to_json g.tool_hooks_post))
    ∷ (text "nodes", some (array (items_of node_to_json g.nodes)))
    ∷ (text "edges", some (array (items_of edge_to_json g.edges)))
    ∷ []

unfoldable pub graph_to_json : Graph → Json
unfolding write_all graph_writes
graph_to_json g = object (write_all (graph_writes g) end)

-- A string type read by its name.
abbrev pub named : Text → Json → Result JsonError Text
named name j = typedef_from_json name j

module _ (show : ℤ → Text) (rd : Reader) where
  unfoldable pub variant_in : NodeShape → Json → Result JsonError NodeVariant
  unfolding node_from_json read_if read_present typedef_from_json reasoning_effort_from_json
      join_policy_from_json max_parallel_from_json positive_cycles
  variant_in mdiamond j = node_from_json show rd j default_node >>= λ b. ok (start_node b)
  variant_in msquare j = node_from_json show rd j default_node >>= λ b. ok (exit_node b)
  variant_in box j = node_from_json show rd j default_node >>= λ b.
      read_if (text "prompt") (named (text "PromptText")) [] j >>= λ prompt.
      read_if (text "llm_model") (named (text "LlmModel")) [] j >>= λ llm_model.
      read_if (text "llm_provider") (named (text "LlmProvider")) [] j >>= λ llm_provider.
      read_present (text "reasoning_effort") reasoning_effort_from_json none j >>= λ effort. ok (
        codergen_node (record {
          base = b;
          prompt = prompt;
          llm_model = llm_model;
          llm_provider = llm_provider;
          reasoning_effort = effort;
        }))
  variant_in parallelogram j = node_from_json show rd j default_node >>= λ b.
      read_if (text "tool_command") (named (text "ShellCommand")) [] j >>= λ command.
      ok (tool_node (record { base = b; tool_command = command }))
  variant_in house j = node_from_json show rd j default_node >>= λ b.
      read_if (text "manager_stop_condition") (named (text "ConditionExpr")) [] j >>= λ condition.
      read_if (text "manager_max_cycles") (λ v. rd.get_int v >>= λ c. ok (positive_cycles c))
        (pos 1000) j
      >>= λ cycles. ok (
          manager_node
            (record { base = b; manager_stop_condition = condition; manager_max_cycles = cycles }))
  variant_in hexagon j = node_from_json show rd j default_node >>= λ b.
      read_if (text "human_default_choice") (named (text "NodeId")) [] j >>= λ choice.
      ok (wait_human_node (record { base = b; human_default_choice = choice }))
  variant_in component j = node_from_json show rd j default_node >>= λ b.
      read_if (text "max_parallel") (max_parallel_from_json show rd) 4 j >>= λ most.
      read_if (text "join_policy") join_policy_from_json wait_all j >>= λ policy.
      ok (parallel_node (record { base = b; max_parallel = most; join_policy = policy }))
  variant_in triple_octagon j = node_from_json show rd j default_node >>= λ b.
      read_if (text "prompt") (named (text "PromptText")) [] j >>= λ prompt.
      ok (fan_in_node (record { base = b; prompt = prompt }))
  variant_in diamond j = node_from_json show rd j default_node >>= λ b. ok (conditional_node b)

  unfoldable pub variant_from_json : Json → Result JsonError NodeVariant
  unfolding read_if node_shape_from_json variant_in
  variant_from_json j =
      read_if (text "shape") node_shape_from_json box j >>= λ shape. variant_in shape j

  unfoldable pub edge_from_json : Json → Result JsonError Edge
  unfolding read_at read_present typedef_from_json weight_from_json fidelity_mode_from_json
      get_string get_bool
  edge_from_json j = read_at (text "from") (named (text "NodeId")) j >>= λ source.
      read_at (text "to") (named (text "NodeId")) j >>= λ to.
      read_at (text "label") (named (text "EdgeLabel")) j >>= λ label.
      read_at (text "condition") (named (text "ConditionExpr")) j >>= λ condition.
      read_at (text "weight") (weight_from_json show rd) j >>= λ weight.
      read_present (text "fidelity") fidelity_mode_from_json none j >>= λ fidelity.
      read_present (text "thread_id") get_string none j >>= λ thread_id.
      read_at (text "loop_restart") get_bool j >>= λ loop_restart. ok (record {
        source = source;
        to = to;
        label = label;
        condition = condition;
        weight = weight;
        fidelity = fidelity;
        thread_id = thread_id;
        loop_restart = loop_restart;
      })

  unfoldable pub graph_from_json : Json → Result JsonError Graph
  unfolding read_at read_present typedef_from_json max_retries_from_json fidelity_mode_from_json
      elements read_all variant_from_json edge_from_json
  graph_from_json j = read_at (text "digraph_id") (named (text "GraphId")) j >>= λ digraph_id.
      read_at (text "goal") (named (text "GoalText")) j >>= λ goal.
      read_at (text "label") (named (text "GraphLabel")) j >>= λ label.
      read_at (text "model_stylesheet") (named (text "StylesheetId")) j >>= λ model_stylesheet.
      read_at (text "default_max_retries") (max_retries_from_json show rd) j
      >>= λ default_max_retries.
          read_present (text "default_fidelity") fidelity_mode_from_json none j
          >>= λ default_fidelity.
              read_present (text "default_thread_id") (named (text "ThreadId")) none j
              >>= λ default_thread_id.
                  read_at (text "retry_target") (named (text "NodeId")) j >>= λ retry_target.
                  read_at (text "fallback_retry_target") (named (text "NodeId")) j >>= λ fallback.
                  read_at (text "stack_child_dotfile") (named (text "DotfilePath")) j >>= λ dotfile.
                  read_at (text "stack_child_workdir") (named (text "WorkDir")) j >>= λ workdir.
                  read_at (text "tool_hooks_pre") (named (text "ShellCommand")) j >>= λ pre.
                  read_at (text "tool_hooks_post") (named (text "ShellCommand")) j >>= λ post.
                  read_at (text "nodes") (λ v. read_all variant_from_json (elements v)) j
                  >>= λ nodes.
                      read_at (text "edges") (λ v. read_all edge_from_json (elements v)) j
                      >>= λ edges. ok (record {
                        digraph_id = digraph_id;
                        goal = goal;
                        label = label;
                        model_stylesheet = model_stylesheet;
                        default_max_retries = default_max_retries;
                        default_fidelity = default_fidelity;
                        default_thread_id = default_thread_id;
                        retry_target = retry_target;
                        fallback_retry_target = fallback;
                        stack_child_dotfile = dotfile;
                        stack_child_workdir = workdir;
                        tool_hooks_pre = pre;
                        tool_hooks_post = post;
                        nodes = nodes;
                        edges = edges;
                      })
