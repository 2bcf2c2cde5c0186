-- ===== src/Tests/Samples.antt =====
-- A pipeline of a start node, a stage with a goal gate and an exit, a world that counts what is
-- done to it, and handlers that succeed.
use attractor.Prelude.{ℕ, ◌+◌, Bool, true, false, none, some, List, [], ◌∷◌, Text, ok, pos}
use attractor.Json.{object, end, Json}
use attractor.Types.{NodeId, NodeShape, mdiamond, msquare, box}
use attractor.Graph.{Graph, Node, Edge, NodeVariant, start_node, exit_node, codergen_node}
use attractor.Handler.{Outcome, default_outcome, returned, RunConfig, no_delay}
use attractor.Context.{empty_context}
use attractor.Checkpoint.{CheckpointData}
use attractor.Engine.Env.{Handler, Env, RunState}

abbrev pub start_id : NodeId
start_id = b's' ∷ []

abbrev pub gate_id : NodeId
gate_id = b'g' ∷ []

abbrev pub exit_id : NodeId
exit_id = b'x' ∷ []

abbrev pub node_of : NodeId → NodeShape → Bool → NodeId → Node
node_of id shape goal_gate retry_target = record {
  id = id;
  label = [];
  shape = shape;
  node_type = [];
  max_retries = none;
  goal_gate = goal_gate;
  retry_target = retry_target;
  fallback_retry_target = [];
  fidelity = none;
  thread_id = none;
  css_class = [];
  timeout = none;
  auto_status = false;
  allow_partial = false;
  enclosing_subgraph = none;
}

abbrev pub edge_of : NodeId → NodeId → Edge
edge_of source to = record {
  source = source;
  to = to;
  label = [];
  condition = [];
  weight = 0;
  fidelity = none;
  thread_id = none;
  loop_restart = false;
}

abbrev pub begin : NodeVariant
begin = start_node (node_of start_id mdiamond false [])

abbrev pub gate : NodeVariant
gate = codergen_node (record {
  base = node_of gate_id box true start_id;
  prompt = b'p' ∷ [];
  llm_model = [];
  llm_provider = [];
  reasoning_effort = none;
})

abbrev pub leave : NodeVariant
leave = exit_node (node_of exit_id msquare false [])

abbrev pub graph_of : List NodeVariant → List Edge → Graph
graph_of nodes edges = record {
  digraph_id = [];
  goal = [];
  label = [];
  model_stylesheet = [];
  default_max_retries = 1;
  default_fidelity = none;
  default_thread_id = none;
  retry_target = [];
  fallback_retry_target = [];
  stack_child_dotfile = [];
  stack_child_workdir = [];
  tool_hooks_pre = [];
  tool_hooks_post = [];
  nodes = nodes;
  edges = edges;
}

abbrev pub pipeline : Graph
pipeline =
    graph_of (begin ∷ gate ∷ leave ∷ []) (edge_of start_id gate_id ∷ edge_of gate_id exit_id ∷ [])

abbrev pub config : RunConfig
config = record { logs_root = b'l' ∷ []; preset = no_delay; resume = true; max_loop_depth = pos 1 }

abbrev pub saved : CheckpointData
saved = record {
  timestamp = [];
  current_node = exit_id;
  completed_nodes = start_id ∷ gate_id ∷ [];
  node_retries = [];
  context = object end;
  logs = [];
  execution_counter = 2;
}

abbrev pub succeed : Handler ℕ
succeed nv graph c ctx w = (returned default_outcome, (ctx, w + 1))

abbrev pub no_dump : Json → Text
no_dump j = []

abbrev pub world : Env ℕ
world = record {
  m_registry = record { m_handlers = []; m_default_handler = some succeed };
  m_on_event = λ e w. w + 1;
  dump = no_dump;
  sleep = λ delay w. w + delay;
  load_checkpoint = λ root w. (ok saved, w + 1);
  save_checkpoint = λ root c w. w + 1;
}

abbrev pub state_at : NodeId → Outcome → RunState ℕ
state_at id o = record {
  node_outcomes = (gate_id, o) ∷ [];
  current_id = id;
  ctx = empty_context;
  completed_nodes = start_id ∷ [];
  node_retries_map = [];
  terminal_retry_count = 0;
  world = 0;
}
