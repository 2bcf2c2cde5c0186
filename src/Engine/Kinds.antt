-- ===== src/Engine/Kinds.antt =====
-- What a round of the loop of src/engine.cpp may do, by the node at which it stands.
use attractor.Prelude.{suc, ◌≡◌, true, false, none, some, ◌⊎◌, In, is_empty}
use attractor.Json.{Json}
use attractor.Types.{NodeId, fail}
use attractor.Graph.{Graph, Node, NodeVariant, Edge, to_base}
use attractor.Handler.{Outcome, RunConfig}
use attractor.Selection.{select_edge}
use attractor.Registry.{resolve}
use attractor.Engine.Env.{Env, RunState, find_node, is_terminal}
use attractor.Engine.Terminal.{finish, terminal_step, exceeds}
use attractor.Engine.SentBack.{HasOpen}
use attractor.Engine.Run.{StepResult, finished, advance, restart, aborted, is_failure, dead_end}

-- The open gates sent the run back.
pub record GateRetry {W : Type 0} (graph : Graph) (config : RunConfig) (s t : RunState W)
    : Type 0 where
  pub counted : t.terminal_retry_count ≡ suc s.terminal_retry_count
  pub below : exceeds s.terminal_retry_count config.max_loop_depth ≡ false
  pub unsatisfied : HasOpen graph s

-- The run followed an edge out of its node.
pub record EdgeMove {W : Type 0} (graph : Graph) (s t : RunState W) : Type 0 where
  pub taken : Edge
  pub member : In taken graph.edges
  pub leaves : taken.source ≡ s.current_id
  pub plain : taken.loop_restart ≡ false
  pub target : t.current_id ≡ taken.to
  pub count : t.terminal_retry_count ≡ s.terminal_retry_count

-- The run starts anew, by an edge out of its node that is a restart.
pub record RestartMove {W : Type 0} (graph : Graph) (s : RunState W) (id : NodeId) : Type 0 where
  pub taken : Edge
  pub member : In taken graph.edges
  pub leaves : taken.source ≡ s.current_id
  pub loops : taken.loop_restart ≡ true
  pub target : id ≡ taken.to

-- A failed stage ends the run at an edge that has no condition; its node is no goal gate.
pub record FailureEnd {W : Type 0} (graph : Graph) (node : Node) (s : RunState W) (o : Outcome)
    : Type 0 where
  pub taken : Edge
  pub member : In taken graph.edges
  pub leaves : taken.source ≡ s.current_id
  pub plain : taken.loop_restart ≡ false
  pub unconditional : is_empty taken.condition ≡ true
  pub no_gate : node.goal_gate ≡ false
  pub failed : is_failure o ≡ true

-- A stage ends the run where no edge is selected for its outcome.
pub record DeadEnd {W : Type 0} (env : Env W) (graph : Graph) (node : Node) (o : Outcome)
    : Type 0 where
  pub stage_outcome : Outcome
  pub context : Json
  pub no_edge : select_edge env.dump node stage_outcome context graph ≡ none
  pub returned : o ≡ dead_end node stage_outcome

module _ {W : Type 0} (env : Env W) (graph : Graph) (config : RunConfig) (s : RunState W) where
  -- What a round does at a node that is not in the graph, at a terminal node and at a stage.
  abbrev pub ByAbsence : StepResult W → Type 0
  ByAbsence (finished o w) = o.status ≡ fail
  ByAbsence (advance t) = ⊥
  ByAbsence (restart id w) = ⊥
  ByAbsence aborted = ⊥

  abbrev pub ByGates : StepResult W → Type 0
  ByGates (finished o w) = terminal_step graph config s ≡ finish o
  ByGates (advance t) = GateRetry graph config s t
  ByGates (restart id w) = ⊥
  ByGates aborted = ⊥

  abbrev pub ByStage : Node → StepResult W → Type 0
  ByStage node (finished o w) = DeadEnd env graph node o ⊎ FailureEnd graph node s o
  ByStage node (advance t) = EdgeMove graph s t
  ByStage node (restart id w) = RestartMove graph s id
  ByStage node aborted = resolve env.m_registry node ≡ none

  abbrev pub AtNode : StepResult W → NodeVariant → Type 0
  AtNode r nv =
      ((is_terminal (to_base nv) ≡ true) × ByGates r)
      ⊎ ((is_terminal (to_base nv) ≡ false) × ByStage (to_base nv) r)

  abbrev pub IsMove : StepResult W → Type 0
  IsMove r =
      ((find_node graph s.current_id ≡ none) × ByAbsence r)
      ⊎ ((nv : NodeVariant) × (find_node graph s.current_id ≡ some nv) × AtNode r nv)
