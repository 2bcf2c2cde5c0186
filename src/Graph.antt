-- ===== src/Graph.antt =====
-- include/attractor/graph.hpp: nodes, edges and graphs.
use attractor.Prelude.{ℕ, Bool, Option, List, ℤ}
use attractor.Types.{
  NodeId, NodeLabel, NodeShape, HandlerTypeName, FidelityMode, ThreadId, CssClass, SubgraphId,
  PromptText, LlmModel, LlmProvider, ReasoningEffort, ShellCommand, ConditionExpr, JoinPolicy,
  EdgeLabel, GraphId, GoalText, GraphLabel, StylesheetId, DotfilePath, WorkDir,
}

pub record Node : Type 0 where
  pub id : NodeId
  pub label : NodeLabel
  pub shape : NodeShape
  pub node_type : HandlerTypeName
  pub max_retries : Option ℕ
  pub goal_gate : Bool
  pub retry_target : NodeId
  pub fallback_retry_target : NodeId
  pub fidelity : Option FidelityMode
  pub thread_id : Option ThreadId
  pub css_class : CssClass
  pub timeout : Option ℕ
  pub auto_status : Bool
  pub allow_partial : Bool
  pub enclosing_subgraph : Option SubgraphId

pub record CodergenNode : Type 0 where
  pub base : Node
  pub prompt : PromptText
  pub llm_model : LlmModel
  pub llm_provider : LlmProvider
  pub reasoning_effort : Option ReasoningEffort

pub record ToolNode : Type 0 where
  pub base : Node
  pub tool_command : ShellCommand

pub record ManagerNode : Type 0 where
  pub base : Node
  pub manager_stop_condition : ConditionExpr
  pub manager_max_cycles : ℤ

pub record WaitHumanNode : Type 0 where
  pub base : Node
  pub human_default_choice : NodeId

pub record ParallelNode : Type 0 where
  pub base : Node
  pub max_parallel : ℕ
  pub join_policy : JoinPolicy

pub record FanInNode : Type 0 where
  pub base : Node
  pub prompt : PromptText

-- `StartNode`, `ExitNode` and `ConditionalNode` add nothing to their base.
pub data NodeVariant : Type 0 where
  start_node : Node → NodeVariant
  exit_node : Node → NodeVariant
  codergen_node : CodergenNode → NodeVariant
  tool_node : ToolNode → NodeVariant
  manager_node : ManagerNode → NodeVariant
  wait_human_node : WaitHumanNode → NodeVariant
  parallel_node : ParallelNode → NodeVariant
  fan_in_node : FanInNode → NodeVariant
  conditional_node : Node → NodeVariant

unfoldable pub to_base : NodeVariant → Node
to_base (start_node n) = n
to_base (exit_node n) = n
to_base (codergen_node n) = n.base
to_base (tool_node n) = n.base
to_base (manager_node n) = n.base
to_base (wait_human_node n) = n.base
to_base (parallel_node n) = n.base
to_base (fan_in_node n) = n.base
to_base (conditional_node n) = n

pub record Edge : Type 0 where
  pub source : NodeId
  pub to : NodeId
  pub label : EdgeLabel
  pub condition : ConditionExpr
  pub weight : ℕ
  pub fidelity : Option FidelityMode
  pub thread_id : Option ThreadId
  pub loop_restart : Bool

pub record Graph : Type 0 where
  pub digraph_id : GraphId
  pub goal : GoalText
  pub label : GraphLabel
  pub model_stylesheet : StylesheetId
  pub default_max_retries : ℕ
  pub default_fidelity : Option FidelityMode
  pub default_thread_id : Option ThreadId
  pub retry_target : NodeId
  pub fallback_retry_target : NodeId
  pub stack_child_dotfile : DotfilePath
  pub stack_child_workdir : WorkDir
  pub tool_hooks_pre : ShellCommand
  pub tool_hooks_post : ShellCommand
  pub nodes : List NodeVariant
  pub edges : List Edge
