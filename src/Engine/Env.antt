-- ===== src/Engine/Env.antt =====
-- What the engine of src/engine.cpp works with: handlers, the world outside it, and the variables
-- of `Engine::run_from`. `W` is the state of that world (files, processes, people), which the
-- model threads through every call that may change it.
use attractor.Prelude.{ℕ, Bool, Option, List, Text, text, Map, Result, ◌==◌, ◌||◌, find}
use attractor.Json.{Json}
use attractor.Types.{NodeId, LogsRoot, mdiamond, msquare, same_shape}
use attractor.Graph.{Graph, Node, NodeVariant, to_base}
use attractor.Handler.{Outcome, Execution, RunConfig}
use attractor.Context.{Context}
use attractor.Checkpoint.{CheckpointData}
use attractor.Registry.{HandlerRegistry}

-- include/attractor/events.hpp; an index holds the bits of an `int`.
pub data Event : Type 0 where
  stage_started stage_completed : NodeId → ℕ → Event

-- `Handler::execute`, on the context and the world.
abbrev pub Handler : Type 0 → Type 0
Handler W = NodeVariant → Graph → RunConfig → Context → W → Execution × (Context × W)

-- The members of the engine and the functions that it calls: nlohmann::json's printer, the sleep
-- (`sleep_fn`, or the thread's) in milliseconds, the observer, and the checkpoint file, whose
-- loader gives an error text where it fails.
pub record Env (W : Type 0) : Type 0 where
  pub m_registry : HandlerRegistry (Handler W)
  pub m_on_event : Event → W → W
  pub dump : Json → Text
  pub sleep : ℕ → W → W
  pub load_checkpoint : LogsRoot → W → Result Text CheckpointData × W
  pub save_checkpoint : LogsRoot → CheckpointData → W → W

-- The variables of the loop of `run_from`, and the world.
pub record RunState (W : Type 0) : Type 0 where
  pub node_outcomes : Map Outcome
  pub current_id : NodeId
  pub ctx : Context
  pub completed_nodes : List NodeId
  pub node_retries_map : Map ℕ
  pub terminal_retry_count : ℕ
  pub world : W

unfoldable pub is_start : NodeVariant → Bool
is_start nv =
    same_shape (to_base nv).shape mdiamond
    || ((to_base nv).id == text "start" || (to_base nv).id == text "Start")

unfoldable pub find_start_node : Graph → Option NodeVariant
find_start_node graph = find is_start graph.nodes

unfoldable pub is_terminal : Node → Bool
is_terminal node =
    same_shape node.shape msquare || (node.id == text "exit" || node.id == text "end")

unfoldable pub has_id : NodeId → NodeVariant → Bool
has_id id nv = (to_base nv).id == id

unfoldable pub find_node : Graph → NodeId → Option NodeVariant
find_node graph id = find (has_id id) graph.nodes
