-- ===== src/Checkpoint.antt =====
-- include/attractor/checkpoint.hpp: what a run saves after each stage.
use attractor.Prelude.{ℕ, List, Text, Map}
use attractor.Json.{Json}
use attractor.Types.{NodeId}

pub record CheckpointData : Type 0 where
  pub timestamp : Text
  pub current_node : NodeId
  pub completed_nodes : List NodeId
  pub node_retries : Map ℕ
  pub context : Json
  pub logs : List Text
  -- the bits of an `int`
  pub execution_counter : ℕ
