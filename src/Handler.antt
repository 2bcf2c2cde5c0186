-- ===== src/Handler.antt =====
-- include/attractor/handler.hpp and include/attractor/run_config.hpp: outcomes and the
-- configuration of a run. (`sleep_fn` and the handlers themselves belong to the environment of
-- the engine, in Engine/Env.)
use attractor.Prelude.{Bool, List, [], ℤ}
use attractor.Json.{Json, object, end}
use attractor.Types.{
  StageStatus, success, fail, EdgeLabel, NodeId, HandlerNote, DiagnosticMessage, LogsRoot,
}

pub record Outcome : Type 0 where
  pub status : StageStatus
  pub preferred_label : EdgeLabel
  pub suggested_next_ids : List NodeId
  pub context_updates : Json
  pub notes : HandlerNote
  pub failure_reason : DiagnosticMessage

-- `Outcome{}`.
abbrev pub default_outcome : Outcome
default_outcome = record {
  status = success;
  preferred_label = [];
  suggested_next_ids = [];
  context_updates = object end;
  notes = [];
  failure_reason = [];
}

-- `Outcome::fail`.
abbrev pub fail_outcome : DiagnosticMessage → Outcome
fail_outcome reason = record default_outcome { status = fail; failure_reason = reason }

-- What `Handler::execute` does when it ends: it returns, or throws a `std::exception` (with its
-- `what()`) or something else.
pub data Execution : Type 0 where
  returned : Outcome → Execution
  thrown : DiagnosticMessage → Execution
  thrown_unknown : Execution

pub data BackoffPreset : Type 0 where
  no_delay fixed_1s exponential_100ms exponential_1s exponential_jitter_1s : BackoffPreset

pub record RunConfig : Type 0 where
  pub logs_root : LogsRoot
  pub preset : BackoffPreset
  pub resume : Bool
  pub max_loop_depth : ℤ
