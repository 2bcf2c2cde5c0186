-- ===== src/Engine/Run.antt =====
-- `Engine::run_from` and `Engine::run` of src/engine.cpp. One round of the `while` loop is `step`;
-- the loop itself takes fuel (Engine/Termination says how much is enough).
use attractor.Prelude.{
  ℕ, zero, suc, ◌%◌, ◌^◌, Bool, true, false, none, some, [], ◌∷◌, text, ◌++◌, ◌&&◌, ◌||◌, not, Text,
  Result, is_empty, length, ok, err, if◌then◌else◌,
}
use attractor.Json.{Json, str}
use attractor.Types.{NodeId, fail, retry, skipped, partial_success, same_status}
use attractor.Graph.{Graph, Node, NodeVariant, Edge, to_base}
use attractor.Handler.{Outcome, default_outcome, fail_outcome, RunConfig}
use attractor.Context.{
  Context, empty_context, set, snapshot, merge_updates, next_execution_counter,
  set_execution_counter,
}
use attractor.Condition.{stage_status_to_string}
use attractor.Selection.{select_edge}
use attractor.Registry.{resolve}
use attractor.Checkpoint.{CheckpointData}
use attractor.Engine.Env.{
  Handler, Env, RunState, stage_started, stage_completed, find_start_node, find_node, is_terminal,
}
use attractor.Engine.Stage.{execute_stage}
use attractor.Engine.Terminal.{finish, go_on, terminal_step, exceeds}

-- `merge_updates` with the keys that the engine sets.
unfoldable pub update_context : Outcome → Context → Context
update_context outcome ctx =
    let merged = merge_updates outcome.context_updates ctx in
    let with_outcome =
      (set (text "outcome") (str (stage_status_to_string outcome.status)) merged).1 in
    if is_empty outcome.preferred_label
    then with_outcome
    else (set (text "preferred_label") (str outcome.preferred_label) with_outcome).1

unfoldable pub is_failure : Outcome → Bool
is_failure o = same_status o.status fail || same_status o.status retry

-- The outcome of a run whose node has no edge to follow.
unfoldable pub dead_end : Node → Outcome → Outcome
unfolding is_failure
dead_end node outcome =
    if is_failure outcome
    then outcome
    else if same_status outcome.status skipped
    then (if node.allow_partial
        then record default_outcome {
          status = partial_success;
          failure_reason = text "skipped node: " ++ node.id;
        }
        else fail_outcome (text "skipped node with no outgoing edges: " ++ node.id))
    else default_outcome

-- What one round of the loop does: the run returns, it goes on, it starts anew at a node with one
-- more level of recursion, or an assertion fails.
pub data StepResult (W : Type 0) : Type 0 where
  finished : Outcome → W → StepResult W
  advance : RunState W → StepResult W
  restart : NodeId → W → StepResult W
  aborted : StepResult W

module _ {W : Type 0} (env : Env W) where
  -- The checkpoint, written once `current_id` is the next node.
  unfoldable pub checkpoint : RunConfig → Json → RunState W → RunState W
  checkpoint config context_snapshot s = if is_empty config.logs_root then s else record s {
    world =
        env.save_checkpoint config.logs_root
          (record {
            timestamp = [];
            current_node = s.current_id;
            completed_nodes = s.completed_nodes;
            node_retries = s.node_retries_map;
            context = context_snapshot;
            logs = [];
            execution_counter = s.ctx.m_execution_counter;
          })
          s.world;
  }

  unfoldable pub follow_edge : RunConfig → Node → Outcome → Edge → Json → RunState W → StepResult W
  unfolding is_failure
  follow_edge config node outcome next_edge context_snapshot s =
      if next_edge.loop_restart
      then restart next_edge.to s.world
      else if is_failure outcome && (is_empty next_edge.condition && not node.goal_gate)
      then finished outcome s.world
      else advance (
          checkpoint config context_snapshot (record s {
            completed_nodes = s.completed_nodes ++ node.id ∷ [];
            current_id = next_edge.to;
          }))

  -- The event of the completed stage, and the updates of the context.
  unfoldable pub settle : Node → ℕ → Outcome → RunState W → RunState W
  unfolding update_context
  settle node node_index outcome s = record s {
    ctx = update_context outcome s.ctx;
    world = env.m_on_event (stage_completed node.id node_index) s.world;
  }

  -- From the event of the completed stage to the end of the round.
  unfoldable pub complete_stage : Graph → RunConfig → Node → ℕ → Outcome → RunState W → StepResult W
  unfolding settle dead_end follow_edge
  complete_stage graph config node node_index outcome s =
      let s' = settle node node_index outcome s in
      elim (select_edge env.dump node outcome (snapshot s'.ctx) graph) [
        | none ↦ finished (dead_end node outcome) s'.world
        | some next_edge ↦ follow_edge config node outcome next_edge (snapshot s'.ctx) s'
      ]

  unfoldable pub announce : NodeVariant → ℕ → RunState W → RunState W
  announce nv node_index s = record s {
    ctx = next_execution_counter s.ctx;
    world = env.m_on_event (stage_started (to_base nv).id node_index) s.world;
  }

  unfoldable pub run_stage : Handler W → Graph → RunConfig → NodeVariant → RunState W → StepResult W
  unfolding announce complete_stage
  run_stage handler graph config nv s =
      let node_index = length s.completed_nodes % 2 ^ 32 in
      let r = execute_stage env handler nv graph config (announce nv node_index s) in
      complete_stage graph config (to_base nv) node_index r.0 r.1

  -- A round at a node that is not terminal.
  unfoldable pub node_step : Graph → RunConfig → NodeVariant → RunState W → StepResult W
  unfolding run_stage
  node_step graph config nv s = elim (resolve env.m_registry (to_base nv)) [
    | none ↦ aborted
    | some handler ↦ run_stage handler graph config nv s
  ]

  unfoldable pub step : Graph → RunConfig → RunState W → StepResult W
  unfolding node_step
  step graph config s = elim (find_node graph s.current_id) [
    | none ↦ finished (fail_outcome (text "Node not found: " ++ s.current_id)) s.world
    | some nv ↦ elim (is_terminal (to_base nv)) [
      | true ↦ elim (terminal_step graph config s) [
        | finish outcome ↦ finished outcome s.world
        | go_on s' ↦ advance s'
      ]
      | false ↦ node_step graph config nv s
    ]
  ]

  -- What stands before the loop: the depth limit, and the state, fresh or from a checkpoint.
  abbrev pub fresh_state : NodeId → W → RunState W
  fresh_state start_id w = record {
    node_outcomes = [];
    current_id = start_id;
    ctx = empty_context;
    completed_nodes = [];
    node_retries_map = [];
    terminal_retry_count = 0;
    world = w;
  }

  unfoldable pub resumed_state : CheckpointData → RunState W → RunState W
  resumed_state cp s = record s {
    ctx = set_execution_counter cp.execution_counter (merge_updates cp.context s.ctx);
    completed_nodes = cp.completed_nodes;
    node_retries_map = cp.node_retries;
    current_id = if is_empty cp.current_node then s.current_id else cp.current_node;
  }

  unfoldable pub after_load : NodeId → Result Text CheckpointData → W → StepResult W
  unfolding resumed_state
  after_load start_id (err e) w = finished (fail_outcome (text "resume failed: " ++ e)) w
  after_load start_id (ok cp) w = advance (resumed_state cp (fresh_state start_id w))

  unfoldable pub resume_run : RunConfig → NodeId → W → StepResult W
  unfolding after_load
  resume_run config start_id w =
      if is_empty config.logs_root
      then finished (fail_outcome (text "resume requires a non-empty logs_root")) w
      else (let r = env.load_checkpoint config.logs_root w in after_load start_id r.0 r.1)

  unfoldable pub begin_run : RunConfig → ℕ → NodeId → W → StepResult W
  unfolding exceeds resume_run
  begin_run config loop_depth start_id w =
      if exceeds loop_depth config.max_loop_depth
      then finished (fail_outcome (text "loop_restart depth limit exceeded")) w
      else if config.resume
      then resume_run config start_id w
      else advance (fresh_state start_id w)

-- What a run comes to.
pub data RunResult (W : Type 0) : Type 0 where
  returned_outcome : Outcome → W → RunResult W
  assertion_failed : RunResult W
  out_of_fuel : RunResult W

module _ {W : Type 0} (env : Env W) where
  -- The loop, and behind `restart` the recursive call of `run_from`.
  unfoldable pub run_loop : Graph → ℕ → RunConfig → ℕ → StepResult W → RunResult W
  unfolding begin_run step
  run_loop graph fuel config loop_depth (finished outcome w) = returned_outcome outcome w
  run_loop graph fuel config loop_depth aborted = assertion_failed
  run_loop graph zero config loop_depth r = out_of_fuel
  run_loop graph (suc fuel) config loop_depth (advance s) =
      run_loop graph fuel config loop_depth (step env graph config s)
  run_loop graph (suc fuel) config loop_depth (restart start_id w) =
      let fresh_config = record config { resume = false } in
      run_loop graph fuel fresh_config (suc loop_depth)
        (begin_run env fresh_config (suc loop_depth) start_id w)

  unfoldable pub run_from : Graph → ℕ → NodeId → RunConfig → ℕ → W → RunResult W
  run_from graph fuel start_id config loop_depth w =
      run_loop graph fuel config loop_depth (begin_run env config loop_depth start_id w)

  unfoldable pub run : Graph → ℕ → RunConfig → W → RunResult W
  run graph fuel config w = elim (find_start_node graph) [
    | none ↦ returned_outcome (fail_outcome (text "No start node found in graph")) w
    | some start ↦ run_from graph fuel (to_base start).id config 0 w
  ]
