-- ===== src/Engine/Stage.antt =====
-- The part of the loop of `run_from` (src/engine.cpp) that executes a node: `safe_execute`, the
-- retries, and the outcome of the stage.
use attractor.Prelude.{
  ℕ, zero, suc, ltb, true, false, none, some, text, ◌++◌, map_set, if◌then◌else◌,
}
use attractor.Types.{retry, partial_success, same_status}
use attractor.Graph.{Graph, Node, NodeVariant, to_base}
use attractor.Handler.{
  Outcome, Execution, returned, thrown, thrown_unknown, default_outcome, fail_outcome, RunConfig,
}
use attractor.Backoff.{compute_backoff_delay}
use attractor.Engine.Env.{Handler, Env, RunState}

unfoldable pub effective_max_retries : Node → Graph → ℕ
effective_max_retries node graph = elim node.max_retries [
  | some n ↦ n
  | none ↦ graph.default_max_retries
]

-- The two `catch` clauses.
unfoldable pub caught : Execution → Outcome
caught (returned outcome) = outcome
caught (thrown what) = fail_outcome what
caught thrown_unknown = fail_outcome (text "handler threw unknown exception")

-- The outcome of a stage: an outcome that is still `retry` means that the retries ran out.
unfoldable pub resolve_retry : Node → Outcome → Outcome
resolve_retry node outcome =
    if same_status outcome.status retry
    then (if node.allow_partial
        then record default_outcome {
          status = partial_success;
          failure_reason = text "Retry exhausted (partial): " ++ node.id;
        }
        else fail_outcome (text "Retry exhausted: " ++ node.id))
    else outcome

module _ {W : Type 0} (env : Env W) where
  unfoldable pub do_sleep : RunConfig → ℕ → W → W
  do_sleep config attempt w =
      let delay = compute_backoff_delay config.preset attempt in
      if ltb 0 delay then env.sleep delay w else w

  unfoldable pub sleep_before_retry : RunConfig → ℕ → RunState W → RunState W
  unfolding do_sleep
  sleep_before_retry config attempt s = record s { world = do_sleep config attempt s.world }

  -- `safe_execute`, and the write of `node_outcomes[node.id]` behind it.
  unfoldable pub execute_once :
      Handler W → NodeVariant → Graph → RunConfig → RunState W → Outcome × RunState W
  unfolding caught
  execute_once handler nv graph config s =
      let r = handler nv graph config s.ctx s.world in
      let outcome = caught r.0 in
      (
        outcome,
        record s {
          ctx = r.1.0;
          world = r.1.1;
          node_outcomes = map_set (to_base nv).id outcome s.node_outcomes;
        },
      )

  -- The `do` loop, over the retries that remain: the last outcome, and the number of retries.
  unfoldable pub execute_attempts :
      Handler W
      → NodeVariant
      → Graph
      → RunConfig
      → (remaining attempt : ℕ) → RunState W
      → Outcome × ℕ × RunState W
  unfolding execute_once sleep_before_retry
  execute_attempts handler nv graph config zero attempt s =
      let r = execute_once handler nv graph config s in (r.0, attempt, r.1)
  execute_attempts handler nv graph config (suc remaining) attempt s =
      let r = execute_once handler nv graph config s in
      elim (same_status r.0.status retry) [
        | true ↦
            execute_attempts handler nv graph config remaining (suc attempt)
              (sleep_before_retry config attempt r.1)
        | false ↦ (r.0, attempt, r.1)
      ]

  -- The lambda of `std::visit` with what follows it, up to the event.
  unfoldable pub execute_stage :
      Handler W → NodeVariant → Graph → RunConfig → RunState W → Outcome × RunState W
  unfolding execute_attempts effective_max_retries resolve_retry
  execute_stage handler nv graph config s =
      let node = to_base nv in
      let r = execute_attempts handler nv graph config (effective_max_retries node graph) 0 s in
      let retries =
        if ltb 0 r.1 then map_set node.id r.1 r.2.node_retries_map else r.2.node_retries_map in
      let outcome = resolve_retry node r.0 in
      (
        outcome,
        record (r.2) {
          node_retries_map = retries;
          node_outcomes =
              if same_status r.0.status retry
              then map_set node.id outcome r.2.node_outcomes
              else r.2.node_outcomes;
        },
      )
