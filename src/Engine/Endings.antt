-- ===== src/Engine/Endings.antt =====
-- How runs end away from the gates, and what a resumed run has forgotten.
use attractor.Prelude.{
  ℕ, zero, suc, ◌≡◌, ◌≢◌, refl, ap, ◌∙◌, true, false, some, ◌⊎◌, In, arith, is_empty, [], ok,
  length, ◌%◌, ◌^◌,
}
use attractor.Json.{Json}
use attractor.Types.{NodeId, success, same_status}
use attractor.Graph.{Graph, Node, NodeVariant, Edge, to_base}
use attractor.Handler.{Outcome, RunConfig, default_outcome}
use attractor.Context.{snapshot}
use attractor.Condition.{eval_condition}
use attractor.Selection.Laws.{select_edge-none}
use attractor.Checkpoint.{CheckpointData}
use attractor.Engine.Env.{Handler, Env, RunState, find_node, is_terminal}
use attractor.Engine.Stage.{execute_stage}
use attractor.Engine.Terminal.{finish, terminal_step, unsatisfied_gates, allowed_partial, exceeds}
use attractor.Engine.Run.{
  finished, advance, complete_stage, run_stage, settle, announce, dead_end, step, begin_run,
  resume_run, after_load, resumed_state, fresh_state, run_loop, run_from, returned_outcome,
}

module _ {W : Type 0} (env : Env W) (graph : Graph) (config : RunConfig) where
  -- What allows a failed stage to be followed by another one.
  pub record IsAllowedAfterFailure (node : Node) (o : Outcome) (j : Json) (e : Edge) : Type 0 where
    pub member : In e graph.edges
    pub leaves : e.source ≡ node.id
    pub reason :
        (node.goal_gate ≡ true)
        ⊎ ((e.condition ≢ []) × (eval_condition env.dump e.condition o j ≡ true))

  dead_end-success :
      (node : Node) (o : Outcome) → o.status ≡ success → dead_end node o ≡ default_outcome
  unfolding dead_end same_status
  dead_end-success node o h = ground arith

  complete_stage-no_edge :
      (node : Node) (i : ℕ) (o : Outcome) (s : RunState W)
      → ((e : Edge) → In e graph.edges → e.source ≢ node.id)
      → complete_stage env graph config node i o s
        ≡ finished (dead_end node o) (settle env node i o s).world
  unfolding complete_stage
  complete_stage-no_edge node i o s h =
      let s' = settle env node i o s in
      let q =
        (select_edge-none env.dump node o (snapshot s'.ctx) graph).1
          (λ e el. h e el.member el.leaves) in
      rw (q, complete_stage)

  -- Whatever goal gates are open, a run whose stage succeeds at a node that no edge leaves returns
  -- the plain success.
  pub run_stage-dead_end :
      (handler : Handler W) (nv : NodeVariant) (s : RunState W)
      → ((e : Edge) → In e graph.edges → e.source ≢ (to_base nv).id)
      → (execute_stage env handler nv graph config
          (announce env nv (length s.completed_nodes % 2 ^ 32) s)).0.status
        ≡ success
      → (w : W) × (run_stage env handler graph config nv s ≡ finished default_outcome w)
  unfolding run_stage
  run_stage-dead_end handler nv s none_leaves ok_stage =
      let i = length s.completed_nodes % 2 ^ 32 in
      let r = execute_stage env handler nv graph config (announce env nv i s) in
      (
        (settle env (to_base nv) i r.0 r.1).world,
        complete_stage-no_edge (to_base nv) i r.0 r.1 none_leaves
            ∙ ap (λ o. finished o (settle env (to_base nv) i r.0 r.1).world)
                (dead_end-success (to_base nv) r.0 ok_stage),
      )

  terminal_step-none :
      (s : RunState W)
      → s.node_outcomes ≡ []
      → terminal_step graph config s ≡ finish default_outcome
  unfolding terminal_step unsatisfied_gates allowed_partial
  terminal_step-none s e = ground arith

  -- At a terminal node with nothing recorded the run succeeds.
  step-terminal :
      (s : RunState W) (nv : NodeVariant)
      → find_node graph s.current_id ≡ some nv
      → is_terminal (to_base nv) ≡ true
      → s.node_outcomes ≡ []
      → step env graph config s ≡ finished default_outcome s.world
  unfolding step
  step-terminal s nv f t e = rw (f, t, step) (rw (terminal_step-none s e))

  begin_run-resumed :
      (start_id : NodeId) (w w' : W) (cp : CheckpointData)
      → config.resume ≡ true
      → is_empty config.logs_root ≡ false
      → exceeds 0 config.max_loop_depth ≡ false
      → env.load_checkpoint config.logs_root w ≡ (ok cp, w')
      → begin_run env config 0 start_id w
        ≡ advance (resumed_state env cp (fresh_state env start_id w'))
  unfolding begin_run
  begin_run-resumed start_id w w' cp res root lim load =
      rw (lim, res, begin_run) (rw (root, resume_run) (rw (load, after_load) refl))

  -- A run resumed from a checkpoint whose next node is terminal returns the plain success, whatever
  -- outcome the goal gates had in the run that wrote the checkpoint.
  pub resumed-succeeds :
      (fuel : ℕ) (start_id : NodeId) (w w' : W) (cp : CheckpointData) (nv : NodeVariant)
      → config.resume ≡ true
      → is_empty config.logs_root ≡ false
      → exceeds 0 config.max_loop_depth ≡ false
      → env.load_checkpoint config.logs_root w ≡ (ok cp, w')
      → is_empty cp.current_node ≡ false
      → find_node graph cp.current_node ≡ some nv
      → is_terminal (to_base nv) ≡ true
      → run_from env graph (suc fuel) start_id config 0 w ≡ returned_outcome default_outcome w'
  unfolding run_from run_loop resumed_state
  resumed-succeeds fuel start_id w w' cp nv res root lim load cur found term =
      ap (run_loop env graph (suc fuel) config 0)
        (begin_run-resumed start_id w w' cp res root lim load)
      ∙ ap (run_loop env graph fuel config 0) (
          step-terminal (resumed_state env cp (fresh_state env start_id w')) nv
            (rw (cur, resumed_state) found) term refl)
      ∙ ended fuel
    where
      ended :
          (n : ℕ)
          → run_loop env graph n config 0 (finished default_outcome w')
            ≡ returned_outcome default_outcome w'
      ended zero = refl
      ended (suc n) = refl
