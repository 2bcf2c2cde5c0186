-- ===== src/Tests/Runs.antt =====
-- The theorems of the engine, applied to the sample pipeline.
use attractor.Prelude.{
  ℕ, ◌+◌, ◌≤◌, ◌<◌, ◌≡◌, ◌≢◌, refl, sym, subst, Bool, true, false, Option, none, some, List, [],
  ◌∷◌, ◌==◌, ==_iff, inl, inr, In, arith, ◌⊎◌, if◌then◌else◌, map_get, length, text, ◌%◌, ◌^◌,
  map_set, map_erase, pos, pos_part, ◌*◌,
}
use attractor.Types.{NodeId, success, fail, retry, same_shape, same_status}
use attractor.Graph.{Graph, Edge, to_base}
use attractor.Handler.{Outcome, returned, default_outcome, fail_outcome}
use attractor.Engine.Env.{Handler, RunState, find_node, has_id, is_terminal}
use attractor.Engine.Stage.{execute_stage, execute_attempts}
use attractor.Engine.Terminal.{
  GateInfo, Verdict, finish, go_on, terminal_step, is_satisfied, gate_retry_target, gate_entry,
  exceeds,
}
use attractor.Engine.Run.{
  StepResult, finished, advance, complete_stage, run, run_from, run_stage, announce, out_of_fuel,
  returned_outcome,
}
use attractor.Engine.Termination.{IsRanked, run-ends}
use attractor.Engine.Retries.{IsRetried, execute_attempts-IsRetried, execute_stage-settled}
use attractor.Engine.OpenGates.{IsOpenGate, IsSource, NoOpenGate, IsAllowedPartial}
use attractor.Engine.Gates.{terminal_step-finish, terminal_step-retry}
use attractor.Engine.Endings.{run_stage-dead_end, resumed-succeeds}
use attractor.Tests.Samples.{
  edge_of, start_id, gate_id, exit_id, gate, leave, pipeline, config, saved, succeed, world,
  state_at,
}

abbrev failed : Outcome
failed = fail_outcome []

abbrev at_gate : RunState ℕ
at_gate = state_at gate_id default_outcome

abbrev rank : NodeId → ℕ
rank id = if id == start_id then 2 else if id == gate_id then 1 else 0

pipeline-IsRanked : IsRanked pipeline rank 2
unfolding ◌==◌
pipeline-IsRanked = record { falls = λ e i h. falls e i; bounded = λ id. ground arith }
  where
    falls : (e : Edge) → In e pipeline.edges → rank e.to < rank e.source
    falls e (inl q) = subst (λ d. rank d.to < rank d.source) (sym q) (omega arith)
    falls e (inr (inl q)) = subst (λ d. rank d.to < rank d.source) (sym q) (omega arith)
    falls e (inr (inr i)) = absurd i

run-ends_example : run world pipeline 40 config 0 ≢ out_of_fuel
run-ends_example = run-ends world pipeline rank 2 pipeline-IsRanked 40 config 0 (omega arith)

-- A handler that always asks for a retry.
abbrev again : Handler ℕ
again nv graph c ctx w = (returned (record default_outcome { status = retry }), (ctx, w + 1))

execute_attempts-IsRetried_example :
    IsRetried world again gate pipeline config 3 0 at_gate
      (execute_attempts world again gate pipeline config 3 0 at_gate)
execute_attempts-IsRetried_example =
    execute_attempts-IsRetried world again gate pipeline config 3 0 at_gate

execute_stage-settled_example :
    ((execute_stage world succeed gate pipeline config at_gate).0.status ≢ retry)
    × (map_get
          (to_base gate).id
          (execute_stage world succeed gate pipeline config at_gate).1.node_outcomes
        ≡ some (execute_stage world succeed gate pipeline config at_gate).0)
execute_stage-settled_example = execute_stage-settled world succeed gate pipeline config at_gate

at_exit_finishes :
    terminal_step pipeline config (state_at exit_id default_outcome) ≡ finish default_outcome
unfolding terminal_step find_node has_id ◌==◌ is_satisfied gate_entry attractor.Prelude.find to_base
    same_status
at_exit_finishes = refl

terminal_step-finish_example :
    ((default_outcome.status ≡ fail)
      × ((g : GateInfo) × IsSource pipeline (state_at exit_id default_outcome).node_outcomes g))
    ⊎ (NoOpenGate pipeline (state_at exit_id default_outcome).node_outcomes
        × ((default_outcome ≡ default_outcome)
            ⊎ IsAllowedPartial pipeline
                (state_at exit_id default_outcome).node_outcomes
                default_outcome))
terminal_step-finish_example =
    terminal_step-finish pipeline config (state_at exit_id default_outcome) default_outcome
      at_exit_finishes

-- The state that a verdict goes on with.
abbrev state_of : Verdict (RunState ℕ) → RunState ℕ
state_of (go_on t) = t
state_of (finish o) = at_gate

abbrev sent_back : RunState ℕ
sent_back = state_of (terminal_step pipeline config (state_at exit_id failed))

sent_back_equation : terminal_step pipeline config (state_at exit_id failed) ≡ go_on sent_back
unfolding terminal_step find_node has_id ◌==◌ is_satisfied gate_entry attractor.Prelude.find to_base
    same_status attractor.Prelude.all
sent_back_equation = refl

gate-IsOpenGate : IsOpenGate pipeline gate_id failed gate
unfolding find_node has_id ◌==◌ is_satisfied attractor.Prelude.find to_base same_status
gate-IsOpenGate = record { found = refl; gate = refl; unmet = refl }

terminal_step-retry_example :
    (gate_retry_target pipeline (to_base gate) ≡ some sent_back.current_id)
    × (map_get gate_id sent_back.node_outcomes ≡ none)
terminal_step-retry_example =
    terminal_step-retry pipeline config (state_at exit_id failed) sent_back gate_id failed gate
      sent_back_equation (inl refl) gate-IsOpenGate

abbrev advanced : StepResult ℕ → RunState ℕ
advanced (advance t) = t
advanced r = at_gate

abbrev behind_gate : RunState ℕ
behind_gate = advanced (complete_stage world pipeline config (to_base gate) 1 failed at_gate)

unequal : (a b : NodeId) → (a == b) ≡ false → a ≢ b
unequal a b h p = let q : (a == b) ≡ true = (==_iff a b).1 p in absurd (cc)

-- The stage with the goal gate has no way out.
abbrev stranded : Graph
stranded = record pipeline { edges = edge_of start_id gate_id ∷ [] }

none_leaves : (e : Edge) → In e stranded.edges → e.source ≢ (to_base gate).id
unfolding ◌==◌ to_base
none_leaves e (inl q) = subst (λ d. d.source ≢ gate_id) (sym q) (unequal start_id gate_id refl)
none_leaves e (inr i) = absurd i

stage_succeeds :
    (execute_stage world succeed gate stranded config
      (announce world gate (length at_gate.completed_nodes % 2 ^ 32) at_gate)).0.status
    ≡ success
unfolding execute_stage same_status to_base
stage_succeeds = refl

run_stage-dead_end_example :
    (w : ℕ) × (run_stage world succeed stranded config gate at_gate ≡ finished default_outcome w)
run_stage-dead_end_example =
    run_stage-dead_end world stranded config succeed gate at_gate none_leaves stage_succeeds

exit_found : find_node pipeline exit_id ≡ some leave
unfolding find_node has_id ◌==◌ attractor.Prelude.find to_base
exit_found = refl

exit_is_terminal : is_terminal (to_base leave) ≡ true
unfolding is_terminal same_shape to_base
exit_is_terminal = refl

limit_holds : exceeds 0 config.max_loop_depth ≡ false
unfolding exceeds
limit_holds = refl

resumed-succeeds_example :
    run_from world pipeline 1 start_id config 0 0 ≡ returned_outcome default_outcome 1
resumed-succeeds_example =
    resumed-succeeds world pipeline config 0 start_id 0 1 saved leave refl refl limit_holds refl
      refl exit_found exit_is_terminal
