-- ===== src/Tests/Handling.antt =====
-- The theorems of the interviewers, the handlers and the names, applied to samples.
use attractor.Prelude.{
  ◌≢◌, inl, ℕ, ◌+◌, ◌≡◌, ◌⊎◌, ◌↔◌, ◌++◌, refl, Bool, true, false, Option, some, none, List, [], ◌∷◌,
  In, ok, pos, pos_part, text,
}
use attractor.Json.{str}
use attractor.Types.{
  NodeId, success, fail, hexagon, house, answer_yes, answer_timeout, full, partial_success,
  freeform,
}
use attractor.Graph.{Edge, WaitHumanNode, ManagerNode}
use attractor.Context.{empty_context}
use attractor.Interview.{Question, Answer, skipped_answer, ask_queue}
use attractor.Handlers.{execute_manager_loop}
use attractor.Handlers.Gate.{execute_wait_human}
use attractor.Handlers.Choices.{execute_wait_human-leaves}
use attractor.Handlers.Manager.{IsEnded, execute_manager_loop-IsStopped}
use attractor.Json.{Json, Double, finite}
use attractor.Handler.{Outcome, default_outcome, fail_outcome}
use attractor.Handlers.Parallel.{join_all, join_first}
use attractor.Handlers.Joins.{join_all-success, join_first_iff}
use attractor.Tests.Samples.{gate_id, start_id, exit_id, node_of, pipeline, no_dump}

abbrev asked : Question
asked = record {
  wording = [];
  type = freeform;
  options = [];
  default_answer = none;
  timeout_seconds = none;
  stage = [];
}

abbrev agreed : Answer
agreed = record skipped_answer { kind = answer_yes }

abbrev human : WaitHumanNode
human = record { base = node_of gate_id hexagon false []; human_default_choice = exit_id }

abbrev timed_out : List Answer
timed_out = record skipped_answer { kind = answer_timeout } ∷ []

gate_succeeds : (execute_wait_human ask_queue human pipeline timed_out).0.status ≡ success
unfolding execute_wait_human attractor.Prelude.select attractor.Prelude.◌==◌ ask_queue
    attractor.Prelude.find
gate_succeeds = refl

execute_wait_human-leaves_example :
    (e : Edge) × In e pipeline.edges
    × (e.source ≡ gate_id)
    × ((execute_wait_human ask_queue human pipeline timed_out).0.preferred_label ≡ e.label)
execute_wait_human-leaves_example =
    execute_wait_human-leaves ask_queue human pipeline timed_out gate_succeeds

abbrev manager : ManagerNode
manager = record {
  base = node_of gate_id house false [];
  manager_stop_condition = text "outcome=success";
  manager_max_cycles = pos 2;
}

execute_manager_loop-IsStopped_example :
    IsEnded no_dump manager.manager_stop_condition 1
      (pos_part manager.manager_max_cycles)
      empty_context
      (execute_manager_loop no_dump manager empty_context)
execute_manager_loop-IsStopped_example =
    execute_manager_loop-IsStopped no_dump manager empty_context

abbrev whole : Json → Double
whole j = finite (pos 0) (pos 0)

abbrev both : List (NodeId × Outcome)
both = (start_id, default_outcome) ∷ (gate_id, fail_outcome []) ∷ []

abbrev alone : List (NodeId × Outcome)
alone = (start_id, default_outcome) ∷ []

alone_succeeds : (join_all whole alone).status ≡ success
unfolding join_all attractor.Json.get_member attractor.Json.get_field attractor.Prelude.select
    attractor.Types.same_status
alone_succeeds = refl

join_all-success_example : (success ≢ fail) × (success ≢ partial_success)
join_all-success_example =
    join_all-success whole alone (start_id, default_outcome) alone_succeeds (inl refl)

join_first_iff_example :
    ((join_first whole both).status ≡ success)
    ↔ ((b : NodeId × Outcome) × In b both × (b.1.status ≡ success))
join_first_iff_example = join_first_iff whole both
