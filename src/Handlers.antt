-- ===== src/Handlers.antt =====
-- src/handlers: the handlers that work inside the program. Gate is the human gate, Parallel joins
-- the results of parallel branches, and FanIn is the fan-in handler; Choices, Manager, Joins and
-- BestBranch hold the proofs. The start, exit,
-- conditional and manager loop handlers are here. `dump` is nlohmann::json's printer.
pub mod Gate
pub mod Choices
pub mod Manager
pub mod Parallel
pub mod Joins
pub mod FanIn
pub mod BestBranch
use attractor.Prelude.{
  ℕ, zero, suc, ◌+◌, ◌/◌, ◌%◌, ltb, Bool, true, false, ◌&&◌, not, List, [], ◌∷◌, ◌++◌, Text, text,
  pos_part, is_empty, if◌then◌else◌,
}
use attractor.Json.{Json, str}
use attractor.Types.{ConditionExpr}
use attractor.Graph.{Node, ManagerNode}
use attractor.Handler.{Outcome, default_outcome, fail_outcome}
use attractor.Context.{Context, set, snapshot}
use attractor.Condition.{eval_condition}

unfoldable pub execute_start : Node → Outcome
execute_start node = default_outcome

unfoldable pub execute_exit : Node → Outcome
execute_exit node = default_outcome

unfoldable pub execute_conditional : Node → Outcome
execute_conditional node = record default_outcome {
  notes = text "Conditional node evaluated: " ++ node.id;
}

-- `std::to_string` of a number that is not negative; the fuel bounds the number of digits.
unfoldable pub decimal_digits : ℕ → ℕ → Text
decimal_digits zero n = (48 + n % 10) ∷ []
decimal_digits (suc fuel) n =
    let rest = decimal_digits fuel (n / 10) in
    if ltb n 10 then (48 + n) ∷ [] else rest ++ (48 + n % 10) ∷ []

unfoldable pub decimal : ℕ → Text
unfolding decimal_digits
decimal n = decimal_digits n n

module _ (dump : Json → Text) (stop_cond : ConditionExpr) where
  -- The write of the number of the cycle.
  unfoldable pub enter_cycle : ℕ → Context → Context
  unfolding decimal
  enter_cycle cycle ctx = (set (text "cycle") (str (decimal cycle)) ctx).1

  unfoldable pub is_stopped : Context → Bool
  is_stopped ctx =
      not (is_empty stop_cond) && eval_condition dump stop_cond default_outcome (snapshot ctx)

  -- The loop, over the cycles that remain.
  unfoldable pub run_cycles : (remaining cycle : ℕ) → Context → Outcome × Context
  unfolding enter_cycle is_stopped
  run_cycles zero cycle ctx = (fail_outcome (text "Max cycles exceeded"), ctx)
  run_cycles (suc remaining) cycle ctx =
      let ctx' = enter_cycle cycle ctx in
      let rest = run_cycles remaining (suc cycle) ctx' in
      if is_stopped ctx'
      then (
        record default_outcome {
          notes = text "Stop condition satisfied on cycle " ++ decimal cycle;
        },
        ctx',
      )
      else rest

unfoldable pub execute_manager_loop : (Json → Text) → ManagerNode → Context → Outcome × Context
unfolding run_cycles
execute_manager_loop dump derived ctx =
    run_cycles dump derived.manager_stop_condition (pos_part derived.manager_max_cycles) 1 ctx
