-- ===== src/Engine/Frame.antt =====
-- What the execution of a stage leaves as it was.
use attractor.Prelude.{ℕ, zero, suc, ◌≡◌, refl, ◌∙◌, Bool-cases, inl, inr}
use attractor.Types.{retry, same_status}
use attractor.Graph.{Graph, NodeVariant, to_base}
use attractor.Handler.{RunConfig}
use attractor.Engine.Env.{Handler, Env, RunState}
use attractor.Engine.Stage.{
  execute_once, execute_attempts, execute_stage, sleep_before_retry, effective_max_retries,
}

-- The variables of the loop that only the loop itself writes.
pub record SameFrame {W : Type 0} (s t : RunState W) : Type 0 where
  pub current_id : t.current_id ≡ s.current_id
  pub completed_nodes : t.completed_nodes ≡ s.completed_nodes
  pub terminal_retry_count : t.terminal_retry_count ≡ s.terminal_retry_count

SameFrame-trans : {W : Type 0} {s t u : RunState W} → SameFrame s t → SameFrame t u → SameFrame s u
SameFrame-trans h k = record {
  current_id = k.current_id ∙ h.current_id;
  completed_nodes = k.completed_nodes ∙ h.completed_nodes;
  terminal_retry_count = k.terminal_retry_count ∙ h.terminal_retry_count;
}

module _ {W : Type 0} (env : Env W) (handler : Handler W) (nv : NodeVariant) (graph : Graph)
    (config : RunConfig) where
  execute_once-SameFrame :
      (s : RunState W) → SameFrame s (execute_once env handler nv graph config s).1
  unfolding execute_once
  execute_once-SameFrame s = record {
    current_id = refl;
    completed_nodes = refl;
    terminal_retry_count = refl;
  }

  slept-SameFrame :
      (attempt : ℕ) (s : RunState W) → SameFrame s (sleep_before_retry env config attempt s)
  unfolding sleep_before_retry
  slept-SameFrame attempt s = record {
    current_id = refl;
    completed_nodes = refl;
    terminal_retry_count = refl;
  }

  pub execute_attempts-SameFrame :
      (remaining attempt : ℕ) (s : RunState W)
      → SameFrame s (execute_attempts env handler nv graph config remaining attempt s).2
  unfolding execute_attempts
  execute_attempts-SameFrame zero attempt s = execute_once-SameFrame s
  execute_attempts-SameFrame (suc remaining) attempt s =
      elim (Bool-cases (same_status (execute_once env handler nv graph config s).0.status retry)) [
        | inl e ↦
            rw (e, execute_attempts)
              (SameFrame-trans (execute_once-SameFrame s) (
                SameFrame-trans
                  (slept-SameFrame attempt (execute_once env handler nv graph config s).1)
                  (execute_attempts-SameFrame remaining (suc attempt) (
                    sleep_before_retry env config attempt
                      (execute_once env handler nv graph config s).1))))
        | inr e ↦ rw (e, execute_attempts) (execute_once-SameFrame s)
      ]

  pub execute_stage-SameFrame :
      (s : RunState W) → SameFrame s (execute_stage env handler nv graph config s).1
  unfolding execute_stage
  execute_stage-SameFrame s =
      let f = execute_attempts-SameFrame (effective_max_retries (to_base nv) graph) 0 s in
      record {
        current_id = f.current_id;
        completed_nodes = f.completed_nodes;
        terminal_retry_count = f.terminal_retry_count;
      }
