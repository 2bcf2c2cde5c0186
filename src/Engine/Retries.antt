-- ===== src/Engine/Retries.antt =====
-- The retries of a stage: how many there are, and what the stage records.
use attractor.Prelude.{
  ℕ, zero, suc, ◌+◌, ◌≤◌, ◌<◌, ◌≡◌, ◌≢◌, refl, true, some, Bool-cases, inl, inr, arith, map_get,
  map_set, map_get-map_set, ==_refl,
}
use attractor.Types.{StageStatus, success, partial_success, fail, retry, skipped, same_status}
use attractor.Graph.{Graph, Node, NodeVariant, to_base}
use attractor.Handler.{Outcome, RunConfig}
use attractor.Engine.Env.{Handler, Env, RunState}
use attractor.Engine.Stage.{
  execute_once, execute_attempts, execute_stage, sleep_before_retry, effective_max_retries,
  resolve_retry,
}

same_status-retry : (x : StageStatus) → same_status x retry ≡ true → x ≡ retry
unfolding same_status
same_status-retry success h = absurd (cc)
same_status-retry partial_success h = absurd (cc)
same_status-retry fail h = absurd (cc)
same_status-retry retry h = refl
same_status-retry skipped h = absurd (cc)

resolve_retry-ne : (node : Node) (o : Outcome) → (resolve_retry node o).status ≢ retry
unfolding resolve_retry same_status
resolve_retry-ne node o = ground arith

map_get_self : {V : Type 0} (k : _) (v : V) (m : _) → map_get k (map_set k v m) ≡ some v
map_get_self k v m = rw (map_get-map_set, ==_refl)

module _ {W : Type 0} (env : Env W) (handler : Handler W) (nv : NodeVariant) (graph : Graph)
    (config : RunConfig) where
  -- The state before the execution with the number `attempt + k`, when each one before it was
  -- followed by a retry.
  unfoldable pub before_attempt : (attempt k : ℕ) → RunState W → RunState W
  unfolding execute_once sleep_before_retry
  before_attempt attempt zero s = s
  before_attempt attempt (suc k) s =
      before_attempt (suc attempt) k
        (sleep_before_retry env config attempt (execute_once env handler nv graph config s).1)

  -- The outcome of that execution.
  abbrev pub outcome_of : (attempt k : ℕ) → RunState W → Outcome
  outcome_of attempt k s = (execute_once env handler nv graph config (before_attempt attempt k s)).0

  -- The number of retries after the loop, its last outcome, and what is recorded for the node.
  pub record IsRetried (remaining attempt : ℕ) (s : RunState W) (r : Outcome × ℕ × RunState W)
      : Type 0 where
    pub at_least : attempt ≤ r.1
    pub at_most : r.1 ≤ attempt + remaining
    pub exhausted : same_status r.0.status retry ≡ true → r.1 ≡ attempt + remaining
    pub recorded : map_get (to_base nv).id r.2.node_outcomes ≡ some r.0
    pub needed : (k : ℕ) → attempt + k < r.1 → (outcome_of attempt k s).status ≡ retry
    pub last : (k : ℕ) → attempt + k ≡ r.1 → r.0 ≡ outcome_of attempt k s

  once-recorded :
      (s : RunState W)
      → map_get (to_base nv).id (execute_once env handler nv graph config s).1.node_outcomes
        ≡ some (execute_once env handler nv graph config s).0
  unfolding execute_once
  once-recorded s = map_get_self (to_base nv).id _ s.node_outcomes

  only_execution :
      (attempt : ℕ) (s : RunState W) (k : ℕ)
      → attempt + k ≡ attempt
      → (execute_once env handler nv graph config s).0 ≡ outcome_of attempt k s
  unfolding before_attempt
  only_execution attempt s zero h = refl
  only_execution attempt s (suc k) h = absurd (omega arith)

  -- What the executions behind the first one say of all.
  needed_before :
      (attempt retries : ℕ) (s : RunState W)
      → (execute_once env handler nv graph config s).0.status ≡ retry
      → ((k : ℕ)
          → suc attempt + k < retries
          → (outcome_of (suc attempt) k (
              sleep_before_retry env config attempt
                (execute_once env handler nv graph config s).1)).status
            ≡ retry)
      → (k : ℕ) → attempt + k < retries
      → (outcome_of attempt k s).status ≡ retry
  unfolding before_attempt
  needed_before attempt retries s e h zero l = e
  needed_before attempt retries s e h (suc k) l = h k (omega arith)

  last_behind :
      (attempt retries : ℕ) (s : RunState W)
      → suc attempt ≤ retries
      → (o : Outcome)
      → ((k : ℕ)
          → suc attempt + k ≡ retries
          → o
            ≡ outcome_of (suc attempt) k (
                sleep_before_retry env config attempt
                  (execute_once env handler nv graph config s).1))
      → (k : ℕ) → attempt + k ≡ retries
      → o ≡ outcome_of attempt k s
  unfolding before_attempt
  last_behind attempt retries s g o h zero l = absurd (omega arith)
  last_behind attempt retries s g o h (suc k) l = h k (omega arith)

  -- The retry loop makes at most the retries that remain, retries only behind an execution that
  -- ends with `retry`, ends itself with the outcome of its last execution, with `retry` only when
  -- all retries are made, and has recorded this outcome for the node.
  pub execute_attempts-IsRetried :
      (remaining attempt : ℕ) (s : RunState W)
      → IsRetried remaining attempt s
          (execute_attempts env handler nv graph config remaining attempt s)
  unfolding execute_attempts before_attempt
  execute_attempts-IsRetried zero attempt s = record {
    at_least = omega arith;
    at_most = omega arith;
    exhausted = λ h. omega arith;
    recorded = once-recorded s;
    needed = λ k h. absurd (omega arith);
    last = only_execution attempt s;
  }
  execute_attempts-IsRetried (suc remaining) attempt s =
      elim (Bool-cases (same_status (execute_once env handler nv graph config s).0.status retry)) [
        | inl e ↦
            let r = execute_attempts-IsRetried remaining (suc attempt) (
              sleep_before_retry env config attempt
                (execute_once env handler nv graph config s).1) in
            rw (e, execute_attempts)
              (record {
                at_least = omega (arith, r.at_least);
                at_most = omega (arith, r.at_most);
                exhausted = λ h. omega (arith, r.exhausted h);
                recorded = r.recorded;
                needed = λ k h. needed_before attempt _ s (same_status-retry _ e) r.needed k h;
                last = λ k h. last_behind attempt _ s r.at_least _ r.last k h;
              })
        | inr e ↦
            rw (e, execute_attempts)
              (record {
                at_least = omega arith;
                at_most = omega arith;
                exhausted = λ h. absurd (cc);
                recorded = once-recorded s;
                needed = λ k h. absurd (omega arith);
                last = only_execution attempt s;
              })
      ]

  -- A stage ends with another status than `retry`, and this outcome is what is recorded for its
  -- node.
  pub execute_stage-settled :
      (s : RunState W)
      → ((execute_stage env handler nv graph config s).0.status ≢ retry)
        × (map_get (to_base nv).id (execute_stage env handler nv graph config s).1.node_outcomes
            ≡ some (execute_stage env handler nv graph config s).0)
  unfolding execute_stage
  execute_stage-settled s =
      let r =
        execute_attempts env handler nv graph config (effective_max_retries (to_base nv) graph) 0
          s in
      let f = execute_attempts-IsRetried (effective_max_retries (to_base nv) graph) 0 s in
      (
        resolve_retry-ne (to_base nv) r.0,
        elim (Bool-cases (same_status r.0.status retry)) [
          | inl e ↦ rw e (map_get_self (to_base nv).id _ r.2.node_outcomes)
          | inr e ↦ rw e f.recorded
        ],
      )
