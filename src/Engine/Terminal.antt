-- ===== src/Engine/Terminal.antt =====
-- The part of the loop of `run_from` (src/engine.cpp) for a terminal node: the goal gates.
use attractor.Prelude.{
  ℕ, suc, ltb, Bool, true, false, Option, none, some, List, [], ◌∷◌, text, ◌++◌, ◌==◌, not, ◌||◌,
  Map, map_erase, is_empty, all, ℤ, pos, negsuc, if◌then◌else◌,
}
use attractor.Types.{NodeId, success, partial_success, same_status}
use attractor.Graph.{Graph, Node, to_base}
use attractor.Handler.{Outcome, default_outcome, fail_outcome, RunConfig}
use attractor.Engine.Env.{RunState, find_node}

pub record GateInfo : Type 0 where
  pub gate_id : NodeId
  pub retry_target : Option NodeId

-- A node's retry target: its own, its fallback, the graph's, the graph's fallback.
unfoldable pub gate_retry_target : Graph → Node → Option NodeId
gate_retry_target graph gn =
    if not (is_empty gn.retry_target)
    then some gn.retry_target
    else if not (is_empty gn.fallback_retry_target)
    then some gn.fallback_retry_target
    else if not (is_empty graph.retry_target)
    then some graph.retry_target
    else if not (is_empty graph.fallback_retry_target)
    then some graph.fallback_retry_target
    else none

unfoldable pub is_satisfied : Outcome → Bool
is_satisfied o = same_status o.status success || same_status o.status partial_success

-- One round of the first loop: the entry that a recorded outcome adds, if any.
unfoldable pub gate_entry : Graph → NodeId → Outcome → Option GateInfo
unfolding gate_retry_target is_satisfied
gate_entry graph node_id gate_outcome = elim (find_node graph node_id) [
  | none ↦ none
  | some gv ↦
      if not (to_base gv).goal_gate
      then none
      else if is_satisfied gate_outcome
      then none
      else some (record { gate_id = node_id; retry_target = gate_retry_target graph (to_base gv) })
]

unfoldable pub unsatisfied_gates : Graph → Map Outcome → List GateInfo
unfolding gate_entry
unsatisfied_gates graph [] = []
unsatisfied_gates graph ((node_id, gate_outcome) ∷ m) =
    let rest = unsatisfied_gates graph m in
    elim (gate_entry graph node_id gate_outcome) [ some g ↦ g ∷ rest | none ↦ rest ]

-- The first gate with no retry target.
unfoldable pub untargeted_gate : List GateInfo → Option NodeId
untargeted_gate [] = none
untargeted_gate (gi ∷ gs) = elim gi.retry_target [
  | none ↦ some gi.gate_id
  | some t ↦ untargeted_gate gs
]

unfoldable pub has_target : NodeId → GateInfo → Bool
has_target t gi = elim gi.retry_target [ none ↦ false | some u ↦ u == t ]

unfoldable pub erase_gates : List GateInfo → Map Outcome → Map Outcome
erase_gates [] m = m
erase_gates (gi ∷ gs) m = erase_gates gs (map_erase gi.gate_id m)

-- `n > limit` for a count and an `int`.
unfoldable pub exceeds : ℕ → ℤ → Bool
exceeds n (pos limit) = ltb limit n
exceeds n (negsuc limit) = true

-- The first recorded partial success of a node that allows it.
unfoldable pub allowed_partial : Graph → Map Outcome → Option Outcome
allowed_partial graph [] = none
allowed_partial graph ((nid, nout) ∷ m) =
    let rest = allowed_partial graph m in
    if same_status nout.status partial_success
    then elim (find_node graph nid) [
      | some nv ↦ if (to_base nv).allow_partial then some nout else rest
      | none ↦ rest
    ]
    else rest

-- The run ends with an outcome, or goes on.
pub data Verdict {ℓ} (S : Type ℓ) : Type ℓ where
  finish : Outcome → Verdict S
  go_on : S → Verdict S

module _ {W : Type 0} where
  -- What is done with the gates that are not satisfied; `front` is the target of the first.
  unfoldable pub retry_gates :
      RunConfig → List GateInfo → NodeId → RunState W → Verdict (RunState W)
  unfolding has_target exceeds erase_gates
  retry_gates config unsatisfied front s =
      if not (all (has_target front) unsatisfied)
      then finish (fail_outcome (text "Goal gates have conflicting retry targets"))
      else if exceeds s.terminal_retry_count config.max_loop_depth
      then finish (fail_outcome (text "Goal gate retry limit exceeded"))
      else go_on (record s {
        terminal_retry_count = suc s.terminal_retry_count;
        node_outcomes = erase_gates unsatisfied s.node_outcomes;
        current_id = front;
      })

  -- `g` is the first gate that is not satisfied, and `gs` are the others.
  unfoldable pub check_gates :
      RunConfig → GateInfo → List GateInfo → RunState W → Verdict (RunState W)
  unfolding untargeted_gate retry_gates
  check_gates config g gs s = elim (untargeted_gate (g ∷ gs)) [
    | some gate_id ↦ finish (fail_outcome (text "Goal gate unsatisfied: " ++ gate_id))
    | none ↦ elim g.retry_target [
      | some front ↦ retry_gates config (g ∷ gs) front s
      | none ↦ finish (fail_outcome (text "Goal gate unsatisfied: " ++ g.gate_id))
    ]
  ]

  unfoldable pub terminal_step : Graph → RunConfig → RunState W → Verdict (RunState W)
  unfolding unsatisfied_gates check_gates allowed_partial
  terminal_step graph config s = elim (unsatisfied_gates graph s.node_outcomes) [
    | [] ↦ elim (allowed_partial graph s.node_outcomes) [
      | some nout ↦ finish nout
      | none ↦ finish default_outcome
    ]
    | g ∷ gs ↦ check_gates config g gs s
  ]
