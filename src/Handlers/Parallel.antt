-- ===== src/Handlers/Parallel.antt =====
-- src/handlers/parallel_handler.cpp: how the results of the branches become one outcome. The
-- threads of the pool run outside the model: the handler's definitions take the results in the
-- order of the branches, as the code does after the pool has ended (a branch that first_success
-- has stopped is `skipped`).
use attractor.Prelude.{
  ℕ, Bool, true, false, none, some, List, [], ◌∷◌, ◌++◌, Text, text, ◌==◌, nat_eq, length, any,
  select, map, Result, ok, err, ◌&&◌, if◌then◌else◌, pos,
}
use attractor.Json.{
  Double, finite, infinite, nan, Json, integer, float, str, array, object, Items, nil, cons, end,
  field, set_field, get_member,
}
use attractor.Types.{NodeId, success, partial_success, fail, skipped, same_status}
use attractor.Graph.{Graph, Node}
use attractor.Handler.{Outcome, default_outcome, fail_outcome}
use attractor.Names.{stage_status_to_json}
use attractor.Handlers.{decimal}

unfoldable pub branch_starts : Node → Graph → List NodeId
branch_starts node graph = map (λ e. e.to) (select (λ e. e.source == node.id) graph.edges)

-- The score of a branch: a number, which may be infinite or NaN, or none.
unfoldable pub is_number : Json → Bool
is_number (integer i) = true
is_number (float d) = true
is_number j = false

-- `to_double` is `get<double>()` of an integer.
abbrev pub zero_score : Json
zero_score = float (finite (pos 0) (pos 0))

pub data Score : Type 0 where
  finite_score : Json → Score
  bad_score no_score : Score

module _ (to_double : Json → Double) where
  unfoldable pub score_of_number : Json → Score
  score_of_number j = elim (to_double j) [
    | finite m e ↦ finite_score (float (finite m e))
    | infinite b ↦ bad_score
    | nan ↦ bad_score
  ]

  unfoldable pub branch_score : Outcome → Score
  unfolding score_of_number is_number
  branch_score r = elim (get_member (text "parallel.score") r.context_updates) [
    | none ↦ no_score
    | some j ↦ if is_number j then score_of_number j else no_score
  ]

  -- An entry of `parallel.results`.
  unfoldable pub branch_entry : NodeId → Outcome → Json → Json
  branch_entry id r score = object (
      set_field (text "score") score (
        set_field (text "notes") (str r.notes) (
          set_field (text "failure_reason") (str r.failure_reason) (
            set_field (text "status") (stage_status_to_json r.status)
              (set_field (text "id") (str id) end)))))

  abbrev pub non_finite : NodeId → Text
  non_finite id =
      text "ParallelHandler: branch " ++ (id ++ text " produced non-finite score (NaN or infinity)")

  abbrev add_entry : Json → Result Text Items → Result Text Items
  add_entry entry (ok xs) = ok (cons entry xs)
  add_entry entry (err e) = err e

  -- A round of the two loops; `excused` is `first_success_found`, and false under wait_all.
  unfoldable pub add_scored :
      Bool → NodeId → Outcome → Score → Result Text Items → Result Text Items
  unfolding branch_entry
  add_scored excused id r (finite_score score) rest = add_entry (branch_entry id r score) rest
  add_scored excused id r no_score rest = add_entry (branch_entry id r zero_score) rest
  add_scored excused id r bad_score rest =
      if excused then add_entry (branch_entry id r zero_score) rest else err (non_finite id)

  -- The loop over the results under the policy wait_all.
  unfoldable pub collect_all : List (NodeId × Outcome) → Result Text Items
  unfolding branch_score add_scored
  collect_all [] = ok nil
  collect_all ((id, r) ∷ branches) = add_scored false id r (branch_score r) (collect_all branches)

  -- The loop under first_success, which passes over the branches that have been stopped.
  unfoldable pub collect_first : Bool → List (NodeId × Outcome) → Result Text Items
  unfolding branch_score add_scored
  collect_first found [] = ok nil
  collect_first found ((id, r) ∷ branches) =
      let rest = collect_first found branches in
      if same_status r.status skipped then rest else add_scored found id r (branch_score r) rest

  abbrev with_results : Items → Outcome
  with_results xs = record default_outcome {
    context_updates = object (field (text "parallel.results") (array xs) end);
  }

  unfoldable pub is_failed : NodeId × Outcome → Bool
  is_failed b = same_status b.1.status fail

  unfoldable pub is_partial : NodeId × Outcome → Bool
  is_partial b = same_status b.1.status partial_success

  unfoldable pub is_success : NodeId × Outcome → Bool
  is_success b = same_status b.1.status success

  unfoldable pub count_outcome : ℕ → ℕ → Items → Outcome
  count_outcome fail_count partial_count xs =
      if nat_eq fail_count 0 && nat_eq partial_count 0
      then record (with_results xs) { notes = text "ParallelHandler: all branches succeeded" }
      else if nat_eq fail_count 0
      then record (with_results xs) {
        status = partial_success;
        notes = text "ParallelHandler: all branches partial";
      }
      else record (with_results xs) {
        status = partial_success;
        notes = text "ParallelHandler: " ++ (decimal fail_count ++ text " branch(es) failed");
      }

  unfoldable pub join_all : List (NodeId × Outcome) → Outcome
  unfolding collect_all is_failed is_partial count_outcome
  join_all branches = elim (collect_all branches) [
    | err e ↦ fail_outcome e
    | ok xs ↦
        count_outcome (length (select is_failed branches)) (length (select is_partial branches)) xs
  ]

  unfoldable pub first_outcome : Bool → Result Text Items → Outcome
  first_outcome found (err e) = fail_outcome e
  first_outcome found (ok xs) =
      if found
      then record (with_results xs) { notes = text "ParallelHandler: first_success found" }
      else record (with_results xs) {
        status = fail;
        failure_reason = text "ParallelHandler: all branches failed (first_success)";
      }

  unfoldable pub join_first : List (NodeId × Outcome) → Outcome
  unfolding collect_first is_success first_outcome
  join_first branches =
      let found = any is_success branches in first_outcome found (collect_first found branches)
