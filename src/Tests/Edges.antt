-- ===== src/Tests/Edges.antt =====
-- The theorems on conditions, edges, contexts, delays and the registry, applied to samples.
use attractor.Prelude.{
  arith, ℕ, ◌≡◌, ◌≢◌, ◌<◌, ◌↔◌, refl, false, none, some, List, [], ◌∷◌, ◌==◌, Text, select, sort,
  inl, inr,
}
use attractor.Json.{str, object, end}
use attractor.Types.{box, house}
use attractor.Graph.{Graph, Edge, Node}
use attractor.Selection.Labels.{select_edge-labelled}
use attractor.Condition.{normalize_label}
use attractor.Selection.{is_conditional_match}
use attractor.Handler.{Outcome, default_outcome, exponential_jitter_1s}
use attractor.Context.{empty_context, set, merge_updates, non_finite_fields}
use attractor.Context.Laws.{IsFinite, context-IsFinite}
use attractor.Selection.{select_edge, conditional_candidates, unconditional_candidates}
use attractor.Selection.Choice.{IsChosen}
use attractor.Selection.Stable.{Within}
use attractor.Selection.Laws.{IsEligible, select_edge-IsChosen, select_edge-none, select_edge-order}
use attractor.Backoff.{compute_backoff_delay, documented_jitter, jitter_below}
use attractor.Registry.{DefaultHandlers, resolve, register_default_handlers, empty_registry}
use attractor.Registry.Resolve.{default_for, resolve-defaults}
use attractor.Tests.Samples.{start_id, gate_id, exit_id, node_of, edge_of, pipeline, no_dump}

abbrev first_clause : Text
first_clause = b'a' ∷ b'=' ∷ b'b' ∷ []

abbrev begin_node : Node
begin_node = node_of start_id box false []

abbrev heavy : Edge
heavy = record (edge_of start_id exit_id) { weight = 2 }

-- Two edges leave the start, the second with the larger weight.
abbrev fork : List Edge
fork = edge_of start_id gate_id ∷ heavy ∷ []

abbrev forked : Graph
forked = record pipeline { edges = fork }

heavy_selected : select_edge no_dump begin_node default_outcome (object end) forked ≡ some heavy
unfolding select_edge select attractor.Selection.is_conditional_match ◌==◌
    attractor.Selection.choose_unconditional attractor.Selection.is_unconditional
    attractor.Selection.preferred_edge attractor.Selection.suggested_edge
    attractor.Selection.best_by_weight_then_lexical sort attractor.Selection.edge_before
heavy_selected = refl

select_edge-IsChosen_example :
    IsChosen default_outcome
      (conditional_candidates no_dump begin_node default_outcome (object end) forked)
      (unconditional_candidates begin_node forked)
      heavy
select_edge-IsChosen_example =
    select_edge-IsChosen no_dump begin_node default_outcome (object end) forked heavy heavy_selected

select_edge-none_example :
    (select_edge no_dump begin_node default_outcome (object end) forked ≡ none)
    ↔ ((e : Edge) → ¬ IsEligible no_dump begin_node default_outcome (object end) forked e)
select_edge-none_example = select_edge-none no_dump begin_node default_outcome (object end) forked

abbrev turned : Graph
turned = record pipeline { edges = heavy ∷ edge_of start_id gate_id ∷ [] }

turned_selected : select_edge no_dump begin_node default_outcome (object end) turned ≡ some heavy
unfolding select_edge select attractor.Selection.is_conditional_match ◌==◌
    attractor.Selection.choose_unconditional attractor.Selection.is_unconditional
    attractor.Selection.preferred_edge attractor.Selection.suggested_edge
    attractor.Selection.best_by_weight_then_lexical sort attractor.Selection.edge_before
turned_selected = refl

forked-Within : Within forked.edges turned.edges
forked-Within d (inl q) = inr (inl q)
forked-Within d (inr (inl q)) = inl q
forked-Within d (inr (inr i)) = absurd i

turned-Within : Within turned.edges forked.edges
turned-Within d (inl q) = inr (inl q)
turned-Within d (inr (inl q)) = inl q
turned-Within d (inr (inr i)) = absurd i

select_edge-order_example : heavy.to ≡ heavy.to
select_edge-order_example =
    select_edge-order no_dump begin_node default_outcome (object end) forked turned heavy heavy
      forked-Within turned-Within refl heavy_selected turned_selected

empty-IsFinite : IsFinite empty_context
unfolding non_finite_fields
empty-IsFinite = record { finite_data = refl }

context-IsFinite_example :
    IsFinite (set start_id (str gate_id) empty_context).1
    × IsFinite (merge_updates (object end) empty_context)
context-IsFinite_example =
    context-IsFinite start_id (str gate_id) (object end) empty_context empty-IsFinite

jitter_below_example : compute_backoff_delay exponential_jitter_1s 7 < documented_jitter 7
jitter_below_example = jitter_below 7 (omega arith)

abbrev numbered : DefaultHandlers ℕ
numbered = record {
  start = 0;
  exit = 1;
  codergen = 2;
  conditional = 3;
  wait_human = 4;
  parallel = 5;
  fan_in = 6;
  tool = 7;
  fallback = 8;
}

resolve-defaults_example :
    resolve (register_default_handlers numbered empty_registry) (node_of gate_id house false [])
    ≡ some (default_for numbered house)
resolve-defaults_example = resolve-defaults numbered (node_of gate_id house false []) refl

abbrev go_label : Text
go_label = b'g' ∷ b'o' ∷ []

abbrev go_edge : Edge
go_edge = record (edge_of start_id exit_id) { label = go_label }

abbrev signposted : Graph
signposted = record pipeline { edges = edge_of start_id gate_id ∷ go_edge ∷ [] }

abbrev go_outcome : Outcome
go_outcome = record default_outcome { preferred_label = go_label }

no_condition : conditional_candidates no_dump begin_node go_outcome (object end) signposted ≡ []
unfolding is_conditional_match select ◌==◌
no_condition = refl

go_label-ne : go_label ≢ []
go_label-ne p = cc

select_edge-labelled_example :
    (f : Edge) × (select_edge no_dump begin_node go_outcome (object end) signposted ≡ some f)
    × (normalize_label f.label ≡ normalize_label go_label)
select_edge-labelled_example =
    select_edge-labelled no_dump begin_node go_outcome (object end) signposted go_edge
      (inr (inl refl)) refl refl go_label-ne refl no_condition
