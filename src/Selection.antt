-- ===== src/Selection.antt =====
-- `best_by_weight_then_lexical` and `select_edge` of src/engine.cpp: which edge a run follows from
-- a node. `dump` is nlohmann::json's printer. The proofs are in the modules below.
pub mod Order
pub mod Choice
pub mod Stable
pub mod Laws
pub mod Labels
use attractor.Prelude.{
  ℕ, Bool, true, false, ◌&&◌, not, Option, none, some, List, [], ◌∷◌, Text, ◌==◌, nat_eq, ltb,
  is_empty, if◌then◌else◌, text_lt, find, select, sort, first,
}
use attractor.Json.{Json}
use attractor.Types.{NodeId}
use attractor.Graph.{Node, Edge, Graph}
use attractor.Handler.{Outcome}
use attractor.Condition.{eval_condition, normalize_label}

-- The comparator: the larger weight first, then the smaller target.
unfoldable pub edge_before : Edge → Edge → Bool
edge_before a b = if nat_eq a.weight b.weight then text_lt a.to b.to else ltb b.weight a.weight

-- `candidates[0]` after the sort; the callers see to it that there is one.
unfoldable pub best_by_weight_then_lexical : List Edge → Option Edge
best_by_weight_then_lexical candidates = first (sort edge_before candidates)

-- Step 2: the first edge whose label is the preferred one, up to accelerators and case.
unfoldable pub has_label : Text → Edge → Bool
has_label norm_pref edge = not (is_empty edge.label) && (normalize_label edge.label == norm_pref)

unfoldable pub preferred_edge : Text → List Edge → Option Edge
unfolding has_label
preferred_edge preferred_label edges =
    if is_empty preferred_label
    then none
    else find (has_label (normalize_label preferred_label)) edges

-- Step 3: the first suggested id, in its order, that some edge leads to.
unfoldable pub leads_to : NodeId → Edge → Bool
leads_to nid edge = edge.to == nid

unfoldable pub suggested_edge : List NodeId → List Edge → Option Edge
unfolding leads_to
suggested_edge [] edges = none
suggested_edge (nid ∷ ids) edges = elim (find (leads_to nid) edges) [
  | some edge ↦ some edge
  | none ↦ suggested_edge ids edges
]

-- Steps 2 to 5, over the unconditional edges.
unfoldable pub choose_unconditional : Outcome → List Edge → Option Edge
choose_unconditional outcome [] = none
choose_unconditional outcome (e ∷ es) = elim (preferred_edge outcome.preferred_label (e ∷ es)) [
  | some edge ↦ some edge
  | none ↦ elim (suggested_edge outcome.suggested_next_ids (e ∷ es)) [
    | some edge ↦ some edge
    | none ↦ best_by_weight_then_lexical (e ∷ es)
  ]
]

unfoldable pub is_unconditional : NodeId → Edge → Bool
is_unconditional id edge = edge.source == id && is_empty edge.condition

abbrev pub unconditional_candidates : Node → Graph → List Edge
unconditional_candidates node graph = select (is_unconditional node.id) graph.edges

-- Step 1, and the rest over the unconditional edges where no condition matched.
unfoldable pub choose_edge : Outcome → List Edge → List Edge → Option Edge
choose_edge outcome [] unconditional = choose_unconditional outcome unconditional
choose_edge outcome (e ∷ es) unconditional = best_by_weight_then_lexical (e ∷ es)

module _ (dump : Json → Text) where
  unfoldable pub is_conditional_match : NodeId → Outcome → Json → Edge → Bool
  is_conditional_match id outcome snapshot edge =
      edge.source == id
      && (not (is_empty edge.condition) && eval_condition dump edge.condition outcome snapshot)

  abbrev pub conditional_candidates : Node → Outcome → Json → Graph → List Edge
  conditional_candidates node outcome snapshot graph =
      select (is_conditional_match node.id outcome snapshot) graph.edges

  -- `nullptr` is `none`.
  unfoldable pub select_edge : Node → Outcome → Json → Graph → Option Edge
  unfolding choose_edge
  select_edge node outcome snapshot graph =
      choose_edge outcome (conditional_candidates node outcome snapshot graph)
        (unconditional_candidates node graph)
