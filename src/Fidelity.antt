-- ===== src/Fidelity.antt =====
-- `resolve_fidelity` and `resolve_thread_key` of src/engine.cpp.
use attractor.Prelude.{Option, none, some, not, is_empty, if◌then◌else◌}
use attractor.Types.{NodeId, ThreadId, FidelityMode, compact}
use attractor.Graph.{Node, Edge, Graph}

-- The settings of an incoming edge; a null pointer is `none`.
abbrev edge_fidelity : Option Edge → Option FidelityMode
edge_fidelity none = none
edge_fidelity (some e) = e.fidelity

abbrev edge_thread : Option Edge → Option ThreadId
edge_thread none = none
edge_thread (some e) = e.thread_id

unfoldable pub resolve_fidelity : Node → Option Edge → Graph → FidelityMode
resolve_fidelity node incoming_edge graph = elim (edge_fidelity incoming_edge) [
  | some m ↦ m
  | none ↦ elim node.fidelity [
    | some m ↦ m
    | none ↦ elim graph.default_fidelity [ some m ↦ m | none ↦ compact ]
  ]
]

unfoldable pub resolve_thread_key : Node → Option Edge → Graph → NodeId → ThreadId
resolve_thread_key node incoming_edge graph previous_node_id = elim node.thread_id [
  | some t ↦ t
  | none ↦ elim (edge_thread incoming_edge) [
    | some t ↦ t
    | none ↦ elim graph.default_thread_id [
      | some t ↦ t
      | none ↦ elim node.enclosing_subgraph [
        | some s ↦ s
        | none ↦ if not (is_empty previous_node_id) then previous_node_id else node.id
      ]
    ]
  ]
]
