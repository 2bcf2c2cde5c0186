-- ===== src/GraphJson/RoundTrip.antt =====
-- A graph is read back from what src/graph.cpp writes.
use attractor.Prelude.{
  ℕ, ◌≤◌, ◌≡◌, refl, none, some, List, [], ◌∷◌, Text, text, ◌==◌, All, bind-ok, ℤ, Result, ok,
  ◌>>=◌,
}
use attractor.Json.{Json, boolean, array, object, Fields, end, JsonError, get_field, get_member}
use attractor.Names.{
  typedef_to_json, typedef_from_json, get_string, fidelity_mode_to_json, fidelity_mode_from_json,
}
use attractor.Graph.{Graph, Edge}
use attractor.GraphJson.Access.{
  Reader, IsReader, int_max, write_all, get_bool, read_at, number_to_json, max_retries_from_json,
  weight_from_json,
}
use attractor.GraphJson.Lookup.{last_write, get_field-write_all}
use attractor.GraphJson.Nodes.{node_to_json}
use attractor.GraphJson.Graphs.{
  listed, elements, items_of, read_all, edge_writes, edge_to_json, graph_writes, graph_to_json,
  named, variant_from_json, edge_from_json, graph_from_json,
}
use attractor.GraphJson.NodeTrip.{read_present-found, fidelity-value}
use attractor.GraphJson.VariantTrip.{IsWritable, variant_from_json-to_json}

-- The weight is an `int`.
unfoldable pub HasWeight : Edge → Type 0
HasWeight e = e.weight ≤ int_max

-- The graph holds what its JSON form can hold.
pub record IsWritableGraph (g : Graph) : Type 0 where
  pub retries : g.default_max_retries ≤ int_max
  pub nodes : All IsWritable g.nodes
  pub edges : All HasWeight g.edges

read_at-found :
    {A : Type 0} (k : Text) (f : Json → Result JsonError A) (a : A) (fs : Fields) (v : Json)
    → get_field k fs ≡ some v
    → f v ≡ ok a
    → read_at k f (object fs) ≡ ok a
unfolding read_at get_member
read_at-found k f a fs v h e = rw (h, read_at) e

at_text :
    {B : Type 0} (k name t : Text) (fs : Fields) (m : Text → Result JsonError B)
    (x : Result JsonError B)
    → get_field k fs ≡ some (typedef_to_json t)
    → m t ≡ x
    → (read_at k (named name) (object fs) >>= m) ≡ x
unfolding typedef_from_json typedef_to_json
at_text k name t fs m x h e =
    bind-ok _ m t x (read_at-found k (named name) t fs (typedef_to_json t) h refl) e

read_all-items :
    {A : Type 0} (f : A → Json) (read : Json → Result JsonError A) (P : A → Type 0)
    → ((a : A) → P a → read (f a) ≡ ok a)
    → (xs : List A) → All P xs
    → read_all read (elements (array (items_of f xs))) ≡ ok xs
unfolding read_all elements items_of listed
read_all-items f read P h [] q = refl
read_all-items f read P h (x ∷ xs) q =
    bind-ok _ _ x _ (h x q.0) (bind-ok _ _ xs _ (read_all-items f read P h xs q.1) refl)

member_of_edge :
    (k : Text) (e : Edge)
    → get_field k (write_all (edge_writes e) end) ≡ last_write k (edge_writes e) none
unfolding get_field
member_of_edge k e = get_field-write_all k (edge_writes e) end

member_of_graph :
    (k : Text) (g : Graph)
    → get_field k (write_all (graph_writes g) end) ≡ last_write k (graph_writes g) none
unfolding get_field
member_of_graph k g = get_field-write_all k (graph_writes g) end

module _ (show : ℤ → Text) (rd : Reader) (ir : IsReader rd) where
  weight-read : (n : ℕ) → n ≤ int_max → weight_from_json show rd (number_to_json n) ≡ ok n
  unfolding weight_from_json number_to_json
  weight-read n h = rw (ir.reads_int n h) refl

  retries-read : (n : ℕ) → n ≤ int_max → max_retries_from_json show rd (number_to_json n) ≡ ok n
  unfolding max_retries_from_json number_to_json
  retries-read n h = rw (ir.reads_int n h) refl

  edge_from_json-to_json : (e : Edge) → HasWeight e → edge_from_json show rd (edge_to_json e) ≡ ok e
  unfolding edge_from_json edge_to_json HasWeight last_write edge_writes text ◌==◌
  edge_from_json-to_json e h =
      let fs = write_all (edge_writes e) end in
      at_text (text "from") (text "NodeId") e.source fs _ _ (member_of_edge (text "from") e) (
        at_text (text "to") (text "NodeId") e.to fs _ _ (member_of_edge (text "to") e) (
          at_text (text "label") (text "EdgeLabel") e.label fs _ _ (member_of_edge (text "label") e)
            (at_text (text "condition") (text "ConditionExpr") e.condition fs _ _
              (member_of_edge (text "condition") e)
              (bind-ok _ _ e.weight _
                (read_at-found (text "weight") (weight_from_json show rd) e.weight fs
                  (number_to_json e.weight) (member_of_edge (text "weight") e)
                  (weight-read e.weight h))
                (bind-ok _ _ e.fidelity _
                  (read_present-found (text "fidelity") fidelity_mode_to_json
                    fidelity_mode_from_json e.fidelity fs (member_of_edge (text "fidelity") e)
                    (λ m q. fidelity-value m))
                  (bind-ok _ _ e.thread_id _
                    (read_present-found (text "thread_id") typedef_to_json get_string e.thread_id fs
                      (member_of_edge (text "thread_id") e) (λ m q. refl))
                    (bind-ok _ _ e.loop_restart _
                      (read_at-found (text "loop_restart") get_bool e.loop_restart fs
                        (boolean e.loop_restart) (member_of_edge (text "loop_restart") e) refl)
                      refl)))))))

  -- A graph is read back from its JSON form, where the library reads a number of a type as itself
  -- and the graph holds what the form can hold: every node is of the variant of its shape, integers
  -- are in their types, timeouts, numbers of cycles and of parallel branches are positive, and no
  -- enclosing subgraph has an empty name.
  pub graph_from_json-to_json :
      (g : Graph) → IsWritableGraph g → graph_from_json show rd (graph_to_json g) ≡ ok g
  unfolding graph_from_json graph_to_json last_write graph_writes text ◌==◌
  graph_from_json-to_json g w =
      let fs = write_all (graph_writes g) end in
      at_text (text "digraph_id") (text "GraphId") g.digraph_id fs _ _
        (member_of_graph (text "digraph_id") g)
        (at_text (text "goal") (text "GoalText") g.goal fs _ _ (member_of_graph (text "goal") g) (
          at_text (text "label") (text "GraphLabel") g.label fs _ _
            (member_of_graph (text "label") g)
            (at_text (text "model_stylesheet") (text "StylesheetId") g.model_stylesheet fs _ _
              (member_of_graph (text "model_stylesheet") g)
              (bind-ok _ _ g.default_max_retries _
                (read_at-found (text "default_max_retries") (max_retries_from_json show rd)
                  g.default_max_retries fs (number_to_json g.default_max_retries)
                  (member_of_graph (text "default_max_retries") g)
                  (retries-read g.default_max_retries w.retries))
                (bind-ok _ _ g.default_fidelity _
                  (read_present-found (text "default_fidelity") fidelity_mode_to_json
                    fidelity_mode_from_json g.default_fidelity fs
                    (member_of_graph (text "default_fidelity") g) (λ m q. fidelity-value m))
                  (bind-ok _ _ g.default_thread_id _
                    (read_present-found (text "default_thread_id") typedef_to_json
                      (named (text "ThreadId")) g.default_thread_id fs
                      (member_of_graph (text "default_thread_id") g) (λ m q. refl))
                    (at_text (text "retry_target") (text "NodeId") g.retry_target fs _ _
                      (member_of_graph (text "retry_target") g)
                      (at_text (text "fallback_retry_target") (text "NodeId")
                        g.fallback_retry_target fs _ _
                        (member_of_graph (text "fallback_retry_target") g)
                        (at_text (text "stack_child_dotfile") (text "DotfilePath")
                          g.stack_child_dotfile fs _ _
                          (member_of_graph (text "stack_child_dotfile") g)
                          (at_text (text "stack_child_workdir") (text "WorkDir")
                            g.stack_child_workdir fs _ _
                            (member_of_graph (text "stack_child_workdir") g)
                            (at_text (text "tool_hooks_pre") (text "ShellCommand") g.tool_hooks_pre
                              fs _ _ (member_of_graph (text "tool_hooks_pre") g)
                              (at_text (text "tool_hooks_post") (text "ShellCommand")
                                g.tool_hooks_post fs _ _
                                (member_of_graph (text "tool_hooks_post") g)
                                (bind-ok _ _ g.nodes _
                                  (read_at-found (text "nodes")
                                    (λ v. read_all (variant_from_json show rd) (elements v)) g.nodes
                                    fs (array (items_of node_to_json g.nodes))
                                    (member_of_graph (text "nodes") g)
                                    (read_all-items node_to_json (variant_from_json show rd)
                                      IsWritable (λ nv k. variant_from_json-to_json show rd ir nv k)
                                      g.nodes w.nodes))
                                  (bind-ok _ _ g.edges _
                                    (read_at-found (text "edges")
                                      (λ v. read_all (edge_from_json show rd) (elements v)) g.edges
                                      fs (array (items_of edge_to_json g.edges))
                                      (member_of_graph (text "edges") g)
                                      (read_all-items edge_to_json (edge_from_json show rd)
                                        HasWeight (λ e k. edge_from_json-to_json e k) g.edges
                                        w.edges))
                                    refl))))))))))))))
