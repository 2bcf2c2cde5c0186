-- ===== src/GraphJson/NodeTrip.antt =====
-- The base of a node is read back from what src/graph.cpp writes.
use attractor.Prelude.{
  ℕ, ◌≤◌, ◌≡◌, refl, ap, Bool, true, Option, none, some, List, [], ◌∷◌, Text, text, ◌==◌, any,
  bind-ok, ℤ, Result, ok, ◌>>=◌, arith,
}
use attractor.Json.{Json, boolean, object, Fields, JsonError, get_field, get_member}
use attractor.Types.{
  NodeShape, mdiamond, msquare, box, hexagon, diamond, component, triple_octagon, parallelogram,
  house, SubgraphId, FidelityMode, full, truncate, compact, summary_low, summary_medium,
  summary_high,
}
use attractor.Names.{
  typedef_to_json, typedef_from_json, get_string, fidelity_mode_to_json, fidelity_mode_from_json,
}
use attractor.Graph.{Node}
use attractor.Dot.Variants.{default_node}
use attractor.GraphJson.Access.{
  Reader, IsReader, int_max, int64_max, get_bool, opt_to_json, read_if, read_value, read_present,
  number_to_json,
}
use attractor.GraphJson.Lookup.{over, last_write, read_value-opt}
use attractor.GraphJson.Nodes.{
  node_shape_to_json, node_shape_from_json, node_writes, named_subgraph, plain_retries,
  plain_timeout, node_from_json,
}

-- The keys of the base of a node.
abbrev pub node_keys : List Text
node_keys =
    text "id"
    ∷ text "label"
    ∷ text "shape"
    ∷ text "node_type"
    ∷ text "max_retries"
    ∷ text "goal_gate"
    ∷ text "retry_target"
    ∷ text "fallback_retry_target"
    ∷ text "fidelity"
    ∷ text "thread_id"
    ∷ text "css_class"
    ∷ text "timeout"
    ∷ text "auto_status"
    ∷ text "allow_partial"
    ∷ text "enclosing_subgraph"
    ∷ []

-- The object has the members of the node as they are written.
unfoldable pub Holds : Fields → Node → Type 0
unfolding last_write any
Holds fs n =
    (k : Text)
    → any (λ key. key == k) node_keys ≡ true
    → get_field k fs ≡ last_write k (node_writes n) none

-- The values that an object can hold: integers of their types, a timeout that is not 0, and no
-- empty name for an enclosing subgraph.
pub record IsStorable (n : Node) : Type 0 where
  pub retries : (k : ℕ) → n.max_retries ≡ some k → k ≤ int_max
  pub timeout_at_least : (k : ℕ) → n.timeout ≡ some k → 1 ≤ k
  pub timeout_at_most : (k : ℕ) → n.timeout ≡ some k → k ≤ int64_max
  pub subgraph : named_subgraph n.enclosing_subgraph ≡ n.enclosing_subgraph

module _ {A : Type 0} where
  pub read_if-found :
      (k : Text) (g : Json → Result JsonError A) (old a : A) (fs : Fields) (v : Json)
      → get_field k fs ≡ some v
      → g v ≡ ok a
      → read_if k g old (object fs) ≡ ok a
  unfolding read_if get_member
  read_if-found k g old a fs v h e = rw (h, read_if) e

  pub read_present-found :
      (k : Text) (f : A → Json) (g : Json → Result JsonError A) (o : Option A) (fs : Fields)
      → get_field k fs ≡ over true (opt_to_json f o) none
      → ((a : A) → o ≡ some a → read_value g none (some (f a)) ≡ ok (some a))
      → read_present k g none (object fs) ≡ ok o
  unfolding read_present get_member
  read_present-found k f g o fs h e = rw h (read_value-opt f g o e)

module _ {B : Type 0} where
  -- A chain that reads a text, or a flag, goes on behind what the object holds.
  pub if_text :
      (k name old t : Text) (fs : Fields) (m : Text → Result JsonError B) (x : Result JsonError B)
      → get_field k fs ≡ some (typedef_to_json t)
      → m t ≡ x
      → (read_if k (typedef_from_json name) old (object fs) >>= m) ≡ x
  unfolding typedef_from_json typedef_to_json
  if_text k name old t fs m x h e =
      bind-ok _ m t x (read_if-found k (typedef_from_json name) old t fs (typedef_to_json t) h refl)
        e

  if_bool :
      (k : Text) (old b : Bool) (fs : Fields) (m : Bool → Result JsonError B)
      (x : Result JsonError B)
      → get_field k fs ≡ some (boolean b)
      → m b ≡ x
      → (read_if k get_bool old (object fs) >>= m) ≡ x
  unfolding get_bool
  if_bool k old b fs m x h e =
      bind-ok _ m b x (read_if-found k get_bool old b fs (boolean b) h refl) e

pub node_shape_from_json-to_json :
    (s : NodeShape) → node_shape_from_json (node_shape_to_json s) ≡ ok s
unfolding node_shape_from_json node_shape_to_json text ◌==◌
node_shape_from_json-to_json mdiamond = refl
node_shape_from_json-to_json msquare = refl
node_shape_from_json-to_json box = refl
node_shape_from_json-to_json hexagon = refl
node_shape_from_json-to_json diamond = refl
node_shape_from_json-to_json component = refl
node_shape_from_json-to_json triple_octagon = refl
node_shape_from_json-to_json parallelogram = refl
node_shape_from_json-to_json house = refl

pub fidelity-value :
    (m : FidelityMode)
    → read_value fidelity_mode_from_json none (some (fidelity_mode_to_json m)) ≡ ok (some m)
unfolding read_value fidelity_mode_from_json fidelity_mode_to_json text ◌==◌
fidelity-value full = refl
fidelity-value truncate = refl
fidelity-value compact = refl
fidelity-value summary_low = refl
fidelity-value summary_medium = refl
fidelity-value summary_high = refl

module _ (show : ℤ → Text) (rd : Reader) (ir : IsReader rd) where
  retries-value :
      (k : ℕ)
      → k ≤ int_max
      → read_value (plain_retries show rd) none (some (number_to_json k)) ≡ ok (some k)
  unfolding read_value plain_retries number_to_json
  retries-value k h = rw (ir.reads_int k h) refl

  timeout-value :
      (k : ℕ)
      → 1 ≤ k
      → k ≤ int64_max
      → read_value (plain_timeout show rd) none (some (number_to_json k)) ≡ ok (some k)
  unfolding read_value plain_timeout number_to_json
  timeout-value k l h = rw (ir.reads_int64 k h) (ground arith)

  -- The base of a node is read from an object that holds it.
  pub node_from_json-Holds :
      (fs : Fields) (n : Node)
      → Holds fs n
      → IsStorable n
      → node_from_json show rd (object fs) default_node ≡ ok n
  unfolding node_from_json Holds ◌==◌ text node_writes
  node_from_json-Holds fs n h st =
      if_text (text "id") (text "NodeId") default_node.id n.id fs _ _ (h (text "id") refl) (
        if_text (text "label") (text "NodeLabel") default_node.label n.label fs _ _
          (h (text "label") refl)
          (bind-ok _ _ n.shape _
            (read_if-found (text "shape") node_shape_from_json default_node.shape n.shape fs
              (node_shape_to_json n.shape) (h (text "shape") refl)
              (node_shape_from_json-to_json n.shape))
            (if_text (text "node_type") (text "HandlerTypeName") default_node.node_type n.node_type
              fs _ _ (h (text "node_type") refl)
              (bind-ok _ _ n.max_retries _
                (read_present-found (text "max_retries") number_to_json (plain_retries show rd)
                  n.max_retries fs (h (text "max_retries") refl)
                  (λ k q. retries-value k (st.retries k q)))
                (if_bool (text "goal_gate") default_node.goal_gate n.goal_gate fs _ _
                  (h (text "goal_gate") refl)
                  (if_text (text "retry_target") (text "NodeId") default_node.retry_target
                    n.retry_target fs _ _ (h (text "retry_target") refl)
                    (if_text (text "fallback_retry_target") (text "NodeId")
                      default_node.fallback_retry_target n.fallback_retry_target fs _ _
                      (h (text "fallback_retry_target") refl)
                      (bind-ok _ _ n.fidelity _
                        (read_present-found (text "fidelity") fidelity_mode_to_json
                          fidelity_mode_from_json n.fidelity fs (h (text "fidelity") refl)
                          (λ m q. fidelity-value m))
                        (bind-ok _ _ n.thread_id _
                          (read_present-found (text "thread_id") typedef_to_json get_string
                            n.thread_id fs (h (text "thread_id") refl) (λ m q. refl))
                          (if_text (text "css_class") (text "CssClass") default_node.css_class
                            n.css_class fs _ _ (h (text "css_class") refl)
                            (bind-ok _ _ n.timeout _
                              (read_present-found (text "timeout") number_to_json
                                (plain_timeout show rd) n.timeout fs (h (text "timeout") refl)
                                (λ k q.
                                  timeout-value k (st.timeout_at_least k q)
                                    (st.timeout_at_most k q)))
                              (if_bool (text "auto_status") default_node.auto_status n.auto_status
                                fs _ _ (h (text "auto_status") refl)
                                (if_bool (text "allow_partial") default_node.allow_partial
                                  n.allow_partial fs _ _ (h (text "allow_partial") refl)
                                  (bind-ok _ _ n.enclosing_subgraph _
                                    (read_present-found (text "enclosing_subgraph") typedef_to_json
                                      (typedef_from_json (text "SubgraphId")) n.enclosing_subgraph
                                      fs (h (text "enclosing_subgraph") refl) (λ m q. refl))
                                    (ap
                                      (λ (s : Option SubgraphId).
                                        ok (record n { enclosing_subgraph = s }))
                                      st.subgraph)))))))))))))))
