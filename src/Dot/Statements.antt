-- ===== src/Dot/Statements.antt =====
-- The statements of src/dot_parser.cpp but for subgraphs: nodes, edges, defaults and attributes of
-- the graph.
use attractor.Prelude.{
  true, false, Option, none, some, List, [], ◌∷◌, ◌++◌, Text, text, find, is_empty, map_set, Result,
  ok, err, ◌>>=◌, if◌then◌else◌,
}
use attractor.Types.{NodeId, NodeShape, box, same_shape}
use attractor.Graph.{Graph, Node, Edge, NodeVariant, to_base}
use attractor.Engine.Env.{has_id}
use attractor.Dot.Position.{ParseError}
use attractor.Dot.Lexer.{Token, identifier, arrow, lbracket, same_kind}
use attractor.Dot.Values.{validate_node_id}
use attractor.Dot.Attributes.{AttrMap, add_class, apply_attrs_to_edge, apply_attrs_to_graph}
use attractor.Dot.Variants.{
  node_shape_from_attrs, default_node, variant_of, over_base, apply_attrs_to_variant,
}
use attractor.Dot.Stream.{
  eof_tok, peek_token, consume, is_at, error_near, parse_attr_block, optional_attrs, skip_semicolon,
}

pub record ParseContext : Type 0 where
  pub node_defaults : AttrMap
  pub edge_defaults : AttrMap
  pub subgraph_class : Text
  pub graph : Graph

abbrev pub default_edge : Edge
default_edge = record {
  source = [];
  to = [];
  label = [];
  condition = [];
  weight = 0;
  fidelity = none;
  thread_id = none;
  loop_restart = false;
}

abbrev pub with_nodes : List NodeVariant → ParseContext → ParseContext
with_nodes nodes ctx = record ctx { graph = record ctx.graph { nodes = nodes } }

-- An error that is there ends the statement.
abbrev pub check : Option ParseError → Result ParseError (Unit {0})
check none = ok tt
check (some e) = err e

unfoldable pub with_class : Text → Node → Node
unfolding add_class
with_class cls n = if is_empty cls then n else record n { css_class = add_class n.css_class cls }

-- A new node of the context: its defaults, then the attributes given, then the class of the
-- subgraph.
unfoldable pub new_node :
    ParseContext → NodeId → NodeShape → AttrMap → Result ParseError NodeVariant
unfolding apply_attrs_to_variant variant_of over_base with_class
new_node ctx id shape attrs =
    apply_attrs_to_variant (variant_of shape (record default_node { id = id; label = id }))
      ctx.node_defaults
    >>= λ n.
        apply_attrs_to_variant n attrs >>= λ m. ok (over_base (with_class ctx.subgraph_class) m)

unfoldable pub add_node :
    ParseContext → NodeId → NodeShape → AttrMap → Result ParseError ParseContext
unfolding new_node
add_node ctx id shape attrs =
    new_node ctx id shape attrs >>= λ nv. ok (with_nodes (ctx.graph.nodes ++ (nv ∷ [])) ctx)

-- A node that is there is not changed; a new one has no attributes of its own.
unfoldable pub ensure : Option NodeVariant → ParseContext → NodeId → Result ParseError ParseContext
unfolding add_node node_shape_from_attrs
ensure (some nv) ctx id = ok ctx
ensure none ctx id = add_node ctx id (node_shape_from_attrs ctx.node_defaults box) []

unfoldable pub ensure_node_exists : ParseContext → NodeId → Result ParseError ParseContext
unfolding ensure find has_id
ensure_node_exists ctx id = ensure (find (has_id id) ctx.graph.nodes) ctx id

-- The variant of a node that is there, in the final shape.
unfoldable pub reshape : NodeShape → NodeVariant → NodeVariant
unfolding same_shape variant_of to_base
reshape final nv =
    if same_shape (to_base nv).shape final
    then nv
    else variant_of final (record (to_base nv) { shape = final })

-- The first node of the id is replaced.
unfoldable pub put_node : NodeId → NodeVariant → List NodeVariant → List NodeVariant
unfolding has_id
put_node id w [] = []
put_node id w (nv ∷ nodes) =
    let rest = put_node id w nodes in if has_id id nv then w ∷ nodes else nv ∷ rest

unfoldable pub final_shape : ParseContext → AttrMap → NodeShape
unfolding node_shape_from_attrs
final_shape ctx attrs = node_shape_from_attrs attrs (node_shape_from_attrs ctx.node_defaults box)

unfoldable pub state_node :
    Option NodeVariant → ParseContext → NodeId → AttrMap → Result ParseError ParseContext
unfolding add_node reshape put_node final_shape apply_attrs_to_variant
state_node none ctx id attrs = add_node ctx id (final_shape ctx attrs) attrs
state_node (some nv) ctx id attrs =
    apply_attrs_to_variant (reshape (final_shape ctx attrs) nv) attrs >>= λ w.
    ok (with_nodes (put_node id w ctx.graph.nodes) ctx)

-- A node statement behind its id, and the stream behind it.
unfoldable pub parse_node_stmt :
    List Token → ParseContext → Token → Result ParseError (ParseContext × List Token)
unfolding validate_node_id optional_attrs skip_semicolon state_node find has_id
parse_node_stmt ts ctx id_tok =
    check (validate_node_id id_tok.value id_tok.line id_tok.column) >>= λ _.
    optional_attrs ts >>= λ r.
    state_node (find (has_id id_tok.value) ctx.graph.nodes) ctx id_tok.value r.0 >>= λ c.
    ok (c, skip_semicolon r.1)

-- The ids behind the arrows.
unfoldable pub edge_ids : List Token → Result ParseError (List NodeId × List Token)
unfolding same_kind validate_node_id
edge_ids [] = ok ([], [])
edge_ids (t ∷ []) =
    if same_kind t.kind arrow
    then err (error_near (text "expected node identifier after '->'") eof_tok)
    else ok ([], t ∷ [])
edge_ids (t ∷ (next_id ∷ ts)) = elim (same_kind t.kind arrow) [
  | false ↦ ok ([], t ∷ (next_id ∷ ts))
  | true ↦ elim (same_kind next_id.kind identifier) [
    | false ↦ err (error_near (text "expected node identifier after '->'") next_id)
    | true ↦ check (validate_node_id next_id.value next_id.line next_id.column) >>= λ _.
        edge_ids ts >>= λ r. ok (next_id.value ∷ r.0, r.1)
  ]
]

-- An edge, and the nodes at its ends.
unfoldable pub add_edge : AttrMap → NodeId → NodeId → ParseContext → Result ParseError ParseContext
unfolding apply_attrs_to_edge ensure_node_exists
add_edge attrs source to ctx = apply_attrs_to_edge default_edge ctx.edge_defaults >>= λ d.
    apply_attrs_to_edge d attrs >>= λ e.
    ensure_node_exists
      (record ctx {
        graph = record ctx.graph {
          edges = ctx.graph.edges ++ (record e { source = source; to = to } ∷ []);
        };
      })
      source
    >>= λ c. ensure_node_exists c to

-- The edges between the ids, which follow `source`.
unfoldable pub add_edges :
    AttrMap → NodeId → List NodeId → ParseContext → Result ParseError ParseContext
unfolding add_edge
add_edges attrs source [] ctx = ok ctx
add_edges attrs source (to ∷ ids) ctx =
    add_edge attrs source to ctx >>= λ c. add_edges attrs to ids c

unfoldable pub parse_edge_stmt :
    List Token → ParseContext → Token → Result ParseError (ParseContext × List Token)
unfolding edge_ids optional_attrs skip_semicolon add_edges
parse_edge_stmt ts ctx first_id_tok = edge_ids ts >>= λ r. optional_attrs r.1 >>= λ a.
    add_edges a.0 first_id_tok.value r.0 ctx >>= λ c. ok (c, skip_semicolon a.1)

-- The block of a statement that begins with a keyword.
unfoldable pub keyword_attrs : Text → List Token → Result ParseError (AttrMap × List Token)
unfolding is_at parse_attr_block peek_token consume
keyword_attrs message ts =
    if is_at lbracket (consume ts)
    then parse_attr_block (consume ts)
    else err (error_near message (peek_token (consume ts)))

unfoldable pub parse_graph_attr_stmt :
    List Token → ParseContext → Result ParseError (ParseContext × List Token)
unfolding keyword_attrs apply_attrs_to_graph skip_semicolon
parse_graph_attr_stmt ts ctx = keyword_attrs (text "expected '[' after 'graph'") ts >>= λ r.
    apply_attrs_to_graph ctx.graph r.0 >>= λ g. ok (record ctx { graph = g }, skip_semicolon r.1)

unfoldable pub set_all : AttrMap → AttrMap → AttrMap
set_all [] defaults = defaults
set_all ((k, v) ∷ attrs) defaults = set_all attrs (map_set k v defaults)

unfoldable pub parse_node_defaults_stmt :
    List Token → ParseContext → Result ParseError (ParseContext × List Token)
unfolding keyword_attrs set_all skip_semicolon
parse_node_defaults_stmt ts ctx = keyword_attrs (text "expected '[' after 'node'") ts >>= λ r.
    ok (record ctx { node_defaults = set_all r.0 ctx.node_defaults }, skip_semicolon r.1)

unfoldable pub parse_edge_defaults_stmt :
    List Token → ParseContext → Result ParseError (ParseContext × List Token)
unfolding keyword_attrs set_all skip_semicolon
parse_edge_defaults_stmt ts ctx = keyword_attrs (text "expected '[' after 'edge'") ts >>= λ r.
    ok (record ctx { edge_defaults = set_all r.0 ctx.edge_defaults }, skip_semicolon r.1)
