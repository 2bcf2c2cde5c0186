-- ===== src/Dot/Parser.antt =====
-- Subgraphs and statement lists of src/dot_parser.cpp. A statement list and the
-- subgraphs in it take fuel; Ends shows that one more than the number of the tokens is enough.
use attractor.Prelude.{
  ℕ, zero, suc, Bool, true, false, ◌||◌, Option, none, some, List, [], ◌∷◌, ◌++◌, map, Text, text,
  ◌==◌, length, is_empty, Result, ok, err, ◌>>=◌, if◌then◌else◌,
}
use attractor.Types.{SubgraphId}
use attractor.Graph.{Node, NodeVariant}
use attractor.Dot.Position.{ParseError}
use attractor.Dot.Lexer.{
  TokenKind, identifier, bare_value, integer_lit, float_lit, rbrace, lbrace, semicolon, equals,
  arrow, eof, same_kind, Token,
}
use attractor.Dot.Values.{validate_node_id, derive_css_class}
use attractor.Dot.Attributes.{apply_attrs_to_graph}
use attractor.Dot.Variants.{over_base}
use attractor.Dot.Stream.{
  peek_token, consume, is_at, error_near, is_value_token, is_key_token, skip_semicolon,
}
use attractor.Dot.Statements.{
  ParseContext, with_nodes, with_class, check, parse_node_stmt, parse_edge_stmt,
  parse_graph_attr_stmt, parse_node_defaults_stmt, parse_edge_defaults_stmt,
}

-- Why a statement list stops: a want of fuel, or an error of the source.
pub data Stop : Type 0 where
  no_fuel : Stop
  bad : ParseError → Stop

abbrev pub lift : {A : Type 0} → Result ParseError A → Result Stop A
lift (ok a) = ok a
lift (err e) = err (bad e)

-- A statement list: the context, the label of the subgraph and the tokens that are left.
pub record ListState : Type 0 where
  pub ctx : ParseContext
  pub label : Text
  pub stream : List Token

abbrev pub go_to : Text → ParseContext × List Token → ListState
go_to label r = record { ctx = r.0; label = label; stream = r.1 }

-- The first nodes stay, and those behind them are changed.
unfoldable pub map_from : ℕ → (NodeVariant → NodeVariant) → List NodeVariant → List NodeVariant
map_from zero f nodes = map f nodes
map_from (suc n) f [] = []
map_from (suc n) f (nv ∷ nodes) = nv ∷ map_from n f nodes

abbrev pub enclosing : Text → Option SubgraphId → Option SubgraphId
enclosing key (some s) = some s
enclosing key none = if is_empty key then none else some key

-- A node that a subgraph has added gets the class of its label, and the subgraph as the one that
-- encloses it unless an inner one does.
unfoldable pub enclose : Text → Text → Node → Node
unfolding with_class derive_css_class
enclose id label n = record (with_class (derive_css_class label) n) {
  enclosing_subgraph = enclosing (if is_empty id then label else id) n.enclosing_subgraph;
}

-- The end of a subgraph: the defaults of the nodes and the class are what they were.
unfoldable pub leave_subgraph : ParseContext → Text → ListState → ListState
unfolding map_from enclose over_base consume skip_semicolon
leave_subgraph before id s = record {
  ctx =
      record (with_nodes
        (map_from (length before.graph.nodes) (over_base (enclose id s.label)) s.ctx.graph.nodes)
        s.ctx) { node_defaults = before.node_defaults; subgraph_class = before.subgraph_class };
  label = [];
  stream = skip_semicolon (consume s.stream);
}

abbrev pub with_label : Text → ListState → ListState
with_label label s = record s { label = label }

-- Behind the id of a subgraph; `body` is the statement list of a subgraph.
unfoldable pub parse_body :
    (ListState → Result Stop ListState) → Text → List Token → ParseContext → Result Stop ListState
unfolding is_at peek_token consume leave_subgraph
parse_body body id ts ctx =
    if is_at lbrace ts
    then (body (record { ctx = ctx; label = []; stream = consume ts }) >>= λ s.
        if is_at rbrace s.stream
        then ok (leave_subgraph ctx id s)
        else err (bad (error_near (text "expected '}' to close subgraph") (peek_token s.stream))))
    else err (bad (error_near (text "expected '{' for subgraph body") (peek_token ts)))

-- Behind 'subgraph'.
unfoldable pub parse_subgraph_stmt :
    (ListState → Result Stop ListState) → List Token → ParseContext → Result Stop ListState
unfolding parse_body peek_token consume is_key_token
parse_subgraph_stmt body ts ctx =
    if is_key_token (peek_token ts).kind
    then parse_body body (peek_token ts).value (consume ts) ctx
    else parse_body body [] ts ctx

-- A declaration of the form `key = value`: of the list of a subgraph only the label counts.
unfoldable pub declare : Bool → Text → Text → ListState → Result ParseError ListState
unfolding apply_attrs_to_graph
declare true key val s = if key == text "label" then ok (record s { label = val }) else ok s
declare false key val s = apply_attrs_to_graph s.ctx.graph ((key, val) ∷ []) >>= λ g.
    ok (record s { ctx = record s.ctx { graph = g } })

-- Behind the '=' of a declaration.
unfoldable pub parse_declaration :
    Bool → Text → List Token → ListState → Result ParseError ListState
unfolding is_value_token peek_token consume skip_semicolon declare
parse_declaration sub key ts s =
    if is_value_token (peek_token ts).kind
    then declare sub key (peek_token ts).value (record s { stream = skip_semicolon (consume ts) })
    else err (error_near (text "expected value after '='") (peek_token ts))

unfoldable pub parse_edges :
    Token → List Token → ParseContext → Result ParseError (ParseContext × List Token)
unfolding validate_node_id parse_edge_stmt
parse_edges t rest ctx =
    check (validate_node_id t.value t.line t.column) >>= λ _. parse_edge_stmt rest ctx t

-- A statement that begins with the identifier `t`.
unfoldable pub word_statement :
    (ListState → Result Stop ListState)
    → Bool
    → Token
    → List Token
    → ListState
    → Result Stop ListState
unfolding parse_graph_attr_stmt parse_node_defaults_stmt parse_edge_defaults_stmt
    parse_subgraph_stmt is_at parse_declaration consume parse_edges parse_node_stmt
word_statement body sub t rest s =
    if t.value == text "graph"
    then (lift (parse_graph_attr_stmt (t ∷ rest) s.ctx) >>= λ r. ok (go_to s.label r))
    else if t.value == text "node"
    then (lift (parse_node_defaults_stmt (t ∷ rest) s.ctx) >>= λ r. ok (go_to s.label r))
    else if t.value == text "edge"
    then (lift (parse_edge_defaults_stmt (t ∷ rest) s.ctx) >>= λ r. ok (go_to s.label r))
    else if t.value == text "subgraph"
    then (parse_subgraph_stmt body rest s.ctx >>= λ r. ok (with_label s.label r))
    else if is_at equals rest
    then lift (parse_declaration sub t.value (consume rest) s)
    else if is_at arrow rest
    then (lift (parse_edges t rest s.ctx) >>= λ r. ok (go_to s.label r))
    else lift (parse_node_stmt rest s.ctx t) >>= λ r. ok (go_to s.label r)

-- A statement that begins with `t`, which is neither an end nor a closing brace.
unfoldable pub statement :
    (ListState → Result Stop ListState)
    → Bool
    → Token
    → List Token
    → ListState
    → Result Stop ListState
unfolding same_kind word_statement
statement body sub t rest s =
    if same_kind t.kind semicolon
    then ok (record s { stream = rest })
    else if same_kind t.kind identifier
    then word_statement body sub t rest s
    else if same_kind t.kind bare_value
        || (same_kind t.kind integer_lit || same_kind t.kind float_lit)
    then err (bad (error_near (text "invalid node ID: " ++ t.value) t))
    else err (bad (error_near (text "unexpected token: '" ++ (t.value ++ text "'")) t))

unfoldable pub ends_list : TokenKind → Bool
unfolding same_kind
ends_list k = same_kind k eof || same_kind k rbrace

unfoldable pub parse_statement_list : ℕ → Bool → ListState → Result Stop ListState
unfolding ends_list peek_token consume statement
parse_statement_list zero sub s = err no_fuel
parse_statement_list (suc fuel) sub s = elim (ends_list (peek_token s.stream).kind) [
  | true ↦ ok s
  | false ↦
      statement (λ b. parse_statement_list fuel true b) sub (peek_token s.stream) (consume s.stream)
        s
      >>= λ next. parse_statement_list fuel sub next
]
