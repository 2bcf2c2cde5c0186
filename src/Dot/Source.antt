-- ===== src/Dot/Source.antt =====
-- parse_graph of src/dot_parser.cpp.
use attractor.Prelude.{
  suc, Bool, false, ◌&&◌, not, Option, none, some, List, [], ◌∷◌, map, Text, text, ◌==◌, length,
  is_empty, Result, ok, err, ◌>>=◌, if◌then◌else◌,
}
use attractor.Graph.{Graph, Node}
use attractor.Dot.Position.{ParseError}
use attractor.Dot.Comments.{strip_comments}
use attractor.Dot.Lexer.{
  identifier, rbrace, lbrace, dash_dash, lt_angle, same_kind, Token, tokenize,
}
use attractor.Dot.Variants.{over_base}
use attractor.Dot.Stream.{peek_token, consume, is_at, error_near}
use attractor.Dot.Statements.{check}
use attractor.Dot.Parser.{Stop, no_fuel, bad, lift, ListState, parse_statement_list}

-- The first token that the parser does not support.
unfoldable pub unsupported : List Token → Option ParseError
unfolding same_kind
unsupported [] = none
unsupported (t ∷ ts) =
    if same_kind t.kind dash_dash
    then some (error_near (text "undirected '--' edges are not supported") t)
    else if same_kind t.kind lt_angle
    then some (error_near (text "HTML labels are not supported") t)
    else unsupported ts

abbrev pub default_graph : Graph
default_graph = record {
  digraph_id = [];
  goal = [];
  label = [];
  model_stylesheet = [];
  default_max_retries = 0;
  default_fidelity = none;
  default_thread_id = none;
  retry_target = [];
  fallback_retry_target = [];
  stack_child_dotfile = [];
  stack_child_workdir = [];
  tool_hooks_pre = [];
  tool_hooks_post = [];
  nodes = [];
  edges = [];
}

unfoldable pub label_by_id : Node → Node
label_by_id n = if is_empty n.label then record n { label = n.id } else n

unfoldable pub default_labels : Graph → Graph
unfolding over_base label_by_id
default_labels g = record g { nodes = map (over_base label_by_id) g.nodes }

abbrev pub start_state : List Token → Text → ListState
start_state ts id = record {
  ctx = record {
    node_defaults = [];
    edge_defaults = [];
    subgraph_class = [];
    graph = record default_graph { digraph_id = id };
  };
  label = [];
  stream = ts;
}

-- Behind the '{' of the graph.
unfoldable pub parse_rest : List Token → Text → Result Stop Graph
unfolding parse_statement_list is_at peek_token default_labels
parse_rest ts id = parse_statement_list (suc (length ts)) false (start_state ts id) >>= λ s.
    if is_at rbrace s.stream
    then ok (default_labels s.ctx.graph)
    else err (bad (error_near (text "expected '}'") (peek_token s.stream)))

-- Behind the id of the graph.
unfoldable pub parse_braces : List Token → Text → Result Stop Graph
unfolding is_at peek_token consume parse_rest
parse_braces ts id =
    if is_at lbrace ts
    then parse_rest (consume ts) id
    else err (bad (error_near (text "expected '{' after digraph id") (peek_token ts)))

unfoldable pub parse_id : List Token → Result Stop Graph
unfolding is_at peek_token consume parse_braces
parse_id ts =
    if is_at identifier ts
    then parse_braces (consume ts) (peek_token ts).value
    else parse_braces ts []

unfoldable pub is_word_token : Text → Token → Bool
unfolding same_kind
is_word_token word t = same_kind t.kind identifier && t.value == word

unfoldable pub parse_tokens : List Token → Result Stop Graph
unfolding unsupported is_word_token peek_token consume parse_id
parse_tokens ts = lift (check (unsupported ts)) >>= λ _.
    if is_word_token (text "strict") (peek_token ts)
    then err (bad (error_near (text "'strict' graphs are not supported") (peek_token ts)))
    else if not (is_word_token (text "digraph") (peek_token ts))
    then err (bad (error_near (text "expected 'digraph'") (peek_token ts)))
    else parse_id (consume ts)

abbrev pub tokens_or : Option (List Token) → Result Stop (List Token)
tokens_or none = err no_fuel
tokens_or (some ts) = ok ts

unfoldable pub parse_graph : Text → Result Stop Graph
unfolding strip_comments tokenize parse_tokens
parse_graph source =
    lift (strip_comments source) >>= λ s. tokens_or (tokenize s) >>= λ ts. parse_tokens ts
