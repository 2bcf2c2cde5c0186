-- ===== src/Dot/Stated.antt =====
-- What the statements of src/dot_parser.cpp leave: a joined graph and no more tokens.
use attractor.Prelude.{
  ℕ, ◌≤◌, Bool, true, false, List, [], ◌∷◌, Text, text, ◌==◌, length, find, Result, if-cases, arith,
}
use attractor.Types.{NodeId}
use attractor.Engine.Env.{has_id}
use attractor.Dot.Position.{ParseError}
use attractor.Dot.Lexer.{Token}
use attractor.Dot.Values.{validate_node_id}
use attractor.Dot.Attributes.{AttrMap, apply_attrs_to_graph}
use attractor.Dot.Stream.{peek_token, consume, is_value_token, skip_semicolon, optional_attrs}
use attractor.Dot.Statements.{
  ParseContext, check, parse_node_stmt, parse_edge_stmt, state_node, add_edges, edge_ids,
  keyword_attrs, parse_graph_attr_stmt, parse_node_defaults_stmt, parse_edge_defaults_stmt,
}
use attractor.Dot.Parser.{ListState, declare, parse_declaration, parse_edges}
use attractor.Dot.Sure.{Sure, Sure-bind, Sure-each}
use attractor.Dot.Joined.{IsJoined}
use attractor.Dot.Growth.{Good, state_node-Good, add_edges-Good}
use attractor.Dot.Kept.{graph_attrs-IsJoined}
use attractor.Dot.Shorter.{
  consume-le, skip_semicolon-le, optional-Left, keyword-Left, edge_ids-Left,
}

-- A joined graph, and no more than `n` tokens.
abbrev pub Stated : ℕ → ParseContext × List Token → Type 0
Stated n r = Good r.0 × (length r.1 ≤ n)

abbrev pub Listed : ℕ → ListState → Type 0
Listed n s = Good s.ctx × (length s.stream ≤ n)

pub node-Stated :
    (ts : List Token) (ctx : ParseContext) (t : Token)
    → Good ctx
    → Sure (Stated (length ts)) (parse_node_stmt ts ctx t)
unfolding parse_node_stmt
node-Stated ts ctx t j =
    Sure-each (Stated (length ts)) (check (validate_node_id t.value t.line t.column)) _ (λ _.
      Sure-bind (λ (r : AttrMap × List Token). length r.1 ≤ length ts) (Stated (length ts))
        (optional_attrs ts) _ (optional-Left ts)
        (λ r l.
          Sure-bind Good (Stated (length ts))
            (state_node (find (has_id t.value) ctx.graph.nodes) ctx t.value r.0) _
            (state_node-Good ctx t.value r.0 j)
            (λ c k. (k, omega (arith, l, skip_semicolon-le r.1)))))

pub edges-Stated :
    (t : Token) (ts : List Token) (ctx : ParseContext)
    → Good ctx
    → Sure (Stated (length ts)) (parse_edges t ts ctx)
unfolding parse_edges parse_edge_stmt
edges-Stated t ts ctx j =
    Sure-each (Stated (length ts)) (check (validate_node_id t.value t.line t.column)) _ (λ _.
      Sure-bind (λ (r : List NodeId × List Token). length r.1 ≤ length ts) (Stated (length ts))
        (edge_ids ts) _ (edge_ids-Left ts)
        (λ r l.
          Sure-bind (λ (a : AttrMap × List Token). length a.1 ≤ length r.1) (Stated (length ts))
            (optional_attrs r.1) _ (optional-Left r.1)
            (λ a m.
              Sure-bind Good (Stated (length ts)) (add_edges a.0 t.value r.0 ctx) _
                (add_edges-Good a.0 t.value r.0 ctx j)
                (λ c k. (k, omega (arith, l, m, skip_semicolon-le a.1))))))

pub graph_attr-Stated :
    (t : Token) (ts : List Token) (ctx : ParseContext)
    → Good ctx
    → Sure (Stated (length ts)) (parse_graph_attr_stmt (t ∷ ts) ctx)
unfolding parse_graph_attr_stmt
graph_attr-Stated t ts ctx j =
    Sure-bind (λ (r : AttrMap × List Token). length r.1 ≤ length ts) (Stated (length ts))
      (keyword_attrs (text "expected '[' after 'graph'") (t ∷ ts)) _ (keyword-Left _ t ts)
      (λ r l.
        Sure-bind IsJoined (Stated (length ts)) (apply_attrs_to_graph ctx.graph r.0) _
          (graph_attrs-IsJoined ctx.graph r.0 j)
          (λ g k. (k, omega (arith, l, skip_semicolon-le r.1))))

pub node_defaults-Stated :
    (t : Token) (ts : List Token) (ctx : ParseContext)
    → Good ctx
    → Sure (Stated (length ts)) (parse_node_defaults_stmt (t ∷ ts) ctx)
unfolding parse_node_defaults_stmt
node_defaults-Stated t ts ctx j =
    Sure-bind (λ (r : AttrMap × List Token). length r.1 ≤ length ts) (Stated (length ts))
      (keyword_attrs (text "expected '[' after 'node'") (t ∷ ts)) _ (keyword-Left _ t ts)
      (λ r l. (j, omega (arith, l, skip_semicolon-le r.1)))

pub edge_defaults-Stated :
    (t : Token) (ts : List Token) (ctx : ParseContext)
    → Good ctx
    → Sure (Stated (length ts)) (parse_edge_defaults_stmt (t ∷ ts) ctx)
unfolding parse_edge_defaults_stmt
edge_defaults-Stated t ts ctx j =
    Sure-bind (λ (r : AttrMap × List Token). length r.1 ≤ length ts) (Stated (length ts))
      (keyword_attrs (text "expected '[' after 'edge'") (t ∷ ts)) _ (keyword-Left _ t ts)
      (λ r l. (j, omega (arith, l, skip_semicolon-le r.1)))

declare-Listed :
    (n : ℕ) (sub : Bool) (key val : Text) (s : ListState)
    → Listed n s
    → Sure (Listed n) (declare sub key val s)
unfolding declare
declare-Listed n true key val s h =
    if-cases (λ (x : Result ParseError ListState). Sure (Listed n) x) (key == text "label") _ _
      (λ _. h) (λ _. h)
declare-Listed n false key val s h =
    Sure-bind IsJoined (Listed n) (apply_attrs_to_graph s.ctx.graph ((key, val) ∷ [])) _
      (graph_attrs-IsJoined s.ctx.graph ((key, val) ∷ []) h.0) (λ g k. (k, h.1))

pub declaration-Listed :
    (sub : Bool) (key : Text) (ts : List Token) (s : ListState)
    → Good s.ctx
    → Sure (Listed (length ts)) (parse_declaration sub key ts s)
unfolding parse_declaration
declaration-Listed sub key ts s j =
    if-cases (λ (x : Result ParseError ListState). Sure (Listed (length ts)) x)
      (is_value_token (peek_token ts).kind) _ _
      (λ _.
        declare-Listed (length ts) sub key (peek_token ts).value
          (record s { stream = skip_semicolon (consume ts) })
          (j, omega (arith, skip_semicolon-le (consume ts), consume-le ts)))
      (λ _. tt)
