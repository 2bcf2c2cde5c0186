-- ===== src/Dot/Scopes.antt =====
-- What a subgraph of src/dot_parser.cpp leaves of the defaults that are set in it.
use attractor.Prelude.{
  ◌≡◌, refl, sym, ap, text, inl, inr, Bool-cases, List, [], Text, Result, ok, err, ◌>>=◌,
  if◌then◌else◌, arith,
}
use attractor.Dot.Lexer.{Token, lbrace, rbrace}
use attractor.Dot.Stream.{peek_token, consume, is_at, is_key_token, error_near}
use attractor.Dot.Statements.{ParseContext}
use attractor.Dot.Parser.{Stop, bad, ListState, leave_subgraph, parse_body, parse_subgraph_stmt}

-- The context behind a subgraph has the defaults of the nodes and the class that it had before,
-- and the defaults of the edges that the statements of the subgraph have left.
pub record IsLeft (body : ListState → Result Stop ListState) (ctx : ParseContext) (u : ListState)
    : Type 0 where
  pub start : ListState
  pub left : ListState
  pub entered : start.ctx ≡ ctx
  pub ran : body start ≡ ok left
  pub nodes_restored : u.ctx.node_defaults ≡ ctx.node_defaults
  pub class_restored : u.ctx.subgraph_class ≡ ctx.subgraph_class
  pub edges_left : u.ctx.edge_defaults ≡ left.ctx.edge_defaults

left_lem :
    (body : ListState → Result Stop ListState) (id : Text) (start left u : ListState)
    → body start ≡ ok left
    → leave_subgraph start.ctx id left ≡ u
    → IsLeft body start.ctx u
unfolding leave_subgraph
left_lem body id start left u h e = record {
  start = start;
  left = left;
  entered = refl;
  ran = h;
  nodes_restored = ap (λ (t : ListState). t.ctx.node_defaults) (sym e);
  class_restored = ap (λ (t : ListState). t.ctx.subgraph_class) (sym e);
  edges_left = ap (λ (t : ListState). t.ctx.edge_defaults) (sym e);
}

body-IsLeft :
    (body : ListState → Result Stop ListState) (id : Text) (ts : List Token) (ctx : ParseContext)
    (u : ListState)
    → parse_body body id ts ctx ≡ ok u
    → IsLeft body ctx u
unfolding parse_body
body-IsLeft body id ts ctx u h = elim (Bool-cases (is_at lbrace ts)) [
  | inr e ↦ absurd (ground arith)
  | inl e ↦ after (body start) refl (rw (e, parse_body) at h)
]
  where
    start : ListState
    start = record { ctx = ctx; label = []; stream = consume ts }

    after :
        (r : Result Stop ListState)
        → body start ≡ r
        → (r >>= λ s.
            if is_at rbrace s.stream
            then ok (leave_subgraph ctx id s)
            else err
                (bad (error_near (text "expected '}' to close subgraph") (peek_token s.stream))))
          ≡ ok u
        → IsLeft body ctx u
    after (err x) q k = absurd (cc)
    after (ok s) q k = elim (Bool-cases (is_at rbrace s.stream)) [
      | inr f ↦ absurd (ground arith)
      | inl f ↦ left_lem body id start s u q (ground arith)
    ]

-- A subgraph that parses leaves the defaults of the nodes and the class as they were before it, but
-- the defaults of the edges as the statements in it have set them.
pub parse_subgraph_stmt-IsLeft :
    (body : ListState → Result Stop ListState) (ts : List Token) (ctx : ParseContext)
    (u : ListState)
    → parse_subgraph_stmt body ts ctx ≡ ok u
    → IsLeft body ctx u
unfolding parse_subgraph_stmt
parse_subgraph_stmt-IsLeft body ts ctx u h = elim (Bool-cases (is_key_token (peek_token ts).kind)) [
  | inl e ↦
      body-IsLeft body (peek_token ts).value (consume ts) ctx u (rw (e, parse_subgraph_stmt) at h)
  | inr e ↦ body-IsLeft body [] ts ctx u (rw (e, parse_subgraph_stmt) at h)
]
