-- ===== src/Dot/Whole.antt =====
-- What parse_graph of src/dot_parser.cpp returns.
use attractor.Prelude.{
  suc, ◌≡◌, refl, ap, ◌∙◌, false, not, Option, none, some, List, [], ◌∷◌, map, Text, text, length,
  is_empty, Result, ok, err, ◌>>=◌, if-cases, arith,
}
use attractor.Graph.{Graph, Node, NodeVariant, to_base}
use attractor.Dot.Position.{ParseError}
use attractor.Dot.Comments.{strip_comments}
use attractor.Dot.Lexer.{Token, identifier, rbrace, lbrace, tokenize}
use attractor.Dot.Tokens.{tokenize-IsClosed}
use attractor.Dot.Variants.{over_base}
use attractor.Dot.Stream.{peek_token, consume, is_at}
use attractor.Dot.Statements.{check}
use attractor.Dot.Parser.{Stop, lift, parse_statement_list}
use attractor.Dot.Source.{
  unsupported, default_graph, label_by_id, default_labels, start_state, parse_rest, parse_braces,
  parse_id, is_word_token, parse_tokens, tokens_or, parse_graph,
}
use attractor.Dot.Sure.{Ends, Ends-bind}
use attractor.Dot.Ids.{over_base-base}
use attractor.Dot.Joined.{ids, IsJoined, IsBetween}
use attractor.Dot.Kept.{IsJoined-same}
use attractor.Dot.Stated.{Listed}
use attractor.Dot.Ends.{list-Listed}

label_by_id-id : (n : Node) → (label_by_id n).id ≡ n.id
unfolding label_by_id
label_by_id-id n =
    if-cases (λ (m : Node). m.id ≡ n.id) (is_empty n.label) _ _ (λ _. refl) (λ _. refl)

labels-ids : (nodes : List NodeVariant) → ids (map (over_base label_by_id) nodes) ≡ ids nodes
unfolding ids
labels-ids [] = refl
labels-ids (nv ∷ nodes) = λ i.
    (ap (λ (n : Node). n.id) (over_base-base label_by_id nv) ∙ label_by_id-id (to_base nv)) i
    ∷ labels-ids nodes i

labels-IsJoined : (g : Graph) → IsJoined g → IsJoined (default_labels g)
unfolding default_labels
labels-IsJoined g j = IsJoined-same g (default_labels g) (labels-ids g.nodes) refl j

empty-IsJoined : (id : Text) → IsJoined (record default_graph { digraph_id = id })
unfolding ids attractor.Dot.Joined.Distinct
empty-IsJoined id = record { distinct = tt; between = tt }

-- A result that is no want of fuel, and is joined if it is a graph.
abbrev Joins : Result Stop Graph → Type 0
Joins r = Ends IsJoined r

rest-Joins : (ts : List Token) (id : Text) → Joins (parse_rest ts id)
unfolding parse_rest
rest-Joins ts id =
    Ends-bind (Listed (length ts)) IsJoined
      (parse_statement_list (suc (length ts)) false (start_state ts id)) _
      (list-Listed (suc (length ts)) false (start_state ts id) (omega arith) (empty-IsJoined id))
      (λ s h.
        if-cases Joins (is_at rbrace s.stream) _ _ (λ _. labels-IsJoined s.ctx.graph h.0) (λ _. tt))

braces-Joins : (ts : List Token) (id : Text) → Joins (parse_braces ts id)
unfolding parse_braces
braces-Joins ts id =
    if-cases Joins (is_at lbrace ts) _ _ (λ _. rest-Joins (consume ts) id) (λ _. tt)

id-Joins : (ts : List Token) → Joins (parse_id ts)
unfolding parse_id
id-Joins ts =
    if-cases Joins (is_at identifier ts) _ _ (λ _. braces-Joins (consume ts) (peek_token ts).value)
      (λ _. braces-Joins ts [])

tokens-Joins : (ts : List Token) → Joins (parse_tokens ts)
unfolding parse_tokens
tokens-Joins ts = supported (unsupported ts) _ (
    if-cases Joins (is_word_token (text "strict") (peek_token ts)) _ _ (λ _. tt)
      (λ _.
        if-cases Joins (not (is_word_token (text "digraph") (peek_token ts))) _ _ (λ _. tt)
          (λ _. id-Joins (consume ts))))
  where
    supported :
        (o : Option ParseError) (r : Result Stop Graph)
        → Joins r
        → Joins (lift (check o) >>= λ _. r)
    supported none r h = h
    supported (some e) r h = tt

-- parse_graph returns for every text: a graph or an error of the source, and the fuel of its loops
-- is enough. In a graph that it returns no two nodes have one id, and both ends of every edge are
-- ids of its nodes.
pub parse_graph-IsJoined : (source : Text) → Ends IsJoined (parse_graph source)
unfolding parse_graph
parse_graph-IsJoined source = stripped (strip_comments source)
  where
    stripped :
        (r : Result ParseError Text)
        → Joins (lift r >>= λ s. tokens_or (tokenize s) >>= λ ts. parse_tokens ts)
    stripped (err e) = tt
    stripped (ok s) = let t = tokenize-IsClosed s in rw t.1 (tokens-Joins t.0)
