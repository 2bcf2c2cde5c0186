-- ===== src/Dot/Ends.antt =====
-- Every statement list of src/dot_parser.cpp ends, and leaves a joined graph.
use attractor.Prelude.{
  ℕ, zero, suc, ◌≤◌, ◌<◌, ◌≡◌, refl, ap, ◌∙◌, Bool, true, false, ◌||◌, List, [], ◌∷◌, Text, text,
  ◌==◌, length, Result, ok, err, ◌>>=◌, Bool-cases, inl, inr, if-cases, arith,
}
use attractor.Graph.{Node, NodeVariant, to_base}
use attractor.Dot.Position.{ParseError}
use attractor.Dot.Lexer.{
  Token, identifier, bare_value, integer_lit, float_lit, rbrace, lbrace, semicolon, equals, arrow,
  same_kind, kind_number,
}
use attractor.Dot.Values.{derive_css_class}
use attractor.Dot.Variants.{over_base}
use attractor.Dot.Stream.{peek_token, consume, is_at, is_key_token}
use attractor.Dot.Statements.{ParseContext}
use attractor.Dot.Parser.{
  Stop, no_fuel, bad, lift, ListState, go_to, map_from, enclose, leave_subgraph, with_label,
  parse_body, parse_subgraph_stmt, word_statement, statement, ends_list, parse_statement_list,
}
use attractor.Dot.Sure.{Sure, Ends, Ends-bind}
use attractor.Dot.Ids.{over_base-base}
use attractor.Dot.Joined.{ids}
use attractor.Dot.Growth.{Good, with_class-id}
use attractor.Dot.Kept.{IsJoined-same}
use attractor.Dot.Shorter.{consume-le, skip_semicolon-le}
use attractor.Dot.Stated.{
  Stated, Listed, node-Stated, edges-Stated, graph_attr-Stated, node_defaults-Stated,
  edge_defaults-Stated, declaration-Listed,
}

enclose-id : (id label : Text) (n : Node) → (enclose id label n).id ≡ n.id
unfolding enclose
enclose-id id label n = with_class-id (derive_css_class label) n

map_from-ids :
    (k : ℕ) (f : Node → Node)
    → ((n : Node) → (f n).id ≡ n.id)
    → (nodes : List NodeVariant) → ids (map_from k (over_base f) nodes) ≡ ids nodes
unfolding map_from ids
map_from-ids zero f h [] = refl
map_from-ids zero f h (nv ∷ nodes) = λ i.
    (ap (λ (n : Node). n.id) (over_base-base f nv) ∙ h (to_base nv)) i
    ∷ map_from-ids zero f h nodes i
map_from-ids (suc k) f h [] = refl
map_from-ids (suc k) f h (nv ∷ nodes) = ap (λ t. (to_base nv).id ∷ t) (map_from-ids k f h nodes)

leave-Listed :
    (n : ℕ) (before : ParseContext) (id : Text) (s : ListState)
    → Listed n s
    → Listed n (leave_subgraph before id s)
unfolding leave_subgraph
leave-Listed n before id s h = (
  IsJoined-same s.ctx.graph _
      (map_from-ids (length before.graph.nodes) (enclose id s.label) (λ m. enclose-id id s.label m)
        s.ctx.graph.nodes)
      refl h.0,
  omega (arith, h.1, skip_semicolon-le (consume s.stream), consume-le s.stream),
)

-- What a statement list has to do for the subgraphs in `n` tokens.
abbrev Body : ℕ → (ListState → Result Stop ListState) → Type 0
Body n body =
    (s : ListState) → Good s.ctx → length s.stream ≤ n → Ends (Listed (length s.stream)) (body s)

Body-Listed :
    (n : ℕ) (body : ListState → Result Stop ListState) (id : Text) (ts : List Token)
    (ctx : ParseContext)
    → Body n body
    → length ts ≤ n
    → Good ctx
    → Ends (Listed (length ts)) (parse_body body id ts ctx)
unfolding parse_body
Body-Listed n body id ts ctx b l j =
    if-cases (λ (x : Result Stop ListState). Ends (Listed (length ts)) x) (is_at lbrace ts) _ _
      (λ _.
        let start : ListState = record { ctx = ctx; label = []; stream = consume ts } in
        Ends-bind (Listed (length (consume ts))) (Listed (length ts)) (body start) _
          (b start j (omega (arith, l, consume-le ts)))
          (λ s h.
            if-cases (λ (x : Result Stop ListState). Ends (Listed (length ts)) x)
              (is_at rbrace s.stream) _ _
              (λ _. leave-Listed (length ts) ctx id s (h.0, omega (arith, h.1, consume-le ts)))
              (λ _. tt)))
      (λ _. tt)

fewer-Listed : (m n : ℕ) (r : Result Stop ListState) → m ≤ n → Ends (Listed m) r → Ends (Listed n) r
fewer-Listed m n (ok s) l h = (h.0, omega (arith, h.1, l))
fewer-Listed m n (err no_fuel) l h = h
fewer-Listed m n (err (bad e)) l h = tt

subgraph-Listed :
    (body : ListState → Result Stop ListState) (ts : List Token) (ctx : ParseContext)
    → Body (length ts) body
    → Good ctx
    → Ends (Listed (length ts)) (parse_subgraph_stmt body ts ctx)
unfolding parse_subgraph_stmt
subgraph-Listed body ts ctx b j =
    if-cases (λ (x : Result Stop ListState). Ends (Listed (length ts)) x)
      (is_key_token (peek_token ts).kind) _ _
      (λ _.
        fewer-Listed (length (consume ts)) (length ts) _ (consume-le ts)
          (Body-Listed (length ts) body (peek_token ts).value (consume ts) ctx b (consume-le ts) j))
      (λ _. Body-Listed (length ts) body [] ts ctx b (omega arith) j)

Stated-Listed :
    (n : ℕ) (label : Text) (r : Result ParseError (ParseContext × List Token))
    → Sure (Stated n) r
    → Ends (Listed n) (lift r >>= λ a. ok (go_to label a))
Stated-Listed n label (ok a) h = h
Stated-Listed n label (err e) h = tt

labelled-Listed :
    (n : ℕ) (label : Text) (r : Result Stop ListState)
    → Ends (Listed n) r
    → Ends (Listed n) (r >>= λ a. ok (with_label label a))
labelled-Listed n label (ok a) h = h
labelled-Listed n label (err no_fuel) h = h
labelled-Listed n label (err (bad e)) h = tt

declared-Listed :
    (n m : ℕ) (r : Result ParseError ListState)
    → m ≤ n
    → Sure (Listed m) r
    → Ends (Listed n) (lift r)
declared-Listed n m (ok s) l h = (h.0, omega (arith, h.1, l))
declared-Listed n m (err e) l h = tt

word-Listed :
    (body : ListState → Result Stop ListState) (sub : Bool) (t : Token) (ts : List Token)
    (s : ListState)
    → Body (length ts) body
    → Good s.ctx
    → Ends (Listed (length ts)) (word_statement body sub t ts s)
unfolding word_statement
word-Listed body sub t ts s b j =
    let n = length ts in
    let P : Result Stop ListState → Type 0 = λ x. Ends (Listed (length ts)) x in
    if-cases P (t.value == text "graph") _ _
      (λ _. Stated-Listed n s.label _ (graph_attr-Stated t ts s.ctx j))
      (λ _.
        if-cases P (t.value == text "node") _ _
          (λ _. Stated-Listed n s.label _ (node_defaults-Stated t ts s.ctx j))
          (λ _.
            if-cases P (t.value == text "edge") _ _
              (λ _. Stated-Listed n s.label _ (edge_defaults-Stated t ts s.ctx j))
              (λ _.
                if-cases P (t.value == text "subgraph") _ _
                  (λ _. labelled-Listed n s.label _ (subgraph-Listed body ts s.ctx b j))
                  (λ _.
                    if-cases P (is_at equals ts) _ _
                      (λ _.
                        declared-Listed n (length (consume ts)) _ (consume-le ts)
                          (declaration-Listed sub t.value (consume ts) s j))
                      (λ _.
                        if-cases P (is_at arrow ts) _ _
                          (λ _. Stated-Listed n s.label _ (edges-Stated t ts s.ctx j))
                          (λ _. Stated-Listed n s.label _ (node-Stated ts s.ctx t j)))))))

statement-Listed :
    (body : ListState → Result Stop ListState) (sub : Bool) (t : Token) (ts : List Token)
    (s : ListState)
    → Body (length ts) body
    → Good s.ctx
    → Ends (Listed (length ts)) (statement body sub t ts s)
unfolding statement
statement-Listed body sub t ts s b j =
    let P : Result Stop ListState → Type 0 = λ x. Ends (Listed (length ts)) x in
    if-cases P (same_kind t.kind semicolon) _ _ (λ _. (j, omega arith))
      (λ _.
        if-cases P (same_kind t.kind identifier) _ _ (λ _. word-Listed body sub t ts s b j)
          (λ _.
            if-cases P
              (same_kind t.kind bare_value
                || (same_kind t.kind integer_lit || same_kind t.kind float_lit))
              _ _ (λ _. tt) (λ _. tt)))

open-lt :
    (ts : List Token) → ends_list (peek_token ts).kind ≡ false → length (consume ts) < length ts
unfolding consume peek_token ends_list same_kind kind_number
open-lt [] h = absurd (cc)
open-lt (t ∷ ts) h = omega arith

-- Fuel for one more than the tokens is enough for a statement list and all subgraphs in it.
pub list-Listed :
    (fuel : ℕ) (sub : Bool) (s : ListState)
    → length s.stream < fuel
    → Good s.ctx
    → Ends (Listed (length s.stream)) (parse_statement_list fuel sub s)
unfolding parse_statement_list
list-Listed zero sub s l j = absurd (omega arith)
list-Listed (suc fuel) sub s l j = elim (Bool-cases (ends_list (peek_token s.stream).kind)) [
  | inl e ↦ rw (e, parse_statement_list) (j, omega arith)
  | inr e ↦
      let k = open-lt s.stream e in
      rw (e, parse_statement_list)
        (Ends-bind (Listed (length (consume s.stream))) (Listed (length s.stream))
          (statement (λ b. parse_statement_list fuel true b) sub (peek_token s.stream)
            (consume s.stream) s)
          (λ next. parse_statement_list fuel sub next)
          (statement-Listed (λ b. parse_statement_list fuel true b) sub (peek_token s.stream)
            (consume s.stream) s (λ u g m. list-Listed fuel true u (omega (arith, m, k, l)) g) j)
          (λ next h.
            fewer-Listed (length next.stream) (length s.stream) (parse_statement_list fuel sub next)
              (omega (arith, h.1, k)) (list-Listed fuel sub next (omega (arith, h.1, k, l)) h.0)))
]
