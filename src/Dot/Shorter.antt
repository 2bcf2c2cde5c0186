-- ===== src/Dot/Shorter.antt =====
-- The parsers of src/dot_parser.cpp leave no more tokens than they find.
use attractor.Prelude.{
  ℕ, suc, ◌≤◌, List, [], ◌∷◌, Text, length, Result, ok, err, Bool-cases, inl, inr, if-cases, arith,
}
use attractor.Types.{NodeId}
use attractor.Dot.Position.{ParseError}
use attractor.Dot.Lexer.{Token, arrow, identifier, lbracket, semicolon, same_kind}
use attractor.Dot.Values.{validate_node_id}
use attractor.Dot.Attributes.{AttrMap}
use attractor.Dot.Stream.{
  eof_tok, peek_token, consume, is_at, Place, Move, go_on, close, fail, at_key, move, at_end,
  attr_entries, parse_attr_block, optional_attrs, skip_semicolon,
}
use attractor.Dot.Statements.{check, edge_ids, keyword_attrs}
use attractor.Dot.Sure.{Sure, Sure-map, Sure-bind, Sure-each}

-- No more than `n` tokens are left.
abbrev pub Left : {A : Type 0} → ℕ → A × List Token → Type 0
Left n r = length r.1 ≤ n

pub consume-le : (ts : List Token) → length (consume ts) ≤ length ts
unfolding consume
consume-le [] = omega arith
consume-le (t ∷ ts) = omega arith

pub skip_semicolon-le : (ts : List Token) → length (skip_semicolon ts) ≤ length ts
unfolding skip_semicolon
skip_semicolon-le ts =
    if-cases (λ (r : List Token). length r ≤ length ts) (is_at semicolon ts) _ _
      (λ _. consume-le ts) (λ _. omega arith)

abbrev Block : Type 0
Block = AttrMap × List Token

entries-Left :
    (o : Token) (p : Place) (attrs : AttrMap) (ts : List Token)
    → Sure (λ (r : Block). length r.1 ≤ length ts) (attr_entries o p attrs ts)
unfolding attr_entries at_end
entries-Left o p attrs [] = ended (move o p attrs eof_tok)
  where
    ended : (m : Move) → Sure (λ (r : Block). length r.1 ≤ 0) (at_end m)
    ended (go_on q more) = omega arith
    ended close = omega arith
    ended (fail e) = tt
entries-Left o p attrs (t ∷ ts) = next (move o p attrs t) (λ q more. entries-Left o q more ts)
  where
    next :
        (m : Move)
        → ((q : Place) (more : AttrMap)
            → Sure (λ (r : Block). length r.1 ≤ length ts) (attr_entries o q more ts))
        → Sure
            (λ (r : Block). length r.1 ≤ suc (length ts))
            (elim m [
              | go_on q more ↦ attr_entries o q more ts
              | close ↦ ok (attrs, ts)
              | fail e ↦ err e
            ])
    next (go_on q more) k =
        Sure-map (λ (r : Block). length r.1 ≤ length ts) _ (attr_entries o q more ts)
          (λ r l. omega (arith, l)) (k q more)
    next close k = omega arith
    next (fail e) k = tt

block-Left : (ts : List Token) → Sure (λ (r : Block). length r.1 ≤ length ts) (parse_attr_block ts)
unfolding parse_attr_block
block-Left ts =
    Sure-map (λ (r : Block). length r.1 ≤ length (consume ts)) _ (parse_attr_block ts)
      (λ r l. omega (arith, l, consume-le ts)) (entries-Left (peek_token ts) at_key [] (consume ts))

pub optional-Left :
    (ts : List Token) → Sure (λ (r : Block). length r.1 ≤ length ts) (optional_attrs ts)
unfolding optional_attrs
optional-Left ts =
    if-cases (λ (x : Result ParseError Block). Sure (λ (r : Block). length r.1 ≤ length ts) x)
      (is_at lbracket ts) _ _ (λ _. block-Left ts) (λ _. omega arith)

-- `ts` stands behind the keyword.
pub keyword-Left :
    (message : Text) (t : Token) (ts : List Token)
    → Sure (λ (r : Block). length r.1 ≤ length ts) (keyword_attrs message (t ∷ ts))
unfolding keyword_attrs consume
keyword-Left message t ts =
    if-cases (λ (x : Result ParseError Block). Sure (λ (r : Block). length r.1 ≤ length ts) x)
      (is_at lbracket ts) _ _ (λ _. block-Left ts) (λ _. tt)

abbrev Names : Type 0
Names = List NodeId × List Token

pub edge_ids-Left : (ts : List Token) → Sure (λ (r : Names). length r.1 ≤ length ts) (edge_ids ts)
unfolding edge_ids
edge_ids-Left [] = omega arith
edge_ids-Left (t ∷ []) =
    if-cases (λ (x : Result ParseError Names). Sure (λ (r : Names). length r.1 ≤ 1) x)
      (same_kind t.kind arrow) _ _ (λ _. tt) (λ _. omega arith)
edge_ids-Left (t ∷ (u ∷ ts)) = elim (Bool-cases (same_kind t.kind arrow)) [
  | inr e ↦ rw (e, edge_ids) (omega arith)
  | inl e ↦ elim (Bool-cases (same_kind u.kind identifier)) [
    | inr f ↦ rw (e, f, edge_ids) tt
    | inl f ↦
        rw (e, f, edge_ids)
          (Sure-each (λ (r : Names). length r.1 ≤ suc (suc (length ts)))
            (check (validate_node_id u.value u.line u.column)) _
            (λ _.
              Sure-bind (λ (r : Names). length r.1 ≤ length ts) _ (edge_ids ts) _ (edge_ids-Left ts)
                (λ r l. omega (arith, l))))
  ]
]
