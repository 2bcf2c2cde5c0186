-- ===== src/Dot/Tokens.antt =====
-- The lexer of src/dot_parser.cpp ends.
use attractor.Prelude.{
  ℕ, zero, suc, ◌≤◌, ◌<◌, ◌≡◌, refl, true, false, ◌⊎◌, inl, inr, Option, some, List, [], ◌∷◌, Text,
  length, arith,
}
use attractor.Dot.Position.{Pos, origin}
use attractor.Dot.Lexer.{
  eof, kind_number, same_kind, Token, Lexer, peek, skip_whitespace, Lexed, emit, skip, lex_byte,
  lex_rest, lex, next_token, tokens_from, tokenize,
}
use attractor.Dot.Rounds.{Consumes, at_byte, byte-Consumes, skip_whitespace-le}

-- A token and the state behind it: the end of the text, or a token that consumes some of it.
abbrev Took : Lexer → Option (Token × Lexer) → Type 0
Took l o =
    (t : Token) × (m : Lexer) × (o ≡ some (t, m))
    × ((same_kind t.kind eof ≡ true)
        ⊎ ((same_kind t.kind eof ≡ false) × (length m.rest < length l.rest)))

longer-Took :
    (l m : Lexer) (o : Option (Token × Lexer)) → length m.rest < length l.rest → Took m o → Took l o
longer-Took l m o h (t, n, e, inl q) = (t, n, e, inl q)
longer-Took l m o h (t, n, e, inr q) = (t, n, e, inr (q.0, omega (arith, q.1, h)))

round-Took :
    (fuel n : ℕ) (l : Lexer) (a : Lexed)
    → n ≤ length l.rest
    → length l.rest < suc fuel
    → ((m : Lexer) → length m.rest < fuel → Took m (next_token fuel m))
    → Consumes n a
    → Took l (elim a [ emit t m ↦ some (t, m) | skip m ↦ next_token fuel m ])
unfolding Consumes
round-Took fuel n l (emit t m) k h rec c = (t, m, refl, inr (c.0, omega (arith, c.1, k)))
round-Took fuel n l (skip m) k h rec c =
    longer-Took l m (next_token fuel m) (omega (arith, c, k)) (rec m (omega (arith, c, k, h)))

next_token-Took : (fuel : ℕ) (l : Lexer) → length l.rest < fuel → Took l (next_token fuel l)
unfolding next_token lex lex_rest same_kind kind_number
next_token-Took zero l h = absurd (omega arith)
next_token-Took (suc fuel) l h =
    at_rest (skip_whitespace l).rest (skip_whitespace l).pos (skip_whitespace-le l)
      (λ m k. next_token-Took fuel m k)
  where
    at_rest :
        (r : Text) (p : Pos)
        → length r ≤ length l.rest
        → ((m : Lexer) → length m.rest < fuel → Took m (next_token fuel m))
        → Took l (elim (lex_rest r (record { rest = r; pos = p })) [
          | emit t m ↦ some (t, m)
          | skip m ↦ next_token fuel m
        ])
    at_rest [] p k rec = (_, _, refl, inl refl)
    at_rest (c ∷ s) p k rec =
        round-Took fuel (suc (length s)) l (lex_byte c (peek s) (at_byte c s p)) k h rec
          (byte-Consumes c (peek s) s p)

-- Some tokens that are no ends, and an end.
unfoldable pub IsClosed : List Token → Type 0
unfolding same_kind
IsClosed [] = ⊥
IsClosed (t ∷ []) = same_kind t.kind eof ≡ true
IsClosed (t ∷ (u ∷ ts)) = (same_kind t.kind eof ≡ false) × IsClosed (u ∷ ts)

IsClosed-cons :
    (t : Token) (ts : List Token) → same_kind t.kind eof ≡ false → IsClosed ts → IsClosed (t ∷ ts)
unfolding IsClosed
IsClosed-cons t [] h c = absurd c
IsClosed-cons t (u ∷ ts) h c = (h, c)

tokens_from-IsClosed :
    (fuel : ℕ) (l : Lexer)
    → length l.rest < fuel
    → (ts : List Token) × (tokens_from fuel l ≡ some ts) × IsClosed ts
unfolding tokens_from IsClosed
tokens_from-IsClosed zero l h = absurd (omega arith)
tokens_from-IsClosed (suc fuel) l h =
    next (next_token-Took (suc (length l.rest)) l (omega arith))
      (λ m k. tokens_from-IsClosed fuel m k)
  where
    next :
        Took l (next_token (suc (length l.rest)) l)
        → ((m : Lexer)
            → length m.rest < fuel
            → (ts : List Token) × (tokens_from fuel m ≡ some ts) × IsClosed ts)
        → (ts : List Token) × (tokens_from (suc fuel) l ≡ some ts) × IsClosed ts
    next (t, m, e, inl q) rec = (t ∷ [], rw (e, q, tokens_from) refl, q)
    next (t, m, e, inr q) rec =
        let r = rec m (omega (arith, q.1, h)) in
        (t ∷ r.0, rw (e, q.0, r.1, tokens_from) refl, IsClosed-cons t r.0 q.0 r.2)

-- The lexer returns tokens for every text: the fuel is enough. The last of them is the end of the
-- text and no other is.
pub tokenize-IsClosed : (s : Text) → (ts : List Token) × (tokenize s ≡ some ts) × IsClosed ts
unfolding tokenize
tokenize-IsClosed s =
    tokens_from-IsClosed (suc (length s)) (record { rest = s; pos = origin }) (omega arith)
