-- ===== src/Dot/Literals.antt =====
-- String literals of src/dot_parser.cpp: what is written with escapes is read back.
use attractor.Prelude.{
  append_assoc, ℕ, ◌≡◌, refl, sym, ap, subst, ◌∙◌, true, false, [], ◌∷◌, ◌++◌, Text, nat_eq,
  if-cases, if◌then◌else◌, arith,
}
use attractor.Dot.Position.{step_all-append, Pos, step, step_all}
use attractor.Dot.Lexer.{
  Lexer, string_lit, emit, unescape, scan_string, prepend, lex_string, advance, token, lex,
  lex_rest, lex_byte, drop_one,
}

-- A byte and a text as they stand between quotes.
unfoldable pub escape_byte : ℕ → Text
escape_byte c =
    if nat_eq c b'"'
    then b'\\' ∷ (b'"' ∷ [])
    else if nat_eq c b'\\'
    then b'\\' ∷ (b'\\' ∷ [])
    else if nat_eq c 10
    then b'\\' ∷ (b'n' ∷ [])
    else if nat_eq c 9
    then b'\\' ∷ (b't' ∷ [])
    else c ∷ []

unfoldable pub escape : Text → Text
unfolding escape_byte
escape [] = []
escape (c ∷ s) = escape_byte c ++ escape s

plain_lem :
    (c : ℕ) (t : Text) (p : Pos)
    → nat_eq c b'"' ≡ false
    → nat_eq c b'\\' ≡ false
    → scan_string (c ∷ t) p ≡ prepend (c ∷ []) (scan_string t (step c p))
unfolding scan_string
plain_lem c [] p h k = rw h refl
plain_lem c (d ∷ t) p h k = rw (h, k, scan_string) refl

eq_lem : (c d : ℕ) → nat_eq c d ≡ true → d ≡ c
eq_lem c d h = ground arith

-- An escaped byte reads as itself.
abbrev Reads : ℕ → Text → Pos → Text → Type 0
Reads c t p x = scan_string (x ++ t) p ≡ prepend (c ∷ []) (scan_string t (step_all x p))

escape_byte-Reads : (c : ℕ) (t : Text) (p : Pos) → Reads c t p (escape_byte c)
unfolding escape_byte scan_string unescape step_all
escape_byte-Reads c t p =
    if-cases (Reads c t p) (nat_eq c b'"') _ _
      (λ e. subst (λ x. Reads x t p (b'\\' ∷ (b'"' ∷ []))) (eq_lem c b'"' e) refl)
      (λ e.
        if-cases (Reads c t p) (nat_eq c b'\\') _ _
          (λ f. subst (λ x. Reads x t p (b'\\' ∷ (b'\\' ∷ []))) (eq_lem c b'\\' f) refl)
          (λ f.
            if-cases (Reads c t p) (nat_eq c 10) _ _
              (λ g. subst (λ x. Reads x t p (b'\\' ∷ (b'n' ∷ []))) (eq_lem c 10 g) refl)
              (λ g.
                if-cases (Reads c t p) (nat_eq c 9) _ _
                  (λ g. subst (λ x. Reads x t p (b'\\' ∷ (b't' ∷ []))) (eq_lem c 9 g) refl)
                  (λ g. plain_lem c t p e f))))

scan_string-escape :
    (v rest : Text) (p : Pos)
    → scan_string (escape v ++ (b'"' ∷ rest)) p
      ≡ (v, record { rest = rest; pos = step b'"' (step_all (escape v) p) })
unfolding scan_string escape step_all
scan_string-escape [] [] p = refl
scan_string-escape [] (d ∷ rest) p = refl
scan_string-escape (c ∷ v) rest p =
    ap (λ t. scan_string t p) (append_assoc (escape_byte c) (escape v) (b'"' ∷ rest))
    ∙ (escape_byte-Reads c (escape v ++ (b'"' ∷ rest)) p
        ∙ (ap (prepend (c ∷ [])) (scan_string-escape v rest (step_all (escape_byte c) p))
            ∙ ap (λ q. (c ∷ v, record { rest = rest; pos = step b'"' q }))
                (sym (step_all-append (escape_byte c) (escape v) p))))

-- The lexer reads every text back from its literal, with the quotes, backslashes, newlines and
-- tabs of the text escaped, and goes on behind the closing quote.
pub lex-escape :
    (v rest : Text) (p : Pos)
    → lex (record { rest = b'"' ∷ (escape v ++ (b'"' ∷ rest)); pos = p })
      ≡ emit
          (token string_lit v p)
          (record { rest = rest; pos = step b'"' (step_all (escape v) (step b'"' p)) })
unfolding lex lex_rest lex_byte lex_string advance drop_one
lex-escape v rest p =
    ap (λ (r : Text × Lexer). emit (token string_lit r.0 p) r.1)
      (scan_string-escape v rest (step b'"' p))
