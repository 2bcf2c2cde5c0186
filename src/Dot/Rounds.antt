-- ===== src/Dot/Rounds.antt =====
-- A round of the lexer of src/dot_parser.cpp consumes some of the text.
use attractor.Prelude.{
  ℕ, suc, ◌≤◌, ◌<◌, ◌≡◌, refl, Bool, true, false, ◌&&◌, ◌||◌, not, inl, inr, Option, none, some, [],
  ◌∷◌, Text, nat_eq, length, is_alnum, drop_while, drop_while-le, Bool-cases, if-cases,
  if◌then◌else◌, arith, is_lower, is_upper,
}
use attractor.Validator.Syntax.{is_space}
use attractor.Dot.Position.{Pos, step}
use attractor.Dot.Lexer.{
  TokenKind, eof, kind_number, same_kind, Token, Lexer, peek, drop_one, is_digit, is_alpha, scan,
  behind, advance, skip_whitespace, Lexed, emit, skip, scan_string, lex_string, lex_fraction,
  is_unit, lex_duration, lex_number, lex_negative, is_extended, is_word, word_kind, lex_word,
  symbol_kind, lex_symbol, lex_byte,
}

-- A round returns a token that is not the end of the text, or skips; both leave fewer than `n`
-- bytes.
unfoldable pub Consumes : ℕ → Lexed → Type 0
Consumes n (emit t m) = (same_kind t.kind eof ≡ false) × (length m.rest < n)
Consumes n (skip m) = length m.rest < n

behind-le : (p : ℕ → Bool) (l : Lexer) → length (behind p l).rest ≤ length l.rest
unfolding behind
behind-le p l = drop_while-le p l.rest

advance-le : (l : Lexer) → length (advance l).rest ≤ length l.rest
unfolding advance
advance-le l = drop_one-le l.rest
  where
    drop_one-le : (s : Text) → length (drop_one s) ≤ length s
    drop_one-le [] = omega arith
    drop_one-le (c ∷ s) = omega arith

drop_while-lt :
    (p : ℕ → Bool) (c : ℕ) (s : Text) → p c ≡ true → length (drop_while p (c ∷ s)) < suc (length s)
unfolding drop_while
drop_while-lt p c s h = ground (arith, drop_while-le p s)

scan_string-le : (s : Text) (p : Pos) → length (scan_string s p).1.rest ≤ length s
unfolding scan_string
scan_string-le [] p = omega arith
scan_string-le (c ∷ []) p = omega arith
scan_string-le (c ∷ (d ∷ s)) p = elim (Bool-cases (nat_eq c b'"')) [
  | inl e ↦ rw (e, scan_string) (omega arith)
  | inr e ↦ elim (Bool-cases (nat_eq c b'\\')) [
    | inl f ↦ rw (e, f, scan_string) (omega (arith, scan_string-le s (step d (step c p))))
    | inr f ↦ rw (e, f, scan_string) (omega (arith, scan_string-le (d ∷ s) (step c p)))
  ]
]

fraction-Consumes :
    (n : ℕ) (val : Text) (p : Pos) (l : Lexer)
    → length l.rest < n
    → Consumes n (lex_fraction val p l)
unfolding Consumes lex_fraction same_kind kind_number
fraction-Consumes n val p l h =
    (refl, omega (arith, h, behind-le is_digit (advance l), advance-le l))

duration-Consumes :
    (n : ℕ) (val : Text) (p : Pos) (l : Lexer)
    → length l.rest < n
    → Consumes n (lex_duration val p l)
unfolding Consumes lex_duration same_kind kind_number
duration-Consumes n val p l h =
    if-cases (Consumes n)
      (is_unit (scan is_alpha l) && not (is_alnum (peek (behind is_alpha l).rest))) _ _
      (λ e. (refl, omega (arith, h, behind-le is_alpha l))) (λ e. (refl, h))

-- The round of a number from the state `m` behind its first digits.
digits-Consumes :
    (n : ℕ) (val : Text) (p : Pos) (m : Lexer)
    → length m.rest < n
    → Consumes n (if nat_eq (peek m.rest) b'.' then lex_fraction val p m else lex_duration val p m)
digits-Consumes n val p m h =
    if-cases (Consumes n) (nat_eq (peek m.rest) b'.') _ _ (λ e. fraction-Consumes n val p m h)
      (λ e. duration-Consumes n val p m h)

word_kind-eof : (val : Text) → same_kind (word_kind val) eof ≡ false
unfolding word_kind same_kind kind_number
word_kind-eof val = ground arith

symbol_kind-eof : (c : ℕ) (k : TokenKind) → symbol_kind c ≡ some k → same_kind k eof ≡ false
unfolding symbol_kind same_kind kind_number
symbol_kind-eof c k h = ground arith

is_alpha-is_word : (c : ℕ) → (is_alpha c || nat_eq c b'_') ≡ true → is_word c ≡ true
unfolding is_alpha is_word is_alnum is_lower is_upper is_extended
is_alpha-is_word c h = ground arith

symbol-Consumes :
    (c : ℕ) (s : Text) (p : Pos)
    → Consumes (suc (length s)) (lex_symbol c (record { rest = c ∷ s; pos = p }))
unfolding Consumes lex_symbol advance drop_one
symbol-Consumes c s p = next (symbol_kind c) (λ k. symbol_kind-eof c k)
  where
    next :
        (o : Option TokenKind)
        → ((k : TokenKind) → o ≡ some k → same_kind k eof ≡ false)
        → Consumes (suc (length s)) (elim o [
          | some kind ↦
              emit
                (record { kind = kind; value = c ∷ []; line = p.line; column = p.col })
                (advance (record { rest = c ∷ s; pos = p }))
          | none ↦ skip (advance (record { rest = c ∷ s; pos = p }))
        ])
    next (some k) h = (h k refl, omega arith)
    next none h = omega arith

abbrev pub at_byte : ℕ → Text → Pos → Lexer
at_byte c s p = record { rest = c ∷ s; pos = p }

string-Consumes :
    (c : ℕ) (s : Text) (p : Pos) → Consumes (suc (length s)) (lex_string (at_byte c s p))
unfolding Consumes lex_string advance drop_one same_kind kind_number
string-Consumes c s p = (refl, omega (arith, scan_string-le s (step (peek (c ∷ s)) p)))

negative-Consumes :
    (c : ℕ) (s : Text) (p : Pos) → Consumes (suc (length s)) (lex_negative (at_byte c s p))
unfolding lex_negative advance drop_one Consumes same_kind
negative-Consumes c s p =
    let m = behind is_digit (advance (at_byte c s p)) in
    let h : length m.rest < suc (length s) =
      omega (arith, behind-le is_digit (advance (at_byte c s p))) in
    if-cases (Consumes (suc (length s))) (nat_eq (peek m.rest) b'.') _ _
      (λ e.
        fraction-Consumes (suc (length s)) (peek (c ∷ s) ∷ scan is_digit (advance (at_byte c s p)))
          p m h)
      (λ e. negative (peek (c ∷ s) ∷ scan is_digit (advance (at_byte c s p))) m h)
  where
    negative :
        (val : Text) (m : Lexer)
        → length m.rest < suc (length s)
        → Consumes (suc (length s)) (
            emit
              (record { kind = TokenKind.integer_lit; value = val; line = p.line; column = p.col })
              m)
    negative val m h = (refl, h)

number-Consumes :
    (c : ℕ) (s : Text) (p : Pos)
    → is_digit c ≡ true
    → Consumes (suc (length s)) (lex_number (at_byte c s p))
unfolding lex_number behind
number-Consumes c s p h =
    digits-Consumes (suc (length s)) (scan is_digit (at_byte c s p)) p
      (behind is_digit (at_byte c s p)) (drop_while-lt is_digit c s h)

word-Consumes :
    (c : ℕ) (s : Text) (p : Pos)
    → is_word c ≡ true
    → Consumes (suc (length s)) (lex_word (at_byte c s p))
unfolding Consumes lex_word behind
word-Consumes c s p h = (word_kind-eof (scan is_word (at_byte c s p)), drop_while-lt is_word c s h)

advances-lt :
    (c : ℕ) (s : Text) (p : Pos) → length (advance (advance (at_byte c s p))).rest < suc (length s)
unfolding advance drop_one
advances-lt c s p = omega (arith, advance-le (advance (at_byte c s p)))

advance-lt : (c : ℕ) (s : Text) (p : Pos) → length (advance (at_byte c s p)).rest < suc (length s)
unfolding advance drop_one
advance-lt c s p = omega arith

emit-Consumes :
    (n : ℕ) (t : Token) (m : Lexer)
    → same_kind t.kind eof ≡ false
    → length m.rest < n
    → Consumes n (emit t m)
unfolding Consumes
emit-Consumes n t m e h = (e, h)

pub byte-Consumes :
    (c d : ℕ) (s : Text) (p : Pos) → Consumes (suc (length s)) (lex_byte c d (at_byte c s p))
unfolding lex_byte same_kind kind_number
byte-Consumes c d s p =
    let P = Consumes (suc (length s)) in
    if-cases P (nat_eq c b'"') _ _ (λ e. string-Consumes c s p)
      (λ e.
        if-cases P (nat_eq c b'<') _ _ (λ e. emit-Consumes _ _ _ refl (advance-lt c s p))
          (λ e.
            if-cases P (nat_eq c b'-' && nat_eq d b'>') _ _
              (λ e. emit-Consumes _ _ _ refl (advances-lt c s p))
              (λ e.
                if-cases P (nat_eq c b'-' && nat_eq d b'-') _ _
                  (λ e. emit-Consumes _ _ _ refl (advances-lt c s p))
                  (λ e.
                    if-cases P (nat_eq c b'-' && is_digit d) _ _ (λ e. negative-Consumes c s p)
                      (λ e.
                        if-cases P (is_digit c) _ _ (λ e. number-Consumes c s p e)
                          (λ e.
                            if-cases P (is_alpha c || nat_eq c b'_') _ _
                              (λ e. word-Consumes c s p (is_alpha-is_word c e))
                              (λ e. symbol-Consumes c s p)))))))

pub skip_whitespace-le : (l : Lexer) → length (skip_whitespace l).rest ≤ length l.rest
unfolding skip_whitespace
skip_whitespace-le l = behind-le is_space l
