-- ===== src/Dot/Arrows.antt =====
-- How the lexer of src/dot_parser.cpp reads an arrow that no blank separates from its source.
use attractor.Prelude.{
  ℕ, suc, ◌≡◌, refl, ap, subst, ◌∙◌, Bool, true, false, ◌||◌, some, [], ◌∷◌, ◌++◌, Text, text, ◌==◌,
  ==_iff, nat_eq, any, all, take_while, drop_while, Bool-cases, inl, inr, arith, is_lower, is_upper,
  is_alnum,
}
use attractor.Validator.Syntax.{is_space}
use attractor.Dot.Position.{Pos, step_all}
use attractor.Dot.Lexer.{
  Token, Lexer, TokenKind, bare_value, Lexed, emit, is_digit, is_alpha, is_word, is_extended,
  word_kind, lex, lex_rest, lex_byte, lex_word, skip_whitespace, scan, behind, next_token, token,
  peek,
}

take_while-append :
    (p : ℕ → Bool) (s t : Text) → all p s ≡ true → take_while p (s ++ t) ≡ s ++ take_while p t
unfolding take_while all
take_while-append p [] t h = refl
take_while-append p (c ∷ s) t h = elim (Bool-cases (p c)) [
  | inl e ↦ rw (e, take_while) (ap (λ u. c ∷ u) (take_while-append p s t (rw e at h)))
  | inr e ↦ absurd (ground arith)
]

drop_while-append :
    (p : ℕ → Bool) (s t : Text) → all p s ≡ true → drop_while p (s ++ t) ≡ drop_while p t
unfolding drop_while all
drop_while-append p [] t h = refl
drop_while-append p (c ∷ s) t h = elim (Bool-cases (p c)) [
  | inl e ↦ rw (e, drop_while) (drop_while-append p s t (rw e at h))
  | inr e ↦ absurd (ground arith)
]

any-last : (p : ℕ → Bool) (s : Text) (c : ℕ) → p c ≡ true → any p (s ++ (c ∷ [])) ≡ true
unfolding any
any-last p [] c h = rw h refl
any-last p (d ∷ s) c h = ground (arith, any-last p s c h)

word_kind-extended : (val : Text) → any is_extended val ≡ true → word_kind val ≡ bare_value
unfolding word_kind text any is_extended
word_kind-extended val h = elim (Bool-cases (val == text "true")) [
  | inl e ↦ absurd (not-literal (text "true") refl e)
  | inr e ↦ elim (Bool-cases (val == text "false")) [
    | inl f ↦ absurd (not-literal (text "false") refl f)
    | inr f ↦ rw (e, f, h, word_kind) refl
  ]
]
  where
    not-literal : (u : Text) → any is_extended u ≡ false → (val == u) ≡ true → ⊥
    not-literal u n e =
        let q : any is_extended u ≡ true =
          subst (λ t. any is_extended t ≡ true) ((==_iff val u).0 e) h in
        absurd (cc)

-- A byte that starts a word.
unfoldable pub starts_word : ℕ → Bool
starts_word c = is_alpha c || nat_eq c b'_'

starts_word-is_word : (c : ℕ) → starts_word c ≡ true → is_word c ≡ true
unfolding starts_word is_alpha is_word is_alnum is_lower is_upper is_extended
starts_word-is_word c h = ground arith

starts_word-is_space : (c : ℕ) → starts_word c ≡ true → is_space c ≡ false
unfolding starts_word is_space is_alpha is_lower is_upper
starts_word-is_space c h = ground arith

skip_whitespace-word :
    (c : ℕ) (s : Text) (p : Pos)
    → starts_word c ≡ true
    → skip_whitespace (record { rest = c ∷ s; pos = p }) ≡ record { rest = c ∷ s; pos = p }
unfolding skip_whitespace behind step_all
skip_whitespace-word c s p h =
    let e = starts_word-is_space c h in
    let d : drop_while is_space (c ∷ s) ≡ c ∷ s = rw (e, drop_while) refl in
    let t : take_while is_space (c ∷ s) ≡ [] = rw (e, take_while) refl in
    λ i. record { rest = d i; pos = step_all (t i) p }

lex_byte-word : (c d : ℕ) (l : Lexer) → starts_word c ≡ true → lex_byte c d l ≡ lex_word l
unfolding lex_byte starts_word is_alpha is_lower is_upper is_digit
lex_byte-word c d l h = ground arith

emitted : Text → Text → Pos → Lexed
emitted a b p = emit (token (word_kind a) a p) (record { rest = b; pos = step_all a p })

lex_word-arrow :
    (s t : Text) (p : Pos)
    → all is_word s ≡ true
    → lex_word (record { rest = s ++ (b'-' ∷ (b'>' ∷ t)); pos = p })
      ≡ emit
          (token bare_value (s ++ (b'-' ∷ [])) p)
          (record { rest = b'>' ∷ t; pos = step_all (s ++ (b'-' ∷ [])) p })
unfolding lex_word scan behind drop_while take_while emitted is_word
lex_word-arrow s t p h =
    let e : take_while is_word (s ++ (b'-' ∷ (b'>' ∷ t))) ≡ s ++ (b'-' ∷ []) =
      take_while-append is_word s (b'-' ∷ (b'>' ∷ t)) h in
    let f : drop_while is_word (s ++ (b'-' ∷ (b'>' ∷ t))) ≡ b'>' ∷ t =
      drop_while-append is_word s (b'-' ∷ (b'>' ∷ t)) h in
    let k = word_kind-extended (s ++ (b'-' ∷ [])) (any-last is_extended s b'-' refl) in
    (λ i. emitted (e i) (f i) p)
    ∙ ap
        (λ (kind : TokenKind).
          emit (token kind (s ++ (b'-' ∷ [])) p)
            (record { rest = b'>' ∷ t; pos = step_all (s ++ (b'-' ∷ [])) p }))
        k

all-cons : (p : ℕ → Bool) (c : ℕ) (s : Text) → p c ≡ true → all p s ≡ true → all p (c ∷ s) ≡ true
unfolding all
all-cons p c s h k = ground arith

next_token-emit :
    (fuel : ℕ) (l m : Lexer) (t : Token)
    → lex (skip_whitespace l) ≡ emit t m
    → next_token (suc fuel) l ≡ some (t, m)
unfolding next_token
next_token-emit fuel l m t h = rw (h, next_token) refl

lex-word :
    (c : ℕ) (s : Text) (p : Pos)
    → starts_word c ≡ true
    → lex (record { rest = c ∷ s; pos = p }) ≡ lex_word (record { rest = c ∷ s; pos = p })
unfolding lex lex_rest
lex-word c s p h = lex_byte-word c (peek s) (record { rest = c ∷ s; pos = p }) h

-- A word that an arrow follows without a blank takes the minus sign: the token is a bare value that
-- ends in '-', and the lexer goes on at '>', which it knows as no token.
pub next_token-unspaced :
    (c : ℕ) (s t : Text) (p : Pos) (fuel : ℕ)
    → starts_word c ≡ true
    → all is_word s ≡ true
    → next_token (suc fuel) (record { rest = (c ∷ s) ++ (b'-' ∷ (b'>' ∷ t)); pos = p })
      ≡ some (
        token bare_value ((c ∷ s) ++ (b'-' ∷ [])) p,
        record { rest = b'>' ∷ t; pos = step_all ((c ∷ s) ++ (b'-' ∷ [])) p },
      )
next_token-unspaced c s t p fuel h k =
    let r = s ++ (b'-' ∷ (b'>' ∷ t)) in
    let all_word = all-cons is_word c s (starts_word-is_word c h) k in
    next_token-emit fuel (record { rest = c ∷ r; pos = p }) _ _
      (ap lex (skip_whitespace-word c r p h)
        ∙ (lex-word c r p h ∙ lex_word-arrow (c ∷ s) t p all_word))
