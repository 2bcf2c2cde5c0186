-- ===== src/Dot/Places.antt =====
-- Where a reader of a DOT file stands, and that the modes of strip_comments in src/dot_parser.cpp
-- follow it.
use attractor.Prelude.{
  ℕ, ◌≡◌, refl, sym, subst, Bool, true, false, ◌&&◌, ◌||◌, [], ◌∷◌, ◌++◌, Text, nat_eq, Bool-cases,
  inl, inr, if-cases, arith,
}
use attractor.Dot.Position.{Pos, step_all, origin}
use attractor.Dot.Comments.{
  Mode, code, in_string, in_line, in_block, Action, one, two, action, last_mode,
}

-- Where a reader of the source stands: in code, in a string, in a line comment or in a block
-- comment. A string and a block comment are named by the text before the bytes that open them.
pub data Place : Type 0 where
  outside : Place
  inside_string : Text → Place
  inside_line : Place
  inside_block : Text → Place

-- Whether a byte of code, followed by `s`, begins a comment, and whether one of a block comment
-- begins its end.
abbrev pub begins_comment : ℕ → Text → Bool
begins_comment c [] = false
begins_comment c (d ∷ s) = nat_eq c b'/' && (nat_eq d b'/' || nat_eq d b'*')

abbrev pub begins_end : ℕ → Text → Bool
begins_end c [] = false
begins_end c (d ∷ s) = nat_eq c b'*' && nat_eq d b'/'

-- `Reads t s place`: behind `t`, with `s` still to come, the reader stands at `place`.
pub data Reads : Text → Text → Place → Type 0 where
  start : (s : Text) → Reads [] s outside
  code_byte :
      (t : Text) (c : ℕ) (s : Text)
      → Reads t (c ∷ s) outside
      → nat_eq c b'"' ≡ false
      → begins_comment c s ≡ false
      → Reads (t ++ (c ∷ [])) s outside
  opens_string :
      (t s : Text) → Reads t (b'"' ∷ s) outside → Reads (t ++ (b'"' ∷ [])) s (inside_string t)
  string_byte :
      (t : Text) (c : ℕ) (s opening : Text)
      → Reads t (c ∷ s) (inside_string opening)
      → nat_eq c b'"' ≡ false
      → nat_eq c b'\\' ≡ false
      → Reads (t ++ (c ∷ [])) s (inside_string opening)
  escape :
      (t : Text) (d : ℕ) (s opening : Text)
      → Reads t (b'\\' ∷ (d ∷ s)) (inside_string opening)
      → Reads (t ++ (b'\\' ∷ (d ∷ []))) s (inside_string opening)
  last_backslash :
      (t opening : Text)
      → Reads t (b'\\' ∷ []) (inside_string opening)
      → Reads (t ++ (b'\\' ∷ [])) [] (inside_string opening)
  closes_string :
      (t s opening : Text)
      → Reads t (b'"' ∷ s) (inside_string opening)
      → Reads (t ++ (b'"' ∷ [])) s outside
  opens_line :
      (t s : Text)
      → Reads t (b'/' ∷ (b'/' ∷ s)) outside
      → Reads (t ++ (b'/' ∷ [])) (b'/' ∷ s) inside_line
  line_byte :
      (t : Text) (c : ℕ) (s : Text)
      → Reads t (c ∷ s) inside_line
      → nat_eq c 10 ≡ false
      → Reads (t ++ (c ∷ [])) s inside_line
  closes_line : (t s : Text) → Reads t (10 ∷ s) inside_line → Reads (t ++ (10 ∷ [])) s outside
  opens_block :
      (t s : Text)
      → Reads t (b'/' ∷ (b'*' ∷ s)) outside
      → Reads (t ++ (b'/' ∷ (b'*' ∷ []))) s (inside_block t)
  block_byte :
      (t : Text) (c : ℕ) (s opening : Text)
      → Reads t (c ∷ s) (inside_block opening)
      → begins_end c s ≡ false
      → Reads (t ++ (c ∷ [])) s (inside_block opening)
  closes_block :
      (t s opening : Text)
      → Reads t (b'*' ∷ (b'/' ∷ s)) (inside_block opening)
      → Reads (t ++ (b'*' ∷ (b'/' ∷ []))) s outside

-- The mode of the loop is the place of the reader.
abbrev pub At : Text → Text → Mode → Type 0
At t s code = Reads t s outside
At t s (in_string o) =
    (opening : Text) × Reads t s (inside_string opening) × (step_all opening origin ≡ o)
At t s in_line = Reads t s inside_line
At t s (in_block o) =
    (opening : Text) × Reads t s (inside_block opening) × (step_all opening origin ≡ o)

-- What is left of it at the end of the source.
abbrev pub Ends : Text → Mode → Type 0
Ends t code = Unit
Ends t (in_string o) = At t [] (in_string o)
Ends t in_line = Unit
Ends t (in_block o) = At t [] (in_block o)

nat_eq-same : (c q : ℕ) → nat_eq c q ≡ true → q ≡ c
nat_eq-same c q h = ground arith

module _ (t : Text) (c : ℕ) (p : Pos) (f : step_all t origin ≡ p) where
  as_byte :
      (q : ℕ) (s : Text) (w : Place) → nat_eq c q ≡ true → Reads t (c ∷ s) w → Reads t (q ∷ s) w
  as_byte q s w e h = subst (λ x. Reads t (x ∷ s) w) (sym (nat_eq-same c q e)) h

  behind_byte :
      (q : ℕ) (s : Text) (w : Place)
      → nat_eq c q ≡ true
      → Reads (t ++ (q ∷ [])) s w
      → Reads (t ++ (c ∷ [])) s w
  behind_byte q s w e h = subst (λ x. Reads (t ++ (x ∷ [])) s w) (nat_eq-same c q e) h

  opened :
      (s : Text)
      → nat_eq c b'"' ≡ true
      → Reads t (c ∷ s) outside
      → At (t ++ (c ∷ [])) s (in_string p)
  opened s e h =
      (t, behind_byte b'"' s (inside_string t) e (opens_string t s (as_byte b'"' s outside e h)), f)

  pub last_mode-Ends : (m : Mode) → At t (c ∷ []) m → Ends (t ++ (c ∷ [])) (last_mode m p c)
  unfolding last_mode
  last_mode-Ends code h =
      if-cases (Ends (t ++ (c ∷ []))) (nat_eq c b'"') _ _ (λ e. opened [] e h) (λ _. tt)
  last_mode-Ends (in_string o) h =
      if-cases (Ends (t ++ (c ∷ []))) (nat_eq c b'"') _ _ (λ _. tt)
        (λ e. elim (Bool-cases (nat_eq c b'\\')) [
          | inl b ↦ (
            h.0,
            behind_byte b'\\' [] (inside_string h.0) b
                (last_backslash t h.0 (as_byte b'\\' [] (inside_string h.0) b h.1)),
            h.2,
          )
          | inr b ↦ (h.0, string_byte t c [] h.0 h.1 e b, h.2)
        ])
  last_mode-Ends in_line h = tt
  last_mode-Ends (in_block o) h = (h.0, block_byte t c [] h.0 h.1 refl, h.2)

  -- The action leads to a mode that is the place behind the bytes it takes.
  abbrev pub Acts : ℕ → Text → Action → Type 0
  Acts d s (one o m) = At (t ++ (c ∷ [])) (d ∷ s) m
  Acts d s (two o1 o2 m) = At (t ++ (c ∷ (d ∷ []))) s m

  as_bytes :
      (q r d : ℕ) (s : Text) (w : Place)
      → (nat_eq c q && nat_eq d r) ≡ true
      → Reads t (c ∷ (d ∷ s)) w
      → Reads t (q ∷ (r ∷ s)) w
  as_bytes q r d s w e h =
      subst (λ x. Reads t (q ∷ (x ∷ s)) w) (sym (nat_eq-same d r (ground arith)))
        (as_byte q (d ∷ s) w (ground arith) h)

  behind_bytes :
      (q r d : ℕ) (s : Text) (w : Place)
      → (nat_eq c q && nat_eq d r) ≡ true
      → Reads (t ++ (q ∷ (r ∷ []))) s w
      → Reads (t ++ (c ∷ (d ∷ []))) s w
  behind_bytes q r d s w e h =
      subst (λ x. Reads (t ++ (c ∷ (x ∷ []))) s w) (nat_eq-same d r (ground arith))
        (subst (λ x. Reads (t ++ (x ∷ (r ∷ []))) s w) (nat_eq-same c q (ground arith)) h)

  line_opened :
      (d : ℕ) (s : Text)
      → (nat_eq c b'/' && nat_eq d b'/') ≡ true
      → Reads t (c ∷ (d ∷ s)) outside
      → Reads (t ++ (c ∷ [])) (d ∷ s) inside_line
  line_opened d s e h =
      subst (λ x. Reads (t ++ (c ∷ [])) (x ∷ s) inside_line) (nat_eq-same d b'/' (ground arith))
        (behind_byte b'/' (b'/' ∷ s) inside_line (ground arith)
          (opens_line t s (as_bytes b'/' b'/' d s outside e h)))

  code-Acts : (d : ℕ) (s : Text) → Reads t (c ∷ (d ∷ s)) outside → Acts d s (action code p c d)
  unfolding action
  code-Acts d s h =
      if-cases (Acts d s) (nat_eq c b'"') _ _ (λ e. opened (d ∷ s) e h)
        (λ q.
          if-cases (Acts d s) (nat_eq c b'/' && nat_eq d b'/') _ _ (λ e. line_opened d s e h)
            (λ l.
              if-cases (Acts d s) (nat_eq c b'/' && nat_eq d b'*') _ _
                (λ e. (
                  t,
                  behind_bytes b'/' b'*' d s (inside_block t) e
                      (opens_block t s (as_bytes b'/' b'*' d s outside e h)),
                  f,
                ))
                (λ k. code_byte t c (d ∷ s) h q (ground arith))))

  string-Acts :
      (o : Pos) (d : ℕ) (s : Text)
      → At t (c ∷ (d ∷ s)) (in_string o)
      → Acts d s (action (in_string o) p c d)
  unfolding action
  string-Acts o d s (b, h, k) =
      if-cases (Acts d s) (nat_eq c b'\\') _ _
        (λ e. (
          b,
          subst (λ x. Reads (t ++ (x ∷ (d ∷ []))) s (inside_string b)) (nat_eq-same c b'\\' e)
              (escape t d s b (as_byte b'\\' (d ∷ s) (inside_string b) e h)),
          k,
        ))
        (λ n.
          if-cases (Acts d s) (nat_eq c b'"') _ _
            (λ e.
              behind_byte b'"' (d ∷ s) outside e
                (closes_string t (d ∷ s) b (as_byte b'"' (d ∷ s) (inside_string b) e h)))
            (λ e. (b, string_byte t c (d ∷ s) b h e n, k)))

  pub action-Acts : (m : Mode) (d : ℕ) (s : Text) → At t (c ∷ (d ∷ s)) m → Acts d s (action m p c d)
  unfolding action
  action-Acts code d s h = code-Acts d s h
  action-Acts (in_string o) d s h = string-Acts o d s h
  action-Acts in_line d s h =
      if-cases (Acts d s) (nat_eq c 10) _ _
        (λ e.
          behind_byte 10 (d ∷ s) outside e
            (closes_line t (d ∷ s) (as_byte 10 (d ∷ s) inside_line e h)))
        (λ e. line_byte t c (d ∷ s) h e)
  action-Acts (in_block o) d s (b, h, k) =
      if-cases (Acts d s) (nat_eq c b'*' && nat_eq d b'/') _ _
        (λ e.
          behind_bytes b'*' b'/' d s outside e
            (closes_block t s b (as_bytes b'*' b'/' d s (inside_block b) e h)))
        (λ e. (b, block_byte t c (d ∷ s) b h e, k))
