-- ===== src/Dot/Stripped.antt =====
-- What strip_comments keeps.
use attractor.Prelude.{
  ℕ, ◌≡◌, refl, subst, ◌⊎◌, inl, inr, [], ◌∷◌, Text, Result, ok, err, nat_eq, ◌&&◌, arith, ◌≢◌,
  Bool-cases, if-cases,
}
use attractor.Dot.Position.{ParseError, Pos, step, origin}
use attractor.Dot.Comments.{
  Mode, code, in_string, in_line, in_block, Action, one, two, blank, action, last_out, last_mode,
  finish, put, strip, strip_comments,
}

-- A byte is kept, or is no newline and has become a space.
unfoldable pub IsBlanked : ℕ → ℕ → Type 0
IsBlanked c o = (o ≡ c) ⊎ ((c ≢ 10) × (o ≡ 32))

-- The texts have the same length and agree byte by byte up to blanks.
unfoldable pub SameLayout : Text → Text → Type 0
SameLayout [] [] = Unit
SameLayout [] (o ∷ out) = ⊥
SameLayout (c ∷ s) [] = ⊥
SameLayout (c ∷ s) (o ∷ out) = IsBlanked c o × SameLayout s out

blank-IsBlanked : (c : ℕ) → IsBlanked c (blank c)
unfolding IsBlanked blank
blank-IsBlanked c = elim (Bool-cases (nat_eq c 10)) [
  | inl e ↦ inl (ground arith)
  | inr e ↦ inr (ground arith, ground arith)
]

last_out-IsBlanked : (m : Mode) (c : ℕ) → IsBlanked c (last_out m c)
unfolding IsBlanked last_out
last_out-IsBlanked code c = inl refl
last_out-IsBlanked (in_string o) c = inl refl
last_out-IsBlanked in_line c = blank-IsBlanked c
last_out-IsBlanked (in_block o) c = blank-IsBlanked c

-- What an action writes for the bytes `c` and `d`.
abbrev Writes : ℕ → ℕ → Action → Type 0
Writes c d (one o m) = IsBlanked c o
Writes c d (two o1 o2 m) = IsBlanked c o1 × IsBlanked d o2

action-Writes : (m : Mode) (p : Pos) (c d : ℕ) → Writes c d (action m p c d)
unfolding action IsBlanked blank
action-Writes code p c d =
    if-cases (Writes c d) (nat_eq c b'"') _ _ (λ e. inl refl)
      (λ e.
        if-cases (Writes c d) (nat_eq c b'/' && nat_eq d b'/') _ _ (λ f. inr (ground arith, refl))
          (λ f.
            if-cases (Writes c d) (nat_eq c b'/' && nat_eq d b'*') _ _
              (λ g. (inr (ground arith, refl), inr (ground arith, refl))) (λ g. inl refl)))
action-Writes (in_string o) p c d =
    if-cases (Writes c d) (nat_eq c b'\\') _ _ (λ e. (inl refl, inl refl))
      (λ e. if-cases (Writes c d) (nat_eq c b'"') _ _ (λ f. inl refl) (λ f. inl refl))
action-Writes in_line p c d =
    if-cases (Writes c d) (nat_eq c 10) _ _ (λ e. inl refl) (λ e. inr (ground arith, refl))
action-Writes (in_block o) p c d =
    if-cases (Writes c d) (nat_eq c b'*' && nat_eq d b'/') _ _
      (λ e. (inr (ground arith, refl), inr (ground arith, refl))) (λ e. blank-IsBlanked c)

-- A result is an error, or agrees with the text up to blanks.
abbrev Laid : Text → Result ParseError Text → Type 0
Laid s (ok out) = SameLayout s out
Laid s (err e) = Unit

finish-Laid : (m : Mode) → Laid [] (finish m)
unfolding finish SameLayout
finish-Laid code = tt
finish-Laid (in_string o) = tt
finish-Laid in_line = tt
finish-Laid (in_block o) = tt

put_one-Laid :
    (c o : ℕ) (s : Text) (r : Result ParseError Text)
    → IsBlanked c o
    → Laid s r
    → Laid (c ∷ s) (put (o ∷ []) r)
unfolding SameLayout
put_one-Laid c o s (ok out) b l = (b, l)
put_one-Laid c o s (err e) b l = tt

put_two-Laid :
    (c d o1 o2 : ℕ) (s : Text) (r : Result ParseError Text)
    → IsBlanked c o1 × IsBlanked d o2
    → Laid s r
    → Laid (c ∷ (d ∷ s)) (put (o1 ∷ (o2 ∷ [])) r)
unfolding SameLayout
put_two-Laid c d o1 o2 s (ok out) b l = (b.0, (b.1, l))
put_two-Laid c d o1 o2 s (err e) b l = tt

strip-Laid : (m : Mode) (p : Pos) (s : Text) → Laid s (strip m p s)
unfolding strip
strip-Laid m p [] = finish-Laid m
strip-Laid m p (c ∷ []) =
    put_one-Laid c (last_out m c) [] (finish (last_mode m p c)) (last_out-IsBlanked m c)
      (finish-Laid (last_mode m p c))
strip-Laid m p (c ∷ (d ∷ s)) =
    next (action m p c d) (action-Writes m p c d) (λ n. strip-Laid n (step c p) (d ∷ s))
      (λ n. strip-Laid n (step d (step c p)) s)
  where
    next :
        (a : Action)
        → Writes c d a
        → ((n : Mode) → Laid (d ∷ s) (strip n (step c p) (d ∷ s)))
        → ((n : Mode) → Laid s (strip n (step d (step c p)) s))
        → Laid (c ∷ (d ∷ s)) (elim a [
          | one o n ↦ put (o ∷ []) (strip n (step c p) (d ∷ s))
          | two o1 o2 n ↦ put (o1 ∷ (o2 ∷ [])) (strip n (step d (step c p)) s)
        ])
    next (one o n) w k1 k2 = put_one-Laid c o (d ∷ s) (strip n (step c p) (d ∷ s)) w (k1 n)
    next (two o1 o2 n) w k1 k2 = put_two-Laid c d o1 o2 s (strip n (step d (step c p)) s) w (k2 n)

-- A text that strip_comments accepts has the same length without its comments, and every byte is
-- as it was, or was no newline and is a space now: the tokens keep their lines and columns.
pub strip_comments-SameLayout :
    (source out : Text) → strip_comments source ≡ ok out → SameLayout source out
unfolding strip_comments
strip_comments-SameLayout source out h = subst (Laid source) h (strip-Laid code origin source)
