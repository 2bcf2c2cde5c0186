-- ===== src/Dot/Unclosed.antt =====
-- The errors of strip_comments in src/dot_parser.cpp.
use attractor.Prelude.{
  ◌≡◌, refl, sym, ap, subst, ◌∙◌, [], ◌∷◌, ◌++◌, append_assoc, Text, text, Result, ok, err,
}
use attractor.Dot.Position.{ParseError, Pos, step, step_all, step_all-append, origin}
use attractor.Dot.Comments.{
  Mode, code, in_string, in_line, in_block, Action, one, two, action, last_out, last_mode, finish,
  put, strip, strip_comments,
}
use attractor.Dot.Places.{
  inside_string, inside_block, Reads, start, At, Ends, Acts, last_mode-Ends, action-Acts,
}

-- The source ends inside a string or a block comment, and the error stands where that was opened,
-- with the message for it.
pub data IsUnclosed (source : Text) : ParseError → Type 0 where
  unclosed_string :
      (opening : Text) (o : Pos)
      → Reads source [] (inside_string opening)
      → step_all opening origin ≡ o
      → IsUnclosed source
          (record { message = text "unterminated string literal"; line = o.line; column = o.col })
  unclosed_comment :
      (opening : Text) (o : Pos)
      → Reads source [] (inside_block opening)
      → step_all opening origin ≡ o
      → IsUnclosed source
          (record { message = text "unterminated block comment"; line = o.line; column = o.col })

abbrev Reports : Text → Result ParseError Text → Type 0
Reports source (ok out) = Unit
Reports source (err e) = IsUnclosed source e

put-Reports :
    (source out : Text) (r : Result ParseError Text) → Reports source r → Reports source (put out r)
put-Reports source out (ok s) h = tt
put-Reports source out (err e) h = h

finish-Reports : (source : Text) (m : Mode) → Ends source m → Reports source (finish m)
unfolding finish
finish-Reports source code h = tt
finish-Reports source (in_string o) h = unclosed_string h.0 o h.1 h.2
finish-Reports source in_line h = tt
finish-Reports source (in_block o) h = unclosed_comment h.0 o h.1 h.2

At-Ends : (t : Text) (m : Mode) → At t [] m → Ends t m
At-Ends t code h = tt
At-Ends t (in_string o) h = h
At-Ends t in_line h = tt
At-Ends t (in_block o) h = h

later :
    (source before read rest : Text) (p : Pos)
    → source ≡ before ++ (read ++ rest)
    → step_all before origin ≡ p
    → (source ≡ (before ++ read) ++ rest) × (step_all (before ++ read) origin ≡ step_all read p)
later source before read rest p e f = (
  e ∙ sym (append_assoc before read rest),
  step_all-append before read origin ∙ ap (step_all read) f,
)

append_nil : (s : Text) → s ≡ s ++ []
append_nil [] = refl
append_nil (c ∷ s) = ap (λ x. c ∷ x) (append_nil s)

strip-Reports :
    (source before : Text) (m : Mode) (p : Pos) (s : Text)
    → source ≡ before ++ s
    → step_all before origin ≡ p
    → At before s m
    → Reports source (strip m p s)
unfolding strip step_all
strip-Reports source before m p [] e f h =
    finish-Reports source m (subst (λ t. Ends t m) (append_nil before ∙ sym e) (At-Ends before m h))
strip-Reports source before m p (c ∷ []) e f h =
    put-Reports source (last_out m c ∷ []) (finish (last_mode m p c)) (
      finish-Reports source (last_mode m p c)
        (subst (λ t. Ends t (last_mode m p c)) (sym e) (last_mode-Ends before c p f m h)))
strip-Reports source before m p (c ∷ (d ∷ s)) e f h =
    let a = later source before (c ∷ []) (d ∷ s) p e f in
    let b = later source before (c ∷ (d ∷ [])) s p e f in
    next (action m p c d) (action-Acts before c p f m d s h)
      (λ n k. strip-Reports source (before ++ (c ∷ [])) n (step c p) (d ∷ s) a.0 a.1 k)
      (λ n k. strip-Reports source (before ++ (c ∷ (d ∷ []))) n (step d (step c p)) s b.0 b.1 k)
  where
    next :
        (a : Action)
        → Acts before c p f d s a
        → ((n : Mode)
            → At (before ++ (c ∷ [])) (d ∷ s) n
            → Reports source (strip n (step c p) (d ∷ s)))
        → ((n : Mode)
            → At (before ++ (c ∷ (d ∷ []))) s n
            → Reports source (strip n (step d (step c p)) s))
        → Reports source (elim a [
          | one o n ↦ put (o ∷ []) (strip n (step c p) (d ∷ s))
          | two o1 o2 n ↦ put (o1 ∷ (o2 ∷ [])) (strip n (step d (step c p)) s)
        ])
    next (one o n) w k1 k2 = put-Reports source (o ∷ []) (strip n (step c p) (d ∷ s)) (k1 n w)
    next (two o1 o2 n) w k1 k2 =
        put-Reports source (o1 ∷ (o2 ∷ [])) (strip n (step d (step c p)) s) (k2 n w)

-- Where strip_comments fails, the source ends inside a string, or inside a block comment, and the
-- error has the message for that and the position of the quote, or of the slash, that opened it.
pub strip_comments-IsUnclosed :
    (source : Text) (e : ParseError) → strip_comments source ≡ err e → IsUnclosed source e
unfolding strip_comments step_all
strip_comments-IsUnclosed source e h =
    subst (Reports source) h (strip-Reports source [] code origin source refl refl (start source))
