-- ===== src/Validator/Errors.antt =====
-- What it means for a list of rules that none has pushed an error.
use attractor.Prelude.{
  ◌≡◌, refl, Bool, true, false, List, [], ◌∷◌, ◌++◌, select, is_empty, In, Bool-cases, inl, inr,
  subst, sym,
}
use attractor.Validator.Rules.{Diagnostic, push_each, push_if}
use attractor.Validator.Warnings.{is_error}

-- No diagnostic of the list is an error.
abbrev pub NoError : List Diagnostic → Type 0
NoError ds = is_empty (select is_error ds) ≡ true

false≢true : false ≡ true → ⊥
false≢true h = cc

pub NoError-append : (ds es : List Diagnostic) → NoError (ds ++ es) → NoError ds × NoError es
unfolding select
NoError-append [] es h = (refl, h)
NoError-append (d ∷ ds) es h = elim (Bool-cases (is_error d)) [
  | inl e ↦ absurd (false≢true (impossible e))
  | inr e ↦ let r = NoError-append ds es (rw e at h) in (rw e r.0, r.1)
]
  where
    impossible : is_error d ≡ true → false ≡ true
    impossible e = rw e at h

pub NoError-append-back : (ds es : List Diagnostic) → NoError ds → NoError es → NoError (ds ++ es)
unfolding select
NoError-append-back [] es h k = k
NoError-append-back (d ∷ ds) es h k = elim (Bool-cases (is_error d)) [
  | inl e ↦ absurd (false≢true (impossible e))
  | inr e ↦ rw e (NoError-append-back ds es (rw e at h) k)
]
  where
    impossible : is_error d ≡ true → false ≡ true
    impossible e = rw e at h

pub NoError-each :
    {A : Type 0} (f : A → List Diagnostic) (xs : List A)
    → NoError (push_each f xs)
    → (a : A) → In a xs
    → NoError (f a)
unfolding push_each
NoError-each f [] h a i = absurd i
NoError-each f (x ∷ xs) h a (inl q) =
    subst (λ y. NoError (f y)) (sym q) (NoError-append (f x) (push_each f xs) h).0
NoError-each f (x ∷ xs) h a (inr i) =
    NoError-each f xs (NoError-append (f x) (push_each f xs) h).1 a i

-- A rule with an error's severity has not pushed: its test has failed.
pub NoError-push :
    (b : Bool) (d : Diagnostic) → is_error d ≡ true → NoError (push_if b d) → b ≡ false
unfolding select
NoError-push true d e h = absurd (false≢true impossible)
  where
    impossible : false ≡ true
    impossible = rw e at h
NoError-push false d e h = refl
