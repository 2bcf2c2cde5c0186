-- ===== src/Transform/Expand.antt =====
-- What `replace_all` of src/transform.cpp replaces.
use attractor.Prelude.{
  ℕ, zero, suc, ◌≤◌, ◌≡◌, refl, ap, ◌∙◌, false, Option, none, some, List, [], ◌∷◌, ◌++◌, Text, All,
  length, length-append, is_empty, strip_prefix, split_on, Option-cases, inl, inr, arith,
}
use attractor.Transform.Apply.{replace_from, replace_all}

-- A part of a text and the others, with `sep` between them.
unfoldable pub join : Text → Text → List Text → Text
join sep part [] = part
join sep part (next ∷ parts) = part ++ (sep ++ join sep next parts)

strip_prefix-append :
    (pat s rest t : Text)
    → strip_prefix pat s ≡ some rest
    → strip_prefix pat (s ++ t) ≡ some (rest ++ t)
unfolding strip_prefix
strip_prefix-append [] s rest t h = ground arith
strip_prefix-append (p ∷ pat) [] rest t h = absurd (cc)
strip_prefix-append (p ∷ pat) (c ∷ s) rest t h = ground (arith, strip_prefix-append pat s rest t)

strip_prefix-found : (pat s rest : Text) → strip_prefix pat s ≡ some rest → s ≡ pat ++ rest
unfolding strip_prefix
strip_prefix-found [] s rest h = ground arith
strip_prefix-found (p ∷ pat) [] rest h = absurd (cc)
strip_prefix-found (p ∷ pat) (c ∷ s) rest h = ground (arith, strip_prefix-found pat s rest)

-- What `find` returns: the text is what stands before, the pattern and the rest, and the pattern
-- does not stand in what is before.
abbrev Found : Text → Text → Text → Text → Type 0
Found pat s before rest = (s ≡ before ++ (pat ++ rest)) × (split_on pat before ≡ none)

carry :
    (pat s b r before rest : Text)
    → Found pat s b r
    → ◌≡◌ {A = Option (Text × Text)} (some (b, r)) (some (before, rest))
    → Found pat s before rest
carry pat s b r before rest f e = (cc (f.0, e), cc (f.1, e))

not-here :
    (pat b s rest : Text)
    → s ≡ b ++ (pat ++ rest)
    → strip_prefix pat s ≡ none
    → strip_prefix pat b ≡ none
not-here pat b s rest e h = elim (Option-cases (strip_prefix pat b)) [
  | inl n ↦ n
  | inr o ↦
      let q = strip_prefix-append pat b o.0 (pat ++ rest) o.1 in
      let t : strip_prefix pat s ≡ some (o.0 ++ (pat ++ rest)) = rw e q in absurd (cc)
]

split_on-Found :
    (p : ℕ) (ps s before rest : Text)
    → split_on (p ∷ ps) s ≡ some (before, rest)
    → Found (p ∷ ps) s before rest
unfolding split_on strip_prefix
split_on-Found p ps [] before rest h = absurd (cc)
split_on-Found p ps (c ∷ s) before rest h = elim (Option-cases (strip_prefix (p ∷ ps) (c ∷ s))) [
  | inl n ↦ elim (Option-cases (split_on (p ∷ ps) s)) [
    | inl m ↦ ground arith
    | inr o ↦
        let f = split_on-Found p ps s o.0.0 o.0.1 o.1 in
        let e : c ∷ s ≡ (c ∷ o.0.0) ++ ((p ∷ ps) ++ o.0.1) = ap (λ t. c ∷ t) f.0 in
        let g = not-here (p ∷ ps) (c ∷ o.0.0) (c ∷ s) o.0.1 e n in
        carry (p ∷ ps) (c ∷ s) (c ∷ o.0.0) o.0.1 before rest (e, ground (arith, f.1, g))
          (ground arith)
  ]
  | inr o ↦
      carry (p ∷ ps) (c ∷ s) [] o.0 before rest (strip_prefix-found (p ∷ ps) (c ∷ s) o.0 o.1, refl)
        (ground arith)
]

-- The text is some parts with `from` between them, none of which holds `from`, and what replaces
-- it is these parts with `to` between them.
pub record IsReplaced (s from to r : Text) : Type 0 where
  pub part : Text
  pub parts : List Text
  pub split : s ≡ join from part parts
  pub free : All (λ t. split_on from t ≡ none) (part ∷ parts)
  pub joined : r ≡ join to part parts

more-IsReplaced :
    (p : ℕ) (ps s before rest to r : Text)
    → Found (p ∷ ps) s before rest
    → IsReplaced rest (p ∷ ps) to r
    → IsReplaced s (p ∷ ps) to (before ++ (to ++ r))
unfolding join
more-IsReplaced p ps s before rest to r f i = record {
  part = before;
  parts = i.part ∷ i.parts;
  split = f.0 ∙ ap (λ t. before ++ ((p ∷ ps) ++ t)) i.split;
  free = (f.1, i.free);
  joined = ap (λ t. before ++ (to ++ t)) i.joined;
}

last-IsReplaced : (from to s : Text) → split_on from s ≡ none → IsReplaced s from to s
unfolding join
last-IsReplaced from to s h = record {
  part = s;
  parts = [];
  split = refl;
  free = (h, tt);
  joined = refl;
}

replace_from-IsReplaced :
    (fuel : ℕ) (p : ℕ) (ps s to : Text)
    → length s ≤ fuel
    → IsReplaced s (p ∷ ps) to (replace_from fuel s (p ∷ ps) to)
unfolding replace_from split_on strip_prefix
replace_from-IsReplaced zero p ps [] to l = last-IsReplaced (p ∷ ps) to [] refl
replace_from-IsReplaced zero p ps (c ∷ s) to l = absurd (omega arith)
replace_from-IsReplaced (suc fuel) p ps s to l = elim (Option-cases (split_on (p ∷ ps) s)) [
  | inl n ↦ rw (n, replace_from) (last-IsReplaced (p ∷ ps) to s n)
  | inr o ↦
      let f = split_on-Found p ps s o.0.0 o.0.1 o.1 in
      let k : length o.0.1 ≤ fuel = omega (
        arith,
        l,
        ap length f.0,
        length-append o.0.0 ((p ∷ ps) ++ o.0.1),
        length-append (p ∷ ps) o.0.1,
      ) in
      rw (o.1, replace_from)
        (more-IsReplaced p ps s o.0.0 o.0.1 to (replace_from fuel o.0.1 (p ∷ ps) to) f
          (replace_from-IsReplaced fuel p ps o.0.1 to k))
]

-- `replace_all` puts `to` for every occurrence of a text that is not empty: the text is some parts
-- with `from` between them, no part holds `from`, and the result is the same parts with `to`
-- between them.
pub replace_all-IsReplaced :
    (s from to : Text) → is_empty from ≡ false → IsReplaced s from to (replace_all s from to)
unfolding replace_all
replace_all-IsReplaced s [] to h = absurd (cc)
replace_all-IsReplaced s (p ∷ ps) to h = replace_from-IsReplaced (length s) p ps s to (omega arith)
