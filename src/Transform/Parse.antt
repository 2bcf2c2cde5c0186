-- ===== src/Transform/Parse.antt =====
-- The stylesheet parser of src/transform.cpp ends.
use attractor.Prelude.{
  ℕ, zero, suc, ◌≤◌, ◌<◌, ◌≡◌, refl, Option, none, some, List, [], ◌∷◌, Text, text, ◌==◌, All,
  length, is_empty, drop_while, Bool-cases, Option-cases, inl, inr, arith, take_while, expect,
  drop_while-le, skip_semicolon-le, expect-lt,
}
use attractor.Transform.Style.{
  SelectorType, universal, shape, css_class, id, StyleRule, is_whitespace, is_selector_char,
  is_key_char, is_val_char, skip_ws, rtrim, named_selector, parse_selector, set_property, Round,
  stop, go_on, assign, declaration, declarations, skip_brace, style_rule, style_rules,
  parse_stylesheet,
}

-- The specificity that the comment of the transform ranks the rules by.
unfoldable pub rank : SelectorType → ℕ
rank universal = 0
rank shape = 1
rank css_class = 2
rank id = 3

-- A rule has the specificity of its selector.
unfoldable pub IsRanked : StyleRule → Type 0
IsRanked r = r.specificity ≡ rank r.selector

named_selector-IsRanked : (sel : Text) → IsRanked (named_selector sel)
unfolding named_selector IsRanked rank
named_selector-IsRanked [] = refl
named_selector-IsRanked (c ∷ sel) = ground arith

parse_selector-IsRanked : (sel : Text) → IsRanked (parse_selector sel)
unfolding parse_selector IsRanked rank
parse_selector-IsRanked sel = elim (Bool-cases (sel == text "*")) [
  | inl e ↦ rw (e, parse_selector) refl
  | inr e ↦ rw (e, parse_selector) (named_selector-IsRanked sel)
]

set_property-IsRanked :
    (key val : Text) (r : StyleRule) → IsRanked r → IsRanked (set_property key val r)
unfolding set_property IsRanked
set_property-IsRanked key val r h = ground arith

skip_ws-le : (s : Text) → length (skip_ws s) ≤ length s
unfolding skip_ws
skip_ws-le s = drop_while-le is_whitespace s

-- A round on the text `s` with a ranked rule leaves a ranked rule and, if the loop goes on, less
-- text.
abbrev RoundOf : Text → Round → Type 0
RoundOf s (stop rest) = length rest ≤ length s
RoundOf s (go_on rule rest) = (length rest < length s) × IsRanked rule

assign-RoundOf :
    (key s t : Text) (r : StyleRule) → length t < length s → IsRanked r → RoundOf s (assign key r t)
unfolding assign
assign-RoundOf key s t r l h = (
  omega (arith, l, skip_semicolon-le (drop_while is_val_char t), drop_while-le is_val_char t),
  set_property-IsRanked key (rtrim (take_while is_val_char t)) r h,
)

declaration-RoundOf : (r : StyleRule) (s : Text) → IsRanked r → RoundOf s (declaration r s)
unfolding declaration
declaration-RoundOf r s h = elim (Bool-cases (is_empty (take_while is_key_char s))) [
  | inl e ↦ rw (e, declaration) (omega arith)
  | inr e ↦ elim (Option-cases (expect b':' (skip_ws (drop_while is_key_char s)))) [
    | inl n ↦
        rw (e, n, declaration)
          (omega (arith, skip_ws-le (drop_while is_key_char s), drop_while-le is_key_char s))
    | inr o ↦
        rw (e, o.1, declaration)
          (assign-RoundOf (take_while is_key_char s) s (skip_ws o.0) r
            (omega (
              arith,
              expect-lt b':' (skip_ws (drop_while is_key_char s)) o.0 o.1,
              skip_ws-le (drop_while is_key_char s),
              drop_while-le is_key_char s,
              skip_ws-le o.0,
            ))
            h)
  ]
]

-- The inner loop on the text `s` returns a ranked rule and no more text.
abbrev Declared : Text → Option (StyleRule × Text) → Type 0
Declared s o = (r : StyleRule) × (t : Text) × (o ≡ some (r, t)) × IsRanked r × (length t ≤ length s)

declarations-Declared :
    (fuel : ℕ) (r : StyleRule) (s : Text)
    → length s < fuel
    → IsRanked r
    → Declared s (declarations fuel r s)
unfolding declarations
declarations-Declared zero r s l h = absurd (omega arith)
declarations-Declared (suc fuel) r s l h =
    next (λ q t. declarations-Declared fuel q t) (declaration r (skip_ws s))
      (declaration-RoundOf r (skip_ws s) h)
  where
    next :
        ((q : StyleRule) (t : Text)
          → length t < fuel
          → IsRanked q
          → Declared t (declarations fuel q t))
        → (d : Round) → RoundOf (skip_ws s) d
        → Declared s
            (elim d [ stop rest ↦ some (r, rest) | go_on q rest ↦ declarations fuel q rest ])
    next k (stop rest) i = (r, rest, refl, h, omega (arith, i, skip_ws-le s))
    next k (go_on q rest) i =
        let d = k q rest (omega (arith, i.0, skip_ws-le s, l)) i.1 in
        (d.0, d.1, d.2, d.3, omega (arith, d.4, i.0, skip_ws-le s))

skip_brace-le : (s : Text) → length (skip_brace s) ≤ length s
unfolding skip_brace
skip_brace-le [] = omega arith
skip_brace-le (c ∷ s) = ground arith

-- A round of the outer loop ends it, or returns a ranked rule and less text.
abbrev RuleOf : Text → Option (Option (StyleRule × Text)) → Type 0
RuleOf s none = ⊥
RuleOf s (some none) = Unit
RuleOf s (some (some (r, t))) = IsRanked r × (length t < length s)

style_rule-RuleOf : (fuel : ℕ) (s : Text) → length s ≤ fuel → RuleOf s (style_rule fuel s)
unfolding style_rule
style_rule-RuleOf fuel s l = elim (Bool-cases (is_empty (take_while is_selector_char s))) [
  | inl e ↦ rw (e, style_rule) tt
  | inr e ↦ elim (Option-cases (expect b'{' (skip_ws (drop_while is_selector_char s)))) [
    | inl n ↦ rw (e, n, style_rule) tt
    | inr o ↦
        let k : length o.0 < length s = omega (
          arith,
          expect-lt b'{' (skip_ws (drop_while is_selector_char s)) o.0 o.1,
          skip_ws-le (drop_while is_selector_char s),
          drop_while-le is_selector_char s,
        ) in
        let sel = parse_selector (take_while is_selector_char s) in
        let d =
          declarations-Declared fuel sel o.0 (omega (arith, k, l))
            (parse_selector-IsRanked (take_while is_selector_char s)) in
        rw (e, o.1, d.2, style_rule) (d.3, omega (arith, d.4, k, skip_brace-le d.1))
  ]
]

style_rules-ends :
    (fuel : ℕ) (s : Text)
    → length s < fuel
    → (rules : List StyleRule) × (style_rules fuel s ≡ some rules) × All IsRanked rules
unfolding style_rules
style_rules-ends zero s l = absurd (omega arith)
style_rules-ends (suc fuel) s l =
    next (λ t. style_rules-ends fuel t) (style_rule (suc fuel) (skip_ws s))
      (style_rule-RuleOf (suc fuel) (skip_ws s) (omega (arith, l, skip_ws-le s)))
  where
    next :
        ((t : Text)
          → length t < fuel
          → (rules : List StyleRule) × (style_rules fuel t ≡ some rules) × All IsRanked rules)
        → (o : Option (Option (StyleRule × Text))) → RuleOf (skip_ws s) o
        → (rules : List StyleRule) × (elim o [
          | none ↦ none
          | some none ↦ some []
          | some (some (rule, rest)) ↦ elim (style_rules fuel rest) [
            | none ↦ none
            | some more ↦ some (rule ∷ more)
          ]
        ]
            ≡ some rules)
          × All IsRanked rules
    next k none i = elim i [ ]
    next k (some none) i = ([], refl, tt)
    next k (some (some (r, t))) i =
        let m = k t (omega (arith, i.1, skip_ws-le s, l)) in (r ∷ m.0, rw m.1 refl, (i.0, m.2))

-- `parse_stylesheet` returns on every text, and every rule that it returns has the specificity of
-- its selector: 0 for "*", 1 for a shape, 2 for a class, 3 for an id.
pub parse_stylesheet-IsRanked :
    (ssid : Text)
    → (rules : List StyleRule) × (parse_stylesheet ssid ≡ some rules) × All IsRanked rules
unfolding parse_stylesheet
parse_stylesheet-IsRanked ssid = style_rules-ends (suc (length ssid)) ssid (omega arith)
