-- ===== src/Validator/Stylesheet.antt =====
-- The stylesheet parser of src/validator.cpp ends.
use attractor.Prelude.{
  ℕ, zero, suc, ◌≤◌, ◌<◌, ◌≡◌, refl, Bool, true, false, some, [], ◌∷◌, Text, length, is_empty,
  drop_while, Bool-cases, Option-cases, inl, inr, arith, if◌then◌else◌, nat_eq, take_while, expect,
  drop_while-le, skip_semicolon-le, expect-lt,
}
use attractor.Validator.Syntax.{
  skip_ws, is_space, is_key_byte, is_value_byte, is_ident, declared_value, declaration, Parsed,
  rejected, parsed, block, style_rule, style_rules, parse_stylesheet_syntax,
}

skip_ws-le : (s : Text) → length (skip_ws s) ≤ length s
unfolding skip_ws
skip_ws-le s = drop_while-le is_space s

declared_value-le : (s r : Text) → declared_value s ≡ some r → length r ≤ length s
unfolding declared_value
declared_value-le s r h =
    ground (arith, skip_semicolon-le (drop_while is_value_byte s), drop_while-le is_value_byte s)

declaration-lt : (s r : Text) → declaration s ≡ some r → length r < length s
unfolding declaration
declaration-lt s r h = elim (Bool-cases (is_empty (take_while is_key_byte s))) [
  | inl e ↦ ground arith
  | inr e ↦ elim (Option-cases (expect b':' (skip_ws (drop_while is_key_byte s)))) [
    | inl n ↦ ground arith
    | inr o ↦
        let v : declared_value (skip_ws o.0) ≡ some r = ground arith in
        omega (
          arith,
          declared_value-le (skip_ws o.0) r v,
          skip_ws-le o.0,
          expect-lt b':' (skip_ws (drop_while is_key_byte s)) o.0 o.1,
          skip_ws-le (drop_while is_key_byte s),
          drop_while-le is_key_byte s,
        )
  ]
]

-- A loop on the text `s` has ended: it rejects, or has consumed some of it.
pub data IsShorter (s : Text) : Parsed → Type 0 where
  is_rejected : IsShorter s rejected
  is_parsed : (r : Text) → length r < length s → IsShorter s (parsed r)

block-ends :
    (fuel : ℕ) (s : Text) (has_decl : Bool)
    → length s ≤ fuel
    → (r : Parsed) × (block fuel s has_decl ≡ some r) × IsShorter s r
unfolding block
block-ends fuel [] has_decl h = (rejected, refl, is_rejected)
block-ends zero (c ∷ s) has_decl h = absurd (omega arith)
block-ends (suc fuel) (c ∷ s) has_decl h = elim (Bool-cases (nat_eq c b'}')) [
  | inl e ↦ rw (e, block) (closed has_decl)
  | inr e ↦ elim (Option-cases (declaration (c ∷ s))) [
    | inl n ↦ rw (e, n, block) (rejected, refl, is_rejected)
    | inr d ↦
        let l = declaration-lt (c ∷ s) d.0 d.1 in
        let b = block-ends fuel (skip_ws d.0) true (omega (arith, l, skip_ws-le d.0)) in
        rw (e, d.1, block) (b.0, b.1, longer (omega (arith, l, skip_ws-le d.0)) b.2)
  ]
]
  where
    closed :
        (b : Bool)
        → (r : Parsed) × (some (if b then parsed s else rejected) ≡ some r) × IsShorter (c ∷ s) r
    closed true = (parsed s, refl, is_parsed s (omega arith))
    closed false = (rejected, refl, is_rejected)

    longer :
        {t : Text} {r : Parsed} → length t ≤ length (c ∷ s) → IsShorter t r → IsShorter (c ∷ s) r
    longer l is_rejected = is_rejected
    longer l (is_parsed r k) = is_parsed r (omega (arith, l, k))

style_rule-ends :
    (fuel : ℕ) (s : Text)
    → length s ≤ suc fuel
    → (r : Parsed) × (style_rule fuel s ≡ some r) × IsShorter s r
unfolding style_rule
style_rule-ends fuel s h = elim (Bool-cases (is_empty (take_while is_ident s))) [
  | inl e ↦ rw (e, style_rule) (rejected, refl, is_rejected)
  | inr e ↦ elim (Option-cases (expect b'{' (skip_ws (drop_while is_ident s)))) [
    | inl n ↦ rw (e, n, style_rule) (rejected, refl, is_rejected)
    | inr o ↦
        let l : length (skip_ws o.0) < length s = omega (
          arith,
          expect-lt b'{' (skip_ws (drop_while is_ident s)) o.0 o.1,
          skip_ws-le (drop_while is_ident s),
          drop_while-le is_ident s,
          skip_ws-le o.0,
        ) in
        let b = block-ends fuel (skip_ws o.0) false (omega (arith, l, h)) in
        rw (e, o.1, style_rule) (b.0, b.1, shorter l b.2)
  ]
]
  where
    shorter : {t : Text} {r : Parsed} → length t < length s → IsShorter t r → IsShorter s r
    shorter l is_rejected = is_rejected
    shorter l (is_parsed r k) = is_parsed r (omega (arith, l, k))

style_rules-ends :
    (fuel : ℕ) (s : Text) → length s ≤ fuel → (b : Bool) × (style_rules fuel s ≡ some b)
unfolding style_rules
style_rules-ends fuel [] h = (true, refl)
style_rules-ends zero (c ∷ s) h = absurd (omega arith)
style_rules-ends (suc fuel) (c ∷ s) h =
    let r = style_rule-ends fuel (c ∷ s) h in
    rw (style_rules, r.1) (next (λ t. style_rules-ends fuel t) r.0 r.2)
  where
    next :
        ((t : Text) → length t ≤ fuel → (b : Bool) × (style_rules fuel t ≡ some b))
        → (p : Parsed) → IsShorter (c ∷ s) p
        → (b : Bool) × (elim p [
          | rejected ↦ some false
          | parsed rest ↦ style_rules fuel (skip_ws rest)
        ]
            ≡ some b)
    next k rejected i = (false, refl)
    next k (parsed rest) (is_parsed _ l) = k (skip_ws rest) (omega (arith, h, l, skip_ws-le rest))

-- The stylesheet parser returns on every text: the fuel is enough.
pub parse_stylesheet-ends : (s : Text) → (b : Bool) × (parse_stylesheet_syntax s ≡ some b)
unfolding parse_stylesheet_syntax
parse_stylesheet-ends s = style_rules-ends (length s) (skip_ws s) (skip_ws-le s)
