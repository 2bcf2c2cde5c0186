-- ===== src/Selection/Order.antt =====
-- The comparator of `best_by_weight_then_lexical` is what std::sort asks for.
use attractor.Prelude.{
  true, false, ◌≡◌, arith, text_lt, text_lt_irrefl, text_lt_trans, text_lt-total, ◌≤◌, IsStrictWeak,
  Bool-cases, inl, inr, Text, subst, sym,
}
use attractor.Graph.{Edge}
use attractor.Selection.{edge_before}

text_lt-asym : (s t : Text) → text_lt s t ≡ true → text_lt t s ≡ false
text_lt-asym s t h = elim (Bool-cases (text_lt t s)) [
  | inl e ↦ cc (text_lt_trans s t s h e, text_lt_irrefl s)
  | inr e ↦ e
]

text_lt-cotrans : (s t u : Text) → text_lt s t ≡ false → text_lt t u ≡ false → text_lt s u ≡ false
text_lt-cotrans s t u h k = elim (Bool-cases (text_lt s u)) [
  | inr e ↦ e
  | inl e ↦ elim (Bool-cases (text_lt t s)) [
    | inl q ↦ cc (text_lt_trans t s u q e)
    | inr q ↦ cc (subst (λ x. text_lt x u ≡ false) (sym (text_lt-total s t h q)) k)
  ]
]

edge_before-asym : (a b : Edge) → edge_before a b ≡ true → edge_before b a ≡ false
unfolding edge_before
edge_before-asym a b h = ground (arith, text_lt-asym a.to b.to)

edge_before-cotrans :
    (a b c : Edge) → edge_before a b ≡ false → edge_before b c ≡ false → edge_before a c ≡ false
unfolding edge_before
edge_before-cotrans a b c h k = ground (arith, text_lt-cotrans a.to b.to c.to)

pub edge_before-IsStrictWeak : IsStrictWeak edge_before
edge_before-IsStrictWeak = record { asym = edge_before-asym; cotrans = edge_before-cotrans }

pub edge_before-heaviest : (d e : Edge) → edge_before d e ≡ false → d.weight ≤ e.weight
unfolding edge_before
edge_before-heaviest d e h = ground arith

pub edge_before-lowest :
    (d e : Edge) → edge_before d e ≡ false → d.weight ≡ e.weight → text_lt d.to e.to ≡ false
unfolding edge_before
edge_before-lowest d e h q = ground arith
