-- ===== src/Transform/Winner.antt =====
-- Which rule of a stylesheet sets a field of a node.
use attractor.Prelude.{
  ℕ, ◌≤◌, ◌<◌, ◌≡◌, Bool, true, false, ◌&&◌, not, some, List, [], ◌∷◌, ◌++◌, Text, All, is_empty,
}
use attractor.Graph.{NodeVariant}
use attractor.Transform.Style.{StyleRule}
use attractor.Transform.Apply.{node_matches_rule, Candidate, reaches, Best}

-- The three fields that a rule can set.
pub data Property : Type 0 where
  model provider effort : Property

unfoldable pub declared : Property → StyleRule → Text
declared model r = r.llm_model
declared provider r = r.llm_provider
declared effort r = r.reasoning_effort

unfoldable winning : Property → Best → Candidate
winning model b = b.model
winning provider b = b.provider
winning effort b = b.effort

-- The rule matches the node and declares the property.
unfoldable pub applies : Property → NodeVariant → StyleRule → Bool
applies p nv r = node_matches_rule nv r && not (is_empty (declared p r))

-- No rule that applies has more than the specificity `n`; none that applies has `n` or more.
unfoldable pub AtMost : Property → NodeVariant → ℕ → StyleRule → Type 0
AtMost p nv n r = applies p nv r ≡ true → r.specificity ≤ n

unfoldable pub Below : Property → NodeVariant → ℕ → StyleRule → Type 0
Below p nv n r = applies p nv r ≡ true → r.specificity < n

-- The value that a stylesheet gives a node: that of the rule that applies with the highest
-- specificity, the last of them, or none where no rule applies.
pub data IsWinner (p : Property) (nv : NodeVariant) (rules : List StyleRule) (v : Text)
    : Type 0 where
  unset : All (λ r. applies p nv r ≡ false) rules → v ≡ [] → IsWinner p nv rules v
  set_by :
      (before after : List StyleRule) (r : StyleRule)
      → rules ≡ before ++ (r ∷ after)
      → applies p nv r ≡ true
      → All (AtMost p nv r.specificity) before
      → All (Below p nv r.specificity) after
      → v ≡ declared p r
      → IsWinner p nv rules v

module _ (p : Property) (nv : NodeVariant) where
  abbrev taken : StyleRule → Candidate
  taken r = record { value = declared p r; spec = some r.specificity }

  -- The rule applies and has not less than the specificity so far.
  abbrev improves : StyleRule → Candidate → Bool
  improves r s = applies p nv r && reaches r.specificity s.spec

  -- What the loop over the rules makes of the candidate `s`: it keeps it, or takes the winner.
  data Result (rules : List StyleRule) (s c : Candidate) : Type 0 where
    kept :
        All (λ r. applies p nv r ≡ true → reaches r.specificity s.spec ≡ false) rules
        → c ≡ s
        → Result rules s c
    changed :
        (before after : List StyleRule) (r : StyleRule)
        → rules ≡ before ++ (r ∷ after)
        → applies p nv r ≡ true
        → reaches r.specificity s.spec ≡ true
        → All (AtMost p nv r.specificity) before
        → All (Below p nv r.specificity) after
        → c ≡ taken r
        → Result rules s c
