-- ===== src/Selection/Laws.antt =====
-- What `select_edge` promises of the edge that it returns.
use attractor.Prelude.{
  Bool, true, false, ◌≡◌, ◌≢◌, ◌↔◌, refl, arith, some, none, List, [], ◌∷◌, Text, inl, inr, ◌⊎◌, In,
  select, In-select, select-In, is_empty, ==_iff, Bool-cases, Option-cases,
}
use attractor.Json.{Json}
use attractor.Graph.{Node, Edge, Graph}
use attractor.Handler.{Outcome}
use attractor.Condition.{eval_condition}
use attractor.Selection.{
  choose_edge, is_unconditional, is_conditional_match, conditional_candidates,
  unconditional_candidates, select_edge,
}
use attractor.Selection.Choice.{
  IsChosen, by_condition, by_label, by_suggestion, by_weight, choose-IsChosen, choose-none,
}
use attractor.Selection.Stable.{IsChosen-target, Within}

moved : (p : Edge → Bool) (es fs : List Edge) → Within es fs → Within (select p es) (select p fs)
moved p es fs into d m = let r = In-select p es d m in select-In p fs d (into d r.0) r.1

module _ (dump : Json → Text) (node : Node) (o : Outcome) (snapshot : Json) where
  -- The edge that `select_edge` returns is the one that the five steps describe: the best of the
  -- edges whose condition matched (largest weight, then smallest target); if there is none, the
  -- first unconditional edge with the preferred label; if no such edge has it, the first one to
  -- the first suggested id that any leads to; and otherwise the best of the unconditional edges.
  pub select_edge-IsChosen :
      (graph : Graph) (e : Edge)
      → select_edge dump node o snapshot graph ≡ some e
      → IsChosen o
          (conditional_candidates dump node o snapshot graph)
          (unconditional_candidates node graph)
          e
  unfolding select_edge
  select_edge-IsChosen graph e h =
      choose-IsChosen o (conditional_candidates dump node o snapshot graph)
        (unconditional_candidates node graph) e h

  -- An edge that the node may follow.
  pub record IsEligible (graph : Graph) (e : Edge) : Type 0 where
    pub member : In e graph.edges
    pub leaves : e.source ≡ node.id
    pub passes : (e.condition ≡ []) ⊎ (eval_condition dump e.condition o snapshot ≡ true)

  conditional-IsEligible :
      (graph : Graph) (e : Edge)
      → In e (conditional_candidates dump node o snapshot graph)
      → IsEligible graph e
  unfolding is_conditional_match
  conditional-IsEligible graph e m =
      let r = In-select (is_conditional_match dump node.id o snapshot) graph.edges e m in
      record {
        member = r.0;
        leaves = (==_iff e.source node.id).0 (ground arith);
        passes = inr (ground arith);
      }

  is_empty-nil : (s : Text) → is_empty s ≡ true → s ≡ []
  is_empty-nil [] h = refl
  is_empty-nil (c ∷ s) h = absurd (cc)

  unconditional-IsEligible :
      (graph : Graph) (e : Edge) → In e (unconditional_candidates node graph) → IsEligible graph e
  unfolding is_unconditional
  unconditional-IsEligible graph e m =
      let r = In-select (is_unconditional node.id) graph.edges e m in
      record {
        member = r.0;
        leaves = (==_iff e.source node.id).0 (ground arith);
        passes = inl (is_empty-nil e.condition (ground arith));
      }

  IsChosen-IsEligible :
      (graph : Graph) (e : Edge)
      → IsChosen o
          (conditional_candidates dump node o snapshot graph)
          (unconditional_candidates node graph)
          e
      → IsEligible graph e
  IsChosen-IsEligible graph e (by_condition b) = conditional-IsEligible graph e b.member
  IsChosen-IsEligible graph e (by_label n m q r _) = unconditional-IsEligible graph e m
  IsChosen-IsEligible graph e (by_suggestion n m q r _) = unconditional-IsEligible graph e m
  IsChosen-IsEligible graph e (by_weight n b q r) = unconditional-IsEligible graph e b.member

  -- `select_edge` returns only an edge of the graph that leaves the node and whose condition is
  -- empty or holds.
  pub select_edge-IsEligible :
      (graph : Graph) (e : Edge)
      → select_edge dump node o snapshot graph ≡ some e
      → IsEligible graph e
  select_edge-IsEligible graph e h = IsChosen-IsEligible graph e (select_edge-IsChosen graph e h)

  nil-ne : (s : Text) → is_empty s ≡ false → s ≢ []
  nil-ne [] h p = absurd (cc)
  nil-ne (c ∷ s) h p = cc

  eligible-In :
      (graph : Graph) (e : Edge)
      → IsEligible graph e
      → In e (conditional_candidates dump node o snapshot graph)
        ⊎ In e (unconditional_candidates node graph)
  unfolding is_conditional_match is_unconditional
  eligible-In graph e h = elim (Bool-cases (is_empty e.condition)) [
    | inl q ↦ inr (
        select-In (is_unconditional node.id) graph.edges e h.member
          (ground (arith, (==_iff e.source node.id).1 h.leaves)))
    | inr q ↦ inl (
        select-In (is_conditional_match dump node.id o snapshot) graph.edges e h.member
          (ground (arith, (==_iff e.source node.id).1 h.leaves, passed q h.passes)))
  ]
    where
      passed :
          is_empty e.condition ≡ false
          → (e.condition ≡ []) ⊎ (eval_condition dump e.condition o snapshot ≡ true)
          → eval_condition dump e.condition o snapshot ≡ true
      passed q (inl p) = absurd (nil-ne e.condition q p)
      passed q (inr p) = p

  -- `select_edge` returns no edge exactly when the graph has none that the node may follow.
  pub select_edge-none :
      (graph : Graph)
      → (select_edge dump node o snapshot graph ≡ none) ↔ ((e : Edge) → ¬ IsEligible graph e)
  unfolding select_edge
  select_edge-none graph = (
    (λ h e m.
        let r = choose-none o cs us h in
        elim (eligible-In graph e m) [
          | inl i ↦ no_member cs e r.0 i
          | inr i ↦ no_member us e r.1 i
        ]),
    λ h. elim (Option-cases (choose_edge o cs us)) [
      | inl q ↦ q
      | inr (e, q) ↦ absurd (h e (select_edge-IsEligible graph e q))
    ],
  )
    where
      cs : List Edge
      cs = conditional_candidates dump node o snapshot graph

      us : List Edge
      us = unconditional_candidates node graph

      no_member : (es : List Edge) (e : Edge) → es ≡ [] → In e es → ⊥
      no_member [] e p i = i
      no_member (d ∷ es) e p i = cc

  -- With no preferred label, the target does not depend on the order of the graph's edges.
  pub select_edge-order :
      (g h : Graph) (e f : Edge)
      → Within g.edges h.edges
      → Within h.edges g.edges
      → o.preferred_label ≡ []
      → select_edge dump node o snapshot g ≡ some e
      → select_edge dump node o snapshot h ≡ some f
      → e.to ≡ f.to
  select_edge-order g h e f into back p q r =
      IsChosen-target o (conditional_candidates dump node o snapshot g)
        (unconditional_candidates node g) (conditional_candidates dump node o snapshot h)
        (unconditional_candidates node h) e f
        (moved (is_conditional_match dump node.id o snapshot) g.edges h.edges into)
        (moved (is_conditional_match dump node.id o snapshot) h.edges g.edges back)
        (moved (is_unconditional node.id) g.edges h.edges into)
        (moved (is_unconditional node.id) h.edges g.edges back) p (select_edge-IsChosen g e q)
        (select_edge-IsChosen h f r)
