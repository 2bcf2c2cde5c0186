-- ===== src/Selection/Labels.antt =====
-- The edges that a preferred label selects.
use attractor.Prelude.{
  ◌≡◌, ◌≢◌, refl, sym, subst, true, false, some, [], ◌∷◌, Text, ◌==◌, ==_iff, ==_refl, In,
  select-In, Option-cases, inl, inr, arith, is_empty, not, ◌&&◌,
}
use attractor.Json.{Json}
use attractor.Graph.{Node, Edge, Graph}
use attractor.Handler.{Outcome}
use attractor.Condition.{normalize_label}
use attractor.Selection.{
  has_label, is_unconditional, select_edge, conditional_candidates, unconditional_candidates,
}
use attractor.Selection.Choice.{IsChosen, by_condition, by_label, by_suggestion, by_weight}
use attractor.Selection.Laws.{select_edge-IsChosen, select_edge-none}

has_label-own : (e : Edge) → e.label ≢ [] → has_label (normalize_label e.label) e ≡ true
unfolding has_label
has_label-own e n = own e.label n
  where
    own : (l : Text) → l ≢ [] → (not (is_empty l) && normalize_label l == normalize_label l) ≡ true
    own [] k = absurd (k refl)
    own (c ∷ l) k = ==_refl (normalize_label (c ∷ l))

has_label-same : (n : Text) (e : Edge) → has_label n e ≡ true → normalize_label e.label ≡ n
unfolding has_label
has_label-same n e h = (==_iff (normalize_label e.label) n).0 (ground arith)

module _ (dump : Json → Text) (node : Node) (o : Outcome) (snapshot : Json) (graph : Graph) where
  unlabelled :
      (e : Edge)
      → In e (unconditional_candidates node graph)
      → e.label ≢ []
      → o.preferred_label ≡ e.label
      → (o.preferred_label ≢ []
          → (d : Edge) → In d (unconditional_candidates node graph)
          → has_label (normalize_label o.preferred_label) d ≡ false)
      → ⊥
  unlabelled e m l p q =
      let no : has_label (normalize_label e.label) e ≡ false =
        subst (λ t. has_label (normalize_label t) e ≡ false) p
          (q (subst (λ t. t ≢ []) (sym p) l) e m) in
      let yes = has_label-own e l in absurd (cc)

  labelled :
      (e f : Edge)
      → In e (unconditional_candidates node graph)
      → e.label ≢ []
      → o.preferred_label ≡ e.label
      → conditional_candidates dump node o snapshot graph ≡ []
      → IsChosen o
          (conditional_candidates dump node o snapshot graph)
          (unconditional_candidates node graph)
          f
      → normalize_label f.label ≡ normalize_label e.label
  labelled e f m l p n (by_condition b) = absurd (subst (In f) n b.member)
  labelled e f m l p n (by_label n' i q r _) =
      subst (λ t. normalize_label f.label ≡ normalize_label t) p
        (has_label-same (normalize_label o.preferred_label) f r)
  labelled e f m l p n (by_suggestion n' i q r _) = absurd (unlabelled e m l p q)
  labelled e f m l p n (by_weight n' b q r) = absurd (unlabelled e m l p q)

  -- Where no condition matches, an outcome that prefers the label of an unconditional edge of the
  -- node is followed along an edge with that label, up to accelerators, blanks and case: this is
  -- how the answer of a human gate chooses the way.
  pub select_edge-labelled :
      (e : Edge)
      → In e graph.edges
      → e.source ≡ node.id
      → e.condition ≡ []
      → e.label ≢ []
      → o.preferred_label ≡ e.label
      → conditional_candidates dump node o snapshot graph ≡ []
      → (f : Edge) × (select_edge dump node o snapshot graph ≡ some f)
        × (normalize_label f.label ≡ normalize_label e.label)
  unfolding is_unconditional
  select_edge-labelled e i s c l p n =
      let m : In e (unconditional_candidates node graph) =
        select-In (is_unconditional node.id) graph.edges e i
          (rw (c, is_unconditional) (ground (arith, (==_iff e.source node.id).1 s))) in
      elim (Option-cases (select_edge dump node o snapshot graph)) [
        | inl q ↦ absurd (
            (select_edge-none dump node o snapshot graph).0 q e
              (record { member = i; leaves = s; passes = inl c }))
        | inr w ↦ (
          w.0,
          w.1,
          labelled e w.0 m l p n (select_edge-IsChosen dump node o snapshot graph w.0 w.1),
        )
      ]
