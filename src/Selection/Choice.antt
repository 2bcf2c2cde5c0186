-- ===== src/Selection/Choice.antt =====
-- The edge that `select_edge` returns, described with no reference to how it is searched for.
use attractor.Prelude.{
  Bool, true, false, ◌≡◌, ◌≢◌, refl, sym, ap, subst, Bool-cases, All, ◌++◌, arith, some, none, List,
  [], ◌∷◌, Text, Option-cases, inl, inr, ◌⊎◌, ◌≤◌, text_lt, In, find, find-In, find-none,
  first-sort-In, first-sort-some, first-sort-least, ==_iff,
}
use attractor.Types.{NodeId}
use attractor.Graph.{Edge}
use attractor.Handler.{Outcome}
use attractor.Condition.{normalize_label}
use attractor.Selection.{
  edge_before, best_by_weight_then_lexical, has_label, preferred_edge, leads_to, suggested_edge,
  choose_unconditional, choose_edge,
}
use attractor.Selection.Order.{edge_before-IsStrictWeak, edge_before-heaviest, edge_before-lowest}

-- `e` is an edge of the list with the largest weight, and no edge of that weight has a target that
-- comes before its own.
pub record IsBest (es : List Edge) (e : Edge) : Type 0 where
  pub member : In e es
  pub heaviest : (d : Edge) → In d es → d.weight ≤ e.weight
  pub lowest : (d : Edge) → In d es → d.weight ≡ e.weight → text_lt d.to e.to ≡ false

pub IsBest-IsBest :
    (es : List Edge) (e : Edge) → best_by_weight_then_lexical es ≡ some e → IsBest es e
unfolding best_by_weight_then_lexical
IsBest-IsBest es e h =
    let least = first-sort-least edge_before edge_before-IsStrictWeak es e h in
    record {
      member = first-sort-In edge_before es e h;
      heaviest = λ d i. edge_before-heaviest d e (least d i);
      lowest = λ d i q. edge_before-lowest d e (least d i) q;
    }

-- `nid` is the first of the suggested ids that some edge of the list leads to.
abbrev pub IsFirstSuggested : List Edge → NodeId → List NodeId → Type 0
IsFirstSuggested es nid [] = ⊥
IsFirstSuggested es nid (m ∷ ids) =
    ((nid ≡ m) × ((e : Edge) × In e es × (e.to ≡ nid)))
    ⊎ (((e : Edge) → In e es → e.to ≢ m) × IsFirstSuggested es nid ids)

-- `e` passes the test, and no edge that stands before it in the list does.
pub record IsFirst (p : Edge → Bool) (es : List Edge) (e : Edge) : Type 0 where
  pub before : List Edge
  pub behind : List Edge
  pub split : es ≡ before ++ (e ∷ behind)
  pub passes : p e ≡ true
  pub others : All (λ d. p d ≡ false) before

find-IsFirst : (p : Edge → Bool) (es : List Edge) (e : Edge) → find p es ≡ some e → IsFirst p es e
unfolding find
find-IsFirst p [] e h = absurd (cc)
find-IsFirst p (d ∷ es) e h = elim (Bool-cases (p d)) [
  | inl q ↦
      let w : d ≡ e = ground arith in
      record {
        before = [];
        behind = es;
        split = ap (λ x. x ∷ es) w;
        passes = subst (λ x. p x ≡ true) w q;
        others = tt;
      }
  | inr q ↦
      let r = find-IsFirst p es e (rw q at h) in
      record {
        before = d ∷ r.before;
        behind = r.behind;
        split = ap (λ xs. d ∷ xs) r.split;
        passes = r.passes;
        others = (q, r.others);
      }
]

-- The steps of the selection, each with what it passed over. `cs` are the edges whose condition
-- matched and `us` those with no condition.
pub data IsChosen (o : Outcome) (cs us : List Edge) (e : Edge) : Type 0 where
  by_condition : IsBest cs e → IsChosen o cs us e
  by_label :
      cs ≡ []
      → In e us
      → o.preferred_label ≢ []
      → has_label (normalize_label o.preferred_label) e ≡ true
      → IsFirst (has_label (normalize_label o.preferred_label)) us e
      → IsChosen o cs us e
  by_suggestion :
      cs ≡ []
      → In e us
      → (o.preferred_label ≢ []
          → (d : Edge) → In d us
          → has_label (normalize_label o.preferred_label) d ≡ false)
      → IsFirstSuggested us e.to o.suggested_next_ids
      → IsFirst (leads_to e.to) us e
      → IsChosen o cs us e
  by_weight :
      cs ≡ []
      → IsBest us e
      → (o.preferred_label ≢ []
          → (d : Edge) → In d us
          → has_label (normalize_label o.preferred_label) d ≡ false)
      → ((nid : NodeId) → In nid o.suggested_next_ids → (d : Edge) → In d us → d.to ≢ nid)
      → IsChosen o cs us e

leads_to-true : (nid : NodeId) (e : Edge) → leads_to nid e ≡ true → e.to ≡ nid
unfolding leads_to
leads_to-true nid e h = (==_iff e.to nid).0 h

leads_to-false : (nid : NodeId) (e : Edge) → leads_to nid e ≡ false → e.to ≢ nid
unfolding leads_to
leads_to-false nid e h q = cc ((==_iff e.to nid).1 q)

preferred-some :
    (p : Text) (us : List Edge) (e : Edge)
    → preferred_edge p us ≡ some e
    → (p ≢ [])
      × In e us
      × (has_label (normalize_label p) e ≡ true)
      × IsFirst (has_label (normalize_label p)) us e
unfolding preferred_edge
preferred-some [] us e h = absurd (cc)
preferred-some (c ∷ p) us e h =
    let test = has_label (normalize_label (c ∷ p)) in
    let r = find-In test us e h in ((λ q. cc), r.0, r.1, find-IsFirst test us e h)

preferred-none :
    (p : Text) (us : List Edge)
    → preferred_edge p us ≡ none
    → p ≢ []
    → (d : Edge) → In d us
    → has_label (normalize_label p) d ≡ false
unfolding preferred_edge
preferred-none [] us h n d m = absurd (n refl)
preferred-none (c ∷ p) us h n d m = find-none (has_label (normalize_label (c ∷ p))) us h d m

suggested-some :
    (ids : List NodeId) (us : List Edge) (e : Edge)
    → suggested_edge ids us ≡ some e
    → In e us × IsFirstSuggested us e.to ids × IsFirst (leads_to e.to) us e
unfolding suggested_edge
suggested-some [] us e h = absurd (cc)
suggested-some (nid ∷ ids) us e h = elim (Option-cases (find (leads_to nid) us)) [
  | inl q ↦
      let r = suggested-some ids us e (ground arith) in
      (r.0, inr (λ d m. leads_to-false nid d (find-none (leads_to nid) us q d m), r.1), r.2)
  | inr (d, q) ↦
      let p : find (leads_to nid) us ≡ some e = ground arith in
      let r = find-In (leads_to nid) us e p in
      let t = leads_to-true nid e r.1 in
      (
        r.0,
        inl (t, (e, r.0, refl)),
        subst (λ n. IsFirst (leads_to n) us e) (sym t) (find-IsFirst (leads_to nid) us e p),
      )
]

suggested-none :
    (ids : List NodeId) (us : List Edge)
    → suggested_edge ids us ≡ none
    → (nid : NodeId) → In nid ids
    → (d : Edge) → In d us
    → d.to ≢ nid
unfolding suggested_edge
suggested-none [] us h nid i d m = elim i [ ]
suggested-none (n ∷ ids) us h nid (inl i) d m =
    let q : find (leads_to n) us ≡ none = ground arith in
    λ p. leads_to-false n d (find-none (leads_to n) us q d m) (cc)
suggested-none (n ∷ ids) us h nid (inr i) d m = suggested-none ids us (ground arith) nid i d m

unconditional-IsChosen :
    (o : Outcome) (us : List Edge) (e : Edge)
    → choose_unconditional o us ≡ some e
    → IsChosen o [] us e
unfolding choose_unconditional
unconditional-IsChosen o [] e h = absurd (cc)
unconditional-IsChosen o (u ∷ us) e h =
    elim (Option-cases (preferred_edge o.preferred_label (u ∷ us))) [
      | inr (d, p) ↦
          let r = preferred-some o.preferred_label (u ∷ us) e (ground arith) in
          by_label refl r.1 r.0 r.2 r.3
      | inl p ↦ elim (Option-cases (suggested_edge o.suggested_next_ids (u ∷ us))) [
        | inr (d, q) ↦
            let r = suggested-some o.suggested_next_ids (u ∷ us) e (ground arith) in
            by_suggestion refl r.0 (preferred-none o.preferred_label (u ∷ us) p) r.1 r.2
        | inl q ↦
            by_weight refl (IsBest-IsBest (u ∷ us) e (ground arith))
              (preferred-none o.preferred_label (u ∷ us) p)
              (suggested-none o.suggested_next_ids (u ∷ us) q)
      ]
    ]

pub choose-IsChosen :
    (o : Outcome) (cs us : List Edge) (e : Edge) → choose_edge o cs us ≡ some e → IsChosen o cs us e
unfolding choose_edge
choose-IsChosen o [] us e h = unconditional-IsChosen o us e h
choose-IsChosen o (c ∷ cs) us e h = by_condition (IsBest-IsBest (c ∷ cs) e h)

best-ne-none : (e : Edge) (es : List Edge) → best_by_weight_then_lexical (e ∷ es) ≢ none
unfolding best_by_weight_then_lexical
best-ne-none e es h = let r = first-sort-some edge_before e es in cc (r.1)

-- An edge is chosen whenever there is a candidate.
pub choose-none :
    (o : Outcome) (cs us : List Edge) → choose_edge o cs us ≡ none → (cs ≡ []) × (us ≡ [])
unfolding choose_edge choose_unconditional
choose-none o [] [] h = (refl, refl)
choose-none o [] (u ∷ us) h = elim (Option-cases (preferred_edge o.preferred_label (u ∷ us))) [
  | inr (d, p) ↦ absurd (ground arith)
  | inl p ↦ elim (Option-cases (suggested_edge o.suggested_next_ids (u ∷ us))) [
    | inr (d, q) ↦ absurd (ground arith)
    | inl q ↦ absurd (best-ne-none u us (ground arith))
  ]
]
choose-none o (c ∷ cs) us h = absurd (best-ne-none c cs h)
