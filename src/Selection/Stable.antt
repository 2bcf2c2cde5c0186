-- ===== src/Selection/Stable.antt =====
-- Two lists with the same members, in any order, lead to the same target.
use attractor.Prelude.{text_lt-total, arith, ◌≡◌, sym, ◌∙◌, List, [], ◌∷◌, inl, inr, In}
use attractor.Types.{NodeId}
use attractor.Graph.{Edge}
use attractor.Handler.{Outcome}
use attractor.Selection.Choice.{
  IsBest, IsFirstSuggested, IsChosen, by_condition, by_label, by_suggestion, by_weight,
}

abbrev pub Within : List Edge → List Edge → Type 0
Within es fs = (d : Edge) → In d es → In d fs

IsBest-target :
    (es fs : List Edge) (e f : Edge)
    → Within es fs
    → Within fs es
    → IsBest es e
    → IsBest fs f
    → e.to ≡ f.to
IsBest-target es fs e f into back b c =
    let w : e.weight ≡ f.weight =
      omega (arith, c.heaviest e (into e b.member), b.heaviest f (back f c.member)) in
    text_lt-total e.to f.to (c.lowest e (into e b.member) w) (b.lowest f (back f c.member) (sym w))

not-In-nil : (es fs : List Edge) (e : Edge) → Within es fs → In e es → fs ≡ [] → ⊥
not-In-nil es [] e into m q = into e m
not-In-nil es (f ∷ fs) e into m q = cc

IsFirstSuggested-In :
    (es : List Edge) (nid : NodeId) (ids : List NodeId)
    → IsFirstSuggested es nid ids
    → In nid ids × ((e : Edge) × In e es × (e.to ≡ nid))
IsFirstSuggested-In es nid [] h = elim h [ ]
IsFirstSuggested-In es nid (m ∷ ids) (inl h) = (inl h.0, h.1)
IsFirstSuggested-In es nid (m ∷ ids) (inr h) =
    let r = IsFirstSuggested-In es nid ids h.1 in (inr r.0, r.1)

IsFirstSuggested-unique :
    (es fs : List Edge) (p q : NodeId) (ids : List NodeId)
    → Within es fs
    → Within fs es
    → IsFirstSuggested es p ids
    → IsFirstSuggested fs q ids
    → p ≡ q
IsFirstSuggested-unique es fs p q [] into back h k = elim h [ ]
IsFirstSuggested-unique es fs p q (m ∷ ids) into back (inl h) (inl k) = h.0 ∙ sym k.0
IsFirstSuggested-unique es fs p q (m ∷ ids) into back (inl h) (inr k) =
    let w = h.1 in absurd (k.0 w.0 (into w.0 w.1) (w.2 ∙ h.0))
IsFirstSuggested-unique es fs p q (m ∷ ids) into back (inr h) (inl k) =
    let w = k.1 in absurd (h.0 w.0 (back w.0 w.1) (w.2 ∙ k.0))
IsFirstSuggested-unique es fs p q (m ∷ ids) into back (inr h) (inr k) =
    IsFirstSuggested-unique es fs p q ids into back h.1 k.1

module _ (o : Outcome) (cs us ds vs : List Edge) (e f : Edge) where
  -- With no preferred label the target depends on the members of the lists alone.
  pub IsChosen-target :
      Within cs ds
      → Within ds cs
      → Within us vs
      → Within vs us
      → o.preferred_label ≡ []
      → IsChosen o cs us e
      → IsChosen o ds vs f
      → e.to ≡ f.to
  IsChosen-target ci cb ui ub p (by_condition b) (by_condition c) =
      IsBest-target cs ds e f ci cb b c
  IsChosen-target ci cb ui ub p (by_condition b) (by_label n m q r _) = absurd (q p)
  IsChosen-target ci cb ui ub p (by_condition b) (by_suggestion n m q r _) =
      absurd (not-In-nil cs ds e ci b.member n)
  IsChosen-target ci cb ui ub p (by_condition b) (by_weight n c q r) =
      absurd (not-In-nil cs ds e ci b.member n)
  IsChosen-target ci cb ui ub p (by_label n m q r _) c = absurd (q p)
  IsChosen-target ci cb ui ub p (by_suggestion n m q r _) (by_condition c) =
      absurd (not-In-nil ds cs f cb c.member n)
  IsChosen-target ci cb ui ub p (by_suggestion n m q r _) (by_label n' m' q' r' _) = absurd (q' p)
  IsChosen-target ci cb ui ub p (by_suggestion n m q r _) (by_suggestion n' m' q' r' _) =
      IsFirstSuggested-unique us vs e.to f.to o.suggested_next_ids ui ub r r'
  IsChosen-target ci cb ui ub p (by_suggestion n m q r _) (by_weight n' c q' r') =
      let s = IsFirstSuggested-In us e.to o.suggested_next_ids r in
      let w = s.1 in absurd (r' e.to s.0 w.0 (ui w.0 w.1) w.2)
  IsChosen-target ci cb ui ub p (by_weight n b q r) (by_condition c) =
      absurd (not-In-nil ds cs f cb c.member n)
  IsChosen-target ci cb ui ub p (by_weight n b q r) (by_label n' m' q' r' _) = absurd (q' p)
  IsChosen-target ci cb ui ub p (by_weight n b q r) (by_suggestion n' m' q' r' _) =
      let s = IsFirstSuggested-In vs f.to o.suggested_next_ids r' in
      let w = s.1 in absurd (r f.to s.0 w.0 (ub w.0 w.1) w.2)
  IsChosen-target ci cb ui ub p (by_weight n b q r) (by_weight n' c q' r') =
      IsBest-target us vs e f ui ub b c
