-- ===== src/Handlers/Choices.antt =====
-- What a human gate hands to the engine.
use attractor.Prelude.{
  ◌≡◌, refl, Option, none, some, List, [], ◌∷◌, Text, ==_iff, In, In-select, find, find-In,
  Option-cases, inl, inr, arith,
}
use attractor.Types.{
  NodeId, AnswerKind, success, answer_yes, answer_no, answer_text, answer_skipped, answer_timeout,
}
use attractor.Graph.{Graph, Edge, WaitHumanNode}
use attractor.Handler.{Outcome}
use attractor.Interview.{Answer, Ask}
use attractor.Handlers.Gate.{
  leaves_node, outgoing, default_edge, leads_to_default, on_timeout, matches, matched_edge, chosen,
  on_answer, ask_gate, execute_wait_human, question_of,
}

-- A successful outcome asks for the label of one of the edges.
abbrev IsChoice : List Edge → Outcome → Type 0
IsChoice edges o = o.status ≡ success → (e : Edge) × In e edges × (o.preferred_label ≡ e.label)

default_edge-In :
    (id : NodeId) (edges : List Edge) (e : Edge) → default_edge id edges ≡ some e → In e edges
unfolding default_edge
default_edge-In id edges e h = (find-In (leads_to_default id) edges e (ground arith)).0

on_timeout-IsChoice : (id : NodeId) (edges : List Edge) → IsChoice edges (on_timeout id edges)
unfolding on_timeout
on_timeout-IsChoice id edges = elim (Option-cases (default_edge id edges)) [
  | inl n ↦ rw (n, on_timeout) (λ h. absurd (cc))
  | inr w ↦ rw (w.1, on_timeout) (λ h. (w.0, default_edge-In id edges w.0 w.1, refl))
]

matched_edge-In : (t : Text) (e : Edge) (es : List Edge) → In (matched_edge t e es) (e ∷ es)
unfolding matched_edge
matched_edge-In t e es = pick (find (matches t) (e ∷ es)) refl
  where
    pick :
        (o : Option Edge)
        → find (matches t) (e ∷ es) ≡ o
        → In (elim o [ some d ↦ d | none ↦ e ]) (e ∷ es)
    pick none q = inl refl
    pick (some d) q = (find-In (matches t) (e ∷ es) d q).0

on_answer-IsChoice :
    (id : NodeId) (e : Edge) (es : List Edge) (a : Answer) → IsChoice (e ∷ es) (on_answer id e es a)
unfolding on_answer chosen
on_answer-IsChoice id e es a = by_kind a.kind refl
  where
    by_kind : (k : AnswerKind) → a.kind ≡ k → IsChoice (e ∷ es) (on_answer id e es a)
    by_kind answer_timeout q = rw (q, on_answer) (on_timeout-IsChoice id (e ∷ es))
    by_kind answer_skipped q = rw (q, on_answer) (λ h. absurd (cc))
    by_kind answer_yes q =
        rw (q, on_answer) (λ h. (matched_edge _ e es, matched_edge-In _ e es, refl))
    by_kind answer_no q =
        rw (q, on_answer) (λ h. (matched_edge _ e es, matched_edge-In _ e es, refl))
    by_kind answer_text q =
        rw (q, on_answer) (λ h. (matched_edge _ e es, matched_edge-In _ e es, refl))

ask_gate-IsChoice :
    {S : Type 0} (ask : Ask S) (gate : WaitHumanNode) (edges : List Edge) (s : S)
    → IsChoice edges (ask_gate ask gate edges s).0
unfolding ask_gate
ask_gate-IsChoice ask gate [] s = λ h. absurd (cc)
ask_gate-IsChoice ask gate (e ∷ es) s =
    on_answer-IsChoice gate.human_default_choice e es (ask (question_of gate.base (e ∷ es)) s).0

-- Whatever the interviewer answers, a human gate that succeeds prefers the label of an edge of the
-- graph that leaves the gate.
pub execute_wait_human-leaves :
    {S : Type 0} (ask : Ask S) (gate : WaitHumanNode) (graph : Graph) (s : S)
    → (execute_wait_human ask gate graph s).0.status ≡ success
    → (e : Edge) × In e graph.edges
      × (e.source ≡ gate.base.id)
      × ((execute_wait_human ask gate graph s).0.preferred_label ≡ e.label)
unfolding execute_wait_human outgoing leaves_node
execute_wait_human-leaves ask gate graph s h =
    let c = ask_gate-IsChoice ask gate (outgoing gate.base graph) s h in
    let m = In-select (leaves_node gate.base.id) graph.edges c.0 c.1 in
    (c.0, m.0, (==_iff c.0.source gate.base.id).0 m.1, c.2)
