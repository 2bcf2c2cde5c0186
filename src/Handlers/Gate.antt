-- ===== src/Handlers/Gate.antt =====
-- src/handlers/wait_for_human_handler.cpp: the human gate.
use attractor.Prelude.{
  Bool, false, ◌&&◌, not, Option, none, some, List, [], ◌∷◌, ◌++◌, Text, text, ◌==◌, nat_eq, find,
  select, map, is_empty, is_print, to_upper, if◌then◌else◌,
}
use attractor.Json.{object, end, str, set_field}
use attractor.Types.{
  NodeId, multiple_choice, answer_yes, answer_no, answer_text, answer_skipped, answer_timeout,
  retry,
}
use attractor.Graph.{Graph, Node, Edge, WaitHumanNode}
use attractor.Handler.{Outcome, default_outcome, fail_outcome}
use attractor.Interview.{Question, Answer, Ask}

-- The four forms of a label: "[K]", "K)", "K -" and any other.
unfoldable pub is_bracketed : Text → Bool
is_bracketed (a ∷ b ∷ c ∷ s) = nat_eq a b'[' && (nat_eq c b']' && is_print b)
is_bracketed s = false

unfoldable pub is_parenthesised : Text → Bool
is_parenthesised (a ∷ b ∷ s) = nat_eq b b')' && is_print a
is_parenthesised s = false

unfoldable pub is_dashed : Text → Bool
is_dashed (a ∷ b ∷ c ∷ s) = nat_eq b 32 && (nat_eq c b'-' && is_print a)
is_dashed s = false

abbrev first_byte : Text → Text
first_byte [] = []
first_byte (c ∷ s) = c ∷ []

abbrev second_byte : Text → Text
second_byte (b ∷ c ∷ s) = c ∷ []
second_byte s = []

abbrev starts_printable : Text → Bool
starts_printable [] = false
starts_printable (c ∷ s) = is_print c

unfoldable pub parse_accelerator_key : Text → Text
unfolding is_bracketed is_parenthesised is_dashed
parse_accelerator_key label =
    if is_bracketed label
    then second_byte label
    else if is_parenthesised label
    then first_byte label
    else if is_dashed label
    then first_byte label
    else if starts_printable label
    then first_byte label
    else []

unfoldable pub leaves_node : NodeId → Edge → Bool
leaves_node id e = e.source == id

unfoldable pub outgoing : Node → Graph → List Edge
unfolding leaves_node
outgoing node graph = select (leaves_node node.id) graph.edges

unfoldable pub question_of : Node → List Edge → Question
unfolding parse_accelerator_key
question_of node edges = record {
  wording = if is_empty node.label then text "Select an option:" else node.label;
  type = multiple_choice;
  options = map (λ e. record { key = parse_accelerator_key e.label; label = e.label }) edges;
  default_answer = none;
  timeout_seconds = none;
  stage = node.id;
}

-- The answer to a timeout: the edge to the default choice, if there is one.
unfoldable pub leads_to_default : NodeId → Edge → Bool
leads_to_default default_id e = e.to == default_id

unfoldable pub default_edge : NodeId → List Edge → Option Edge
unfolding leads_to_default
default_edge default_id edges =
    if is_empty default_id then none else find (leads_to_default default_id) edges

unfoldable pub on_timeout : NodeId → List Edge → Outcome
unfolding default_edge
on_timeout default_id edges = elim (default_edge default_id edges) [
  | some e ↦ record default_outcome { preferred_label = e.label }
  | none ↦ record default_outcome {
    status = retry;
    failure_reason = text "human gate timeout, no default";
  }
]

-- The text of an answer, with "Y" and "N" for the two kinds that have none.
unfoldable pub reply_text : Answer → Text
reply_text answer = elim answer.kind [
  | answer_yes ↦ text "Y"
  | answer_no ↦ text "N"
  | answer_text ↦ answer.reply
  | answer_skipped ↦ answer.reply
  | answer_timeout ↦ answer.reply
]

unfoldable pub matches : Text → Edge → Bool
unfolding parse_accelerator_key
matches answer_upper e =
    let key_upper = map to_upper (parse_accelerator_key e.label) in
    not (is_empty key_upper) && key_upper == answer_upper

-- The matched edge, or the first, of the edges `e ∷ es`.
unfoldable pub matched_edge : Text → Edge → List Edge → Edge
unfolding matches
matched_edge answer_upper e es = elim (find (matches answer_upper) (e ∷ es)) [
  | some d ↦ d
  | none ↦ e
]

unfoldable pub chosen : Edge → Outcome
unfolding parse_accelerator_key
chosen matched = record default_outcome {
  preferred_label = matched.label;
  context_updates = object (
      set_field (text "human.gate.label") (str matched.label)
        (set_field (text "human.gate.selected") (str (parse_accelerator_key matched.label)) end));
}

unfoldable pub on_answer : NodeId → Edge → List Edge → Answer → Outcome
unfolding on_timeout reply_text matched_edge chosen
on_answer default_id e es answer = elim answer.kind [
  | answer_timeout ↦ on_timeout default_id (e ∷ es)
  | answer_skipped ↦ fail_outcome (text "human skipped interaction")
  | answer_yes ↦ chosen (matched_edge (map to_upper (reply_text answer)) e es)
  | answer_no ↦ chosen (matched_edge (map to_upper (reply_text answer)) e es)
  | answer_text ↦ chosen (matched_edge (map to_upper (reply_text answer)) e es)
]

-- With the interviewer's state.
unfoldable pub ask_gate : {S : Type 0} → Ask S → WaitHumanNode → List Edge → S → Outcome × S
unfolding question_of on_answer
ask_gate ask gate [] s =
    (fail_outcome (text "No outgoing edges for human gate node: " ++ gate.base.id), s)
ask_gate ask gate (e ∷ es) s =
    let r = ask (question_of gate.base (e ∷ es)) s in
    (on_answer gate.human_default_choice e es r.0, r.1)

unfoldable pub execute_wait_human : {S : Type 0} → Ask S → WaitHumanNode → Graph → S → Outcome × S
unfolding ask_gate outgoing
execute_wait_human ask gate graph s = ask_gate ask gate (outgoing gate.base graph) s
